-- ===== src/Order/Consensus.antt =====
-- `consensus_order` of consensus-node/protocol/consensus/src/order.rs: the events that a round has
-- received, in the order of their timestamps, of their signatures and of their hashes.
pub mod Ascending
pub mod Agreement
use jx.Base.{
  ℕ, zero, suc, ◌+◌, ◌*◌, ◌/◌, ◌%◌, Bool, true, false, ◌&&◌, ◌||◌, Option, none, some, List, [],
  ◌∷◌, take, drop, length, map, keep, sort_by, ltb, ◌==◌, nat_eq, option_beq, if◌then◌else◌,
}
use jx.Roster.{Bytes}
use jx.Hashgraph.{EventHash, EventRecord, Hashgraph, get_event}

-- `^` on numbers of a width
unfoldable pub xor : ℕ → ℕ → ℕ → ℕ
xor zero a b = 0
xor (suc width) a b = (a % 2 + b % 2) % 2 + 2 * xor width (a / 2) (b / 2)

unfoldable pub from_le_bytes : Bytes → ℕ
from_le_bytes [] = 0
from_le_bytes (b ∷ bytes) = b + 256 * from_le_bytes bytes

-- the fold over the chunks of eight bytes
unfoldable pub fold_chunks : ℕ → ℕ → Bytes → ℕ
fold_chunks zero acc bytes = acc
fold_chunks (suc fuel) acc bytes =
    let rest = fold_chunks fuel (xor 64 acc (from_le_bytes (take 8 bytes))) (drop 8 bytes) in
    if ltb (length bytes) 8 then acc else rest

unfoldable pub signature_tie_break : Bytes → ℕ
signature_tie_break signature = fold_chunks (length signature) 0 signature

-- a timestamp's place: a missing one stands before all others
abbrev pub timestamp_rank : Option ℕ → ℕ
timestamp_rank none = 0
timestamp_rank (some timestamp) = suc timestamp

-- the first two sort keys of a record. Every hash sorted is one of a stored event: the panic of
-- `expect` on another one is not reached.
abbrev pub record_rank : Option EventRecord → ℕ × ℕ
record_rank none = (0, 0)
record_rank (some r) = (timestamp_rank r.consensus_timestamp, signature_tie_break r.event.signature)

unfoldable pub rank : Hashgraph → EventHash → ℕ × ℕ
rank hg h = record_rank (get_event hg h)

-- the comparison of `sort_by`
abbrev pub comes_before : (EventHash → ℕ × ℕ) → EventHash → EventHash → Bool
comes_before ranks a b =
    ltb (ranks a).0 (ranks b).0
    || (((ranks a).0 == (ranks b).0)
        && (ltb (ranks a).1 (ranks b).1 || (((ranks a).1 == (ranks b).1) && ltb a b)))

abbrev pub record_received : ℕ → Option EventRecord → Bool
record_received round none = false
record_received round (some r) = option_beq r.round_received (some round)

abbrev pub is_received : Hashgraph → ℕ → EventHash → Bool
is_received hg round h = record_received round (get_event hg h)

abbrev pub all_event_hashes : Hashgraph → List EventHash
all_event_hashes hg = map (λ (e : EventHash × EventRecord). e.0) hg.events

unfoldable pub consensus_order : Hashgraph → ℕ → List EventHash
consensus_order hg round =
    sort_by (comes_before (rank hg)) (keep (is_received hg round) (all_event_hashes hg))
