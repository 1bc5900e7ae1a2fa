-- ===== src/Insert/Accepted.antt =====
-- consensus-node/protocol/consensus/src/hashgraph.rs: `insert_accepted`, the entry of an event that a
-- reconnect or a restart transfers with its row, its round and its order.
pub mod Row
mod Tests
use jx.Base.{
  ◌^◌, ℕ, zero, suc, ◌+◌, ◌-◌, Bool, true, false, not, Option, none, some, List, [], ◌∷◌, ◌++◌, ◌⊎◌,
  length, replicate, set, ltb, if◌then◌else◌, ◌==◌, nat_eq, option_eq, pair_eq, list_beq, ◌||◌,
  ◌&&◌,
}
use jx.Base.Map
use jx.Roster.{Bytes}
use jx.Hashgraph.{
  EventHash, Event, EventRecord, Hashgraph, FameStatus, undecided, parents, get_event, slot,
  member_index_of, already_present, unknown_creator, invalid_self_parent, ancestor_seqs_mismatch,
  invalid_retained_seq, invalid_retained_ancestors, invalid_retained_round, invalid_retained_order,
  Result, ok, err, fault, panic, ok_or, ◌>>=◌, Exec, bind, pure, ask, update,
}
use jx.Round.{base_round}
use jx.Insert.{
  same_creator, next_seq, start_row, merge_row, write_slot, hashed, note_branch, index_event,
  store_event, add_children, round_of,
}
use mathlib.Core.Option

-- `RetainedEvent` of reconnect.rs
pub record RetainedEvent : Type 0 where
  pub event : Event
  pub seq : ℕ
  pub round : ℕ
  pub ancestor_seqs : List ℕ
  pub round_received : Option ℕ
  pub consensus_timestamp : Option ℕ

-- `Vec::resize` to a length that is not smaller
abbrev pub resize : List ℕ → ℕ → List ℕ
resize row width = row ++ replicate (width - length row) 0

-- a declared parent, if it is stored
abbrev pub stored_parent : Hashgraph → Option EventHash → Option EventRecord
stored_parent hg none = none
stored_parent hg (some h) = get_event hg h

abbrev pub is_none {ℓ} : {A : Type ℓ} → Option A → Bool
is_none none = true
is_none (some a) = false

-- The sequence number against the self-parent: one more than a stored one's, which 64 bits must hold,
-- 1 without one, and at least 1 after a pruned one.
unfoldable pub check_seq : Option EventHash → Option EventRecord → ℕ → Result (Unit {0})
check_seq declared (some r) seq =
    if not (ltb (r.seq + 1) (2 ^ 64))
    then err (invalid_retained_seq (2 ^ 64 - 1) seq)
    else if seq == r.seq + 1
    then ok tt
    else err (invalid_retained_seq (r.seq + 1) seq)
check_seq none none seq = if seq == 1 then ok tt else err (invalid_retained_seq 1 seq)
check_seq (some h) none seq = if ltb seq 1 then err (invalid_retained_seq 1 seq) else ok tt

-- `row.iter().zip(floor).any(|(row, min)| row < min)`
abbrev pub is_below : List ℕ → List ℕ → Bool
is_below [] floor = false
is_below (x ∷ row) [] = false
is_below (x ∷ row) (m ∷ floor) = ltb x m || is_below row floor

-- declared and not stored
abbrev pub is_pruned : Option EventHash → Option EventRecord → Bool
is_pruned declared r = not (is_none declared) && is_none r

abbrev pub require : Bool → Result (Unit {0})
require true = ok tt
require false = err invalid_retained_ancestors

-- The row: not below the stored parents' where a parent is pruned, theirs exactly where all that are
-- declared are stored, and right at its own slot in any case.
unfoldable pub check_row :
    Hashgraph → Event → ℕ → Option EventRecord → Option EventRecord → ℕ → List ℕ → Result (Unit {0})
check_row hg event idx self_parent other_parent seq row =
    if is_pruned event.self_parent self_parent || is_pruned event.other_parent other_parent
    then (start_row hg.member_count self_parent >>= λ floor. slot row idx >>= λ own.
        require ((own == seq) && not (is_below row (merge_row other_parent floor))))
    else if is_none self_parent && is_none other_parent
    then (slot row idx >>= λ own. require (own == seq))
    else start_row hg.member_count self_parent >>= λ first.
        write_slot (merge_row other_parent first) idx seq >>= λ expected.
        require (list_beq row expected)

-- the round received, which comes with its timestamp or without
unfoldable pub check_order : ℕ → ℕ → Option ℕ → Option ℕ → Result (Unit {0})
check_order round decided_round none none = ok tt
check_order round decided_round none (some timestamp) = err invalid_retained_order
check_order round decided_round (some received) timestamp =
    if ltb received round || ltb decided_round received then err invalid_retained_order else ok tt

-- what the checks establish of a record
pub record Acceptance : Type 0 where
  pub hash : EventHash
  pub creator_idx : ℕ
  pub ancestor_seqs : List ℕ

-- the checks of `insert_accepted`, in their order
unfoldable pub accept :
    (Event → Bytes ⊎ EventHash) → RetainedEvent → ℕ → Hashgraph → Result Acceptance
accept hash_of r decided_round hg = hashed (hash_of r.event) >>= λ h.
    if Map.contains_key h hg.events
    then err (already_present h)
    else ok_or (member_index_of hg r.event.creator) unknown_creator >>= λ idx.
        if ltb hg.member_count (length r.ancestor_seqs)
        then err (ancestor_seqs_mismatch hg.member_count (length r.ancestor_seqs))
        else let row = resize r.ancestor_seqs hg.member_count in
          let self_parent = stored_parent hg r.event.self_parent in
          let other_parent = stored_parent hg r.event.other_parent in
          if not (same_creator r.event.creator self_parent)
          then err invalid_self_parent
          else check_seq r.event.self_parent self_parent r.seq >>= λ _.
              check_row hg r.event idx self_parent other_parent r.seq row >>= λ _.
              let base = base_round (round_of self_parent) (round_of other_parent) in
              if ltb r.round base
              then err (invalid_retained_round base r.round)
              else check_order r.round decided_round r.round_received r.consensus_timestamp >>= λ _.
                  ok (record { hash = h; creator_idx = idx; ancestor_seqs = row })

-- an order without a timestamp is stored with the timestamp 0
abbrev pub stored_timestamp : Option ℕ → Option ℕ → Option ℕ
stored_timestamp none timestamp = none
stored_timestamp (some received) none = some 0
stored_timestamp (some received) (some timestamp) = some timestamp

abbrev pub accepted_record : RetainedEvent → List ℕ → EventRecord
accepted_record r row = record {
  event = r.event;
  seq = r.seq;
  ancestor_seqs = row;
  round = r.round;
  is_witness = false;
  votes = [];
  fame_status = undecided;
  round_received = r.round_received;
  consensus_timestamp = stored_timestamp r.round_received r.consensus_timestamp;
}

-- the parents that are stored
abbrev pub stored_only : Hashgraph → List EventHash → List EventHash
stored_only hg [] = []
stored_only hg (p ∷ ps) =
    let rest = stored_only hg ps in if Map.contains_key p hg.events then p ∷ rest else rest

abbrev pub store_accepted : RetainedEvent → Acceptance → Hashgraph → Hashgraph
store_accepted r a hg =
    store_event a.hash (accepted_record r a.ancestor_seqs)
      (add_children a.hash (stored_only hg (parents r.event)) (index_event r.event a.hash r.seq hg))

unfoldable pub write_accepted : RetainedEvent → Acceptance → Exec Hashgraph EventHash
write_accepted r a =
    bind (note_branch r.event a.hash a.creator_idx)
      λ _. bind (update (store_accepted r a)) λ _. pure a.hash

unfoldable pub insert_accepted :
    (Event → Bytes ⊎ EventHash) → RetainedEvent → ℕ → Exec Hashgraph EventHash
insert_accepted hash_of r decided_round =
    bind (ask (accept hash_of r decided_round)) (write_accepted r)
