-- ===== src/Hashgraph.antt =====
-- consensus-node/protocol/consensus/src/hashgraph.rs: the local copy of the hashgraph, its records,
-- and the accessors and setters that the other modules of the crate call. Hashes are 32-byte strings
-- read as numbers, so that their derived order is that of ℕ. The diagnostic counters of
-- `WalkMetrics` and `InsertTiming`, which no consensus decision reads, are left out.
pub mod Monad
unfoldable pub use Monad.*
use jx.Base.{
  ℕ, zero, suc, ◌+◌, max, Bool, true, false, Option, none, some, List, [], ◌∷◌, ◌++◌, get_elem?,
  any, if◌then◌else◌, compare, Ordering, ◌==◌, nat_eq, option_eq, pair_eq, map, last?, keep, length,
  replicate,
}
use jx.Base.Map
use jx.Base.Map.{Map}
use jx.Roster.{
  RosterHistory, MembershipRegistry, roster_for_round, member_total, member_ids, new_history,
  NodeId, Bytes,
}
use mathlib.Core.Option

abbrev pub EventHash : Type 0
EventHash = ℕ

-- `Event` with its `UnsignedEvent`; a transaction is its bytes, a timestamp its number.
pub record Event : Type 0 where
  pub creator : NodeId
  pub self_parent : Option EventHash
  pub other_parent : Option EventHash
  pub timestamp : ℕ
  pub payload : List Bytes
  pub signature : Bytes

pub data FameStatus : Type 0 where
  undecided famous not_famous : FameStatus

pub record EventRecord : Type 0 where
  pub event : Event
  pub seq : ℕ
  pub ancestor_seqs : List ℕ
  pub round : ℕ
  pub is_witness : Bool
  pub votes : Map EventHash Bool
  pub fame_status : FameStatus
  pub round_received : Option ℕ
  pub consensus_timestamp : Option ℕ

pub record Hashgraph : Type 0 where
  pub events : Map EventHash EventRecord
  pub children : Map EventHash (List EventHash)
  pub first_child : Map (NodeId × Option EventHash) EventHash
  pub by_creator_seq : Map (NodeId × ℕ) EventHash
  pub latest_by_creator : Map NodeId EventHash
  pub member_index : Map NodeId ℕ
  pub member_count : ℕ
  pub roster_history : RosterHistory
  pub known_forkers : List Bool
  pub witnesses_by_round : Map ℕ (List EventHash)
  pub undecided_witnesses : Map EventHash ℕ
  pub highest_witness_round : ℕ
  pub fully_decided_rounds : List ℕ
  pub next_round_to_order : ℕ

-- `[event.self_parent(), event.other_parent()].into_iter().flatten()`
abbrev pub option_list {ℓ} : {A : Type ℓ} → Option A → List A
option_list none = []
option_list (some a) = a ∷ []

abbrev pub parents : Event → List EventHash
parents e = option_list e.self_parent ++ option_list e.other_parent

-- `Hashgraph::get`
abbrev pub get_event : Hashgraph → EventHash → Option EventRecord
get_event hg h = Map.get h hg.events

abbrev pub vote_for : EventRecord → EventHash → Option Bool
vote_for r w = Map.get w r.votes

-- indexing a `Vec`
abbrev pub slot {ℓ} : {A : Type ℓ} → List A → ℕ → Result A
slot xs i = elim (get_elem? xs i) [ none ↦ fault panic | some a ↦ ok a ]

-- `self.get(x).ok_or(UnknownEvent(x))`
abbrev pub known : Hashgraph → EventHash → Result EventRecord
known hg h = ok_or (get_event hg h) (unknown_event h)

abbrev pub get_list : ℕ → Map ℕ (List EventHash) → List EventHash
get_list k m = Option.get_or (Map.get k m) []

unfoldable pub witnesses_of_round : Hashgraph → ℕ → List EventHash
witnesses_of_round hg round = get_list round hg.witnesses_by_round

unfoldable pub fame_of : Hashgraph → EventHash → Option FameStatus
fame_of hg w = elim (get_event hg w) [
  | none ↦ none
  | some r ↦ (if r.is_witness then some r.fame_status else none)
]

-- `fame_of(w).is_some_and(|s| s != Undecided)`
abbrev pub is_decided : Option FameStatus → Bool
is_decided none = false
is_decided (some undecided) = false
is_decided (some famous) = true
is_decided (some not_famous) = true

unfoldable pub member_count_at_round : Hashgraph → ℕ → Result ℕ
member_count_at_round hg round = elim (roster_for_round hg.roster_history round) [
  | none ↦ fault panic
  | some r ↦ ok (member_total r)
]

abbrev pub member_index_of : Hashgraph → NodeId → Option ℕ
member_index_of hg node = Map.get node hg.member_index

abbrev pub creator_has_known_fork : Hashgraph → ℕ → Result Bool
creator_has_known_fork hg idx = slot hg.known_forkers idx

abbrev pub event_for_creator_seq : Hashgraph → NodeId → ℕ → Option EventHash
event_for_creator_seq hg creator seq = Map.get (creator, seq) hg.by_creator_seq

abbrev pub canonical_child : Hashgraph → NodeId → Option EventHash → Option EventHash
canonical_child hg creator self_parent = Map.get (creator, self_parent) hg.first_child

-- `events.get_mut(hash)`
abbrev pub modify_event : EventHash → (EventRecord → EventRecord) → Hashgraph → Hashgraph
modify_event h f hg = record hg { events = Map.modify h f hg.events }

unfoldable pub set_event_round : EventHash → ℕ → Bool → Hashgraph → Hashgraph
set_event_round h round is_witness =
    modify_event h (λ r. record r { round = round; is_witness = is_witness })

-- `EventRecord::set_order` through `Hashgraph::set_event_order`
unfoldable pub set_event_order : EventHash → ℕ → ℕ → Hashgraph → Hashgraph
set_event_order h round timestamp =
    modify_event h
      (λ r. record r { round_received = some round; consensus_timestamp = some timestamp })

unfoldable pub record_vote : EventHash → EventHash → Bool → Hashgraph → Hashgraph
record_vote voter candidate vote =
    modify_event voter (λ r. record r { votes = Map.put candidate vote r.votes })

unfoldable pub record_witness : ℕ → EventHash → Hashgraph → Hashgraph
record_witness round h hg = record hg {
  witnesses_by_round =
      Map.put round (get_list round hg.witnesses_by_round ++ h ∷ []) hg.witnesses_by_round;
  undecided_witnesses = Map.put h round hg.undecided_witnesses;
  highest_witness_round = max hg.highest_witness_round round;
}

-- `round_received().is_none()`
abbrev pub is_pending : EventRecord → Bool
is_pending r = elim r.round_received [ none ↦ true | some _ ↦ false ]

-- the events not yet ordered, in the order of the map
unfoldable pub pending_order_events : Hashgraph → List EventHash
pending_order_events hg =
    map (λ (e : EventHash × EventRecord). e.0)
      (keep (λ (e : EventHash × EventRecord). is_pending e.1) hg.events)

-- `BTreeSet`: ascending, without repetition
unfoldable pub set_insert : ℕ → List ℕ → List ℕ
set_insert r [] = r ∷ []
set_insert r (k ∷ m) = elim (compare r k) [
  | Ordering.lt ↦ r ∷ k ∷ m
  | Ordering.eq ↦ k ∷ m
  | Ordering.gt ↦ k ∷ set_insert r m
]

unfoldable pub set_contains : ℕ → List ℕ → Bool
set_contains r m = any (λ k. k == r) m

unfoldable pub is_round_decided : Hashgraph → ℕ → Bool
is_round_decided hg round = set_contains round hg.fully_decided_rounds

unfoldable pub highest_decided_round : Hashgraph → ℕ
highest_decided_round hg = Option.get_or (last? hg.fully_decided_rounds) 0

-- `zip(0..)`
abbrev pub number_from : ℕ → List NodeId → Map NodeId ℕ
number_from i [] = []
number_from i (n ∷ ns) = (n, i) ∷ number_from (suc i) ns

-- `Hashgraph::new`
unfoldable pub new_hashgraph : MembershipRegistry → Hashgraph
unfolding member_ids
new_hashgraph registry = record {
  events = [];
  children = [];
  first_child = [];
  by_creator_seq = [];
  latest_by_creator = [];
  member_index = number_from 0 (member_ids registry);
  member_count = length (member_ids registry);
  roster_history = new_history registry;
  known_forkers = replicate (length (member_ids registry)) false;
  witnesses_by_round = [];
  undecided_witnesses = [];
  highest_witness_round = 0;
  fully_decided_rounds = [];
  next_round_to_order = 1;
}
