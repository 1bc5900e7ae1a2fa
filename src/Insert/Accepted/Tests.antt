-- ===== src/Insert/Accepted/Tests.antt =====
-- A transferred record, at which the theorems apply.
use jx.Base.{ℕ, ◌≡◌, refl, ◌⊎◌, inr, ◌≤◌, true, false, Option, none, some, [], ◌∷◌}
use jx.Base.Map
use jx.Roster.{MembershipRegistry, Bytes}
use jx.Hashgraph.{EventHash, Event, EventRecord, Hashgraph, undecided}
use jx.Round.{base_round}
use jx.Insert.{Admission, admit, max_into}
use jx.Insert.Accepted.{RetainedEvent, Acceptance, accept, check_seq, check_row, check_order}
use jx.Insert.Accepted.Row.{accept-admit, accept-order}

abbrev digest : Event → Bytes ⊎ EventHash
digest e = inr e.timestamp

abbrev event : Option ℕ → ℕ → Event
event self_parent timestamp = record {
  creator = 7;
  self_parent = self_parent;
  other_parent = none;
  timestamp = timestamp;
  payload = [];
  signature = [];
}

abbrev registry : MembershipRegistry
registry = record { keys = (7, record { key = []; bls_key = [] }) ∷ [] }

abbrev root_record : EventRecord
root_record = record {
  event = event none 1;
  seq = 1;
  ancestor_seqs = 1 ∷ [];
  round = 1;
  is_witness = true;
  votes = [];
  fame_status = undecided;
  round_received = none;
  consensus_timestamp = none;
}

abbrev one_event : Hashgraph
one_event = record {
  events = (1, root_record) ∷ [];
  children = [];
  first_child = ((7, none), 1) ∷ [];
  by_creator_seq = ((7, 1), 1) ∷ [];
  latest_by_creator = (7, 1) ∷ [];
  member_index = (7, 0) ∷ [];
  member_count = 1;
  roster_history = record { snapshots = (1, registry) ∷ [] };
  known_forkers = false ∷ [];
  witnesses_by_round = (1, 1 ∷ []) ∷ [];
  undecided_witnesses = (1, 1) ∷ [];
  highest_witness_round = 1;
  fully_decided_rounds = [];
  next_round_to_order = 1;
}

abbrev transferred : RetainedEvent
transferred = record {
  event = event (some 1) 2;
  seq = 2;
  round = 2;
  ancestor_seqs = 2 ∷ [];
  round_received = some 2;
  consensus_timestamp = some 2;
}

abbrev acceptance : Acceptance
acceptance = record { hash = 2; creator_idx = 0; ancestor_seqs = 2 ∷ [] }

abbrev admission : Admission
admission = record {
  hash = 2;
  creator_idx = 0;
  self_parent_record = some root_record;
  other_parent_record = none;
  seq = 2;
  ancestor_seqs = 2 ∷ [];
}

accept-admit_example :
    (acceptance.hash ≡ admission.hash)
    × (transferred.seq ≡ admission.seq)
    × (acceptance.ancestor_seqs ≡ admission.ancestor_seqs)
unfolding accept admit check_seq check_row check_order base_round max_into Map.get Map.contains_key
accept-admit_example =
    accept-admit digest transferred 5 one_event acceptance admission refl refl refl

accept-order_example :
    (base_round (some 1) none ≤ 2)
    × (((transferred.round_received ≡ none) × (transferred.consensus_timestamp ≡ none))
        ⊎ ((n : ℕ) × (transferred.round_received ≡ some n) × (2 ≤ n) × (n ≤ 5)))
unfolding accept check_seq check_row check_order base_round max_into Map.get Map.contains_key
accept-order_example = accept-order digest transferred 5 one_event acceptance refl
