-- ===== src/Final/Tests.antt =====
-- A run of the hashgraph on concrete events, at which the theorems apply.
use jx.Base.{
  ◌≢◌, ℕ, ◌≡◌, refl, ◌⊎◌, inr, true, false, ◌≤◌, nat_eq, Option, none, some, List, [], ◌∷◌, sort_by,
  insert_by,
}
use jx.Base.Map
use jx.Roster.{MembershipRegistry, member_ids, member_total, roster_for_round, new_history, Bytes}
use jx.Hashgraph.{
  EventHash, Event, EventRecord, Hashgraph, famous, undecided, fault, out_of_fuel, get_event,
  fame_of, witnesses_of_round, member_count_at_round, set_event_round, set_event_order, record_vote,
  record_witness, pending_order_events, set_insert, set_contains, is_round_decided, new_hashgraph,
}
use jx.Ancestry.{
  traverse, ancestor_event_for_creator, ancestry_contains_event, ancestry_contains_fork_of,
  is_ancestor, see, chain_reaches, member_chain_reaches, count_reaching, strongly_see_at,
  strongly_see,
}
use jx.Order.{
  famous_witnesses_of_round, creator_chain_event, first_seeing, earliest_event,
  first_seen_timestamp, median_timestamp, all_see, first_seen_times, order_event, for_each,
  order_seen_by, assign_order, round_view_complete, order_rounds, order_decided_rounds,
  note_if_complete, note_unless_waiting, note_round_decided_if_complete, note_round_of, decide_fame,
}
use jx.Fame.{
  coin_round_vote, recorded_votes, eager_verdict, eager_close, eager_on_record,
  eager_unless_decided, try_eager_decide, strongly_seen_of, tally_votes, record_and_cast,
  decide_and_end, conclude_with, conclude, aggregate, cast_vote, vote_unless_cached,
  vote_unless_decided, vote_in_rounds, vote_rec, vote_of, vote_on_candidate, backfill_vote,
  try_if_open, backfill_round, backfill, backfill_rounds, backfill_all, vote_on_all, vote_from,
  vote_as_witness,
}
use jx.Round.{base_round, count_strongly_seen, finish_round, round_from_count, finalize_round}
use jx.Ancestry.Walk.{see-ends}
use jx.Insert.Accepted.{RetainedEvent, insert_accepted}
use jx.Final.Transfer.{order-insert_accepted}
use jx.Final.Runs.{
  insert_all, fame_of-insert_all, order-insert_all, record-insert_all, is_round_decided-insert_all,
}
use jx.Insert.{
  max_into, admit, record_branch, note_branch, add_children, retry_order, vote_if_witness, settle,
  insert_admitted, insert,
}

-- the digest of a test event is its timestamp
abbrev digest : Event → Bytes ⊎ EventHash
digest e = inr e.timestamp

abbrev event : ℕ → Option ℕ → Option ℕ → ℕ → Event
event creator self_parent other_parent timestamp = record {
  creator = creator;
  self_parent = self_parent;
  other_parent = other_parent;
  timestamp = timestamp;
  payload = [];
  signature = [];
}

abbrev registry : MembershipRegistry
registry = record { keys = (7, record { key = []; bls_key = [] }) ∷ [] }

abbrev chain : List Event
chain =
    event 7 none none 1
    ∷ event 7 (some 1) none 2
    ∷ event 7 (some 2) none 3
    ∷ event 7 (some 3) none 4
    ∷ []

abbrev first : EventRecord
first = record {
  event = event 7 none none 1;
  seq = 1;
  ancestor_seqs = 1 ∷ [];
  round = 1;
  is_witness = true;
  votes = [];
  fame_status = famous;
  round_received = some 1;
  consensus_timestamp = some 1;
}

abbrev second : EventRecord
second = record {
  event = event 7 (some 1) none 2;
  seq = 2;
  ancestor_seqs = 2 ∷ [];
  round = 2;
  is_witness = true;
  votes = (1, true) ∷ [];
  fame_status = famous;
  round_received = some 2;
  consensus_timestamp = some 2;
}

abbrev third : EventRecord
third = record {
  event = event 7 (some 2) none 3;
  seq = 3;
  ancestor_seqs = 3 ∷ [];
  round = 3;
  is_witness = true;
  votes = (2, true) ∷ [];
  fame_status = undecided;
  round_received = none;
  consensus_timestamp = none;
}

abbrev fourth : EventRecord
fourth = record {
  event = event 7 (some 3) none 4;
  seq = 4;
  ancestor_seqs = 4 ∷ [];
  round = 4;
  is_witness = true;
  votes = (3, true) ∷ [];
  fame_status = undecided;
  round_received = none;
  consensus_timestamp = none;
}

-- the state after the chain: two rounds are decided and ordered
abbrev one_member : Hashgraph
one_member = record {
  events = (1, first) ∷ (2, second) ∷ (3, third) ∷ (4, fourth) ∷ [];
  children = (1, 2 ∷ []) ∷ (2, 3 ∷ []) ∷ (3, 4 ∷ []) ∷ [];
  first_child = ((7, none), 1) ∷ ((7, some 1), 2) ∷ ((7, some 2), 3) ∷ ((7, some 3), 4) ∷ [];
  by_creator_seq = ((7, 1), 1) ∷ ((7, 2), 2) ∷ ((7, 3), 3) ∷ ((7, 4), 4) ∷ [];
  latest_by_creator = (7, 4) ∷ [];
  member_index = (7, 0) ∷ [];
  member_count = 1;
  roster_history = record { snapshots = (1, registry) ∷ [] };
  known_forkers = false ∷ [];
  witnesses_by_round = (1, 1 ∷ []) ∷ (2, 2 ∷ []) ∷ (3, 3 ∷ []) ∷ (4, 4 ∷ []) ∷ [];
  undecided_witnesses = (3, 3) ∷ (4, 4) ∷ [];
  highest_witness_round = 4;
  fully_decided_rounds = 1 ∷ 2 ∷ [];
  next_round_to_order = 3;
}

one_member_test : insert_all digest chain (new_hashgraph registry) ≡ one_member
unfolding insert_all insert insert_admitted settle vote_if_witness retry_order add_children
    note_branch record_branch admit max_into finalize_round round_from_count finish_round
    count_strongly_seen base_round vote_as_witness vote_from vote_on_all backfill_all
    backfill_rounds backfill backfill_round try_if_open backfill_vote vote_on_candidate vote_of
    vote_rec vote_in_rounds vote_unless_decided vote_unless_cached cast_vote aggregate conclude
    conclude_with decide_and_end record_and_cast tally_votes strongly_seen_of try_eager_decide
    eager_unless_decided eager_on_record eager_close eager_verdict recorded_votes coin_round_vote
    decide_fame note_round_of note_round_decided_if_complete note_unless_waiting note_if_complete
    order_decided_rounds order_rounds round_view_complete assign_order order_seen_by for_each
    order_event first_seen_times all_see median_timestamp first_seen_timestamp earliest_event
    first_seeing creator_chain_event famous_witnesses_of_round strongly_see strongly_see_at
    count_reaching member_chain_reaches chain_reaches see is_ancestor ancestry_contains_fork_of
    ancestry_contains_event ancestor_event_for_creator traverse new_hashgraph is_round_decided
    set_contains set_insert pending_order_events record_witness record_vote set_event_order
    set_event_round member_count_at_round witnesses_of_round fame_of member_ids member_total
    roster_for_round new_history Map.get Map.put Map.or_insert Map.remove Map.modify
    Map.contains_key sort_by insert_by
one_member_test = refl

one_member_distinct : Map.DistinctKeys one_member.events
unfolding Map.get
one_member_distinct = (refl, (refl, (refl, (refl, tt))))

abbrev fifth : List Event
fifth = event 7 (some 4) none 5 ∷ []

fame_of-insert_all_example : fame_of (insert_all digest fifth one_member) 1 ≡ some famous
unfolding fame_of Map.get
fame_of-insert_all_example =
    fame_of-insert_all digest fifth one_member 1 famous one_member_distinct refl refl

order-insert_all_example :
    (r : EventRecord) × (get_event (insert_all digest fifth one_member) 2 ≡ some r)
    × (r.round_received ≡ some 2)
    × (r.consensus_timestamp ≡ some 2)
unfolding Map.get
order-insert_all_example =
    order-insert_all digest fifth one_member 2 second 2 one_member_distinct refl refl

record-insert_all_example :
    (r : EventRecord) × (get_event (insert_all digest fifth one_member) 4 ≡ some r)
    × (r.event ≡ fourth.event)
    × (r.seq ≡ 4)
    × (r.ancestor_seqs ≡ 4 ∷ [])
    × (r.round ≡ 4)
    × (r.is_witness ≡ true)
unfolding Map.get
record-insert_all_example =
    record-insert_all digest fifth one_member 4 fourth one_member_distinct refl

is_round_decided-insert_all_example :
    (is_round_decided (insert_all digest fifth one_member) 2 ≡ true)
    × (3 ≤ (insert_all digest fifth one_member).next_round_to_order)
unfolding is_round_decided set_contains
is_round_decided-insert_all_example =
    is_round_decided-insert_all digest fifth one_member 2 one_member_distinct refl

see-ends_example :
    (is_ancestor one_member 4 1 ≢ fault out_of_fuel) × (see one_member 4 1 ≢ fault out_of_fuel)
see-ends_example = see-ends one_member 4 1

abbrev transferred : RetainedEvent
transferred = record {
  event = event 7 (some 4) none 5;
  seq = 5;
  round = 5;
  ancestor_seqs = 5 ∷ [];
  round_received = none;
  consensus_timestamp = none;
}

order-insert_accepted_example :
    (r : EventRecord) × (get_event (insert_accepted digest transferred 2 one_member).1 1 ≡ some r)
    × (r.round_received ≡ some 1)
    × (r.consensus_timestamp ≡ some 1)
unfolding Map.get
order-insert_accepted_example =
    order-insert_accepted digest transferred 2 one_member 1 first 1 one_member_distinct refl refl
