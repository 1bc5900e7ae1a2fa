-- ===== src/Order.antt =====
-- consensus-node/protocol/consensus/src/order.rs, and the part of hashgraph.rs that decides when a
-- round is final: `decide_fame`, `note_round_decided_if_complete`, `order_decided_rounds`.
pub mod Consensus
pub mod Median
mod Tests
use jx.Base.{
  ℕ, zero, suc, ◌+◌, ◌-◌, ◌/◌, ◌%◌, Bool, true, false, not, Option, none, some, List, [], ◌∷◌, any,
  keep, length, ltb, leb, sort_by, if◌then◌else◌, ◌==◌, ◌&&◌, ◌||◌, nat_eq, option_eq, pair_eq,
  option_beq,
}
use jx.Base.Map
use jx.Roster.{NodeId, roster_for_round, member_ids}
use jx.Hashgraph.{
  EventHash, EventRecord, Hashgraph, FameStatus, famous, get_event, slot, fame_of,
  witnesses_of_round, canonical_child, creator_has_known_fork, event_for_creator_seq,
  set_event_order, pending_order_events, set_insert, set_contains, Result, ok, fault, panic,
  out_of_fuel, unwrap_or, ◌>>=◌, Exec, bind, pure, ask, update,
}
use jx.Ancestry.{see, ancestor_event_for_creator}
use mathlib.Core.Option

abbrev is_famous : Option FameStatus → Bool
is_famous (some famous) = true
is_famous _ = false

-- the tests of the loop in `famous_witnesses_of_round`
abbrev is_canonical_famous : Hashgraph → EventHash → Bool
is_canonical_famous hg witness = is_famous (fame_of hg witness) && (elim (get_event hg witness) [
  | none ↦ false
  | some r ↦ option_beq (canonical_child hg r.event.creator r.event.self_parent) (some witness)
])

unfoldable pub famous_witnesses_of_round : Hashgraph → ℕ → List EventHash
famous_witnesses_of_round hg round = keep (is_canonical_famous hg) (witnesses_of_round hg round)

unfoldable pub creator_chain_event :
    Hashgraph → EventHash → NodeId → ℕ → ℕ → Result (Option EventHash)
creator_chain_event hg witness creator idx seq = do
  forked ← creator_has_known_fork hg idx
  if forked
      then unwrap_or (ancestor_event_for_creator hg witness creator seq) none
      else ok (event_for_creator_seq hg creator seq)

-- `event.is_some_and(|event| self.see(&event, target).unwrap_or(false))`
abbrev pub sees_target : Hashgraph → Option EventHash → EventHash → Result Bool
sees_target hg none target = ok false
sees_target hg (some event) target = unwrap_or (see hg event target) false

-- The binary search: the interval shrinks in each round, so `high - low` rounds are enough.
unfoldable pub first_seeing : Hashgraph → EventHash → EventHash → NodeId → ℕ → ℕ → ℕ → ℕ → Result ℕ
first_seeing hg witness target node_id idx zero low high = fault out_of_fuel
first_seeing hg witness target node_id idx (suc fuel) low high = elim (ltb low high) [
  | false ↦ ok low
  | true ↦
      let mid = low + (high - low) / 2 in
      creator_chain_event hg witness node_id idx mid >>= λ event.
      sees_target hg event target >>= λ sees. elim sees [
        | true ↦ first_seeing hg witness target node_id idx fuel low mid
        | false ↦ first_seeing hg witness target node_id idx fuel (mid + 1) high
      ]
]

abbrev pub earlier : Option (ℕ × EventHash) → ℕ → EventHash → Option (ℕ × EventHash)
earlier none low event = some (low, event)
earlier (some (best_seq, best_event)) low event =
    if ltb low best_seq || (low == best_seq && ltb event best_event)
    then some (low, event)
    else some (best_seq, best_event)

-- The loop over the members; `none` is the early return at a missing boundary event.
unfoldable pub earliest_event :
    Hashgraph
    → EventHash
    → EventRecord
    → EventHash
    → List (NodeId × ℕ)
    → Option (ℕ × EventHash)
    → Result (Option (ℕ × EventHash))
earliest_event hg witness rec target [] earliest = ok earliest
earliest_event hg witness rec target ((node_id, idx) ∷ members) earliest =
    slot rec.ancestor_seqs idx >>= λ up_to. elim (up_to == 0) [
      | true ↦ earliest_event hg witness rec target members earliest
      | false ↦ creator_chain_event hg witness node_id idx up_to >>= λ latest.
          sees_target hg latest target >>= λ sees. elim sees [
            | false ↦ earliest_event hg witness rec target members earliest
            | true ↦ first_seeing hg witness target node_id idx (suc up_to) 1 up_to >>= λ low.
                creator_chain_event hg witness node_id idx low >>= λ boundary. elim boundary [
                  | none ↦ ok none
                  | some event ↦
                      earliest_event hg witness rec target members (earlier earliest low event)
                ]
          ]
    ]

unfoldable pub first_seen_timestamp : Hashgraph → EventHash → EventHash → Result (Option ℕ)
first_seen_timestamp hg witness target = elim (get_event hg witness) [
  | none ↦ ok none
  | some rec ↦ earliest_event hg witness rec target hg.member_index none >>= λ earliest.
      ok (elim earliest [
        | none ↦ none
        | some (_, event) ↦ Option.map (λ (r : EventRecord). r.event.timestamp) (get_event hg event)
      ])
]

-- The two middle values are added in 128 bits, so the sum does not wrap.
unfoldable pub median_timestamp : List ℕ → Result ℕ
median_timestamp first_seen =
    let sorted = sort_by leb first_seen in
    let len = length sorted in
    if len == 0
    then fault panic
    else if len % 2 == 1
    then slot sorted (len / 2)
    else slot sorted (len / 2 - 1) >>= λ a. slot sorted (len / 2) >>= λ b. ok ((a + b) / 2)

-- `famous.iter().all(|witness| self.see(witness, &event).unwrap_or(false))`
unfoldable pub all_see : Hashgraph → List EventHash → EventHash → Result Bool
all_see hg [] event = ok true
all_see hg (w ∷ ws) event =
    unwrap_or (see hg w event) false >>= λ sees. if sees then all_see hg ws event else ok false

unfoldable pub first_seen_times : Hashgraph → List EventHash → EventHash → Result (List ℕ)
first_seen_times hg [] event = ok []
first_seen_times hg (w ∷ ws) event = first_seen_timestamp hg w event >>= λ seen.
    first_seen_times hg ws event >>= λ rest.
    ok (elim seen [ none ↦ rest | some timestamp ↦ timestamp ∷ rest ])

-- the body of the loop in `assign_order`
unfoldable pub order_event : ℕ → List EventHash → EventHash → Exec Hashgraph (Unit {0})
unfolding bind pure ask update
order_event round famous_witnesses event =
    bind (ask (λ hg. all_see hg famous_witnesses event)) λ sees.
      if not sees
      then pure tt
      else bind (ask (λ hg. first_seen_times hg famous_witnesses event)) λ first_seen.
        bind (ask (λ hg. median_timestamp first_seen))
          λ timestamp. update (set_event_order event round timestamp)

unfoldable pub for_each :
    (EventHash → Exec Hashgraph (Unit {0})) → List EventHash → Exec Hashgraph (Unit {0})
unfolding bind pure
for_each body [] = pure tt
for_each body (e ∷ es) = bind (body e) λ _. for_each body es

-- the loop of `assign_order`, unless there is no famous witness
unfoldable pub order_seen_by : ℕ → List EventHash → Exec Hashgraph (Unit {0})
unfolding bind pure ask
order_seen_by round [] = pure tt
order_seen_by round (w ∷ ws) =
    bind (ask (λ hg. ok (pending_order_events hg))) (for_each (order_event round (w ∷ ws)))

unfoldable pub assign_order : ℕ → Exec Hashgraph (Unit {0})
unfolding bind ask
assign_order round =
    bind (ask (λ hg. ok (famous_witnesses_of_round hg round))) (order_seen_by round)

-- one member's part of `round_view_complete`
abbrev pub past_round : Hashgraph → ℕ → NodeId → Bool
past_round hg round member = elim (Map.get member hg.latest_by_creator) [
  | none ↦ false
  | some h ↦ elim (get_event hg h) [ none ↦ false | some r ↦ ltb round r.round ]
]

abbrev all_past : Hashgraph → ℕ → List NodeId → Bool
all_past hg round [] = true
all_past hg round (m ∷ ms) = past_round hg round m && all_past hg round ms

unfoldable pub round_view_complete : Hashgraph → ℕ → Result Bool
round_view_complete hg round = elim (roster_for_round hg.roster_history round) [
  | none ↦ fault panic
  | some roster ↦ ok (all_past hg round (member_ids roster))
]

-- The watermark passes each decided round once, so the number of decided rounds is enough fuel.
unfoldable pub order_rounds : ℕ → Exec Hashgraph (Unit {0})
unfolding bind
order_rounds zero hg = (fault out_of_fuel, hg)
order_rounds (suc fuel) hg = elim (set_contains hg.next_round_to_order hg.fully_decided_rounds) [
  | false ↦ (ok tt, hg)
  | true ↦
      let round = hg.next_round_to_order in
      bind (assign_order round) (λ _. order_rounds fuel)
        (record hg { next_round_to_order = round + 1 })
]

unfoldable pub order_decided_rounds : Exec Hashgraph (Unit {0})
order_decided_rounds hg = order_rounds (suc (length hg.fully_decided_rounds)) hg

abbrev pub has_undecided : Hashgraph → ℕ → Bool
has_undecided hg round = any (λ (e : EventHash × ℕ). e.1 == round) hg.undecided_witnesses

-- `self.fully_decided_rounds.insert(round)`
abbrev pub mark_decided : ℕ → Hashgraph → Hashgraph
mark_decided round hg = record hg {
  fully_decided_rounds = set_insert round hg.fully_decided_rounds;
}

-- The guards of `note_round_decided_if_complete`, one after the other.
unfoldable pub note_if_complete : ℕ → Bool → Exec Hashgraph (Unit {0})
unfolding bind pure update
note_if_complete round complete =
    if not complete then pure tt else bind (update (mark_decided round)) λ _. order_decided_rounds

unfoldable pub note_unless_waiting : ℕ → Bool → Exec Hashgraph (Unit {0})
unfolding bind pure ask
note_unless_waiting round waiting =
    if waiting
    then pure tt
    else bind (ask (λ hg. round_view_complete hg round)) (note_if_complete round)

unfoldable pub note_round_decided_if_complete : ℕ → Exec Hashgraph (Unit {0})
unfolding bind pure ask
note_round_decided_if_complete round =
    if round == 0
    then pure tt
    else bind (ask (λ hg. ok (has_undecided hg round))) (note_unless_waiting round)

-- the writes of `decide_fame`
abbrev pub close_election : EventHash → FameStatus → Hashgraph → Hashgraph
close_election candidate status hg = record hg {
  events = Map.modify candidate (λ (r : EventRecord). record r { fame_status = status }) hg.events;
  undecided_witnesses = Map.remove candidate hg.undecided_witnesses;
}

abbrev pub round_or_zero : Hashgraph → EventHash → ℕ
round_or_zero hg h = Option.get_or (Option.map (λ (r : EventRecord). r.round) (get_event hg h)) 0

unfoldable pub note_round_of : EventHash → Exec Hashgraph (Unit {0})
unfolding bind ask
note_round_of candidate =
    bind (ask (λ hg. ok (round_or_zero hg candidate))) note_round_decided_if_complete

unfoldable pub decide_fame : EventHash → FameStatus → Exec Hashgraph (Unit {0})
unfolding bind update
decide_fame candidate status =
    bind (update (close_election candidate status)) λ _. note_round_of candidate
