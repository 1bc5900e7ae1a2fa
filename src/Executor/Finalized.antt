-- ===== src/Executor/Finalized.antt =====
-- `finalized_events` of consensus-node/executor/state/src/executor.rs: the events of the ordered
-- rounds, in their order, and `max_ordered_round` of the graph.
use jx.Base.{
  ℕ, zero, suc, max, ◌≤◌, ◌≡◌, refl, sym, ◌∙◌, ap, Option, none, some, List, [], ◌∷◌, ◌++◌, ◌==◌,
  ==_iff, nat_eq, Bool-cases, inl, inr, arith,
}
use mathlib.Core.Option.{some-injective}
use jx.Base.Map.{Map, get, DistinctKeys}
use jx.Hashgraph.{EventHash, Event, EventRecord, Hashgraph, get_event}
use jx.Order.Consensus.{consensus_order}
use jx.Order.Consensus.Agreement.{Placed, placed, SamePlaced, by_placed, consensus_order-agrees}

abbrev or_zero : Option ℕ → ℕ
or_zero none = 0
or_zero (some round) = round

unfoldable pub max_received : Map EventHash EventRecord → ℕ
max_received [] = 0
max_received ((h, r) ∷ events) = max (or_zero r.round_received) (max_received events)

-- `Hashgraph::max_ordered_round`
unfoldable pub max_ordered_round : Hashgraph → ℕ
max_ordered_round hg = max_received hg.events

abbrev push_event : Option EventRecord → List Event → List Event
push_event none rest = rest
push_event (some r) rest = r.event ∷ rest

unfoldable pub stored_events : Hashgraph → List EventHash → List Event
stored_events hg [] = []
stored_events hg (h ∷ hashes) = push_event (get_event hg h) (stored_events hg hashes)

-- the rounds from 1 up to and with the given one
unfoldable pub finalized_through : Hashgraph → ℕ → List Event
finalized_through hg zero = []
finalized_through hg (suc round) =
    finalized_through hg round ++ stored_events hg (consensus_order hg (suc round))

unfoldable pub finalized_events : Hashgraph → List Event
finalized_events hg = finalized_through hg (max_ordered_round hg)

-- a stored event's round received is below the highest
max_received-get :
    (m : Map EventHash EventRecord) (h : EventHash) (r : EventRecord)
    → get h m ≡ some r
    → or_zero r.round_received ≤ max_received m
unfolding max_received get
max_received-get [] h r e = ground arith
max_received-get ((k, s) ∷ m) h r e = elim (Bool-cases (k == h)) [
  | inl t ↦
      let here : s ≡ r = some-injective s r (ground arith) in
      let same : or_zero s.round_received ≡ or_zero r.round_received =
        ap (λ z. or_zero z.round_received) here in
      omega (arith, same)
  | inr n ↦ let below = max_received-get m h r (ground arith) in omega (arith, below)
]

-- the highest is below each number that no stored event's round received is above
max_received-least :
    (m : Map EventHash EventRecord) (n : ℕ)
    → DistinctKeys m
    → ((h : EventHash) (r : EventRecord) → get h m ≡ some r → or_zero r.round_received ≤ n)
    → max_received m ≤ n
unfolding max_received get
max_received-least [] n d h = omega arith
max_received-least ((k, s) ∷ m) n d h =
    let first = h k s (rw ((==_iff k k).1 refl) refl) in
    let rest = max_received-least m n d.1 λ i r g. h i r (elim (Bool-cases (k == i)) [
      | inl t ↦ ground (arith, d.0, g, ap (λ z. get z m) ((==_iff k i).0 t))
      | inr o ↦ rw o g
    ]) in
    omega (arith, first, rest)

abbrev push_placed : Option Placed → List Event → List Event
push_placed none rest = rest
push_placed (some (event, round, timestamp)) rest = event ∷ rest

push_event-placed :
    (rest : List Event) (o : Option EventRecord) → push_event o rest ≡ push_placed (placed o) rest
push_event-placed rest none = refl
push_event-placed rest (some r) = refl

abbrev placed_round : Option Placed → Option ℕ
placed_round none = none
placed_round (some (event, round, timestamp)) = round

placed-some :
    (r : EventRecord) (o : Option EventRecord)
    → placed (some r) ≡ placed o
    → (q : EventRecord) × (o ≡ some q) × (r.round_received ≡ q.round_received)
placed-some r none e = ground arith
placed-some r (some q) e = (q, refl, ap placed_round e)

-- The highest round of a graph is not above that of a graph with the same orders.
max_received-placed :
    (a b : Hashgraph)
    → DistinctKeys a.events
    → SamePlaced a b
    → max_received a.events ≤ max_received b.events
max_received-placed a b d same = max_received-least a.events (max_received b.events) d λ h r g.
    let (q, e, round) = placed-some r (get_event b h) (ap placed (sym g) ∙ same h) in
    let below = max_received-get b.events h q e in omega (arith, below, ap or_zero round)

stored_events-same :
    (a b : Hashgraph) (hashes : List EventHash)
    → SamePlaced a b
    → stored_events a hashes ≡ stored_events b hashes
unfolding stored_events
stored_events-same a b [] same = refl
stored_events-same a b (h ∷ hashes) same =
    ap (λ rest. push_event (get_event a h) rest) (stored_events-same a b hashes same)
    ∙ by_placed (λ o. push_event o (stored_events b hashes))
        (λ o. push_placed o (stored_events b hashes)) (push_event-placed (stored_events b hashes))
        (get_event a h) (get_event b h) (same h)

finalized_through-agrees :
    (a b : Hashgraph) (round : ℕ)
    → DistinctKeys a.events
    → DistinctKeys b.events
    → SamePlaced a b
    → finalized_through a round ≡ finalized_through b round
unfolding finalized_through
finalized_through-agrees a b zero d e same = refl
finalized_through-agrees a b (suc round) d e same = λ i.
    finalized_through-agrees a b round d e same i
    ++ (ap (stored_events a) (consensus_order-agrees a b (suc round) d e same)
          ∙ stored_events-same a b (consensus_order b (suc round)) same)
        i

-- Two nodes that store the same events with the same orders, whatever votes and fame they store, and
-- in whatever order their maps list them, finalize the same events in the same order, when each map
-- has distinct keys.
pub finalized_events-agrees :
    (a b : Hashgraph)
    → DistinctKeys a.events
    → DistinctKeys b.events
    → SamePlaced a b
    → finalized_events a ≡ finalized_events b
unfolding finalized_events max_ordered_round
finalized_events-agrees a b d e same =
    let up = max_received-placed a b d same in
    let down = max_received-placed b a e (λ h. sym (same h)) in
    let rounds : max_received a.events ≡ max_received b.events = omega (arith, up, down) in
    ap (finalized_through a) rounds ∙ finalized_through-agrees a b (max_received b.events) d e same
