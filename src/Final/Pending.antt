-- ===== src/Final/Pending.antt =====
-- `assign_order` of order.rs against the relation of Final.
use jx.Base.{
  ℕ, ◌≡◌, ◌≢◌, refl, sym, ◌∙◌, ◌⊎◌, inl, inr, true, not, none, some, List, [], ◌∷◌, arith, nat_eq,
  Bool-cases, map, keep,
}
use jx.Base.Map
use jx.Hashgraph.{
  EventHash, EventRecord, Hashgraph, get_event, is_pending, set_event_order, pending_order_events,
  pure, after_ask,
}
use jx.Order.{order_seen_by, all_see, first_seen_times, median_timestamp, order_event, for_each}
use jx.Final.{Extends, Extends-refl, Keeps, bind-Extends, pure-Keeps, modify_event-Extends}

-- The event, if stored, has no order yet.
abbrev Pending : Hashgraph → EventHash → Type 0
Pending hg h = (r : EventRecord) → get_event hg h ≡ some r → is_pending r ≡ true

set_event_order-Extends :
    (skip h : EventHash) (round timestamp : ℕ) (hg : Hashgraph)
    → Pending hg h
    → Extends skip hg (set_event_order h round timestamp hg)
unfolding set_event_order
set_event_order-Extends skip h round timestamp hg pending =
    modify_event-Extends skip h _ hg (λ r n e. ground (arith, pending r e))

-- Ordering one event leaves the state as it is, or writes that event's order.
order_event_cases :
    (round : ℕ) (witnesses : List EventHash) (event : EventHash) (hg : Hashgraph)
    → ((order_event round witnesses event hg).1 ≡ hg)
      ⊎ ((t : ℕ) × ((order_event round witnesses event hg).1 ≡ set_event_order event round t hg))
unfolding order_event
order_event_cases round witnesses event hg =
    after_ask P (λ s. all_see s witnesses event) _ hg (inl refl)
      λ sees _. elim (Bool-cases (not sees)) [
        | inl away ↦ rw away (inl refl)
        | inr here ↦ rw here (
            after_ask P (λ s. first_seen_times s witnesses event) _ hg (inl refl)
              λ times _.
                after_ask P (λ s. median_timestamp times) _ hg (inl refl) λ t _. inr (t, refl))
      ]
  where
    P : Hashgraph → Type 0
    P s = (s ≡ hg) ⊎ ((t : ℕ) × (s ≡ set_event_order event round t hg))

order_event-Extends :
    (skip : EventHash) (round : ℕ) (witnesses : List EventHash) (event : EventHash) (hg : Hashgraph)
    → Pending hg event
    → Extends skip hg (order_event round witnesses event hg).1
order_event-Extends skip round witnesses event hg pending =
    elim (order_event_cases round witnesses event hg) [
      | inl same ↦ rw same (Extends-refl skip hg)
      | inr (t, e) ↦ rw e (set_event_order-Extends skip event round t hg pending)
    ]

-- Events other than the ordered one are as they were.
get_event-order_event :
    (round : ℕ) (witnesses : List EventHash) (event h : EventHash) (hg : Hashgraph)
    → event ≢ h
    → get_event (order_event round witnesses event hg).1 h ≡ get_event hg h
unfolding set_event_order
get_event-order_event round witnesses event h hg n =
    elim (order_event_cases round witnesses event hg) [
      | inl same ↦ rw same
      | inr (t, e) ↦ rw e (Map.get-modify_ne event h _ hg.events n)
    ]

abbrev Absent : EventHash → List EventHash → Type 0
Absent h [] = Unit
Absent h (e ∷ es) = (h ≢ e) × Absent h es

-- A list of different events none of which has an order.
abbrev Waiting : Hashgraph → List EventHash → Type 0
Waiting hg [] = Unit
Waiting hg (e ∷ es) = Pending hg e × Absent e es × Waiting hg es

Waiting-order_event :
    (round : ℕ) (witnesses : List EventHash) (event : EventHash) (hg : Hashgraph)
    (es : List EventHash)
    → Absent event es
    → Waiting hg es
    → Waiting (order_event round witnesses event hg).1 es
Waiting-order_event round witnesses event hg [] a w = tt
Waiting-order_event round witnesses event hg (e ∷ es) a w = (
  λ r p. w.0 r (sym (get_event-order_event round witnesses event e hg a.0) ∙ p),
  w.1,
  Waiting-order_event round witnesses event hg es a.1 w.2,
)

for_each-Extends :
    (skip : EventHash) (round : ℕ) (witnesses es : List EventHash) (hg : Hashgraph)
    → Waiting hg es
    → Extends skip hg (for_each (order_event round witnesses) es hg).1
unfolding for_each pure
for_each-Extends skip round witnesses [] hg w = Extends-refl skip hg
for_each-Extends skip round witnesses (e ∷ es) hg w =
    bind-Extends skip (order_event round witnesses e)
      (λ _. for_each (order_event round witnesses) es) hg
      (order_event-Extends skip round witnesses e hg w.0)
      (λ _ _.
        for_each-Extends skip round witnesses es (order_event round witnesses e hg).1
          (Waiting-order_event round witnesses e hg es w.1 w.2))

-- the pending keys of an event map, with what a longer map says of them
pending_keys : Map.Map EventHash EventRecord → List EventHash
pending_keys m =
    map (λ (e : EventHash × EventRecord). e.0)
      (keep (λ (e : EventHash × EventRecord). is_pending e.1) m)

Absent-pending_keys :
    (h : EventHash) (m : Map.Map EventHash EventRecord)
    → Map.get h m ≡ none
    → Absent h (pending_keys m)
unfolding pending_keys Map.get
Absent-pending_keys h [] e = tt
Absent-pending_keys h ((k, r) ∷ m) e = ground (arith, Absent-pending_keys h m)

-- every entry of the part shows in the whole map
abbrev Shows : Map.Map EventHash EventRecord → Map.Map EventHash EventRecord → Type 0
Shows whole [] = Unit
Shows whole ((k, r) ∷ m) = (Map.get k whole ≡ some r) × Shows whole m

Shows-cons :
    (k : EventHash) (r : EventRecord) (whole m : Map.Map EventHash EventRecord)
    → Map.get k m ≡ none
    → Shows whole m
    → Shows ((k, r) ∷ whole) m
unfolding Map.get
Shows-cons k r whole [] e s = tt
Shows-cons k r whole ((j, x) ∷ m) e s = ground (arith, Shows-cons k r whole m)

Shows-self : (m : Map.Map EventHash EventRecord) → Map.DistinctKeys m → Shows m m
unfolding Map.get
Shows-self [] d = tt
Shows-self ((k, r) ∷ m) d = (ground arith, Shows-cons k r m m d.0 (Shows-self m d.1))

Waiting-pending_keys :
    (hg : Hashgraph) (m : Map.Map EventHash EventRecord)
    → Map.DistinctKeys m
    → Shows hg.events m
    → Waiting hg (pending_keys m)
unfolding pending_keys
Waiting-pending_keys hg [] d s = tt
Waiting-pending_keys hg ((k, r) ∷ m) d s = elim (Bool-cases (is_pending r)) [
  | inl p ↦
      rw p
        (λ x e. ground (arith, s.0), Absent-pending_keys k m d.0, Waiting-pending_keys hg m d.1 s.1)
  | inr q ↦ rw q (Waiting-pending_keys hg m d.1 s.1)
]

pub order_seen_by-Keeps :
    (skip : EventHash) (round : ℕ) (ws : List EventHash) → Keeps skip (order_seen_by round ws)
unfolding order_seen_by pending_order_events pending_keys
order_seen_by-Keeps skip round [] hg d = pure-Keeps skip tt hg d
order_seen_by-Keeps skip round (w ∷ ws) hg d =
    for_each-Extends skip round (w ∷ ws) (pending_order_events hg) hg
      (Waiting-pending_keys hg hg.events d (Shows-self hg.events d))
