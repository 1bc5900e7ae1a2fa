-- ===== src/Order/Consensus/Agreement.antt =====
-- `consensus_order` of consensus-node/protocol/consensus/src/order.rs on graphs that store the same
-- events.
use jx.Base.{
  ℕ, ◌≡◌, refl, sym, ◌∙◌, ap, Bool, true, false, ◌&&◌, Option, none, some, List, [], ◌∷◌, keep, map,
  option_beq, ◌==◌, ==_iff, Bool-cases, inl, inr, nat_eq, subst, arith,
}
use jx.Base.Map.{Map, get, DistinctKeys}
use jx.Hashgraph.{EventHash, Event, EventRecord, Hashgraph, get_event}
use jx.Order.Consensus.{
  timestamp_rank, signature_tie_break, record_rank, record_received, rank, comes_before,
  is_received, all_event_hashes, consensus_order,
}
use jx.Order.Consensus.Ascending.{
  is_in, NoRepeats, StrictOrder, Ascends, is_in-sort_by, sort_by-Ascends, Ascends-unique,
}

pub comes_before-StrictOrder : (ranks : EventHash → ℕ × ℕ) → StrictOrder (comes_before ranks)
comes_before-StrictOrder ranks = record {
  irreflexive = λ a. ground arith;
  transitive = λ a b c h k. ground arith;
  total = λ a b n h. ground arith;
}

abbrev keys : Map EventHash EventRecord → List EventHash
keys m = map (λ (e : EventHash × EventRecord). e.0) m

is_in-keys :
    (k : EventHash) (m : Map EventHash EventRecord)
    → is_in k (keys m) ≡ (elim (get k m) [ none ↦ false | some r ↦ true ])
unfolding get
is_in-keys k [] = refl
is_in-keys k ((h, r) ∷ m) = ground (arith, is_in-keys k m)

keys-NoRepeats : (m : Map EventHash EventRecord) → DistinctKeys m → NoRepeats (keys m)
keys-NoRepeats [] d = tt
keys-NoRepeats ((h, r) ∷ m) d = (is_in-keys h m ∙ ground (arith, d.0), keys-NoRepeats m d.1)

is_in-keep : (k : ℕ) (p : ℕ → Bool) (xs : List ℕ) → is_in k (keep p xs) ≡ (p k && is_in k xs)
is_in-keep k p [] = ground arith
is_in-keep k p (x ∷ xs) = elim (Bool-cases (x == k)) [
  | inl e ↦
      let same : p x ≡ p k = ap p ((==_iff x k).0 e) in ground (arith, same, is_in-keep k p xs)
  | inr n ↦ ground (arith, is_in-keep k p xs)
]

keep-NoRepeats : (p : ℕ → Bool) (xs : List ℕ) → NoRepeats xs → NoRepeats (keep p xs)
keep-NoRepeats p [] d = tt
keep-NoRepeats p (x ∷ xs) d = elim (Bool-cases (p x)) [
  | inl t ↦ rw t (is_in-keep x p xs ∙ ground (arith, d.0), keep-NoRepeats p xs d.1)
  | inr n ↦ rw n (keep-NoRepeats p xs d.1)
]

-- what the order is made from: the event and its own order. The votes, the fame and the row of a
-- record are a node's own matter.
abbrev pub Placed : Type 0
Placed = Event × Option ℕ × Option ℕ

abbrev pub placed : Option EventRecord → Option Placed
placed none = none
placed (some r) = some (r.event, r.round_received, r.consensus_timestamp)

-- Two graphs store the same events with the same orders.
abbrev pub SamePlaced : Hashgraph → Hashgraph → Type 0
SamePlaced a b = (h : EventHash) → placed (get_event a h) ≡ placed (get_event b h)

pub by_placed :
    {A : Type 0} (f : Option EventRecord → A) (g : Option Placed → A)
    → ((o : Option EventRecord) → f o ≡ g (placed o))
    → (o p : Option EventRecord) → placed o ≡ placed p
    → f o ≡ f p
by_placed f g factor o p e = factor o ∙ ap g e ∙ sym (factor p)

abbrev placed_rank : Option Placed → ℕ × ℕ
placed_rank none = (0, 0)
placed_rank (some (event, round, timestamp)) =
    (timestamp_rank timestamp, signature_tie_break event.signature)

abbrev placed_received : ℕ → Option Placed → Bool
placed_received round none = false
placed_received round (some (event, received, timestamp)) = option_beq received (some round)

rank_placed : (o : Option EventRecord) → record_rank o ≡ placed_rank (placed o)
rank_placed none = refl
rank_placed (some r) = refl

received_placed :
    (round : ℕ) (o : Option EventRecord)
    → record_received round o ≡ placed_received round (placed o)
received_placed round none = refl
received_placed round (some r) = refl

rank_same :
    (a b : Hashgraph) (h : EventHash)
    → placed (get_event a h) ≡ placed (get_event b h)
    → rank a h ≡ rank b h
unfolding rank
rank_same a b h e = by_placed record_rank placed_rank rank_placed (get_event a h) (get_event b h) e

received_same :
    (a b : Hashgraph) (round : ℕ) (h : EventHash)
    → placed (get_event a h) ≡ placed (get_event b h)
    → is_received a round h ≡ is_received b round h
received_same a b round h e =
    by_placed (record_received round) (placed_received round) (received_placed round)
      (get_event a h) (get_event b h) e

stored_only :
    (round : ℕ) (o : Option EventRecord)
    → (record_received round o && (elim o [ none ↦ false | some r ↦ true ]))
      ≡ record_received round o
stored_only round none = refl
stored_only round (some r) = ground arith

received_in :
    (hg : Hashgraph) (round : ℕ) (h : EventHash)
    → (is_received hg round h && is_in h (all_event_hashes hg)) ≡ is_received hg round h
received_in hg round h =
    ap (λ b. is_received hg round h && b) (is_in-keys h hg.events)
    ∙ stored_only round (get_event hg h)

-- A round's order lists the stored events that the round has received, each once, and ascends.
pub consensus_order-Ascends :
    (hg : Hashgraph) (round : ℕ)
    → DistinctKeys hg.events
    → Ascends
        (comes_before (rank hg))
        (comes_before-StrictOrder (rank hg))
        (consensus_order hg round)
      × ((h : EventHash) → is_in h (consensus_order hg round) ≡ is_received hg round h)
unfolding consensus_order
consensus_order-Ascends hg round d =
    let before = comes_before (rank hg) in
    let strict = comes_before-StrictOrder (rank hg) in
    let hashes = all_event_hashes hg in
    let received = keep (is_received hg round) hashes in
    (
      sort_by-Ascends before strict received
          (keep-NoRepeats (is_received hg round) hashes (keys-NoRepeats hg.events d)),
      λ h.
          is_in-sort_by before strict h received
          ∙ is_in-keep h (is_received hg round) hashes
          ∙ received_in hg round h,
    )

-- Two nodes that store the same events with the same orders, whatever votes and fame they store, and
-- in whatever order their maps list them, give a round's events in one order.
pub consensus_order-agrees :
    (a b : Hashgraph) (round : ℕ)
    → DistinctKeys a.events
    → DistinctKeys b.events
    → SamePlaced a b
    → consensus_order a round ≡ consensus_order b round
consensus_order-agrees a b round d e same =
    let ranks : rank a ≡ rank b = λ i h. rank_same a b h (same h) i in
    let x = consensus_order-Ascends a round d in
    let y = consensus_order-Ascends b round e in
    Ascends-unique (comes_before (rank a)) (comes_before-StrictOrder (rank a))
      (consensus_order a round) (consensus_order b round) x.0
      (subst (λ r. Ascends (comes_before r) (comes_before-StrictOrder r) (consensus_order b round))
        (sym ranks) y.0)
      λ k. x.1 k ∙ received_same a b round k (same k) ∙ sym (y.1 k)
