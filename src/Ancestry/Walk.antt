-- ===== src/Ancestry/Walk.antt =====
-- The fuel of the walks over the ancestry in ancestry.rs.
use jx.Base.{
  ℕ, zero, suc, ◌+◌, ◌*◌, ◌≤◌, ◌≡◌, ◌≢◌, refl, ap, Bool, true, false, not, Option, none, some, List,
  [], ◌∷◌, ◌++◌, any, length, length-append, if◌then◌else◌, ◌==◌, ==_iff, nat_eq, Bool-cases,
  Option-cases, inl, inr, ◌⊎◌, arith, ltb,
}
use jx.Base.Map
use jx.Base.Map.{Map}
use jx.Roster.{NodeId}
use jx.Hashgraph.{
  EventHash, Event, EventRecord, Hashgraph, parents, option_list, get_event, Result, ok, err, fault,
  Fault, out_of_fuel, ◌>>=◌, ConsensusError, ok_or, slot, known, unknown_event, member_index_of,
  creator_has_known_fork,
}
use jx.Ancestry.{
  Visit, stop, go_on, traverse, walk_fuel, ancestry_contains_event, ancestry_contains_fork_of,
  ancestor_event_for_creator, is_ancestor, see,
}

abbrev seen : List EventHash → EventHash → Bool
seen visited h = any (λ v. v == h) visited

-- how many stored events a walk has not visited
abbrev unseen : List EventHash → Map EventHash EventRecord → ℕ
unseen visited [] = 0
unseen visited ((k, r) ∷ m) = if seen visited k then unseen visited m else suc (unseen visited m)

unseen-less :
    (c : EventHash) (visited : List EventHash) (m : Map EventHash EventRecord)
    → unseen (c ∷ visited) m ≤ unseen visited m
unseen-less c visited [] = omega arith
unseen-less c visited ((k, r) ∷ m) = ground (arith, unseen-less c visited m)

unseen-found :
    (c : EventHash) (visited : List EventHash) (m : Map EventHash EventRecord) (r : EventRecord)
    → Map.get c m ≡ some r
    → seen visited c ≡ false
    → suc (unseen (c ∷ visited) m) ≤ unseen visited m
unfolding Map.get
unseen-found c visited [] r e n = ground arith
unseen-found c visited ((k, v) ∷ m) r e n =
    ground (arith, unseen-less c visited m, unseen-found c visited m r, ==_iff c k, ==_iff k c)

unseen_none : (m : Map EventHash EventRecord) → unseen [] m ≡ length m
unseen_none [] = refl
unseen_none ((k, r) ∷ m) = ap suc (unseen_none m)

length-parents : (e : Event) → length (parents e) ≤ 2
length-parents e = go e.self_parent e.other_parent
  where
    go : (a b : Option EventHash) → length (option_list a ++ option_list b) ≤ 2
    go none none = omega arith
    go none (some b) = omega arith
    go (some a) none = omega arith
    go (some a) (some b) = omega arith

ok_is_no_fault : {A : Type 0} (a : A) (z : Fault) → ok a ≢ fault z
ok_is_no_fault a z e = ground arith

Visit-cases : {B S : Type 0} (v : Visit B S) → ((b : B) × (v ≡ stop b)) ⊎ ((s : S) × (v ≡ go_on s))
Visit-cases (stop b) = inl (b, refl)
Visit-cases (go_on s) = inr (s, refl)

module _ {B S : Type 0} (look : EventHash → Option B)
    (inspect : EventHash → EventRecord → S → Visit B S) (hg : Hashgraph) where
  -- A step for each entry of the queue, two for each stored event not visited, and one for the end.
  traverse-ends :
      (fuel : ℕ) (visited queue : List EventHash) (s : S)
      → suc (length queue + 2 * unseen visited hg.events) ≤ fuel
      → traverse look inspect hg fuel visited queue s ≢ fault out_of_fuel
  unfolding traverse
  traverse-ends zero visited queue s h = absurd (omega arith)
  traverse-ends (suc fuel) visited [] s h = λ e. ok_is_no_fault none out_of_fuel e
  traverse-ends (suc fuel) visited (c ∷ queue) s h = elim (Option-cases (look c)) [
    | inr (b, e) ↦ rw (e, traverse) (ok_is_no_fault (some b) out_of_fuel)
    | inl e ↦ elim (Bool-cases (seen visited c)) [
      | inl old ↦ rw (e, old, traverse) (traverse-ends fuel visited queue s (omega arith))
      | inr new ↦ elim (Option-cases (get_event hg c)) [
        | inl absent ↦
            rw (e, new, absent, traverse)
              (traverse-ends fuel (c ∷ visited) queue s
                (omega (arith, unseen-less c visited hg.events)))
        | inr (r, found) ↦ elim (Visit-cases (inspect c r s)) [
          | inl (b, q) ↦ rw (e, new, found, q, traverse) (ok_is_no_fault (some b) out_of_fuel)
          | inr (s', q) ↦
              let pushed = length-append queue (parents r.event) in
              let two = length-parents r.event in
              let fewer = unseen-found c visited hg.events r found new in
              rw (e, new, found, q, traverse)
                (traverse-ends fuel (c ∷ visited) (queue ++ parents r.event) s' (omega arith))
        ]
      ]
    ]
  ]

  -- from one event and nothing visited
  pub traverse-ends_from :
      (x : EventHash) (s : S)
      → traverse look inspect hg (walk_fuel hg) [] (x ∷ []) s ≢ fault out_of_fuel
  traverse-ends_from x s =
      traverse-ends (walk_fuel hg) [] (x ∷ []) s (omega (arith, unseen_none hg.events))

then_ok-ends :
    {A B : Type 0} (f : A → B) (z : Result A)
    → z ≢ fault out_of_fuel
    → (z >>= λ a. ok (f a)) ≢ fault out_of_fuel
then_ok-ends f (ok a) n = ok_is_no_fault (f a) out_of_fuel
then_ok-ends f (err e) n = λ q. ground arith
then_ok-ends f (fault z) n = λ q. n (ground arith)

-- The three walks over the ancestry of an event end within their fuel: none runs out of it.
pub walks_end :
    (hg : Hashgraph) (x target : EventHash) (creator : NodeId) (seq : ℕ)
    → (ancestor_event_for_creator hg x creator seq ≢ fault out_of_fuel)
      × (ancestry_contains_event hg x target ≢ fault out_of_fuel)
      × (ancestry_contains_fork_of hg x creator ≢ fault out_of_fuel)
unfolding ancestor_event_for_creator ancestry_contains_event ancestry_contains_fork_of
walks_end hg x target creator seq = (
  traverse-ends_from _ _ hg x tt,
  then_ok-ends _ _ (traverse-ends_from _ _ hg x tt),
  then_ok-ends _ _ (traverse-ends_from _ _ hg x []),
)

-- A chain of queries ends where its parts do.
bind-ends :
    {A B : Type 0} (z : Result A) (f : A → Result B)
    → z ≢ fault out_of_fuel
    → ((a : A) → f a ≢ fault out_of_fuel)
    → (z >>= f) ≢ fault out_of_fuel
bind-ends (ok a) f n k = k a
bind-ends (err e) f n k = λ q. ground arith
bind-ends (fault z) f n k = λ q. n (ground arith)

ok_or-ends : {A : Type 0} (o : Option A) (e : ConsensusError) → ok_or o e ≢ fault out_of_fuel
ok_or-ends none e = λ q. ground arith
ok_or-ends (some a) e = λ q. ground arith

slot-ends : {A : Type 0} (xs : List A) (i : ℕ) → slot xs i ≢ fault out_of_fuel
slot-ends [] i = λ q. ground arith
slot-ends (x ∷ xs) zero = λ q. ground arith
slot-ends (x ∷ xs) (suc i) = slot-ends xs i

if-ends :
    {A : Type 0} (b : Bool) (x y : Result A)
    → x ≢ fault out_of_fuel
    → y ≢ fault out_of_fuel
    → (if b then x else y) ≢ fault out_of_fuel
if-ends true x y p q = p
if-ends false x y p q = q

is_ancestor-ends : (hg : Hashgraph) (x y : EventHash) → is_ancestor hg x y ≢ fault out_of_fuel
unfolding is_ancestor
is_ancestor-ends hg x y = if-ends (x == y) (ok true) _ (ok_is_no_fault true out_of_fuel) (
    bind-ends (known hg x) _ (ok_or-ends _ _) λ x_rec.
      bind-ends (known hg y) _ (ok_or-ends _ _) λ y_rec.
        bind-ends (ok_or (member_index_of hg y_rec.event.creator) (unknown_event y)) _
          (ok_or-ends _ _)
          λ idx.
            bind-ends (slot x_rec.ancestor_seqs idx) _ (slot-ends x_rec.ancestor_seqs idx)
              λ reached.
                if-ends (ltb reached y_rec.seq) (ok false) _ (ok_is_no_fault false out_of_fuel) (
                  bind-ends (creator_has_known_fork hg idx) _ (slot-ends hg.known_forkers idx)
                    λ forked.
                      if-ends forked (ancestry_contains_event hg x y) (ok true)
                        (walks_end hg x y 0 0).1 (ok_is_no_fault true out_of_fuel)))

-- Seeing and being an ancestor are decided within the fuel of the walks: neither query runs out of it.
pub see-ends :
    (hg : Hashgraph) (x y : EventHash)
    → (is_ancestor hg x y ≢ fault out_of_fuel) × (see hg x y ≢ fault out_of_fuel)
unfolding see
see-ends hg x y = (
  is_ancestor-ends hg x y,
  bind-ends (is_ancestor hg x y) _ (is_ancestor-ends hg x y) λ ancestor.
      if-ends ancestor _ (ok false)
        (bind-ends (known hg y) _ (ok_or-ends _ _) λ y_rec.
          bind-ends (ok_or (member_index_of hg y_rec.event.creator) (unknown_event y)) _
            (ok_or-ends _ _)
            λ idx.
              bind-ends (creator_has_known_fork hg idx) _ (slot-ends hg.known_forkers idx) λ forked.
                if-ends forked _ (ok true)
                  (then_ok-ends not (ancestry_contains_fork_of hg x y_rec.event.creator)
                    (walks_end hg x y y_rec.event.creator 0).2)
                  (ok_is_no_fault true out_of_fuel))
        (ok_is_no_fault false out_of_fuel),
)
