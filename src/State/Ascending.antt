-- ===== src/State/Ascending.antt =====
-- The order of the keys in a partition, of consensus-node/executor/state/src/state.rs: pairs in
-- ascending order are a map.
use jx.Base.{
  ◌≡◌, ◌⊎◌, refl, ◌∙◌, ap, true, false, Option, none, some, List, [], ◌∷◌, inl, inr, Bool-cases,
  list_beq, list_beq_iff, list_eq, nat_eq, arith,
}
use jx.Base.Map.{get, DistinctKeys}
use jx.Roster.{Bytes}
use jx.State.{bytes_ltb, Ascending, Sorted}
use jx.State.Synced.{with_entry, no_entry}

pub bytes_ltb-irreflexive : (x : Bytes) → bytes_ltb x x ≡ false
bytes_ltb-irreflexive [] = refl
bytes_ltb-irreflexive (x ∷ xs) = ground (arith, bytes_ltb-irreflexive xs)

pub bytes_ltb_trans :
    (x y z : Bytes) → bytes_ltb x y ≡ true → bytes_ltb y z ≡ true → bytes_ltb x z ≡ true
bytes_ltb_trans x y [] a b = ground arith
bytes_ltb_trans x [] (z ∷ zs) a b = ground arith
bytes_ltb_trans [] (y ∷ ys) (z ∷ zs) a b = refl
bytes_ltb_trans (x ∷ xs) (y ∷ ys) (z ∷ zs) a b = ground (arith, bytes_ltb_trans xs ys zs)

not_among :
    (k j : Bytes) (es : List (Bytes × Bytes))
    → (bytes_ltb j k ≡ true) ⊎ (j ≡ k)
    → Ascending k es
    → get j es ≡ none
unfolding get
not_among k j [] h a = refl
not_among k j ((i, v) ∷ es) h a =
    let below : bytes_ltb j i ≡ true = elim h [
      | inl lt ↦ bytes_ltb_trans j k i lt a.0
      | inr e ↦ ap (λ x. bytes_ltb x i) e ∙ a.0
    ] in
    elim (Bool-cases (list_beq i j)) [
      | inl t ↦
          let self : bytes_ltb j i ≡ false =
            ap (bytes_ltb j) ((list_beq_iff i j).0 t) ∙ bytes_ltb-irreflexive j in
          ground (arith, self, below)
      | inr n ↦ rw n (not_among i j es (inl below) a.1)
    ]

Ascending-DistinctKeys : (k : Bytes) (es : List (Bytes × Bytes)) → Ascending k es → DistinctKeys es
Ascending-DistinctKeys k [] a = tt
Ascending-DistinctKeys k ((j, w) ∷ es) a =
    (not_among j j es (inr refl) a.1, Ascending-DistinctKeys j es a.1)

pub Sorted-DistinctKeys : (es : List (Bytes × Bytes)) → Sorted es → DistinctKeys es
Sorted-DistinctKeys [] a = tt
Sorted-DistinctKeys ((k, v) ∷ es) a = (not_among k k es (inr refl) a, Ascending-DistinctKeys k es a)

-- what reading pairs in one after the other makes of a map
unfoldable pub loaded : List (Bytes × Bytes) → (Bytes → Option Bytes) → Bytes → Option Bytes
loaded [] read = read
loaded ((k, v) ∷ es) read = loaded es (with_entry k (some v) read)

loaded-onto :
    (es : List (Bytes × Bytes)) (read : Bytes → Option Bytes) (k : Bytes)
    → DistinctKeys es
    → loaded es read k ≡ (elim (get k es) [ none ↦ read k | some v ↦ some v ])
unfolding loaded get
loaded-onto [] read k d = refl
loaded-onto ((j, v) ∷ es) read k d =
    ground (arith, loaded-onto es (with_entry j (some v) read) k d.1, list_beq_iff j k, d.0)

-- Pairs in ascending order, read in one after the other, are the map that they are.
pub loaded-get :
    (es : List (Bytes × Bytes)) (k : Bytes) → Sorted es → loaded es no_entry k ≡ get k es
loaded-get es k a = loaded-onto es no_entry k (Sorted-DistinctKeys es a) ∙ ground arith
