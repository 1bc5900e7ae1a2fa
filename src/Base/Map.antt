-- ===== src/Base/Map.antt =====
-- `HashMap` and `BTreeMap` as association lists. An entry keeps the place it was first written at.
use mathlib.Core.Path.{◌≡◌, refl}
use mathlib.Core.Logic.{◌≢◌}
use mathlib.Core.Bool.{Bool, true, false}
use mathlib.Core.Option.{Option, none, some}
use mathlib.Core.List.{List, [], ◌∷◌}
use native.Mathlib.Omega.{arith}
use jx.Base.Tests.{Eq, if◌then◌else◌}

abbrev pub Map {ℓ κ} : Type ℓ → Type κ → Type (ℓ ⊔ κ)
Map K V = List (K × V)

module _ {ℓ κ} {K : Type ℓ} {V : Type κ} ⦃e : Eq K⦄ where
  unfoldable pub get : K → Map K V → Option V
  get j [] = none
  get j ((k, v) ∷ m) = if e.beq k j then some v else get j m

  unfoldable pub contains_key : K → Map K V → Bool
  unfolding get
  contains_key j m = elim (get j m) [ none ↦ false | some _ ↦ true ]

  -- `insert`
  unfoldable pub put : K → V → Map K V → Map K V
  put j w [] = (j, w) ∷ []
  put j w ((k, v) ∷ m) = if e.beq k j then (k, w) ∷ m else (k, v) ∷ put j w m

  -- `entry(j).or_insert(w)`
  unfoldable pub or_insert : K → V → Map K V → Map K V
  unfolding get put
  or_insert j w m = elim (get j m) [ none ↦ put j w m | some _ ↦ m ]

  unfoldable pub remove : K → Map K V → Map K V
  remove j [] = []
  remove j ((k, v) ∷ m) = let rest = remove j m in if e.beq k j then rest else (k, v) ∷ rest

  -- `if let Some(v) = get_mut(j) { *v = f(v) }`
  unfoldable pub modify : K → (V → V) → Map K V → Map K V
  modify j f [] = []
  modify j f ((k, v) ∷ m) = if e.beq k j then (k, f v) ∷ m else (k, v) ∷ modify j f m

  pub get-put :
      (j i : K) (w : V) (m : Map K V) → get i (put j w m) ≡ (if e.beq j i then some w else get i m)
  unfolding get put
  get-put j i w [] = refl
  get-put j i w ((k, v) ∷ m) =
      ground (arith, e.beq_iff k j, e.beq_iff k i, e.beq_iff j i, get-put j i w m)

  pub get-modify :
      (j i : K) (f : V → V) (m : Map K V)
      → get i (modify j f m)
        ≡ (elim (get i m) [ none ↦ none | some v ↦ (if e.beq j i then some (f v) else some v) ])
  unfolding get modify
  get-modify j i f [] = refl
  get-modify j i f ((k, v) ∷ m) =
      ground (arith, e.beq_iff k j, e.beq_iff k i, e.beq_iff j i, get-modify j i f m)

  pub get-remove :
      (j i : K) (m : Map K V) → get i (remove j m) ≡ (if e.beq j i then none else get i m)
  unfolding get remove
  get-remove j i [] = ground arith
  get-remove j i ((k, v) ∷ m) =
      ground (arith, e.beq_iff k j, e.beq_iff k i, e.beq_iff j i, get-remove j i m)

  pub get-modify_self :
      (j : K) (f : V → V) (m : Map K V) {v : V}
      → get j m ≡ some v
      → get j (modify j f m) ≡ some (f v)
  get-modify_self j f m h = rw (get-modify, h, (e.beq_iff j j).1 refl)

  pub get-modify_ne : (j i : K) (f : V → V) (m : Map K V) → j ≢ i → get i (modify j f m) ≡ get i m
  get-modify_ne j i f m n = ground (arith, get-modify j i f m, e.beq_iff j i)

  pub get-put_self : (j : K) (w : V) (m : Map K V) → get j (put j w m) ≡ some w
  get-put_self j w m = rw (get-put, (e.beq_iff j j).1 refl)

  pub get-put_ne : (j i : K) (w : V) (m : Map K V) → j ≢ i → get i (put j w m) ≡ get i m
  get-put_ne j i w m n = ground (arith, get-put j i w m, e.beq_iff j i)

  -- Each key stands once, as in a `HashMap`.
  abbrev pub DistinctKeys : Map K V → Type κ
  DistinctKeys [] = Unit
  DistinctKeys ((k, v) ∷ m) = (get k m ≡ none) × DistinctKeys m

  pub put-DistinctKeys : (j : K) (w : V) (m : Map K V) → DistinctKeys m → DistinctKeys (put j w m)
  unfolding put get
  put-DistinctKeys j w [] d = (refl, tt)
  put-DistinctKeys j w ((k, v) ∷ m) d =
      ground (arith, e.beq_iff j k, e.beq_iff k j, get-put j k w m, put-DistinctKeys j w m d.1)

  pub modify-DistinctKeys :
      (j : K) (f : V → V) (m : Map K V) → DistinctKeys m → DistinctKeys (modify j f m)
  unfolding modify
  modify-DistinctKeys j f [] d = tt
  modify-DistinctKeys j f ((k, v) ∷ m) d =
      ground (arith, get-modify j k f m, modify-DistinctKeys j f m d.1)
