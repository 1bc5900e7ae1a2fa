-- ===== src/Order/Consensus/Ascending.antt =====
-- Sorting by a strict total order: a list that ascends is settled by what is in it.
use jx.Base.{
  ℕ, ◌≡◌, ◌≢◌, ◌⊎◌, inl, inr, refl, sym, ◌∙◌, ap, Bool, true, false, ◌||◌, List, [], ◌∷◌, any, All,
  insert_by, sort_by, ◌==◌, ==_iff, Bool-cases, arith,
}

abbrev pub is_in : ℕ → List ℕ → Bool
is_in k xs = any (λ x. x == k) xs

abbrev pub NoRepeats : List ℕ → Type 0
NoRepeats [] = Unit
NoRepeats (x ∷ xs) = (is_in x xs ≡ false) × NoRepeats xs

pub record StrictOrder (before : ℕ → ℕ → Bool) : Type 0 where
  pub irreflexive : (a : ℕ) → before a a ≡ false
  pub transitive : (a b c : ℕ) → before a b ≡ true → before b c ≡ true → before a c ≡ true
  pub total : (a b : ℕ) → a ≢ b → before a b ≡ false → before b a ≡ true

module _ (before : ℕ → ℕ → Bool) (o : StrictOrder before) where
  abbrev pub Above : ℕ → List ℕ → Type 0
  Above x xs = All (λ y. before x y ≡ true) xs

  abbrev pub Ascends : List ℕ → Type 0
  Ascends [] = Unit
  Ascends (x ∷ xs) = Above x xs × Ascends xs

  Above-is_in : (x k : ℕ) (xs : List ℕ) → Above x xs → is_in k xs ≡ true → before x k ≡ true
  Above-is_in x k [] a h = ground arith
  Above-is_in x k (y ∷ xs) a h = elim (Bool-cases (y == k)) [
    | inl t ↦ ap (before x) (sym ((==_iff y k).0 t)) ∙ a.0
    | inr n ↦ Above-is_in x k xs a.1 (ground arith)
  ]

  Above-transitive : (x y : ℕ) (xs : List ℕ) → before x y ≡ true → Above y xs → Above x xs
  Above-transitive x y [] h a = tt
  Above-transitive x y (z ∷ xs) h a = (o.transitive x y z h a.0, Above-transitive x y xs h a.1)

  is_in-insert_by :
      (k a : ℕ) (xs : List ℕ) → is_in k (insert_by before a xs) ≡ ((a == k) || is_in k xs)
  unfolding insert_by
  is_in-insert_by k a [] = refl
  is_in-insert_by k a (x ∷ xs) = ground (arith, is_in-insert_by k a xs)

  insert_by-Above :
      (x a : ℕ) (xs : List ℕ) → before x a ≡ true → Above x xs → Above x (insert_by before a xs)
  unfolding insert_by
  insert_by-Above x a [] h b = (h, tt)
  insert_by-Above x a (y ∷ xs) h b = elim (Bool-cases (before a y)) [
    | inl t ↦ rw t (h, b)
    | inr n ↦ rw n (b.0, insert_by-Above x a xs h b.1)
  ]

  insert_by-Ascends :
      (a : ℕ) (xs : List ℕ) → is_in a xs ≡ false → Ascends xs → Ascends (insert_by before a xs)
  unfolding insert_by
  insert_by-Ascends a [] h s = (tt, tt)
  insert_by-Ascends a (x ∷ xs) h s = elim (Bool-cases (before a x)) [
    | inl t ↦ rw t ((t, Above-transitive a x xs t s.0), s)
    | inr n ↦ rw n (
      insert_by-Above x a xs (o.total a x (ground (arith, ==_iff x a)) n) s.0,
      insert_by-Ascends a xs (ground arith) s.1,
    )
  ]

  pub is_in-sort_by : (k : ℕ) (xs : List ℕ) → is_in k (sort_by before xs) ≡ is_in k xs
  unfolding sort_by
  is_in-sort_by k [] = refl
  is_in-sort_by k (x ∷ xs) =
      is_in-insert_by k x (sort_by before xs) ∙ ap (λ b. (x == k) || b) (is_in-sort_by k xs)

  pub sort_by-Ascends : (xs : List ℕ) → NoRepeats xs → Ascends (sort_by before xs)
  unfolding sort_by
  sort_by-Ascends [] d = tt
  sort_by-Ascends (x ∷ xs) d =
      insert_by-Ascends x (sort_by before xs) (is_in-sort_by x xs ∙ d.0) (sort_by-Ascends xs d.1)

  head_in :
      (x y : ℕ) (ys : List ℕ) → Above y ys → is_in x (y ∷ ys) ≡ true → (y ≡ x) ⊎ (before y x ≡ true)
  head_in x y ys a h = elim (Bool-cases (y == x)) [
    | inl t ↦ inl ((==_iff y x).0 t)
    | inr n ↦ inr (Above-is_in y x ys a (ground arith))
  ]

  not-Above : (x : ℕ) (xs : List ℕ) → Above x xs → is_in x xs ≡ false
  not-Above x xs a = elim (Bool-cases (is_in x xs)) [
    | inl t ↦ ground (arith, Above-is_in x x xs a t, o.irreflexive x)
    | inr n ↦ n
  ]

  -- Two lists that ascend and hold the same numbers are one list.
  pub Ascends-unique :
      (xs ys : List ℕ) → Ascends xs → Ascends ys → ((k : ℕ) → is_in k xs ≡ is_in k ys) → xs ≡ ys
  Ascends-unique [] [] a b same = refl
  Ascends-unique [] (y ∷ ys) a b same = ground (arith, same y, ==_iff y y)
  Ascends-unique (x ∷ xs) [] a b same = ground (arith, same x, ==_iff x x)
  Ascends-unique (x ∷ xs) (y ∷ ys) a b same =
      let x_in : is_in x (y ∷ ys) ≡ true = sym (same x) ∙ ground (arith, ==_iff x x) in
      let y_in : is_in y (x ∷ xs) ≡ true = same y ∙ ground (arith, ==_iff y y) in
      let heads : x ≡ y = elim (head_in x y ys b.0 x_in) [
        | inl e ↦ sym e
        | inr f ↦ elim (head_in y x xs a.0 y_in) [
          | inl e ↦ e
          | inr g ↦ ground (arith, o.transitive x y x g f, o.irreflexive x)
        ]
      ] in
      let tails : (k : ℕ) → is_in k xs ≡ is_in k ys = λ k. elim (Bool-cases (x == k)) [
        | inl t ↦
            let here : x ≡ k = (==_iff x k).0 t in
            ap (λ z. is_in z xs) (sym here)
            ∙ not-Above x xs a.0
            ∙ sym (not-Above y ys b.0)
            ∙ ap (λ z. is_in z ys) (sym heads ∙ here)
        | inr n ↦ ground (arith, same k, heads, ==_iff x k, ==_iff y k)
      ] in
      λ i. heads i ∷ Ascends-unique xs ys a.1 b.1 tails i
