-- ===== src/MerkleLog/Step.antt =====
-- One level of the recursions on inclusion proofs of merkle_log.rs.
use jx.Base.{
  ℕ, suc, ◌-◌, ◌≤◌, ◌<◌, ◌≡◌, refl, ◌∙◌, ap, false, Option, some, List, [], ◌∷◌, ◌++◌, take, drop,
  length, ltb, leb, lt→ltb, le→leb, ◌==◌, arith, ◌⊎◌, inl, inr, zero, none, sym,
}
use mathlib.Core.List.{append_assoc}
use mathlib.Core.Option.{some-injective, none-ne-some}
use jx.Roster.{Bytes}
use jx.MerkleLog.{
  Hash, largest_pow2_below, node_hash, mth, mth_fuel, inclusion_path, inclusion_rec, with_sibling,
}

-- the tests of a tree of two leaves or more
one_test : (n : ℕ) → 2 ≤ n → (n == 1) ≡ false
one_test n h = ground arith

small_test : (n : ℕ) → 2 ≤ n → leb n 1 ≡ false
small_test n h = ground arith

past_test : (m n : ℕ) → m < n → leb n m ≡ false
past_test m n h = ground arith

right_test : (m k : ℕ) → k ≤ m → ltb m k ≡ false
right_test m k h = ground arith

-- what one level makes of the levels below it, which leave it the sibling
pub level :
    {A B : Type 0} (join : A → Hash → B) (rec : List Hash → Option (A × List Hash))
    (inner rest : List Hash) (b : Hash) {a : A}
    → rec (inner ++ b ∷ rest) ≡ some (a, b ∷ rest)
    → with_sibling join (rec ((inner ++ b ∷ []) ++ rest)) ≡ some (join a b, rest)
level join rec inner rest b ih =
    ap (λ p. with_sibling join (rec p)) (append_assoc inner (b ∷ []) rest)
    ∙ ap (with_sibling join) ih

pub le_or_lt : (a b : ℕ) → (a ≤ b) ⊎ (b < a)
le_or_lt a b = ground arith

module _ (sha256 : Bytes → Hash) where
  pub inclusion_rec_left :
      (f m n : ℕ) (leaf : Hash) (proof : List Hash)
      → 2 ≤ n
      → m < n
      → m < largest_pow2_below n
      → inclusion_rec sha256 (suc f) m n leaf proof
        ≡ with_sibling
            (λ left sibling. node_hash sha256 left sibling)
            (inclusion_rec sha256 f m (largest_pow2_below n) leaf proof)
  unfolding inclusion_rec
  inclusion_rec_left f m n leaf proof two inside left =
      rw (one_test n two, past_test m n inside, lt→ltb m (largest_pow2_below n) left, inclusion_rec)

  pub inclusion_rec_right :
      (f m n : ℕ) (leaf : Hash) (proof : List Hash)
      → 2 ≤ n
      → m < n
      → largest_pow2_below n ≤ m
      → inclusion_rec sha256 (suc f) m n leaf proof
        ≡ with_sibling
            (λ right sibling. node_hash sha256 sibling right)
            (inclusion_rec sha256 f
              (m - largest_pow2_below n)
              (n - largest_pow2_below n)
              leaf
              proof)
  unfolding inclusion_rec
  inclusion_rec_right f m n leaf proof two inside right = rw (
    one_test n two,
    past_test m n inside,
    right_test m (largest_pow2_below n) right,
    inclusion_rec,
  )

  pub inclusion_of_one :
      (f g : ℕ) (x : Hash) (rest : List Hash)
      → inclusion_rec sha256 (suc f) 0 1 x (inclusion_path sha256 (suc g) 0 (x ∷ []) [] ++ rest)
        ≡ some (mth sha256 (x ∷ []), rest)
  unfolding inclusion_rec inclusion_path mth mth_fuel
  inclusion_of_one f g x rest = refl

  pub inclusion_path_left :
      (f m : ℕ) (leaves out : List Hash)
      → let k = largest_pow2_below (length leaves) in
        2 ≤ length leaves
        → m < k
        → inclusion_path sha256 (suc f) m leaves out
          ≡ inclusion_path sha256 f m (take k leaves) out ++ mth sha256 (drop k leaves) ∷ []
  unfolding inclusion_path
  inclusion_path_left f m leaves out two left = rw (
    small_test (length leaves) two,
    lt→ltb m (largest_pow2_below (length leaves)) left,
    inclusion_path,
  )

  pub inclusion_path_right :
      (f m : ℕ) (leaves out : List Hash)
      → let k = largest_pow2_below (length leaves) in
        2 ≤ length leaves
        → k ≤ m
        → inclusion_path sha256 (suc f) m leaves out
          ≡ inclusion_path sha256 f (m - k) (drop k leaves) out ++ mth sha256 (take k leaves) ∷ []
  unfolding inclusion_path
  inclusion_path_right f m leaves out two right = rw (
    small_test (length leaves) two,
    right_test m (largest_pow2_below (length leaves)) right,
    inclusion_path,
  )

-- How a level of the replay ends with a hash and the nodes left.
module _ (sha256 : Bytes → Hash) where
  pub data Reads (f m n : ℕ) (leaf : Hash) (proof : List Hash) (c : Hash) (rest : List Hash)
      : Type 0 where
    at_leaf : n ≡ 1 → m ≡ 0 → c ≡ leaf → rest ≡ proof → Reads f m n leaf proof c rest
    on_left :
        (a b : Hash)
        → 2 ≤ n
        → m < largest_pow2_below n
        → inclusion_rec sha256 f m (largest_pow2_below n) leaf proof ≡ some (a, b ∷ rest)
        → c ≡ node_hash sha256 a b
        → Reads f m n leaf proof c rest
    on_right :
        (a b : Hash)
        → 2 ≤ n
        → m < n
        → largest_pow2_below n ≤ m
        → inclusion_rec sha256 f (m - largest_pow2_below n) (n - largest_pow2_below n) leaf proof
          ≡ some (a, b ∷ rest)
        → c ≡ node_hash sha256 b a
        → Reads f m n leaf proof c rest

with_sibling-inverse :
    {A B : Type 0} (join : A → Hash → B) (o : Option (A × List Hash)) (c : B) (rest : List Hash)
    → with_sibling join o ≡ some (c, rest)
    → (a : A) × (b : Hash) × (o ≡ some (a, b ∷ rest)) × (c ≡ join a b)
with_sibling-inverse join none c rest e = ground arith
with_sibling-inverse join (some (a, [])) c rest e = ground arith
with_sibling-inverse join (some (a, b ∷ bs)) c rest e = (
  a,
  b,
  ap (λ z. some (a, b ∷ z)) (ap (λ z. z.1) (some-injective _ _ e)),
  sym (ap (λ z. z.0) (some-injective _ _ e)),
)

module _ (sha256 : Bytes → Hash) where
  past_end :
      (f m n : ℕ) (leaf : Hash) (proof : List Hash)
      → (n == 1) ≡ false
      → n ≤ m
      → inclusion_rec sha256 (suc f) m n leaf proof ≡ none
  unfolding inclusion_rec
  past_end f m n leaf proof e h = rw (e, le→leb n m h, inclusion_rec)

  pub inclusion_rec-inverse :
      (f m n : ℕ) (leaf : Hash) (proof : List Hash) (c : Hash) (rest : List Hash)
      → inclusion_rec sha256 (suc f) m n leaf proof ≡ some (c, rest)
      → Reads sha256 f m n leaf proof c rest
  unfolding inclusion_rec
  inclusion_rec-inverse f zero (suc zero) leaf proof c rest e =
      let e' = some-injective (leaf, proof) (c, rest) e in
      at_leaf refl refl (sym (ap (λ z. z.0) e')) (sym (ap (λ z. z.1) e'))
  inclusion_rec-inverse f (suc m) (suc zero) leaf proof c rest e = ground arith
  inclusion_rec-inverse f m zero leaf proof c rest e =
      absurd (none-ne-some _ (sym (past_end f m 0 leaf proof refl (omega arith)) ∙ e))
  inclusion_rec-inverse f m (suc (suc n)) leaf proof c rest e = elim (le_or_lt (suc (suc n)) m) [
    | inl out ↦
        absurd (none-ne-some _ (sym (past_end f m (suc (suc n)) leaf proof (ground arith) out) ∙ e))
    | inr inside ↦ elim (le_or_lt (largest_pow2_below (suc (suc n))) m) [
      | inr before ↦
          let (a, b, e', q) =
            with_sibling-inverse (λ a b. node_hash sha256 a b) _ c rest
              (sym (
                  inclusion_rec_left sha256 f m (suc (suc n)) leaf proof (omega arith) inside
                    before)
                ∙ e) in
          on_left a b (omega arith) before e' q
      | inl after ↦
          let (a, b, e', q) =
            with_sibling-inverse (λ a b. node_hash sha256 b a) _ c rest
              (sym (
                  inclusion_rec_right sha256 f m (suc (suc n)) leaf proof (omega arith) inside
                    after)
                ∙ e) in
          on_right a b (omega arith) inside after e' q
    ]
  ]
