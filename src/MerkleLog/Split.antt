-- ===== src/MerkleLog/Split.antt =====
-- The split point of the tree, `largest_pow2_below` of merkle_log.rs.
use jx.Base.{
  ℕ, zero, suc, ◌*◌, ◌/◌, ◌^◌, ◌≤◌, ◌<◌, ◌≡◌, sym, ◌∙◌, ap, ltb, ◌==◌, nat_eq, ==_iff, Bool-cases,
  ltb→lt, ◌≢◌, subst, if◌then◌else◌, arith, ◌⊎◌, inl, inr,
}
use jx.MerkleLog.{ilog2, largest_pow2_below}

-- A number lies between the power of two of its logarithm and the next.
pub ilog2_bounds :
    (fuel n : ℕ) → 1 ≤ n → n ≤ fuel → (2 ^ ilog2 fuel n ≤ n) × (n < 2 * 2 ^ ilog2 fuel n)
unfolding ilog2
ilog2_bounds zero n p h = absurd (omega arith)
ilog2_bounds (suc fuel) n p h = elim (Bool-cases (ltb n 2)) [
  | inl e ↦ let small = ltb→lt n 2 e in rw (e, ilog2) (omega arith, omega arith)
  | inr e ↦
      let half : 1 ≤ n / 2 = ground (arith, e) in
      let below : n / 2 ≤ fuel = omega arith in
      let ih = ilog2_bounds fuel (n / 2) half below in
      rw (e, ilog2) (omega (arith, ih.0), omega (arith, ih.1))
]

pub pow2_positive : (i : ℕ) → 1 ≤ 2 ^ i
pow2_positive zero = omega arith
pow2_positive (suc i) = omega (arith, pow2_positive i)

-- The split point is a power of two below the size, whose double is not.
pub largest_pow2_below_bounds :
    (n : ℕ) → 2 ≤ n → (j : ℕ) × (largest_pow2_below n ≡ 2 ^ j) × (2 ^ j < n) × (n ≤ 2 * 2 ^ j)
unfolding largest_pow2_below
largest_pow2_below_bounds n h = go (ilog2 n n) (ilog2_bounds n n (omega arith) (omega arith))
  where
    go :
        (i : ℕ)
        → (2 ^ i ≤ n) × (n < 2 * 2 ^ i)
        → (j : ℕ) × ((let floor = 2 ^ i in if floor == n then floor / 2 else floor) ≡ 2 ^ j)
          × (2 ^ j < n)
          × (n ≤ 2 * 2 ^ j)
    go zero b = absurd (omega (arith, b.1))
    go (suc i) b = elim (Bool-cases (2 ^ suc i == n)) [
      | inl e ↦
          let same : 2 ^ suc i ≡ n = (==_iff _ _).0 e in
          (i, rw e (omega arith), omega (arith, b.0, pow2_positive i), omega arith)
      | inr e ↦
          let other : 2 ^ suc i ≢ n = λ q. ground (arith, (==_iff _ _).1 q) in
          (suc i, rw e, omega (arith, b.0), omega (arith, b.1))
    ]

pow2_mono : (i j : ℕ) → i < j → 2 * 2 ^ i ≤ 2 ^ j
pow2_mono i zero h = absurd (omega arith)
pow2_mono zero (suc j) h = omega (arith, pow2_positive j)
pow2_mono (suc i) (suc j) h = omega (arith, pow2_mono i j (omega arith))

-- The split point leaves something on both sides.
pub largest_pow2_below_between :
    (n : ℕ) → 2 ≤ n → (1 ≤ largest_pow2_below n) × (largest_pow2_below n < n)
largest_pow2_below_between n h =
    let (j, e, below, _) = largest_pow2_below_bounds n h in rw e (pow2_positive j, below)

-- A smaller tree that goes past the split point splits at the same point.
pub largest_pow2_below_same :
    (m n : ℕ)
    → 2 ≤ n
    → largest_pow2_below n < m
    → m ≤ n
    → largest_pow2_below m ≡ largest_pow2_below n
largest_pow2_below_same m n h past le =
    let (j, en, lown, highn) = largest_pow2_below_bounds n h in
    let (i, em, lowm, highm) =
      largest_pow2_below_bounds m (omega (arith, (largest_pow2_below_between n h).0)) in
    let past' : 2 ^ j < m = subst (λ x. x < m) en past in
    elim (trichotomy i j) [
      | inl lt ↦ absurd (omega (arith, pow2_mono i j lt))
      | inr (inl same) ↦ em ∙ ap (λ x. 2 ^ x) same ∙ sym en
      | inr (inr gt) ↦ absurd (omega (arith, pow2_mono j i gt))
    ]
  where
    trichotomy : (i j : ℕ) → (i < j) ⊎ (i ≡ j) ⊎ (j < i)
    trichotomy i j = ground arith
