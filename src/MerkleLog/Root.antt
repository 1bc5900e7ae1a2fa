-- ===== src/MerkleLog/Root.antt =====
-- The tree hash `mth` of merkle_log.rs and its fuel.
use jx.Base.{
  ℕ, ◌^◌, ◌*◌, ◌<◌, ◌++◌, subst, sym, zero, suc, ◌≤◌, ◌≡◌, refl, List, [], ◌∷◌, take, drop, length,
  length-take, length-drop, arith,
}
use jx.Roster.{Bytes}
use jx.MerkleLog.{Hash, empty_root, largest_pow2_below, node_hash, mth_fuel, mth}
use jx.MerkleLog.Split.{largest_pow2_below_between, largest_pow2_below_bounds, pow2_positive}

cong_node :
    (sha256 : Bytes → Hash) {a b c d : Hash}
    → a ≡ c
    → b ≡ d
    → node_hash sha256 a b ≡ node_hash sha256 c d
cong_node sha256 p q i = node_hash sha256 (p i) (q i)

module _ (sha256 : Bytes → Hash) where
  -- With as much fuel as there are leaves, more of it changes nothing.
  mth_fuel-enough :
      (f g : ℕ) (leaves : List Hash)
      → length leaves ≤ f
      → length leaves ≤ g
      → mth_fuel sha256 f leaves ≡ mth_fuel sha256 g leaves
  unfolding mth_fuel
  mth_fuel-enough f g [] p q = refl
  mth_fuel-enough f g (x ∷ []) p q = refl
  mth_fuel-enough zero g (x ∷ y ∷ xs) p q = absurd (omega arith)
  mth_fuel-enough (suc f) zero (x ∷ y ∷ xs) p q = absurd (omega arith)
  mth_fuel-enough (suc f) (suc g) (x ∷ y ∷ xs) p q =
      let n = length (x ∷ y ∷ xs) in
      let k = largest_pow2_below n in
      let (one, below) = largest_pow2_below_between n (omega arith) in
      let left = length-take k (x ∷ y ∷ xs) in
      let right = length-drop k (x ∷ y ∷ xs) in
      cong_node sha256 (mth_fuel-enough f g (take k (x ∷ y ∷ xs)) (omega arith) (omega arith))
        (mth_fuel-enough f g (drop k (x ∷ y ∷ xs)) (omega arith) (omega arith))

  -- A tree of two leaves or more is the node over the trees on the two sides of its split point.
  pub mth_node :
      (leaves : List Hash)
      → 2 ≤ length leaves
      → let k = largest_pow2_below (length leaves) in
        mth sha256 leaves
        ≡ node_hash sha256 (mth sha256 (take k leaves)) (mth sha256 (drop k leaves))
  unfolding mth mth_fuel
  mth_node [] h = absurd (omega arith)
  mth_node (x ∷ []) h = absurd (omega arith)
  mth_node (x ∷ y ∷ xs) h =
      let n = length (x ∷ y ∷ xs) in
      let k = largest_pow2_below n in
      let (one, below) = largest_pow2_below_between n (omega arith) in
      let left = length-take k (x ∷ y ∷ xs) in
      let right = length-drop k (x ∷ y ∷ xs) in
      cong_node sha256
        (mth_fuel-enough (suc (length xs)) (length (take k (x ∷ y ∷ xs))) (take k (x ∷ y ∷ xs))
          (omega arith) (omega arith))
        (mth_fuel-enough (suc (length xs)) (length (drop k (x ∷ y ∷ xs))) (drop k (x ∷ y ∷ xs))
          (omega arith) (omega arith))

  pub mth_one : (x : Hash) → mth sha256 (x ∷ []) ≡ x
  unfolding mth mth_fuel
  mth_one x = refl

  -- The tree hash of RFC 6962: that of no leaf is the constant digest of no bytes, that of one
  -- leaf is the leaf, and that of more splits them after the largest power of two below their number.
  pub data IsTreeHash : List Hash → Hash → Type 0 where
    of_none : IsTreeHash [] empty_root
    of_one : (leaf : Hash) → IsTreeHash (leaf ∷ []) leaf
    of_more :
        (leaves : List Hash) (j : ℕ) (left right : Hash)
        → 2 ^ j < length leaves
        → length leaves ≤ 2 * 2 ^ j
        → IsTreeHash (take (2 ^ j) leaves) left
        → IsTreeHash (drop (2 ^ j) leaves) right
        → IsTreeHash leaves (sha256 (1 ∷ (left ++ right)))

  mth_fuel-IsTreeHash :
      (fuel : ℕ) (leaves : List Hash)
      → length leaves ≤ fuel
      → IsTreeHash leaves (mth_fuel sha256 fuel leaves)
  unfolding mth_fuel node_hash
  mth_fuel-IsTreeHash fuel [] h = of_none
  mth_fuel-IsTreeHash fuel (x ∷ []) h = of_one x
  mth_fuel-IsTreeHash zero (x ∷ y ∷ xs) h = absurd (omega arith)
  mth_fuel-IsTreeHash (suc fuel) (x ∷ y ∷ xs) h =
      let leaves = x ∷ y ∷ xs in
      let (j, split, below, above) = largest_pow2_below_bounds (length leaves) (omega arith) in
      let shorter = length-take (2 ^ j) leaves in
      let rest = length-drop (2 ^ j) leaves in
      let positive = pow2_positive j in
      let node =
        of_more leaves j (mth_fuel sha256 fuel (take (2 ^ j) leaves))
          (mth_fuel sha256 fuel (drop (2 ^ j) leaves)) below above
          (mth_fuel-IsTreeHash fuel (take (2 ^ j) leaves) (omega arith))
          (mth_fuel-IsTreeHash fuel (drop (2 ^ j) leaves) (omega arith)) in
      subst
        (λ k. IsTreeHash leaves (
          node_hash sha256 (mth_fuel sha256 fuel (take k leaves))
            (mth_fuel sha256 fuel (drop k leaves))))
        (sym split) node

  -- The hash that `mth` gives, on the fuel it runs on, is the tree hash of RFC 6962.
  pub mth-IsTreeHash : (leaves : List Hash) → IsTreeHash leaves (mth sha256 leaves)
  unfolding mth
  mth-IsTreeHash leaves = mth_fuel-IsTreeHash (length leaves) leaves (omega arith)
