-- ===== src/MerkleLog/Prefix.antt =====
-- One level of the recursions on consistency proofs of merkle_log.rs.
use jx.Base.{
  ℕ, zero, suc, ◌-◌, ◌≤◌, ◌<◌, ◌≡◌, refl, ◌∙◌, ap, Bool, true, false, some, List, [], ◌∷◌, ◌++◌,
  take, drop, length, length-take, ltb, leb, le→leb, ◌==◌, ==_iff, nat_eq, arith,
}
use jx.Roster.{Bytes}
use jx.MerkleLog.{
  Hash, largest_pow2_below, node_hash, mth, consistency_subproof, consistency_rec, with_sibling,
}
use jx.MerkleLog.Split.{largest_pow2_below_between, largest_pow2_below_same}
use jx.MerkleLog.Root.{mth_node}

pub take_all : {A : Type 0} (xs : List A) → take (length xs) xs ≡ xs
take_all [] = refl
take_all (x ∷ xs) = ap (λ r. x ∷ r) (take_all xs)

pub take-take : {A : Type 0} (m k : ℕ) (xs : List A) → m ≤ k → take m (take k xs) ≡ take m xs
take-take zero k xs h = refl
take-take (suc m) zero xs h = absurd (omega arith)
take-take (suc m) (suc k) [] h = refl
take-take (suc m) (suc k) (x ∷ xs) h = ap (λ r. x ∷ r) (take-take m k xs (omega arith))

take_nil : {A : Type 0} (n : ℕ) → [] ≡ take {A = A} n []
take_nil zero = refl
take_nil (suc n) = refl

drop-take : {A : Type 0} (k m : ℕ) (xs : List A) → drop k (take m xs) ≡ take (m - k) (drop k xs)
drop-take zero m xs = let e : m ≡ m - 0 = omega arith in ap (λ n. take n xs) e
drop-take (suc k) zero xs =
    let e : 0 ≡ 0 - suc k = omega arith in ap (λ n. take n (drop (suc k) xs)) e
drop-take (suc k) (suc m) [] = take_nil (suc m - suc k)
drop-take (suc k) (suc m) (x ∷ xs) =
    let e : m - k ≡ suc m - suc k = omega arith in drop-take k m xs ∙ ap (λ n. take n (drop k xs)) e

same_test : (n : ℕ) → (n == n) ≡ true
same_test n = (==_iff n n).1 refl

less_tests : (m n : ℕ) → m < n → ((m == n) ≡ false) × (ltb n m ≡ false)
less_tests m n h = ground arith

right_test : (m k : ℕ) → k < m → leb m k ≡ false
right_test m k h = ground arith

module _ (sha256 : Bytes → Hash) where
  -- A prefix that goes past the split point is the node over the left side and the prefix of the right.
  pub mth_prefix :
      (leaves : List Hash) (m : ℕ)
      → let k = largest_pow2_below (length leaves) in
        2 ≤ length leaves
        → k < m
        → m ≤ length leaves
        → mth sha256 (take m leaves)
          ≡ node_hash sha256
              (mth sha256 (take k leaves))
              (mth sha256 (take (m - k) (drop k leaves)))
  mth_prefix leaves m two past inside =
      let n = length leaves in
      let k = largest_pow2_below n in
      let between = largest_pow2_below_between n two in
      let size : length (take m leaves) ≡ m = length-take m leaves ∙ omega arith in
      let same : largest_pow2_below (length (take m leaves)) ≡ k =
        ap largest_pow2_below size ∙ largest_pow2_below_same m n two past inside in
      mth_node sha256 (take m leaves) (omega (arith, between))
      ∙ ap
          (λ j.
            node_hash sha256 (mth sha256 (take j (take m leaves)))
              (mth sha256 (drop j (take m leaves))))
          same
      ∙ ap (λ z. node_hash sha256 (mth sha256 z) (mth sha256 (drop k (take m leaves))))
          (take-take k m leaves (omega arith))
      ∙ ap (λ z. node_hash sha256 (mth sha256 (take k leaves)) (mth sha256 z))
          (drop-take k m leaves)

  pub rec_left :
      (f m n : ℕ) (b : Bool) (proof : List Hash) (known : Hash)
      → m < n
      → m ≤ largest_pow2_below n
      → consistency_rec sha256 (suc f) m n b proof known
        ≡ with_sibling
            (λ (s : Hash × Hash) sibling. (s.0, node_hash sha256 s.1 sibling))
            (consistency_rec sha256 f m (largest_pow2_below n) b proof known)
  unfolding consistency_rec
  rec_left f m n b proof known inside left = rw (
    (less_tests m n inside).0,
    (less_tests m n inside).1,
    le→leb m (largest_pow2_below n) left,
    consistency_rec,
  )

  pub rec_right :
      (f m n : ℕ) (b : Bool) (proof : List Hash) (known : Hash)
      → m < n
      → largest_pow2_below n < m
      → consistency_rec sha256 (suc f) m n b proof known
        ≡ with_sibling
            (λ (s : Hash × Hash) sibling.
              (node_hash sha256 sibling s.0, node_hash sha256 sibling s.1))
            (consistency_rec sha256 f
              (m - largest_pow2_below n)
              (n - largest_pow2_below n)
              false
              proof
              known)
  unfolding consistency_rec
  rec_right f m n b proof known inside right = rw (
    (less_tests m n inside).0,
    (less_tests m n inside).1,
    right_test m (largest_pow2_below n) right,
    consistency_rec,
  )

  pub subproof_left :
      (f m : ℕ) (leaves : List Hash) (b : Bool) (out : List Hash)
      → let k = largest_pow2_below (length leaves) in
        m < length leaves
        → m ≤ k
        → consistency_subproof sha256 (suc f) m leaves b out
          ≡ consistency_subproof sha256 f m (take k leaves) b out ++ mth sha256 (drop k leaves) ∷ []
  unfolding consistency_subproof
  subproof_left f m leaves b out inside left = rw (
    (less_tests m (length leaves) inside).0,
    le→leb m (largest_pow2_below (length leaves)) left,
    consistency_subproof,
  )

  pub subproof_right :
      (f m : ℕ) (leaves : List Hash) (b : Bool) (out : List Hash)
      → let k = largest_pow2_below (length leaves) in
        m < length leaves
        → k < m
        → consistency_subproof sha256 (suc f) m leaves b out
          ≡ consistency_subproof sha256 f (m - k) (drop k leaves) false out
            ++ mth sha256 (take k leaves) ∷ []
  unfolding consistency_subproof
  subproof_right f m leaves b out inside right = rw (
    (less_tests m (length leaves) inside).0,
    right_test m (largest_pow2_below (length leaves)) right,
    consistency_subproof,
  )

  -- the case of a prefix that is the whole
  pub rec_whole :
      (f g m : ℕ) (leaves : List Hash) (b : Bool) (rest : List Hash) (known : Hash)
      → m ≡ length leaves
      → (b ≡ true → known ≡ mth sha256 (take m leaves))
      → consistency_rec sha256
          (suc f)
          m
          (length leaves)
          b
          (consistency_subproof sha256 (suc g) m leaves b [] ++ rest)
          known
        ≡ some ((mth sha256 (take m leaves), mth sha256 leaves), rest)
  unfolding consistency_rec consistency_subproof
  rec_whole f g m leaves true rest known e k =
      let whole = ap (λ z. take z leaves) e ∙ take_all leaves in
      let written : consistency_subproof sha256 (suc g) m leaves true [] ≡ [] =
        rw ((==_iff m (length leaves)).1 e, consistency_subproof) in
      rw ((==_iff m (length leaves)).1 e, consistency_rec, written, k refl, whole)
  rec_whole f g m leaves false rest known e k =
      let whole = ap (λ z. take z leaves) e ∙ take_all leaves in
      let written : consistency_subproof sha256 (suc g) m leaves false [] ≡ mth sha256 leaves ∷ [] =
        rw ((==_iff m (length leaves)).1 e, consistency_subproof) in
      rw ((==_iff m (length leaves)).1 e, consistency_rec, written, whole)
