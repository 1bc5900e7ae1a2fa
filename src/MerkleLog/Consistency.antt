-- ===== src/MerkleLog/Consistency.antt =====
-- `prove_consistency` of merkle_log.rs against `verify_consistency`.
use jx.Base.{
  ℕ, zero, suc, ◌-◌, ◌≤◌, ◌<◌, ◌≡◌, refl, sym, ◌∙◌, ap, subst, Bool, true, false, some, List, [],
  ◌++◌, take, drop, length, length-take, length-drop, ltb, ◌==◌, ==_iff, inl, inr, list_beq_iff,
  nat_eq, arith,
}
use mathlib.Core.List.{append-nil}
use jx.Roster.{Bytes}
use jx.MerkleLog.{
  Hash, ConsistencyProof, largest_pow2_below, node_hash, mth, mth_fuel, consistency_subproof,
  consistency_rec, prove_consistency, verify_consistency, with_sibling,
}
use jx.MerkleLog.Split.{largest_pow2_below_between}
use jx.MerkleLog.Root.{mth_node}
use jx.MerkleLog.Prefix.{
  take_all, take-take, mth_prefix, rec_left, rec_right, subproof_left, subproof_right, rec_whole,
}
use jx.MerkleLog.Step.{level, le_or_lt}

module _ (sha256 : Bytes → Hash) where
  -- that the nodes written for a prefix are read back to the roots of the prefix and of the whole, and
  -- the nodes after them left, for `f` and `g` units of fuel
  abbrev ReadsBack : ℕ → ℕ → Type 0
  ReadsBack f g =
      (n m : ℕ) (leaves : List Hash) (b : Bool) (known : Hash) (rest : List Hash)
      → length leaves ≡ n
      → n ≤ f
      → n ≤ g
      → 1 ≤ m
      → m ≤ n
      → (b ≡ true → known ≡ mth sha256 (take m leaves))
      → consistency_rec sha256 f m n b (consistency_subproof sha256 g m leaves b [] ++ rest) known
        ≡ some ((mth sha256 (take m leaves), mth sha256 leaves), rest)

  module _ (f g m : ℕ) (leaves : List Hash) (b : Bool) (known : Hash) (rest : List Hash)
      (p : length leaves ≤ suc f) (q : length leaves ≤ suc g) (one : 1 ≤ m)
      (part : m < length leaves) (e : b ≡ true → known ≡ mth sha256 (take m leaves))
      (ih : ReadsBack f g) where
    abbrev Level : Type 0
    Level =
        consistency_rec sha256 (suc f) m (length leaves) b
          (consistency_subproof sha256 (suc g) m leaves b [] ++ rest) known
        ≡ some ((mth sha256 (take m leaves), mth sha256 leaves), rest)

    left_side : m ≤ largest_pow2_below (length leaves) → Level
    left_side before =
        let n' = length leaves in
        let k = largest_pow2_below n' in
        let two : 2 ≤ n' = omega arith in
        let between = largest_pow2_below_between n' two in
        rec_left sha256 f m n' b _ known part before
        ∙ ap
            (λ z.
              with_sibling (λ (s : Hash × Hash) h. (s.0, node_hash sha256 s.1 h))
                (consistency_rec sha256 f m k b (z ++ rest) known))
            (subproof_left sha256 g m leaves b [] part before)
        ∙ level _ (λ z. consistency_rec sha256 f m k b z known)
            (consistency_subproof sha256 g m (take k leaves) b []) rest _
            (ih k m (take k leaves) b known _ (length-take k leaves ∙ omega (arith, between))
              (omega (arith, between)) (omega (arith, between)) one before
              (λ t. e t ∙ ap (mth sha256) (sym (take-take m k leaves before))))
        ∙ (λ i. some (
          (mth sha256 (take-take m k leaves before i), sym (mth_node sha256 leaves two) i),
          rest,
        ))

    right_side : largest_pow2_below (length leaves) < m → Level
    right_side after =
        let n' = length leaves in
        let k = largest_pow2_below n' in
        let two : 2 ≤ n' = omega arith in
        let between = largest_pow2_below_between n' two in
        rec_right sha256 f m n' b _ known part after
        ∙ ap
            (λ z.
              with_sibling (λ (s : Hash × Hash) h. (node_hash sha256 h s.0, node_hash sha256 h s.1))
                (consistency_rec sha256 f (m - k) (n' - k) false (z ++ rest) known))
            (subproof_right sha256 g m leaves b [] part after)
        ∙ level _ (λ z. consistency_rec sha256 f (m - k) (n' - k) false z known)
            (consistency_subproof sha256 g (m - k) (drop k leaves) false []) rest _
            (ih (n' - k) (m - k) (drop k leaves) false known _ (length-drop k leaves)
              (omega (arith, between)) (omega (arith, between)) (omega arith) (omega arith)
              (λ t. ground arith))
        ∙ (λ i. some (
          (
            sym (mth_prefix sha256 leaves m two after (omega arith)) i,
            sym (mth_node sha256 leaves two) i,
          ),
          rest,
        ))

  consistency_rec-consistency_subproof : (f g : ℕ) → ReadsBack f g
  consistency_rec-consistency_subproof zero g n m leaves b known rest l p q one inside e =
      absurd (omega arith)
  consistency_rec-consistency_subproof (suc f) zero n m leaves b known rest l p q one inside e =
      absurd (omega arith)
  consistency_rec-consistency_subproof (suc f) (suc g) n m leaves b known rest l p q one inside e =
      subst
        (λ z.
          consistency_rec sha256 (suc f) m z b
            (consistency_subproof sha256 (suc g) m leaves b [] ++ rest) known
          ≡ some ((mth sha256 (take m leaves), mth sha256 leaves), rest))
        l
        (elim (le_or_lt n m) [
          | inl whole ↦ rec_whole sha256 f g m leaves b rest known (omega arith) e
          | inr part ↦
              let ih = consistency_rec-consistency_subproof f g in
              let part : m < length leaves = omega arith in
              elim (le_or_lt m (largest_pow2_below (length leaves))) [
                | inl before ↦
                    left_side f g m leaves b known rest (omega arith) (omega arith) one part e ih
                      before
                | inr after ↦
                    right_side f g m leaves b known rest (omega arith) (omega arith) one part e ih
                      after
              ]
        ])

  -- Every prefix of a log has a consistency proof, and the proof is accepted against the root of the
  -- prefix and the root of the log.
  pub verify_consistency-prove_consistency :
      (leaves : List Hash) (old_count : ℕ)
      → old_count ≤ length leaves
      → (proof : ConsistencyProof) × (prove_consistency sha256 leaves old_count ≡ some proof)
        × (verify_consistency sha256 (mth sha256 (take old_count leaves)) proof (mth sha256 leaves)
            ≡ true)
  unfolding prove_consistency verify_consistency mth mth_fuel
  verify_consistency-prove_consistency leaves zero h =
      let n = length leaves in
      let in_reach : ltb n 0 ≡ false = ground arith in
      (record { old_leaf_count = 0; new_leaf_count = n; nodes = [] }, rw in_reach, rw in_reach)
  verify_consistency-prove_consistency leaves (suc old) h =
      elim (le_or_lt (length leaves) (suc old)) [
        | inl whole ↦
            let n = length leaves in
            let m = suc old in
            let e : m ≡ n = omega arith in
            let in_reach : ltb n m ≡ false = ground arith in
            let nothing : ltb m n ≡ false = ground arith in
            let positive : ltb 0 m ≡ true = ground arith in
            let not_zero : (m == 0) ≡ false = ground arith in
            let all : take m leaves ≡ leaves = ap (λ z. take z leaves) e ∙ take_all leaves in
            (
              record { old_leaf_count = m; new_leaf_count = n; nodes = [] },
              rw (in_reach, positive, nothing),
              rw (in_reach, not_zero, (==_iff m n).1 e, all)
                  ((list_beq_iff (mth sha256 leaves) (mth sha256 leaves)).1 refl),
            )
        | inr part ↦
            let n = length leaves in
            let m = suc old in
            let in_reach : ltb n m ≡ false = ground arith in
            let some_nodes : ltb m n ≡ true = ground arith in
            let positive : ltb 0 m ≡ true = ground arith in
            let not_zero : (m == 0) ≡ false = ground arith in
            let not_all : (m == n) ≡ false = ground arith in
            let old_root = mth sha256 (take m leaves) in
            let path = consistency_subproof sha256 n m leaves true [] in
            let replayed : consistency_rec sha256 n m n true path old_root
                ≡ some ((old_root, mth sha256 leaves), []) =
              ap (λ z. consistency_rec sha256 n m n true z old_root) (sym (append-nil path))
              ∙ consistency_rec-consistency_subproof n n n m leaves true old_root [] refl
                  (omega arith) (omega arith) (omega arith) (omega arith) (λ t. refl) in
            (
              record { old_leaf_count = m; new_leaf_count = n; nodes = path },
              rw (in_reach, positive, some_nodes),
              rw (in_reach, not_zero, not_all, replayed, (list_beq_iff old_root old_root).1 refl)
                  ((list_beq_iff (mth sha256 leaves) (mth sha256 leaves)).1 refl),
            )
      ]
