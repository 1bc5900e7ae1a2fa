-- ===== src/MerkleLog/Inclusion.antt =====
-- `prove_inclusion` of merkle_log.rs against `verify_inclusion`.
use jx.Base.{
  ℕ, zero, suc, ◌-◌, ◌≤◌, ◌<◌, ◌≡◌, refl, sym, ◌∙◌, ap, true, false, some, List, [], ◌∷◌, ◌++◌,
  take, drop, length, get_elem?, length-take, length-drop, get_elem?-take, get_elem?-drop, leb,
  ◌==◌, inl, inr, list_beq_iff, nat_eq, arith, subst,
}
use mathlib.Core.Option.{some-injective}
use mathlib.Core.List.{append-nil}
use jx.Roster.{Bytes}
use jx.MerkleLog.{
  Hash, InclusionProof, largest_pow2_below, node_hash, mth, inclusion_path, prove_inclusion,
  inclusion_rec, verify_inclusion, with_sibling,
}
use jx.MerkleLog.Split.{largest_pow2_below_between}
use jx.MerkleLog.Step.{
  le_or_lt, inclusion_of_one, level, inclusion_rec_left, inclusion_rec_right, inclusion_path_left,
  inclusion_path_right,
}
use jx.MerkleLog.Root.{mth_node}

get_elem?-inside :
    (leaves : List Hash) (m : ℕ) {leaf : Hash} → get_elem? leaves m ≡ some leaf → m < length leaves
get_elem?-inside [] m e = ground arith
get_elem?-inside (x ∷ xs) zero e = omega arith
get_elem?-inside (x ∷ xs) (suc m) e = omega (arith, get_elem?-inside xs m e)

module _ (sha256 : Bytes → Hash) where
  -- The nodes written for a leaf are read back to the root, and the nodes after them are left.
  pub inclusion_rec-inclusion_path :
      (f g m n : ℕ) (leaves : List Hash) (leaf : Hash) (rest : List Hash)
      → length leaves ≡ n
      → n ≤ f
      → n ≤ g
      → get_elem? leaves m ≡ some leaf
      → inclusion_rec sha256 f m n leaf (inclusion_path sha256 g m leaves [] ++ rest)
        ≡ some (mth sha256 leaves, rest)
  inclusion_rec-inclusion_path f g m n [] leaf rest l p q e = ground arith
  inclusion_rec-inclusion_path zero g m n (x ∷ xs) leaf rest l p q e = absurd (omega arith)
  inclusion_rec-inclusion_path (suc f) zero m n (x ∷ xs) leaf rest l p q e = absurd (omega arith)
  inclusion_rec-inclusion_path (suc f) (suc g) zero n (x ∷ []) leaf rest l p q e =
      rw (← l, ← some-injective x leaf e) (inclusion_of_one sha256 f g x rest)
  inclusion_rec-inclusion_path (suc f) (suc g) (suc m) n (x ∷ []) leaf rest l p q e = ground arith
  inclusion_rec-inclusion_path (suc f) (suc g) m n (x ∷ y ∷ xs) leaf rest l p q e =
      subst Reads l (elim (le_or_lt k m) [
        | inr before ↦
            inclusion_rec_left sha256 f m n' leaf _ two inside before
            ∙ ap
                (λ z.
                  with_sibling (λ a b. node_hash sha256 a b)
                    (inclusion_rec sha256 f m k leaf (z ++ rest)))
                (inclusion_path_left sha256 g m leaves [] two before)
            ∙ level _ (λ z. inclusion_rec sha256 f m k leaf z)
                (inclusion_path sha256 g m (take k leaves) []) rest _
                (inclusion_rec-inclusion_path f g m k (take k leaves) leaf _ left
                  (omega (arith, between)) (omega (arith, between))
                  (get_elem?-take k m leaves before ∙ e))
            ∙ ap (λ z. some (z, rest)) (sym (mth_node sha256 leaves two))
        | inl after ↦
            inclusion_rec_right sha256 f m n' leaf _ two inside after
            ∙ ap
                (λ z.
                  with_sibling (λ a b. node_hash sha256 b a)
                    (inclusion_rec sha256 f (m - k) (n' - k) leaf (z ++ rest)))
                (inclusion_path_right sha256 g m leaves [] two after)
            ∙ level _ (λ z. inclusion_rec sha256 f (m - k) (n' - k) leaf z)
                (inclusion_path sha256 g (m - k) (drop k leaves) []) rest _
                (inclusion_rec-inclusion_path f g (m - k) (n' - k) (drop k leaves) leaf _ right
                  (omega (arith, between)) (omega (arith, between))
                  (get_elem?-drop k m leaves after ∙ e))
            ∙ ap (λ z. some (z, rest)) (sym (mth_node sha256 leaves two))
      ])
    where
      leaves : List Hash
      leaves = x ∷ y ∷ xs

      n' : ℕ
      n' = length leaves

      k : ℕ
      k = largest_pow2_below n'

      Reads : ℕ → Type 0
      Reads z =
          inclusion_rec sha256 (suc f) m z leaf (inclusion_path sha256 (suc g) m leaves [] ++ rest)
          ≡ some (mth sha256 leaves, rest)

      two : 2 ≤ length leaves
      two = omega arith

      inside : m < length leaves
      inside = get_elem?-inside leaves m e

      between : (1 ≤ k) × (k < length leaves)
      between = largest_pow2_below_between (length leaves) two

      left : length (take k leaves) ≡ k
      left = length-take k leaves ∙ omega (arith, between)

      right : length (drop k leaves) ≡ n' - k
      right = length-drop k leaves

  -- Every leaf of a log has an inclusion proof, and the proof is accepted against the root of the log.
  pub verify_inclusion-prove_inclusion :
      (leaves : List Hash) (index : ℕ) (leaf : Hash)
      → get_elem? leaves index ≡ some leaf
      → (proof : InclusionProof) × (prove_inclusion sha256 leaves index ≡ some proof)
        × (verify_inclusion sha256 leaf proof (mth sha256 leaves) ≡ true)
  unfolding prove_inclusion verify_inclusion
  verify_inclusion-prove_inclusion leaves index leaf e =
      let n = length leaves in
      let inside = get_elem?-inside leaves index e in
      let past : leb n index ≡ false = ground arith in
      let some_leaf : (n == 0) ≡ false = ground arith in
      let path = inclusion_path sha256 n index leaves [] in
      let read =
        inclusion_rec-inclusion_path n n index n leaves leaf [] refl (omega arith) (omega arith)
          e in
      let folded : inclusion_rec sha256 n index n leaf path ≡ some (mth sha256 leaves, []) =
        ap (λ z. inclusion_rec sha256 n index n leaf z) (sym (append-nil path)) ∙ read in
      (
        record { leaf_index = index; leaf_count = n; nodes = path },
        rw past,
        rw (some_leaf, past, folded)
            ((list_beq_iff (mth sha256 leaves) (mth sha256 leaves)).1 refl),
      )
