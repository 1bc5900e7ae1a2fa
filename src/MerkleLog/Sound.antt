-- ===== src/MerkleLog/Sound.antt =====
-- `verify_inclusion` of merkle_log.rs against the leaves of a log, up to collisions of the digest.
use jx.Base.{
  ℕ, zero, suc, ◌-◌, ◌≤◌, ◌≡◌, ◌≢◌, sym, ◌∙◌, ap, Bool, true, false, Option, none, some, List, [],
  ◌∷◌, ◌++◌, take, drop, length, get_elem?, get_elem?-take, get_elem?-drop, if◌then◌else◌,
  length-take, length-drop, take-append, drop-append, All, All-take, All-drop, arith, ◌⊎◌, inl, inr,
  list_beq, list_beq_iff, Bool-cases, nat_eq, subst,
}
use jx.Roster.{Bytes}
use mathlib.Core.Option.{none-ne-some}
use jx.MerkleLog.{
  Hash, InclusionProof, largest_pow2_below, node_hash, mth, inclusion_rec, verify_inclusion,
  folds_to,
}
use jx.MerkleLog.Step.{at_leaf, on_left, on_right, inclusion_rec-inverse}
use jx.MerkleLog.Root.{mth_node, mth_one}
use jx.MerkleLog.Split.{largest_pow2_below_between}

-- A [u8; 32] has 32 bytes.
abbrev pub Is32 : Hash → Type 0
Is32 h = length h ≡ 32

-- Two inputs of one digest.
abbrev pub Collision : (Bytes → Hash) → Type 0
Collision sha256 = (x : Bytes) × (y : Bytes) × (x ≢ y) × (sha256 x ≡ sha256 y)

pub map_left : {P Q C : Type 0} → (P → Q) → P ⊎ C → Q ⊎ C
map_left f (inl p) = inl (f p)
map_left f (inr c) = inr c

-- an accepted fold leaves no node over
folded :
    (root : Hash) (o : Option (Hash × List Hash)) → folds_to root o ≡ true → o ≡ some (root, [])
folded root none e = ground arith
folded root (some (c, [])) e = ap (λ z. some (z, [])) ((list_beq_iff c root).0 e)
folded root (some (c, b ∷ bs)) e = ground arith

if_true : (b : Bool) {x : Bool} → (if b then false else x) ≡ true → x ≡ true
if_true true e = ground arith
if_true false e = e

-- Two appends with left parts of one length agree in both parts.
pub append_split :
    (a b c d : List ℕ) → length a ≡ length c → (a ++ b) ≡ (c ++ d) → (a ≡ c) × (b ≡ d)
append_split a b c d l e = (
  sym (take-append a b) ∙ ap (take (length a)) e ∙ ap (λ n. take n (c ++ d)) l ∙ take-append c d,
  sym (drop-append a b) ∙ ap (drop (length a)) e ∙ ap (λ n. drop n (c ++ d)) l ∙ drop-append c d,
)

module _ (sha256 : Bytes → Hash) where
  -- Two pairs of hashes under one node are one pair, or their encodings collide.
  pub node_hash-injective :
      (a b c d : Hash)
      → Is32 a
      → Is32 c
      → node_hash sha256 a b ≡ node_hash sha256 c d
      → ((a ≡ c) × (b ≡ d)) ⊎ Collision sha256
  unfolding node_hash
  node_hash-injective a b c d p q e = elim (Bool-cases (list_beq (1 ∷ a ++ b) (1 ∷ c ++ d))) [
    | inl t ↦ inl (
        append_split a b c d (p ∙ sym q)
          (ap (drop 1) ((list_beq_iff (1 ∷ a ++ b) (1 ∷ c ++ d)).0 t)))
    | inr t ↦ inr (
      1 ∷ a ++ b,
      1 ∷ c ++ d,
      λ s. ground (arith, (list_beq_iff (1 ∷ a ++ b) (1 ∷ c ++ d)).1 s),
      e,
    )
  ]

module _ (sha256 : Bytes → Hash) (digest : (x : Bytes) → Is32 (sha256 x)) where
  node_hash-Is32 : (a b : Hash) → Is32 (node_hash sha256 a b)
  unfolding node_hash
  node_hash-Is32 a b = digest _

  node_of :
      (leaves : List Hash) (n : ℕ)
      → length leaves ≡ n
      → 2 ≤ n
      → let k = largest_pow2_below n in
        mth sha256 leaves
        ≡ node_hash sha256 (mth sha256 (take k leaves)) (mth sha256 (drop k leaves))
  node_of leaves n l two =
      subst
        (λ z.
          mth sha256 leaves
          ≡ node_hash sha256 (mth sha256 (take (largest_pow2_below z) leaves))
              (mth sha256 (drop (largest_pow2_below z) leaves)))
        l (mth_node sha256 leaves (subst (λ z. 2 ≤ z) (sym l) two))

  -- A replay keeps to hashes of 32 bytes.
  inclusion_rec-Is32 :
      (f m n : ℕ) (leaf : Hash) (proof : List Hash) (c : Hash) (rest : List Hash)
      → Is32 leaf
      → All Is32 proof
      → inclusion_rec sha256 f m n leaf proof ≡ some (c, rest)
      → Is32 c × All Is32 rest
  unfolding inclusion_rec
  inclusion_rec-Is32 zero m n leaf proof c rest l p e = absurd (none-ne-some _ e)
  inclusion_rec-Is32 (suc f) m n leaf proof c rest l p e =
      elim (inclusion_rec-inverse sha256 f m n leaf proof c rest e) [
        | at_leaf _ _ q r ↦ (subst Is32 (sym q) l, subst (All Is32) (sym r) p)
        | on_left a b _ _ e' q ↦ (
          subst Is32 (sym q) (node_hash-Is32 a b),
          (inclusion_rec-Is32 f m (largest_pow2_below n) leaf proof a (b ∷ rest) l p e').1.1,
        )
        | on_right a b _ _ _ e' q ↦ (
          subst Is32 (sym q) (node_hash-Is32 b a),
          (inclusion_rec-Is32 f (m - largest_pow2_below n) (n - largest_pow2_below n) leaf proof a
              (b ∷ rest) l p e').1.1,
        )
      ]

  mth-Is32 : (leaves : List Hash) → 1 ≤ length leaves → All Is32 leaves → Is32 (mth sha256 leaves)
  mth-Is32 [] h p = absurd (omega arith)
  mth-Is32 (x ∷ []) h p = subst Is32 (sym (mth_one sha256 x)) p.0
  mth-Is32 (x ∷ y ∷ xs) h p =
      subst Is32 (sym (mth_node sha256 (x ∷ y ∷ xs) (omega arith))) (node_hash-Is32 _ _)

  only_leaf :
      (leaves : List Hash) (leaf : Hash) (m : ℕ)
      → length leaves ≡ 1
      → m ≡ 0
      → mth sha256 leaves ≡ leaf
      → get_elem? leaves m ≡ some leaf
  only_leaf [] leaf m l z q = absurd (omega arith)
  only_leaf (x ∷ []) leaf zero l z q = ap some (sym (mth_one sha256 x) ∙ q)
  only_leaf (x ∷ []) leaf (suc m) l z q = absurd (omega arith)
  only_leaf (x ∷ y ∷ xs) leaf m l z q = absurd (omega arith)

  -- A replay that ends at the root of the log started from the leaf at its index.
  inclusion_rec-member :
      (f m n : ℕ) (leaves : List Hash) (leaf : Hash) (proof : List Hash) (rest : List Hash)
      → length leaves ≡ n
      → All Is32 leaves
      → Is32 leaf
      → All Is32 proof
      → inclusion_rec sha256 f m n leaf proof ≡ some (mth sha256 leaves, rest)
      → (get_elem? leaves m ≡ some leaf) ⊎ Collision sha256
  unfolding inclusion_rec
  inclusion_rec-member zero m n leaves leaf proof rest l all is proofs e = absurd (none-ne-some _ e)
  inclusion_rec-member (suc f) m n leaves leaf proof rest l all is proofs e =
      elim (inclusion_rec-inverse sha256 f m n leaf proof _ rest e) [
        | at_leaf one first q r ↦ inl (only_leaf leaves leaf m (l ∙ one) first q)
        | on_left a b two before e' q ↦
            let k = largest_pow2_below n in
            let between = largest_pow2_below_between n two in
            let left = length-take k leaves in
            let shown = (inclusion_rec-Is32 f m k leaf proof a (b ∷ rest) is proofs e').0 in
            elim (node_hash-injective sha256 a b (mth sha256 (take k leaves))
              (mth sha256 (drop k leaves)) shown
              (mth-Is32 (take k leaves) (omega (arith, between)) (All-take Is32 k leaves all))
              (sym q ∙ node_of leaves n l two)) [
                | inr collision ↦ inr collision
                | inl (same, _) ↦
                    map_left (λ found. sym (get_elem?-take k m leaves before) ∙ found)
                      (inclusion_rec-member f m k (take k leaves) leaf proof (b ∷ rest)
                        (omega (arith, between)) (All-take Is32 k leaves all) is proofs
                        (e' ∙ ap (λ z. some (z, b ∷ rest)) same))
              ]
        | on_right a b two inside after e' q ↦
            let k = largest_pow2_below n in
            let between = largest_pow2_below_between n two in
            let left = length-take k leaves in
            let right = length-drop k leaves in
            let shown =
              (inclusion_rec-Is32 f (m - k) (n - k) leaf proof a (b ∷ rest) is proofs e').1.0 in
            elim (node_hash-injective sha256 b a (mth sha256 (take k leaves))
              (mth sha256 (drop k leaves)) shown
              (mth-Is32 (take k leaves) (omega (arith, between)) (All-take Is32 k leaves all))
              (sym q ∙ node_of leaves n l two)) [
                | inr collision ↦ inr collision
                | inl (_, same) ↦
                    map_left (λ found. sym (get_elem?-drop k m leaves after) ∙ found)
                      (inclusion_rec-member f (m - k) (n - k) (drop k leaves) leaf proof (b ∷ rest)
                        (omega (arith, between)) (All-drop Is32 k leaves all) is proofs
                        (e' ∙ ap (λ z. some (z, b ∷ rest)) same))
              ]
      ]

  -- An accepted inclusion proof for as many leaves as the log has, against the root of the log, shows
  -- the log's leaf at the index of the proof, unless two inputs of one digest are at hand; digests,
  -- leaves and nodes have 32 bytes.
  pub verify_inclusion-member :
      (leaves : List Hash) (leaf : Hash) (proof : InclusionProof)
      → All Is32 leaves
      → Is32 leaf
      → All Is32 proof.nodes
      → proof.leaf_count ≡ length leaves
      → verify_inclusion sha256 leaf proof (mth sha256 leaves) ≡ true
      → (get_elem? leaves proof.leaf_index ≡ some leaf) ⊎ Collision sha256
  unfolding verify_inclusion
  verify_inclusion-member leaves leaf proof all is proofs count e =
      inclusion_rec-member proof.leaf_count proof.leaf_index proof.leaf_count leaves leaf
        proof.nodes [] (sym count) all is proofs (folded _ _ (if_true _ e))
