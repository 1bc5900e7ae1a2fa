-- ===== src/MerkleLog.antt =====
-- consensus-node/executor/state/src/merkle_log.rs: the append-only Merkle log of RFC 6962, its
-- inclusion and consistency proofs, and their verification. `sha256` of the crate sha2 is a
-- parameter. A recursion on a shorter slice runs on fuel, which is the length of the slice or the
-- size claimed.
pub mod Split
pub mod Root
pub mod Step
pub mod Inclusion
pub mod Sound
pub mod Prefix
pub mod Consistency
pub mod Codec
mod Tests
use jx.Base.{
  ℕ, zero, suc, ◌+◌, ◌-◌, ◌/◌, ◌^◌, Bool, true, false, ◌&&◌, ◌||◌, Option, none, some, List, [],
  ◌∷◌, ◌++◌, take, drop, length, ltb, leb, ◌==◌, nat_eq, list_beq, if◌then◌else◌,
}
use jx.Roster.{Bytes}

abbrev pub Hash : Type 0
Hash = Bytes

abbrev pub empty_root : Hash
empty_root =
    0xe3 ∷ 0xb0 ∷ 0xc4 ∷ 0x42 ∷ 0x98 ∷ 0xfc ∷ 0x1c ∷ 0x14 ∷ 0x9a ∷ 0xfb ∷ 0xf4 ∷ 0xc8 ∷ 0x99 ∷ 0x6f
    ∷ 0xb9 ∷ 0x24 ∷ 0x27 ∷ 0xae ∷ 0x41 ∷ 0xe4 ∷ 0x64 ∷ 0x9b ∷ 0x93 ∷ 0x4c ∷ 0xa4 ∷ 0x95 ∷ 0x99
    ∷ 0x1b ∷ 0x78 ∷ 0x52 ∷ 0xb8 ∷ 0x55 ∷ []

-- `u64::ilog2` of a positive number
unfoldable pub ilog2 : ℕ → ℕ → ℕ
ilog2 zero n = 0
ilog2 (suc fuel) n = elim (ltb n 2) [ true ↦ 0 | false ↦ suc (ilog2 fuel (n / 2)) ]

unfoldable pub largest_pow2_below : ℕ → ℕ
largest_pow2_below n = let floor = 2 ^ ilog2 n n in if floor == n then floor / 2 else floor

pub record ConsistencyProof : Type 0 where
  pub old_leaf_count : ℕ
  pub new_leaf_count : ℕ
  pub nodes : List Hash

pub record InclusionProof : Type 0 where
  pub leaf_index : ℕ
  pub leaf_count : ℕ
  pub nodes : List Hash

-- `split_first`
abbrev pub split_first : List Hash → Option (Hash × List Hash)
split_first [] = none
split_first (x ∷ xs) = some (x, xs)

abbrev pub is_empty : List Hash → Bool
is_empty [] = true
is_empty (x ∷ xs) = false

-- the steps after the recursive call: the sibling, and the hash of the two on the given side
abbrev pub with_sibling :
    {A B : Type 0} → (A → Hash → B) → Option (A × List Hash) → Option (B × List Hash)
with_sibling f none = none
with_sibling f (some (a, [])) = none
with_sibling f (some (a, sibling ∷ rest)) = some (f a sibling, rest)

-- `rest.is_empty() && calc == *root`
abbrev pub folds_to : Hash → Option (Hash × List Hash) → Bool
folds_to root none = false
folds_to root (some (calc, rest)) = is_empty rest && list_beq calc root

abbrev pub folds_to_both : Hash → Hash → Option ((Hash × Hash) × List Hash) → Bool
folds_to_both old_root new_root none = false
folds_to_both old_root new_root (some ((calc_old, calc_new), rest)) =
    is_empty rest && list_beq calc_old old_root && list_beq calc_new new_root

module _ (sha256 : Bytes → Hash) where
  unfoldable pub leaf_hash : Bytes → Hash
  leaf_hash bytes = sha256 (0 ∷ bytes)

  unfoldable pub node_hash : Hash → Hash → Hash
  node_hash left right = sha256 (1 ∷ left ++ right)

  unfoldable pub mth_fuel : ℕ → List Hash → Hash
  mth_fuel fuel [] = empty_root
  mth_fuel fuel (x ∷ []) = x
  mth_fuel zero (x ∷ y ∷ xs) = empty_root
  mth_fuel (suc fuel) (x ∷ y ∷ xs) =
      let k = largest_pow2_below (length (x ∷ y ∷ xs)) in
      node_hash (mth_fuel fuel (take k (x ∷ y ∷ xs))) (mth_fuel fuel (drop k (x ∷ y ∷ xs)))

  unfoldable pub mth : List Hash → Hash
  mth leaves = mth_fuel (length leaves) leaves

  unfoldable pub inclusion_path : ℕ → ℕ → List Hash → List Hash → List Hash
  inclusion_path zero m leaves out = out
  inclusion_path (suc fuel) m leaves out = elim (leb (length leaves) 1) [
    | true ↦ out
    | false ↦
        let k = largest_pow2_below (length leaves) in
        elim (ltb m k) [
          | true ↦ inclusion_path fuel m (take k leaves) out ++ mth (drop k leaves) ∷ []
          | false ↦ inclusion_path fuel (m - k) (drop k leaves) out ++ mth (take k leaves) ∷ []
        ]
  ]

  unfoldable pub prove_inclusion : List Hash → ℕ → Option InclusionProof
  prove_inclusion leaves index =
      if leb (length leaves) index
      then none
      else some (record {
        leaf_index = index;
        leaf_count = length leaves;
        nodes = inclusion_path (length leaves) index leaves [];
      })

  unfoldable pub inclusion_rec : ℕ → ℕ → ℕ → Hash → List Hash → Option (Hash × List Hash)
  inclusion_rec zero m n leaf proof = none
  inclusion_rec (suc fuel) m n leaf proof = elim (n == 1) [
    | true ↦ elim (m == 0) [ true ↦ some (leaf, proof) | false ↦ none ]
    | false ↦ elim (leb n m) [
      | true ↦ none
      | false ↦
          let k = largest_pow2_below n in
          elim (ltb m k) [
            | true ↦
                with_sibling (λ left sibling. node_hash left sibling)
                  (inclusion_rec fuel m k leaf proof)
            | false ↦
                with_sibling (λ right sibling. node_hash sibling right)
                  (inclusion_rec fuel (m - k) (n - k) leaf proof)
          ]
    ]
  ]

  unfoldable pub verify_inclusion : Hash → InclusionProof → Hash → Bool
  verify_inclusion leaf proof root =
      if (proof.leaf_count == 0) || leb proof.leaf_count proof.leaf_index
      then false
      else folds_to root
          (inclusion_rec proof.leaf_count proof.leaf_index proof.leaf_count leaf proof.nodes)

  unfoldable pub consistency_subproof : ℕ → ℕ → List Hash → Bool → List Hash → List Hash
  consistency_subproof zero m leaves b out = out
  consistency_subproof (suc fuel) m leaves b out = elim (m == length leaves) [
    | true ↦ if b then out else out ++ mth leaves ∷ []
    | false ↦
        let k = largest_pow2_below (length leaves) in
        elim (leb m k) [
          | true ↦ consistency_subproof fuel m (take k leaves) b out ++ mth (drop k leaves) ∷ []
          | false ↦
              consistency_subproof fuel (m - k) (drop k leaves) false out
              ++ mth (take k leaves) ∷ []
        ]
  ]

  unfoldable pub prove_consistency : List Hash → ℕ → Option ConsistencyProof
  prove_consistency leaves old_count =
      if ltb (length leaves) old_count
      then none
      else some (record {
        old_leaf_count = old_count;
        new_leaf_count = length leaves;
        nodes =
            if ltb 0 old_count && ltb old_count (length leaves)
            then consistency_subproof (length leaves) old_count leaves true []
            else [];
      })

  unfoldable pub consistency_rec :
      ℕ → ℕ → ℕ → Bool → List Hash → Hash → Option ((Hash × Hash) × List Hash)
  consistency_rec zero m n b proof known_old = none
  consistency_rec (suc fuel) m n b proof known_old = elim (m == n) [
    | true ↦ elim b [
      | true ↦ some ((known_old, known_old), proof)
      | false ↦ elim proof [ [] ↦ none | head ∷ rest ↦ some ((head, head), rest) ]
    ]
    | false ↦ elim (ltb n m) [
      | true ↦ none
      | false ↦
          let k = largest_pow2_below n in
          elim (leb m k) [
            | true ↦
                with_sibling (λ (s : Hash × Hash) sibling. (s.0, node_hash s.1 sibling))
                  (consistency_rec fuel m k b proof known_old)
            | false ↦
                with_sibling
                  (λ (s : Hash × Hash) sibling. (node_hash sibling s.0, node_hash sibling s.1))
                  (consistency_rec fuel (m - k) (n - k) false proof known_old)
          ]
    ]
  ]

  unfoldable pub verify_consistency : Hash → ConsistencyProof → Hash → Bool
  verify_consistency old_root proof new_root =
      let m = proof.old_leaf_count in
      let n = proof.new_leaf_count in
      if ltb n m
      then false
      else if m == 0
      then is_empty proof.nodes && list_beq old_root empty_root
      else if m == n
      then is_empty proof.nodes && list_beq old_root new_root
      else folds_to_both old_root new_root (consistency_rec n m n true proof.nodes old_root)
