-- ===== src/MerkleLog/Tests.antt =====
-- Concrete logs, at which the theorems apply. The digest here is a checksum of 32 bytes.
use jx.Base.{
  ℕ, ◌+◌, ◌%◌, ◌≡◌, refl, List, [], ◌∷◌, some, true, ◌⊎◌, arith, replicate, length-replicate,
  get_elem?, take,
}
use jx.Roster.{Bytes}
use jx.MerkleLog.{
  Hash, InclusionProof, ConsistencyProof, ilog2, largest_pow2_below, node_hash, mth_fuel, mth,
  prove_inclusion, inclusion_rec, verify_inclusion, prove_consistency, verify_consistency,
}
use jx.MerkleLog.Codec.{
  encode_consistency, decode_consistency, encode_inclusion, decode_inclusion,
  decode_consistency-encode_consistency, decode_inclusion-encode_inclusion,
}
use jx.MerkleLog.Root.{IsTreeHash, mth-IsTreeHash}
use jx.MerkleLog.Inclusion.{verify_inclusion-prove_inclusion}
use jx.MerkleLog.Sound.{Collision, verify_inclusion-member}
use jx.MerkleLog.Consistency.{verify_consistency-prove_consistency}

abbrev sum : Bytes → ℕ
sum [] = 0
sum (x ∷ xs) = x + sum xs

abbrev checksum : Bytes → Hash
checksum bytes = replicate 32 (sum bytes % 256)

abbrev leaf : ℕ → Hash
leaf n = replicate 32 n

abbrev five : List Hash
five = leaf 1 ∷ leaf 2 ∷ leaf 3 ∷ leaf 4 ∷ leaf 5 ∷ []

verify_inclusion-prove_inclusion_example :
    (proof : InclusionProof) × (prove_inclusion checksum five 4 ≡ some proof)
    × (verify_inclusion checksum (leaf 5) proof (mth checksum five) ≡ true)
verify_inclusion-prove_inclusion_example =
    verify_inclusion-prove_inclusion checksum five 4 (leaf 5) refl

abbrev pair : List Hash
pair = leaf 1 ∷ leaf 2 ∷ []

abbrev pair_proof : InclusionProof
pair_proof = record { leaf_index = 1; leaf_count = 2; nodes = leaf 1 ∷ [] }

verify_inclusion-member_example : (get_elem? pair 1 ≡ some (leaf 2)) ⊎ Collision checksum
unfolding verify_inclusion inclusion_rec largest_pow2_below ilog2 node_hash mth mth_fuel
verify_inclusion-member_example =
    verify_inclusion-member checksum (λ x. length-replicate 32 (sum x % 256)) pair (leaf 2)
      pair_proof (refl, (refl, tt)) refl (refl, tt) refl refl

verify_consistency-prove_consistency_example :
    (proof : ConsistencyProof) × (prove_consistency checksum five 3 ≡ some proof)
    × (verify_consistency checksum (mth checksum (take 3 five)) proof (mth checksum five) ≡ true)
verify_consistency-prove_consistency_example =
    verify_consistency-prove_consistency checksum five 3 (omega arith)

mth-IsTreeHash_example : IsTreeHash checksum five (mth checksum five)
mth-IsTreeHash_example = mth-IsTreeHash checksum five

abbrev old_proof : ConsistencyProof
old_proof = record { old_leaf_count = 3; new_leaf_count = 5; nodes = leaf 7 ∷ leaf 8 ∷ [] }

decode_consistency-encode_consistency_example :
    (bytes : Bytes) × (encode_consistency old_proof ≡ some bytes)
    × (decode_consistency bytes ≡ some old_proof)
decode_consistency-encode_consistency_example =
    decode_consistency-encode_consistency old_proof (omega arith) (omega arith) (omega arith)
      (refl, (refl, tt))

decode_inclusion-encode_inclusion_example :
    (bytes : Bytes) × (encode_inclusion pair_proof ≡ some bytes)
    × (decode_inclusion bytes ≡ some pair_proof)
decode_inclusion-encode_inclusion_example =
    decode_inclusion-encode_inclusion pair_proof (omega arith) (omega arith) (omega arith)
      (refl, tt)
