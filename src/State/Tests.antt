-- ===== src/State/Tests.antt =====
-- A keyspace that is a list, and states on it, at which the theorems apply. The digest here
-- is a checksum of 32 bytes.

use jx.Base.{
  ℕ, ◌≢◌, inl, inr, sym, ◌∙◌, ap, Bool-cases, list_beq_iff, zero, suc, ◌+◌, ◌%◌, ◌≡◌, ◌⊎◌, refl,
  Bool, true, Option, none, some, List, [], ◌∷◌, list_eq, list_beq, nat_eq, arith, replicate,
  length-replicate, All, if◌then◌else◌,
}
use jx.Base.Map.{get}
use jx.Roster.{Bytes}
use jx.MerkleLog.{Hash}
use jx.MerkleLog.Sound.{Is32, Collision}
use jx.Op.{Op, write_bytes}
use jx.Merkle.{
  SparseMerkleTree, MerkleProof, new_tree, insert, delete, path_of, fold_siblings, parent_hash,
  combine, empty, singleton, internal, update_branch, climb, set_branch, mask, subtree_hash, verify,
  leaf_hash,
}
use jx.Merkle.Update.{Digest32, new_tree-IsCanonical, insert-IsCanonical, delete-IsCanonical}
use jx.Merkle.Codec.{encode, decode, decode-encode_proof}
use jx.Merkle.Canonical.{IsCanonical}
use jx.Merkle.Bits.{BitPath, bool_eq, bits_of, bit, flip}
use jx.Base.Map
use jx.Wire.{to_be_bytes}
use jx.MerkleLog.Codec.{then_read}
use jx.State.{
  State, apply, apply_all, proof, to_bytes, get_value, from_bytes, root_of_bytes, write_pairs,
}
use jx.State.Synced.{with_entry, no_entry, new_tree-Holds, insert-Holds}
use jx.State.Apply.{
  Holds-cong, reads, IsSynced, all_written, apply_all-written, NoRivals, written, apply_all-root,
}
use jx.State.Proof.{verify-proof, verify-get_value}
use jx.State.Load.{root_of_bytes-from_bytes, from_bytes-to_bytes}
use jx.State.Sheet.{Pairs, sheet, sheet-KeyspaceLaws}

abbrev sum : Bytes → ℕ
sum [] = 0
sum (x ∷ xs) = x + sum xs

abbrev checksum : Bytes → Hash
checksum bytes = replicate 32 (sum bytes % 256)

checksum-Digest32 : Digest32 checksum
checksum-Digest32 x = length-replicate 32 (sum x % 256)

abbrev blank : State Pairs
blank = record { kv = []; tree = new_tree checksum }

blank-IsSynced : IsSynced checksum sheet blank
unfolding sheet get
blank-IsSynced = new_tree-Holds checksum

abbrev one_bytes : Bytes
one_bytes = 0 ∷ 0 ∷ 0 ∷ 1 ∷ 1 ∷ 0 ∷ 0 ∷ 0 ∷ 1 ∷ 2 ∷ []

abbrev tree_of : Option SparseMerkleTree → SparseMerkleTree
tree_of none = new_tree checksum
tree_of (some t) = t

-- the key [1] with the value [2]
abbrev one : State Pairs
one = record {
  kv = (1 ∷ [], 2 ∷ []) ∷ [];
  tree = tree_of (insert checksum (1 ∷ []) (2 ∷ []) (new_tree checksum));
}

one_inserted : insert checksum (1 ∷ []) (2 ∷ []) (new_tree checksum) ≡ some one.tree
unfolding insert leaf_hash write_bytes
one_inserted = refl

one-IsSynced : IsSynced checksum sheet one
unfolding sheet get
one-IsSynced =
    Holds-cong checksum (with_entry (1 ∷ []) (some (2 ∷ [])) no_entry) (reads checksum sheet one)
      one.tree (λ k. refl)
      (insert-Holds checksum checksum-Digest32 no_entry (1 ∷ []) (2 ∷ []) (new_tree checksum)
        one.tree (new_tree-Holds checksum) one_inserted λ k v e. ground arith)

insert-IsCanonical_example :
    IsCanonical checksum one.tree
    × ((leaf : Hash) × (leaf_hash checksum (1 ∷ []) (2 ∷ []) ≡ some leaf)
        × (one.tree.leaves ≡ Map.put (path_of checksum (1 ∷ [])) leaf (new_tree checksum).leaves))
insert-IsCanonical_example =
    insert-IsCanonical checksum checksum-Digest32 (1 ∷ []) (2 ∷ []) (new_tree checksum) one.tree
      (new_tree-IsCanonical checksum) one_inserted

delete-IsCanonical_example :
    IsCanonical checksum (delete checksum (1 ∷ []) one.tree).0
    × ((p : BitPath)
        → get p (delete checksum (1 ∷ []) one.tree).0.leaves
          ≡ (if list_beq (path_of checksum (1 ∷ [])) p then none else get p one.tree.leaves))
    × ((delete checksum (1 ∷ []) one.tree).1
        ≡ Map.contains_key (path_of checksum (1 ∷ [])) one.tree.leaves)
delete-IsCanonical_example =
    delete-IsCanonical checksum checksum-Digest32 (1 ∷ []) one.tree one-IsSynced.canonical

verify-proof_example :
    (p : MerkleProof) × (proof checksum sheet (1 ∷ []) one ≡ some p)
    × (p.key ≡ 1 ∷ [])
    × (p.value ≡ 2 ∷ [])
    × (verify checksum p one.tree.root ≡ some true)
unfolding get_value sheet get
verify-proof_example =
    verify-proof checksum sheet checksum-Digest32 (1 ∷ []) (2 ∷ []) one one-IsSynced refl

from_bytes-to_bytes_example :
    (after : State Pairs) × (from_bytes checksum sheet [] one_bytes ≡ some after)
    × ((k : Bytes) → reads checksum sheet after k ≡ reads checksum sheet one k)
    × (after.tree.root ≡ one.tree.root)
unfolding sheet get to_bytes write_pairs write_bytes to_be_bytes
from_bytes-to_bytes_example =
    from_bytes-to_bytes checksum sheet sheet-KeyspaceLaws checksum-Digest32
      (λ key value kv. (_, refl)) one one_bytes [] one-IsSynced refl (λ k. refl)

root_of_bytes-from_bytes_example :
    root_of_bytes checksum one_bytes
    ≡ then_read (from_bytes checksum sheet [] one_bytes) λ st. some st.tree.root
unfolding sheet
root_of_bytes-from_bytes_example =
    root_of_bytes-from_bytes checksum sheet (λ key value kv. (_, refl)) [] one_bytes

abbrev after_of : Option (State Pairs × Bool) → State Pairs
after_of none = blank
after_of (some (st, ok)) = st

abbrev writes : List Op
writes = Op.put (3 ∷ []) (4 ∷ []) ∷ Op.delete (1 ∷ []) ∷ []

abbrev written_to : State Pairs
written_to = after_of (apply_all checksum sheet writes one)

other_path : path_of checksum (1 ∷ []) ≢ path_of checksum (3 ∷ [])
unfolding path_of bits_of bit flip
other_path e = ground (arith, (list_beq_iff _ _).1 e)

abbrev OneOfTwo : Bytes → Type 0
OneOfTwo k = (k ≡ 1 ∷ []) ⊎ (k ≡ 3 ∷ [])

apart : (j k : Bytes) → OneOfTwo j → OneOfTwo k → path_of checksum j ≡ path_of checksum k → j ≡ k
apart j k (inl a) (inl b) same = a ∙ sym b
apart j k (inl a) (inr b) same =
    absurd (other_path (ap (path_of checksum) (sym a) ∙ same ∙ ap (path_of checksum) b))
apart j k (inr a) (inl b) same =
    absurd (other_path (ap (path_of checksum) (sym b) ∙ sym same ∙ ap (path_of checksum) a))
apart j k (inr a) (inr b) same = a ∙ sym b

-- entries under the two keys alone
one_of_two :
    (first second : Option Bytes) (k v : Bytes)
    → with_entry (3 ∷ []) second (with_entry (1 ∷ []) first no_entry) k ≡ some v
    → OneOfTwo k
one_of_two first second k v e = elim (Bool-cases (list_beq (1 ∷ []) k)) [
  | inl t ↦ inl (sym ((list_beq_iff (1 ∷ []) k).0 t))
  | inr n ↦ elim (Bool-cases (list_beq (3 ∷ []) k)) [
    | inl t ↦ inr (sym ((list_beq_iff (3 ∷ []) k).0 t))
    | inr m ↦ ground (arith, e, n, m)
  ]
]

only_one : (k v : Bytes) → reads checksum sheet one k ≡ some v → OneOfTwo k
unfolding sheet get
only_one k v e = elim (Bool-cases (list_beq (1 ∷ []) k)) [
  | inl t ↦ inl (sym ((list_beq_iff (1 ∷ []) k).0 t))
  | inr n ↦ ground (arith, e, n)
]

writes-NoRivals : NoRivals checksum writes (reads checksum sheet one)
unfolding sheet get written
writes-NoRivals = (
  λ k v e. apart k (3 ∷ []) (only_one k v e) (inr refl),
  (λ k v e. apart k (1 ∷ []) (one_of_two (some (2 ∷ [])) (some (4 ∷ [])) k v e) (inl refl), tt),
)

-- the same operations the other way around
abbrev swapped : List Op
swapped = Op.delete (1 ∷ []) ∷ Op.put (3 ∷ []) (4 ∷ []) ∷ []

swapped-NoRivals : NoRivals checksum swapped (reads checksum sheet one)
unfolding sheet get written
swapped-NoRivals =
    (λ k v e. apart k (1 ∷ []) (only_one k v e) (inl refl), (λ k v e. ground (arith, e), tt))

swapped_same :
    (k : Bytes)
    → all_written writes (reads checksum sheet one) k
      ≡ all_written swapped (reads checksum sheet one) k
unfolding all_written written sheet get
swapped_same k = elim (Bool-cases (list_beq (1 ∷ []) k)) [
  | inl t ↦ ground (
    arith,
    t,
    list_beq_iff (1 ∷ []) k,
    list_beq_iff (3 ∷ []) k,
    ap (list_beq (3 ∷ [])) ((list_beq_iff (1 ∷ []) k).0 t),
  )
  | inr n ↦ ground (arith, n)
]

apply_all-root_example :
    written_to.tree.root ≡ (after_of (apply_all checksum sheet swapped one)).tree.root
unfolding sheet apply_all apply insert leaf_hash write_bytes
apply_all-root_example =
    apply_all-root checksum sheet sheet-KeyspaceLaws checksum-Digest32 writes swapped one written_to
      (after_of (apply_all checksum sheet swapped one)) one-IsSynced writes-NoRivals
      swapped-NoRivals refl refl swapped_same

apply_all-written_example :
    IsSynced checksum sheet written_to
    × ((k : Bytes)
        → reads checksum sheet written_to k ≡ all_written writes (reads checksum sheet one) k)
unfolding sheet apply_all apply insert leaf_hash write_bytes
apply_all-written_example =
    apply_all-written checksum sheet sheet-KeyspaceLaws checksum-Digest32 writes one written_to
      one-IsSynced writes-NoRivals refl

replicate-All : (n : ℕ) (h : Hash) → Is32 h → All Is32 (replicate n h)
replicate-All zero h e = tt
replicate-All (suc n) h e = (e, replicate-All n h e)

-- the proof of the only key
abbrev one_proof : MerkleProof
one_proof = record { key = 1 ∷ []; value = 2 ∷ []; siblings = replicate 256 (empty checksum) }

verify-get_value_example :
    (get_value checksum sheet (1 ∷ []) one ≡ some (2 ∷ [])) ⊎ Collision checksum
unfolding verify leaf_hash write_bytes fold_siblings parent_hash combine empty singleton internal
    path_of bits_of bit flip insert update_branch climb set_branch mask subtree_hash new_tree get
    to_be_bytes Map.put Map.remove
verify-get_value_example =
    verify-get_value checksum sheet checksum-Digest32 one_proof one one-IsSynced
      (replicate-All 256 (empty checksum) (checksum-Digest32 (0 ∷ []))) refl

decode-encode_proof_example :
    (bytes : Bytes) × (encode one_proof ≡ some bytes) × (decode bytes ≡ some one_proof)
unfolding empty
decode-encode_proof_example =
    decode-encode_proof one_proof (omega arith) (omega arith)
      (length-replicate 256 (empty checksum))
      (replicate-All 256 (empty checksum) (checksum-Digest32 (0 ∷ [])))
