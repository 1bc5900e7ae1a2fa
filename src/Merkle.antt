-- ===== src/Merkle.antt =====
-- consensus-node/executor/state/src/merkle.rs: the sparse Merkle tree over the key-value state. A
-- path, the 256 bits of a digest, is the list of its bits, the first of them bit 0. `sha256` of the
-- crate sha2 is a parameter. Where the code panics in `expect`, the result is `none`.
pub mod Bits
pub mod Subtree
pub mod Canonical
pub mod Update
pub mod Proof
pub mod Sound
pub mod Codec
use jx.Base.{
  ℕ, zero, suc, ◌/◌, ◌%◌, ◌-◌, ◌==◌, Bool, true, false, Option, none, some, List, [], ◌∷◌, ◌++◌,
  take, replicate, length, nat_eq, list_eq, pair_eq, list_beq, if◌then◌else◌, arith,
}
use jx.Base.Map.{Map, get, contains_key, put, remove}
use jx.Roster.{Bytes}
use jx.MerkleLog.{Hash}
use jx.Op.{write_bytes, append_field}
use jx.Merkle.Bits.{BitPath, bit, flip, bool_eq, bits_of}

-- `DEPTH`
abbrev pub full_depth : ℕ
full_depth = 256

-- the first `depth` bits, and zeros after them
unfoldable pub mask : BitPath → ℕ → BitPath
mask path depth = take depth path ++ replicate (full_depth - depth) false

pub record SparseMerkleTree : Type 0 where
  pub leaves : Map BitPath Hash
  pub nodes : Map (ℕ × BitPath) Hash
  pub root : Hash

pub record MerkleProof : Type 0 where
  pub key : Bytes
  pub value : Bytes
  pub siblings : List Hash

module _ (sha256 : Bytes → Hash) where
  unfoldable pub empty : Hash
  empty = sha256 (0 ∷ [])

  unfoldable pub path_of : Bytes → BitPath
  path_of key = bits_of (sha256 key)

  abbrev pub digest : Option Bytes → Option Hash
  digest none = none
  digest (some bytes) = some (sha256 bytes)

  unfoldable pub leaf_hash : Bytes → Bytes → Option Hash
  leaf_hash key value =
      digest (append_field (some (0 ∷ [])) (append_field (write_bytes key) (write_bytes value)))

  unfoldable pub internal : Hash → Hash → Hash
  internal left right = sha256 (2 ∷ left ++ right)

  unfoldable pub singleton : Hash → Hash
  singleton child = sha256 (1 ∷ child)

  unfoldable pub combine : Hash → Hash → Hash
  combine left right =
      if list_beq left empty
      then (if list_beq right empty then empty else singleton right)
      else if list_beq right empty
      then singleton left
      else internal left right

  abbrev pub or_empty : Option Hash → Hash
  or_empty none = empty
  or_empty (some h) = h

  -- `Default::default`
  unfoldable pub new_tree : SparseMerkleTree
  new_tree = record { leaves = []; nodes = []; root = empty }

  unfoldable pub subtree_hash : SparseMerkleTree → ℕ → BitPath → Hash
  subtree_hash t depth path =
      if depth == full_depth
      then or_empty (get path t.leaves)
      else or_empty (get (depth, mask path depth) t.nodes)

  unfoldable pub set_branch : ℕ → BitPath → Hash → SparseMerkleTree → SparseMerkleTree
  set_branch depth path hash t =
      if list_beq hash empty
      then record t { nodes = remove (depth, path) t.nodes }
      else record t { nodes = put (depth, path) hash t.nodes }

  -- the parent of a node of the path and its sibling
  unfoldable pub parent_hash : BitPath → ℕ → Hash → Hash → Hash
  parent_hash path depth current sibling =
      if bit path depth then combine sibling current else combine current sibling

  -- The loop over `(0..DEPTH).rev()` that `insert` and `delete` run: the tree after it, and the hash
  -- at its root.
  unfoldable pub climb : BitPath → ℕ → Hash → SparseMerkleTree → SparseMerkleTree × Hash
  climb path zero current t = (t, current)
  climb path (suc depth) current t =
      let parent = parent_hash path depth current (subtree_hash t (suc depth) (flip path depth)) in
      climb path depth parent (set_branch depth (mask path depth) parent t)

  abbrev pub with_root : SparseMerkleTree × Hash → SparseMerkleTree
  with_root (t, current) = record t { root = current }

  -- the leaf is in place: the branch above it, and the root
  unfoldable pub update_branch : BitPath → Hash → SparseMerkleTree → SparseMerkleTree
  update_branch path current t = with_root (climb path full_depth current t)

  abbrev pub insert_leaf : BitPath → Option Hash → SparseMerkleTree → Option SparseMerkleTree
  insert_leaf path none t = none
  insert_leaf path (some leaf) t =
      some (update_branch path leaf (record t { leaves = put path leaf t.leaves }))

  unfoldable pub insert : Bytes → Bytes → SparseMerkleTree → Option SparseMerkleTree
  insert key value t = insert_leaf (path_of key) (leaf_hash key value) t

  unfoldable pub delete : Bytes → SparseMerkleTree → SparseMerkleTree × Bool
  delete key t =
      if contains_key (path_of key) t.leaves
      then (
        update_branch (path_of key) empty (record t { leaves = remove (path_of key) t.leaves }),
        true,
      )
      else (t, false)

  -- the siblings along a path, from below `depth` up
  unfoldable pub siblings_from : SparseMerkleTree → BitPath → ℕ → List Hash
  siblings_from t path zero = []
  siblings_from t path (suc depth) =
      subtree_hash t (suc depth) (flip path depth) ∷ siblings_from t path depth

  unfoldable pub proof_siblings : SparseMerkleTree → Bytes → Option (List Hash)
  proof_siblings t key =
      if contains_key (path_of key) t.leaves
      then some (siblings_from t (path_of key) full_depth)
      else none

  -- the loop of `verify`
  unfoldable pub fold_siblings : BitPath → ℕ → Hash → List Hash → Hash
  fold_siblings path zero current siblings = current
  fold_siblings path (suc depth) current [] = current
  fold_siblings path (suc depth) current (sibling ∷ siblings) =
      fold_siblings path depth (parent_hash path depth current sibling) siblings

  abbrev pub reaches : Hash → BitPath → List Hash → Option Hash → Option Bool
  reaches root path siblings none = none
  reaches root path siblings (some leaf) =
      some (list_beq (fold_siblings path full_depth leaf siblings) root)

  -- `MerkleProof::verify`
  unfoldable pub verify : MerkleProof → Hash → Option Bool
  verify proof root =
      if length proof.siblings == full_depth
      then reaches root (path_of proof.key) proof.siblings (leaf_hash proof.key proof.value)
      else some false
