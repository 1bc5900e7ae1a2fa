-- ===== src/State.antt =====
-- consensus-node/executor/state/src/state.rs: the key-value state and its Merkle tree. The keyspace
-- of the crate fjall is a parameter, `Keyspace`, with the laws of `KeyspaceLaws`. A write that
-- fails leaves a keyspace that nothing is said of.
pub mod Synced
pub mod Apply
pub mod Proof
pub mod Ascending
pub mod Sheet
pub mod Load
mod Tests
use jx.Base.{
  ℕ, zero, suc, ◌+◌, Bool, true, false, not, ◌&&◌, ◌||◌, ◌≡◌, Option, none, some, List, [], ◌∷◌,
  ◌++◌, take, drop, length, ltb, ◌==◌, list_beq, nat_eq, list_eq, if◌then◌else◌,
}
use jx.Base.Map.{get}
use jx.Roster.{Bytes}
use jx.Wire.{from_be_bytes}
use jx.MerkleLog.{Hash}
use jx.MerkleLog.Codec.{then_read}
use jx.Op.{Op, put, delete, write_bytes, append_field}
use jx.Merkle
use jx.Merkle.{SparseMerkleTree, MerkleProof, new_tree, proof_siblings}

-- what the code calls of a keyspace; the `Bool` of a write is whether it went well
pub record Keyspace (K : Type 0) : Type 0 where
  -- `get(key).ok().flatten()`
  pub read : Bytes → K → Option Bytes
  pub write : Bytes → Bytes → K → K × Bool
  pub erase : Bytes → K → K × Bool
  -- all the entries that `iter` yields; `none` when one of them is an error
  pub entries : K → Option (List (Bytes × Bytes))

-- `<` of byte vectors, in the order of their first difference
abbrev pub bytes_ltb : Bytes → Bytes → Bool
bytes_ltb xs [] = false
bytes_ltb [] (y ∷ ys) = true
bytes_ltb (x ∷ xs) (y ∷ ys) = ltb x y || ((x == y) && bytes_ltb xs ys)

-- a partition is sorted by key
abbrev pub Ascending : Bytes → List (Bytes × Bytes) → Type 0
Ascending k [] = Unit
Ascending k ((j, v) ∷ es) = (bytes_ltb k j ≡ true) × Ascending j es

abbrev pub Sorted : List (Bytes × Bytes) → Type 0
Sorted [] = Unit
Sorted ((k, v) ∷ es) = Ascending k es

pub record KeyspaceLaws {K : Type 0} (s : Keyspace K) : Type 0 where
  pub read-write :
      (key value : Bytes) (kv after : K)
      → s.write key value kv ≡ (after, true)
      → (k : Bytes) → s.read k after ≡ (if list_beq key k then some value else s.read k kv)
  pub read-erase :
      (key : Bytes) (kv after : K)
      → s.erase key kv ≡ (after, true)
      → (k : Bytes) → s.read k after ≡ (if list_beq key k then none else s.read k kv)
  pub entries-Sorted : (kv : K) (es : List (Bytes × Bytes)) → s.entries kv ≡ some es → Sorted es
  pub get-entries :
      (kv : K) (es : List (Bytes × Bytes))
      → s.entries kv ≡ some es
      → (k : Bytes) → get k es ≡ s.read k kv

pub record State (K : Type 0) : Type 0 where
  pub kv : K
  pub tree : SparseMerkleTree

-- `read_bytes`. `4usize.checked_add` of a 32-bit length does not overflow.
unfoldable pub read_bytes : Bytes → Option (Bytes × Bytes)
read_bytes bytes =
    if ltb (length bytes) 4
    then none
    else let end_ = 4 + from_be_bytes (take 4 bytes) in
      if ltb (length bytes) end_
      then none
      else some (take (from_be_bytes (take 4 bytes)) (drop 4 bytes), drop end_ bytes)

-- whether a key is above the one before it
abbrev pub is_above : Option Bytes → Bytes → Bool
is_above none key = true
is_above (some prev) key = bytes_ltb prev key

-- the pairs, one after the other; `none` is the panic of `expect` on a field of 2^32 bytes or more
unfoldable pub write_pairs : List (Bytes × Bytes) → Option Bytes
write_pairs [] = some []
write_pairs ((key, value) ∷ es) =
    append_field (write_bytes key) (append_field (write_bytes value) (write_pairs es))

module _ (sha256 : Bytes → Hash) where
  -- the loop of `root_of_bytes`; each turn takes eight bytes at least
  unfoldable pub root_loop : ℕ → Bytes → Option Bytes → SparseMerkleTree → Option SparseMerkleTree
  root_loop fuel [] prev tree = some tree
  root_loop zero (b ∷ cursor) prev tree = none
  root_loop (suc fuel) (b ∷ cursor) prev tree =
      then_read (read_bytes (b ∷ cursor)) λ (key : Bytes × Bytes).
        then_read (read_bytes key.1) λ (value : Bytes × Bytes). elim (is_above prev key.0) [
          | false ↦ none
          | true ↦
              then_read (Merkle.insert sha256 key.0 value.0 tree)
                λ tree_after. root_loop fuel value.1 (some key.0) tree_after
        ]

  -- `State::root_of_bytes`
  unfoldable pub root_of_bytes : Bytes → Option Hash
  root_of_bytes bytes =
      then_read (root_loop (length bytes) bytes none (new_tree sha256)) λ tree. some tree.root

  module _ {K : Type 0} (s : Keyspace K) where
    unfoldable pub new : K → State K
    new kv = record { kv = kv; tree = new_tree sha256 }

    unfoldable pub get_value : Bytes → State K → Option Bytes
    get_value key st = s.read key st.kv

    unfoldable pub contains : Bytes → State K → Bool
    contains key st = elim (get_value key st) [ none ↦ false | some _ ↦ true ]

    -- `State::proof`
    unfoldable pub proof : Bytes → State K → Option MerkleProof
    proof key st = then_read (get_value key st) λ value.
        then_read (proof_siblings sha256 st.tree key)
          λ siblings. some (record { key = key; value = value; siblings = siblings })

    abbrev put_in_tree :
        K × Bool → Option SparseMerkleTree → SparseMerkleTree → Option (State K × Bool)
    put_in_tree (kv, false) after tree = some (record { kv = kv; tree = tree }, false)
    put_in_tree (kv, true) none tree = none
    put_in_tree (kv, true) (some after) tree = some (record { kv = kv; tree = after }, true)

    -- `State::apply`: the state after it, and whether it is `Ok`. `none` is the panic of `insert` on a
    -- field of 2^32 bytes or more.
    unfoldable pub apply : Op → State K → Option (State K × Bool)
    apply (put key value) st =
        put_in_tree (s.write key value st.kv) (Merkle.insert sha256 key value st.tree) st.tree
    apply (delete key) st =
        put_in_tree (s.erase key st.kv) (some (Merkle.delete sha256 key st.tree).0) st.tree

    -- a run of operations that stops at the first that fails, as a round does
    unfoldable pub apply_all : List Op → State K → Option (State K × Bool)
    apply_all [] st = some (st, true)
    apply_all (op ∷ ops) st = elim (apply op st) [
      | none ↦ none
      | some (after, false) ↦ some (after, false)
      | some (after, true) ↦ apply_all ops after
    ]

    -- `State::to_bytes`; `none` is a storage error, or the panic of `write_bytes`
    unfoldable pub to_bytes : State K → Option Bytes
    to_bytes st = then_read (s.entries st.kv) write_pairs

    -- the writes of a turn of `from_bytes`
    abbrev store_pair : K × Bool → Option SparseMerkleTree → Option (State K)
    store_pair (kv, true) (some tree) = some (record { kv = kv; tree = tree })
    store_pair _ _ = none

    unfoldable pub from_loop : ℕ → Bytes → Option Bytes → State K → Option (State K)
    from_loop fuel [] prev st = some st
    from_loop zero (b ∷ cursor) prev st = none
    from_loop (suc fuel) (b ∷ cursor) prev st =
        then_read (read_bytes (b ∷ cursor)) λ (key : Bytes × Bytes).
          then_read (read_bytes key.1) λ (value : Bytes × Bytes). elim (is_above prev key.0) [
            | false ↦ none
            | true ↦
                then_read
                  (store_pair (s.write key.0 value.0 st.kv)
                    (Merkle.insert sha256 key.0 value.0 st.tree))
                  λ after. from_loop fuel value.1 (some key.0) after
          ]

    -- `State::from_bytes`
    unfoldable pub from_bytes : K → Bytes → Option (State K)
    from_bytes kv bytes = from_loop (length bytes) bytes none (new kv)

    -- `PartialEq::eq`
    unfoldable pub states_beq : State K → State K → Bool
    states_beq a b = elim (to_bytes a) [
      | none ↦ false
      | some x ↦ elim (to_bytes b) [ none ↦ false | some y ↦ list_beq x y ]
    ]
