-- ===== src/State/Synced.antt =====
-- `apply` and `proof` of consensus-node/executor/state/src/state.rs: what the tree holds of the
-- entries of the keyspace.
use jx.Base.{
  ◌≡◌, ◌≢◌, ◌⊎◌, refl, sym, ◌∙◌, ap, false, Option, none, some, inl, inr, Bool-cases, Option-cases,
  list_beq, list_beq_iff, list_eq, nat_eq, if◌then◌else◌, arith,
}
use jx.Base.Map.{get, get-put}
use mathlib.Core.Option.{some-injective}
use jx.Roster.{Bytes}
use jx.MerkleLog.{Hash}
use jx.Merkle
use jx.Merkle.{SparseMerkleTree, MerkleProof, path_of, leaf_hash, proof_siblings, verify, new_tree}
use jx.Merkle.Bits.{BitPath, bool_eq}
use jx.Merkle.Canonical.{IsCanonical}
use jx.Merkle.Update.{
  Digest32, insert-IsCanonical, delete-IsCanonical, root-leaves, new_tree-IsCanonical,
}

abbrev pub no_entry : Bytes → Option Bytes
no_entry key = none

abbrev pub with_entry : Bytes → Option Bytes → (Bytes → Option Bytes) → Bytes → Option Bytes
with_entry key entry read k = if list_beq key k then entry else read k

module _ (sha256 : Bytes → Hash) where
  -- A tree holds the entries of a map, and no other.
  pub record Holds (read : Bytes → Option Bytes) (t : SparseMerkleTree) : Type 0 where
    pub canonical : IsCanonical sha256 t
    pub stored :
        (key value : Bytes)
        → read key ≡ some value
        → (leaf : Hash) × (leaf_hash sha256 key value ≡ some leaf)
          × (get (path_of sha256 key) t.leaves ≡ some leaf)
    pub source :
        (p : BitPath) (leaf : Hash)
        → get p t.leaves ≡ some leaf
        → (key : Bytes) × (value : Bytes) × (read key ≡ some value)
          × (path_of sha256 key ≡ p)
          × (leaf_hash sha256 key value ≡ some leaf)
    pub distinct :
        (j k v w : Bytes)
        → read j ≡ some v
        → read k ≡ some w
        → path_of sha256 j ≡ path_of sha256 k
        → j ≡ k

  pub new_tree-Holds : Holds no_entry (new_tree sha256)
  unfolding new_tree get
  new_tree-Holds = record {
    canonical = new_tree-IsCanonical sha256;
    stored = λ key value e. ground arith;
    source = λ p leaf e. ground arith;
    distinct = λ j k v w e. ground arith;
  }

  -- Every entry on the path of a key is the key's own.
  abbrev pub Unshared : (Bytes → Option Bytes) → Bytes → Type 0
  Unshared read key =
      (k v : Bytes) → read k ≡ some v → path_of sha256 k ≡ path_of sha256 key → k ≡ key

  beq_false : (x y : Bytes) → x ≢ y → list_beq x y ≡ false
  beq_false x y n = ground (arith, list_beq_iff x y)

  entry_cases :
      (key : Bytes) (entry : Option Bytes) (read : Bytes → Option Bytes) (k v : Bytes)
      → with_entry key entry read k ≡ some v
      → ((key ≡ k) × (entry ≡ some v)) ⊎ ((list_beq key k ≡ false) × (read k ≡ some v))
  entry_cases key entry read k v e = elim (Bool-cases (list_beq key k)) [
    | inl t ↦ inl ((list_beq_iff key k).0 t, ground (arith, t))
    | inr n ↦ inr (n, ground (arith, n))
  ]

  -- the entry of a key, and the leaf at its path
  abbrev Matches : Bytes → Option Bytes → Option Hash → Type 0
  Matches key entry slot =
      ((entry ≡ none) × (slot ≡ none))
      ⊎ ((value : Bytes) × (leaf : Hash) × (entry ≡ some value)
          × (slot ≡ some leaf)
          × (leaf_hash sha256 key value ≡ some leaf))

  Matches-leaf :
      (key : Bytes) (entry : Option Bytes) (slot : Option Hash) (v : Bytes)
      → Matches key entry slot
      → entry ≡ some v
      → (leaf : Hash) × (leaf_hash sha256 key v ≡ some leaf) × (slot ≡ some leaf)
  Matches-leaf key entry slot v (inl m) e = ground (arith, m.0)
  Matches-leaf key entry slot v (inr (value, leaf, a, b, l)) e =
      (leaf, ap (leaf_hash sha256 key) (some-injective v value (sym e ∙ a)) ∙ l, b)

  Matches-value :
      (key : Bytes) (entry : Option Bytes) (slot : Option Hash) (leaf : Hash)
      → Matches key entry slot
      → slot ≡ some leaf
      → (value : Bytes) × (entry ≡ some value) × (leaf_hash sha256 key value ≡ some leaf)
  Matches-value key entry slot leaf (inl m) e = ground (arith, m.1)
  Matches-value key entry slot leaf (inr (value, x, a, b, l)) e =
      (value, a, l ∙ ap some (some-injective x leaf (sym b ∙ e)))

  -- A change of the leaf of one path, on which the key has no rival, is a change of one entry.
  change-Holds :
      (read : Bytes → Option Bytes) (key : Bytes) (entry : Option Bytes) (slot : Option Hash)
      (t u : SparseMerkleTree)
      → Holds read t
      → Unshared read key
      → IsCanonical sha256 u
      → Matches key entry slot
      → ((p : BitPath)
          → get p u.leaves ≡ (if list_beq (path_of sha256 key) p then slot else get p t.leaves))
      → Holds (with_entry key entry read) u
  change-Holds read key entry slot t u h free c m leaves = record {
    canonical = c;
    stored = stored;
    source = source;
    distinct = distinct;
  }
    where
      path : BitPath
      path = path_of sha256 key

      stored :
          (k v : Bytes)
          → with_entry key entry read k ≡ some v
          → (leaf : Hash) × (leaf_hash sha256 k v ≡ some leaf)
            × (get (path_of sha256 k) u.leaves ≡ some leaf)
      stored k v e = elim (entry_cases key entry read k v e) [
        | inl (same, e') ↦
            let l = Matches-leaf key entry slot v m e' in
            (
              l.0,
              ap (λ x. leaf_hash sha256 x v) (sym same) ∙ l.1,
              leaves (path_of sha256 k)
                  ∙ rw ((list_beq_iff path (path_of sha256 k)).1 (ap (path_of sha256) same)) l.2,
            )
        | inr (n, e') ↦
            let l = h.stored k v e' in
            (
              l.0,
              l.1,
              leaves (path_of sha256 k)
                  ∙ ground (
                    arith,
                    l.2,
                    free k v e',
                    list_beq_iff path (path_of sha256 k),
                    list_beq_iff key k,
                  ),
            )
      ]

      source :
          (p : BitPath) (leaf : Hash)
          → get p u.leaves ≡ some leaf
          → (k : Bytes) × (value : Bytes) × (with_entry key entry read k ≡ some value)
            × (path_of sha256 k ≡ p)
            × (leaf_hash sha256 k value ≡ some leaf)
      source p leaf g = elim (Bool-cases (list_beq path p)) [
        | inl t ↦
            let v = Matches-value key entry slot leaf m (ground (arith, leaves p)) in
            (key, v.0, rw ((list_beq_iff key key).1 refl) v.1, (list_beq_iff path p).0 t, v.2)
        | inr n ↦
            let o = h.source p leaf (ground (arith, leaves p)) in
            let other : list_beq key o.0 ≡ false =
              beq_false key o.0
                λ same. ground (arith, (list_beq_iff path p).1 (ap (path_of sha256) same ∙ o.3)) in
            (o.0, o.1, rw other o.2, o.3, o.4)
      ]

      distinct :
          (j k v w : Bytes)
          → with_entry key entry read j ≡ some v
          → with_entry key entry read k ≡ some w
          → path_of sha256 j ≡ path_of sha256 k
          → j ≡ k
      distinct j k v w e f same = elim (entry_cases key entry read j v e) [
        | inl a ↦ elim (entry_cases key entry read k w f) [
          | inl b ↦ sym a.0 ∙ b.0
          | inr b ↦ sym a.0 ∙ sym (free k w b.1 (sym same ∙ ap (path_of sha256) (sym a.0)))
        ]
        | inr a ↦ elim (entry_cases key entry read k w f) [
          | inl b ↦ free j v a.1 (same ∙ ap (path_of sha256) (sym b.0)) ∙ b.0
          | inr b ↦ h.distinct j k v w a.1 b.1 same
        ]
      ]

  -- Inserting a key that has no rival on its path makes the tree hold its entry too.
  pub insert-Holds :
      Digest32 sha256
      → (read : Bytes → Option Bytes) (key value : Bytes) (t u : SparseMerkleTree) → Holds read t
      → Merkle.insert sha256 key value t ≡ some u
      → Unshared read key
      → Holds (with_entry key (some value) read) u
  insert-Holds d read key value t u h e free =
      let c = insert-IsCanonical sha256 d key value t u h.canonical e in
      let path = path_of sha256 key in
      change-Holds read key (some value) (some c.1.0) t u h free c.0
        (inr (value, c.1.0, refl, refl, c.1.1))
        λ p. ap (get p) c.1.2 ∙ get-put path p c.1.0 t.leaves

  -- Deleting a key that has no rival on its path makes the tree hold the other entries only.
  pub delete-Holds :
      Digest32 sha256
      → (read : Bytes → Option Bytes) (key : Bytes) (t : SparseMerkleTree) → Holds read t
      → Unshared read key
      → Holds (with_entry key none read) (Merkle.delete sha256 key t).0
  delete-Holds d read key t h free =
      let c = delete-IsCanonical sha256 d key t h.canonical in
      change-Holds read key none none t (Merkle.delete sha256 key t).0 h free c.0 (inl (refl, refl))
        c.1

  held_leaf :
      (read : Bytes → Option Bytes) (t u : SparseMerkleTree) (p : BitPath) (leaf : Hash)
      → Holds read t
      → Holds read u
      → get p t.leaves ≡ some leaf
      → get p u.leaves ≡ some leaf
  held_leaf read t u p leaf h k g =
      let o = h.source p leaf g in
      let l = k.stored o.0 o.1 o.2 in ap (λ q. get q u.leaves) (sym o.3) ∙ l.2 ∙ sym l.1 ∙ o.4

  -- Trees that hold the same entries have the same root.
  pub root-Holds :
      (read : Bytes → Option Bytes) (t u : SparseMerkleTree)
      → Holds read t
      → Holds read u
      → t.root ≡ u.root
  root-Holds read t u h k = root-leaves sha256 t u h.canonical k.canonical λ p.
      elim (Option-cases (get p t.leaves)) [
        | inr (leaf, g) ↦ g ∙ sym (held_leaf read t u p leaf h k g)
        | inl n ↦ elim (Option-cases (get p u.leaves)) [
          | inl m ↦ n ∙ sym m
          | inr (leaf, g) ↦ held_leaf read u t p leaf k h g ∙ sym g
        ]
      ]
