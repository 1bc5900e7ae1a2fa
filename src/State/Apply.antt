-- ===== src/State/Apply.antt =====
-- `apply` of consensus-node/executor/state/src/state.rs against a map from keys to values.
use jx.Base.{
  ◌≡◌, sym, ◌∙◌, ap, Bool, true, false, Option, none, some, List, [], ◌∷◌, inl, inr, Option-cases,
  nat_eq, subst, arith,
}
use mathlib.Core.Option.{some-injective}
use jx.Roster.{Bytes}
use jx.MerkleLog.{Hash}
use jx.Op.Codec.{key_of}
use jx.Op.{Op, put, delete}
use jx.Merkle
use jx.Merkle.{SparseMerkleTree}
use jx.Merkle.Update.{Digest32}
use jx.State.{Keyspace, KeyspaceLaws, State, put_in_tree, apply, apply_all}
use jx.State.Synced.{Holds, Unshared, with_entry, insert-Holds, delete-Holds, root-Holds}

-- what an operation makes of a map
unfoldable pub written : Op → (Bytes → Option Bytes) → Bytes → Option Bytes
written (put key value) read = with_entry key (some value) read
written (delete key) read = with_entry key none read

unfoldable pub all_written : List Op → (Bytes → Option Bytes) → Bytes → Option Bytes
all_written [] read = read
all_written (op ∷ ops) read = all_written ops (written op read)

module _ (sha256 : Bytes → Hash) where
  -- Each operation is on a key that shares its path with no other key stored when it runs.
  abbrev pub NoRivals : List Op → (Bytes → Option Bytes) → Type 0
  NoRivals [] read = Unit
  NoRivals (op ∷ ops) read = Unshared sha256 read (key_of op) × NoRivals ops (written op read)

  pub Holds-cong :
      (r q : Bytes → Option Bytes) (t : SparseMerkleTree)
      → ((k : Bytes) → r k ≡ q k)
      → Holds sha256 r t
      → Holds sha256 q t
  Holds-cong r q t e h = subst (λ f. Holds sha256 f t) (λ i k. e k i) h

  module _ {K : Type 0} (s : Keyspace K) where
    abbrev pub reads : State K → Bytes → Option Bytes
    reads st k = s.read k st.kv

    -- The tree holds the entries of the keyspace.
    abbrev pub IsSynced : State K → Type 0
    IsSynced st = Holds sha256 (reads st) st.tree

    -- the outcome of a write that went well
    pub put_in_tree_ok :
        (r : K × Bool) (after : Option SparseMerkleTree) (tree : SparseMerkleTree) (st : State K)
        → put_in_tree sha256 s r after tree ≡ some (st, true)
        → (r ≡ (st.kv, true)) × (after ≡ some st.tree)
    put_in_tree_ok (kv, false) after tree st e = ground arith
    put_in_tree_ok (kv, true) none tree st e = ground arith
    put_in_tree_ok (kv, true) (some u) tree st e =
        let same = some-injective _ _ e in
        (ap (λ x. (x.0.kv, true)) same, ap (λ x. some x.0.tree) same)

    -- An operation that goes well, on a key that has no rival on its path, changes the entries as
    -- the map, and the tree holds the new ones.
    pub apply-IsSynced :
        KeyspaceLaws s
        → Digest32 sha256
        → (op : Op) (st after : State K) → IsSynced st
        → Unshared sha256 (reads st) (key_of op)
        → apply sha256 s op st ≡ some (after, true)
        → IsSynced after × ((k : Bytes) → reads after k ≡ written op (reads st) k)
    unfolding apply written
    apply-IsSynced laws d (put key value) st after h free e =
        let w =
          put_in_tree_ok (s.write key value st.kv) (Merkle.insert sha256 key value st.tree) st.tree
            after e in
        let r = laws.read-write key value st.kv after.kv w.0 in
        (
          Holds-cong (with_entry key (some value) (reads st)) (reads after) after.tree
              (λ k. sym (r k))
              (insert-Holds sha256 d (reads st) key value st.tree after.tree h w.1 free),
          r,
        )
    apply-IsSynced laws d (delete key) st after h free e =
        let w =
          put_in_tree_ok (s.erase key st.kv) (some (Merkle.delete sha256 key st.tree).0) st.tree
            after e in
        let r = laws.read-erase key st.kv after.kv w.0 in
        (
          Holds-cong (with_entry key none (reads st)) (reads after) after.tree (λ k. sym (r k))
              (subst (Holds sha256 (with_entry key none (reads st))) (some-injective _ _ w.1)
                (delete-Holds sha256 d (reads st) key st.tree h free)),
          r,
        )

    -- A run of operations that goes well, each on a key that shares its path with no other key
    -- stored when it runs, implements the map: it ends with the entries that the operations make of
    -- those at its start, and with a tree that holds them.
    pub apply_all-written :
        KeyspaceLaws s
        → Digest32 sha256
        → (ops : List Op) (st after : State K) → IsSynced st
        → NoRivals ops (reads st)
        → apply_all sha256 s ops st ≡ some (after, true)
        → IsSynced after × ((k : Bytes) → reads after k ≡ all_written ops (reads st) k)
    unfolding apply_all all_written
    apply_all-written laws d [] st after h free e =
        let same : st ≡ after = ap (λ x. x.0) (some-injective _ _ e) in
        (subst IsSynced same h, λ k. ap (λ x. reads x k) (sym same))
    apply_all-written laws d (op ∷ ops) st after h free e =
        elim (Option-cases (apply sha256 s op st)) [
          | inl n ↦ ground (arith, n)
          | inr ((mid, false), o) ↦ ground (arith, o)
          | inr ((mid, true), o) ↦
              let m = apply-IsSynced laws d op st mid h free.0 o in
              let same : reads mid ≡ written op (reads st) = λ i k. m.1 k i in
              let z =
                apply_all-written laws d ops mid after m.0 (subst (NoRivals ops) (sym same) free.1)
                  (ground (arith, o)) in
              (z.0, λ k. z.1 k ∙ ap (λ f. all_written ops f k) same)
        ]

    -- States with the same entries have the same root, whatever operations led to them.
    pub root-reads :
        (a b : State K)
        → IsSynced a
        → IsSynced b
        → ((k : Bytes) → reads a k ≡ reads b k)
        → a.tree.root ≡ b.tree.root
    root-reads a b h i same =
        root-Holds sha256 (reads b) a.tree b.tree (Holds-cong (reads a) (reads b) a.tree same h) i

    -- Two runs of operations that go well from one state, whose tree holds its entries, and that
    -- make the same map of its entries, end with the same root, whatever their order and number,
    -- when each operation is on a key that shares its path with no other key stored when it runs.
    pub apply_all-root :
        KeyspaceLaws s
        → Digest32 sha256
        → (ops others : List Op) (st a b : State K) → IsSynced st
        → NoRivals ops (reads st)
        → NoRivals others (reads st)
        → apply_all sha256 s ops st ≡ some (a, true)
        → apply_all sha256 s others st ≡ some (b, true)
        → ((k : Bytes) → all_written ops (reads st) k ≡ all_written others (reads st) k)
        → a.tree.root ≡ b.tree.root
    apply_all-root laws d ops others st a b h free free' e f same =
        let x = apply_all-written laws d ops st a h free e in
        let y = apply_all-written laws d others st b h free' f in
        root-reads a b x.0 y.0 λ k. x.1 k ∙ same k ∙ sym (y.1 k)
