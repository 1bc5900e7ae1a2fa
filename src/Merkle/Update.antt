-- ===== src/Merkle/Update.antt =====
-- `insert`, `delete` and `proof_siblings` of consensus-node/executor/state/src/merkle.rs against the
-- whole tree over the leaves.
use jx.Base.{
  ℕ, zero, suc, ◌-◌, ◌*◌, ◌≤◌, ◌==◌, ==_iff, ◌≡◌, ◌≢◌, ◌⊎◌, refl, sym, ◌∙◌, ap, true, false, none,
  some, [], ◌∷◌, ◌++◌, take, length, length-take, take-append, inl, inr, Bool-cases, Option-cases,
  list_eq, list_beq, list_beq_iff, nat_eq, if◌then◌else◌, arith, subst,
}
use jx.Base.Map.{Map, get, contains_key, put, remove, get-put_self, get-put_ne, get-remove}
use mathlib.Core.Option.{some-injective}
use jx.Roster.{Bytes}
use jx.MerkleLog.{Hash}
use jx.MerkleLog.Prefix.{take_all}
use jx.Merkle.{
  SparseMerkleTree, full_depth, empty, path_of, leaf_hash, or_empty, combine, new_tree,
  subtree_hash, update_branch, insert_leaf, insert, delete,
}
use jx.Merkle.Bits.{BitPath, bool_eq, length-bits_of}
use jx.Merkle.Subtree.{subtree, subtree-agree, leaf_at}
use jx.Merkle.Canonical.{IsCanonical, Settled, Climbed, climb-Climbed}

abbrev pub Digest32 : (Bytes → Hash) → Type 0
Digest32 sha256 = (x : Bytes) → length (sha256 x) ≡ 32

pub length-path_of :
    (sha256 : Bytes → Hash)
    → Digest32 sha256
    → (key : Bytes) → length (path_of sha256 key) ≡ full_depth
unfolding path_of
length-path_of sha256 h key = length-bits_of (sha256 key) ∙ ap (λ n. 8 * n) (h key)

module _ (sha256 : Bytes → Hash) where
  -- Trees with the same leaves have the same root, whatever was done to reach them.
  pub root-leaves :
      (t u : SparseMerkleTree)
      → IsCanonical sha256 t
      → IsCanonical sha256 u
      → ((p : BitPath) → get p t.leaves ≡ get p u.leaves)
      → t.root ≡ u.root
  root-leaves t u c d same =
      c.at_root
      ∙ subtree-agree sha256 (leaf_at sha256 t.leaves) (leaf_at sha256 u.leaves) full_depth []
          (λ s _. ap (or_empty sha256) (same s))
      ∙ sym d.at_root

  combine-empty : combine sha256 (empty sha256) (empty sha256) ≡ empty sha256
  unfolding combine
  combine-empty = rw ((list_beq_iff (empty sha256) (empty sha256)).1 refl) refl

  subtree-empty : (n : ℕ) (p : BitPath) → subtree sha256 (leaf_at sha256 []) n p ≡ empty sha256
  unfolding subtree get
  subtree-empty zero p = refl
  subtree-empty (suc n) p =
      (λ i.
        combine sha256 (subtree-empty n (p ++ false ∷ []) i) (subtree-empty n (p ++ true ∷ []) i))
      ∙ combine-empty

  pub new_tree-IsCanonical : IsCanonical sha256 (new_tree sha256)
  unfolding new_tree subtree_hash get
  new_tree-IsCanonical = record {
    branches = λ e p _ _. ground arith ∙ sym (subtree-empty (full_depth - e) (take e p));
    at_root = sym (subtree-empty full_depth []);
  }

  -- the tree with its leaves replaced
  abbrev with_leaves : SparseMerkleTree → Map BitPath Hash → SparseMerkleTree
  with_leaves t leaves = record t { leaves = leaves }

  -- what the leaves of a tree are at `full_depth`
  subtree_hash-leaf :
      (f : BitPath → Hash) (t : SparseMerkleTree) (e : ℕ) (p : BitPath)
      → e ≡ full_depth
      → length p ≡ full_depth
      → f p ≡ leaf_at sha256 t.leaves p
      → subtree_hash sha256 t e p ≡ subtree sha256 f (full_depth - e) (take e p)
  unfolding subtree_hash subtree
  subtree_hash-leaf f t e p top len same =
      let stored : subtree_hash sha256 t e p ≡ leaf_at sha256 t.leaves p =
        rw ((==_iff e full_depth).1 top) refl in
      let height : full_depth - e ≡ 0 = omega (arith, top) in
      let whole : take e p ≡ p = ap (λ n. take n p) (top ∙ sym len) ∙ take_all p in
      stored ∙ sym same ∙ sym (ap f whole) ∙ ap (λ n. subtree sha256 f n (take e p)) (sym height)

  branch-below :
      (t : SparseMerkleTree) (leaves : Map BitPath Hash) (e : ℕ) (p : BitPath)
      → (e == full_depth) ≡ false
      → subtree_hash sha256 (with_leaves t leaves) e p ≡ subtree_hash sha256 t e p
  unfolding subtree_hash
  branch-below t leaves e p inside = rw inside refl

  off_branch :
      (path p : BitPath) (e : ℕ)
      → e ≤ full_depth
      → (e == full_depth) ≡ false
      → (full_depth ≤ e) ⊎ (take e p ≢ take e path)
      → take e p ≢ take e path
  off_branch path p e le inside (inr n) = n
  off_branch path p e le inside (inl h) = ground (arith, ==_iff e full_depth)

  -- Nothing below a branch off the path is the path.
  off_path :
      (path p s : BitPath) (e : ℕ) → e ≤ length p → take e p ≢ take e path → (take e p ++ s) ≢ path
  off_path path p s e le off same =
      let len : e ≡ length (take e p) = omega (arith, length-take e p) in
      off (
        sym (take-append (take e p) s)
        ∙ ap (λ n. take n (take e p ++ s)) (sym len)
        ∙ ap (take e) same)

  -- A change of the leaf of a path leaves the branches off the path right.
  with_leaves-Settled :
      (t : SparseMerkleTree) (leaves : Map BitPath Hash) (path : BitPath)
      → IsCanonical sha256 t
      → length path ≡ full_depth
      → ((q : BitPath) → q ≢ path → leaf_at sha256 leaves q ≡ leaf_at sha256 t.leaves q)
      → Settled sha256 (leaf_at sha256 leaves) path full_depth (with_leaves t leaves)
  with_leaves-Settled t leaves path c len same e p le lp off = elim (Bool-cases (e == full_depth)) [
    | inl top ↦
        subtree_hash-leaf (leaf_at sha256 leaves) (with_leaves t leaves) e p
          ((==_iff e full_depth).0 top) lp refl
    | inr inside ↦
        branch-below t leaves e p inside
        ∙ c.branches e p le lp
        ∙ subtree-agree sha256 (leaf_at sha256 t.leaves) (leaf_at sha256 leaves) (full_depth - e)
            (take e p)
            λ s _. sym (
              same (take e p ++ s)
                (off_path path p s e (omega (arith, lp)) (off_branch path p e le inside off)))
  ]

  pub subtree-whole :
      (f : BitPath → Hash) (path : BitPath)
      → length path ≡ full_depth
      → subtree sha256 f (full_depth - full_depth) (take full_depth path) ≡ f path
  unfolding subtree
  subtree-whole f path len = ap f (ap (λ n. take n path) (sym len) ∙ take_all path)

  -- A leaf that is in place, and the branch above it brought up to date.
  update_branch-IsCanonical :
      (t : SparseMerkleTree) (leaves : Map BitPath Hash) (path : BitPath) (leaf : Hash)
      → IsCanonical sha256 t
      → length path ≡ full_depth
      → leaf ≡ leaf_at sha256 leaves path
      → ((q : BitPath) → q ≢ path → leaf_at sha256 leaves q ≡ leaf_at sha256 t.leaves q)
      → IsCanonical sha256 (update_branch sha256 path leaf (with_leaves t leaves))
        × ((update_branch sha256 path leaf (with_leaves t leaves)).leaves ≡ leaves)
  unfolding update_branch subtree_hash
  update_branch-IsCanonical t leaves path leaf c len here same =
      let f = leaf_at sha256 leaves in
      let done : Climbed sha256 f path full_depth leaf (with_leaves t leaves) =
        climb-Climbed sha256 f path full_depth leaf (with_leaves t leaves) len (omega arith)
          (here ∙ sym (subtree-whole f path len)) (with_leaves-Settled t leaves path c len same) in
      (
        record {
          branches = λ e p le lp.
              done.settled e p le lp (inl (omega arith))
              ∙ ap (λ l. subtree sha256 (leaf_at sha256 l) (full_depth - e) (take e p))
                  (sym done.same_leaves);
          at_root =
              done.top
              ∙ ap (λ l. subtree sha256 (leaf_at sha256 l) full_depth []) (sym done.same_leaves);
        },
        done.same_leaves,
      )

  -- Inserting writes the leaf of the key and leaves every branch and the root the hashes of the
  -- whole tree over the leaves, when they were before.
  pub insert-IsCanonical :
      Digest32 sha256
      → (key value : Bytes) (t u : SparseMerkleTree) → IsCanonical sha256 t
      → insert sha256 key value t ≡ some u
      → IsCanonical sha256 u
        × ((leaf : Hash) × (leaf_hash sha256 key value ≡ some leaf)
            × (u.leaves ≡ put (path_of sha256 key) leaf t.leaves))
  unfolding insert
  insert-IsCanonical h key value t u c e = elim (Option-cases (leaf_hash sha256 key value)) [
    | inl n ↦ ground arith
    | inr (leaf, l) ↦
        let path = path_of sha256 key in
        let leaves = put path leaf t.leaves in
        let done =
          update_branch-IsCanonical t leaves path leaf c (length-path_of sha256 h key)
            (sym (ap (or_empty sha256) (get-put_self path leaf t.leaves)))
            (λ q n. ap (or_empty sha256) (get-put_ne path q leaf t.leaves λ same. n (sym same))) in
        let written : update_branch sha256 path leaf (with_leaves t leaves) ≡ u =
          some-injective _ _ (ap (λ o. insert_leaf sha256 path o t) (sym l) ∙ e) in
        (
          subst (λ x. IsCanonical sha256 x) written done.0,
          (leaf, l, ap (λ x. x.leaves) (sym written) ∙ done.1),
        )
  ]

  pub contains_key-get :
      (p : BitPath) (m : Map BitPath Hash)
      → contains_key p m ≡ (elim (get p m) [ none ↦ false | some h ↦ true ])
  unfolding contains_key
  contains_key-get p m = ground arith

  still_absent :
      (path : BitPath) (m : Map BitPath Hash)
      → contains_key path m ≡ false
      → (p : BitPath) → get p m ≡ (if list_beq path p then none else get p m)
  still_absent path m q p = elim (Bool-cases (list_beq path p)) [
    | inl same ↦ rw same (
        ap (λ z. get z m) (sym ((list_beq_iff path p).0 same))
        ∙ ground (arith, contains_key-get path m))
    | inr other ↦ rw other refl
  ]

  -- Deleting takes the leaf of the key away, if it is there, and no other, says whether it was
  -- there, and leaves every branch and the root the hashes of the whole tree over the leaves, when
  -- they were before.
  pub delete-IsCanonical :
      Digest32 sha256
      → (key : Bytes) (t : SparseMerkleTree) → IsCanonical sha256 t
      → IsCanonical sha256 (delete sha256 key t).0
        × ((p : BitPath)
            → get p (delete sha256 key t).0.leaves
              ≡ (if list_beq (path_of sha256 key) p then none else get p t.leaves))
        × ((delete sha256 key t).1 ≡ contains_key (path_of sha256 key) t.leaves)
  unfolding delete
  delete-IsCanonical h key t c =
      let path = path_of sha256 key in
      elim (Bool-cases (contains_key path t.leaves)) [
        | inl q ↦
            let leaves = remove path t.leaves in
            let gone : (p : BitPath)
                → get p leaves ≡ (if list_beq path p then none else get p t.leaves) =
              λ p. get-remove path p t.leaves in
            let here : get path leaves ≡ none =
              rw (gone path, (list_beq_iff path path).1 refl) refl in
            let others : (p : BitPath) → p ≢ path → get p leaves ≡ get p t.leaves =
              λ p n. gone p ∙ ground (arith, list_beq_iff path p) in
            let done =
              update_branch-IsCanonical t leaves path (empty sha256) c (length-path_of sha256 h key)
                (sym (ap (or_empty sha256) here)) (λ p n. ap (or_empty sha256) (others p n)) in
            rw q (done.0, (λ p. ap (get p) done.1 ∙ gone p), refl)
        | inr q ↦ rw q (c, still_absent path t.leaves q, refl)
      ]
