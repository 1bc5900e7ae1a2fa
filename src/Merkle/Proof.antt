-- ===== src/Merkle/Proof.antt =====
-- `proof_siblings` and `verify` of consensus-node/executor/state/src/merkle.rs.
use jx.Base.{
  ℕ, zero, suc, ◌-◌, ◌≤◌, ==_iff, ◌≡◌, refl, sym, ◌∙◌, ap, true, some, List, [], take, length,
  list_eq, list_beq_iff, nat_eq, arith,
}
use jx.Base.Map.{get, contains_key}
use jx.Roster.{Bytes}
use jx.MerkleLog.{Hash}
use jx.Merkle.{
  SparseMerkleTree, full_depth, path_of, leaf_hash, or_empty, subtree_hash, siblings_from,
  proof_siblings, parent_hash, fold_siblings, verify,
}
use jx.Merkle.Bits.{BitPath, bool_eq, flip, length-flip}
use jx.Merkle.Subtree.{subtree, leaf_at, parent_hash-subtree}
use jx.Merkle.Canonical.{IsCanonical}
use jx.Merkle.Update.{Digest32, length-path_of, contains_key-get, subtree-whole}

module _ (sha256 : Bytes → Hash) where
  -- The siblings read off the tree lead from a node of the path to the root.
  fold_siblings-siblings_from :
      (f : BitPath → Hash) (path : BitPath) (t : SparseMerkleTree) (d : ℕ)
      → length path ≡ full_depth
      → d ≤ full_depth
      → ((e : ℕ) (p : BitPath)
          → e ≤ full_depth
          → length p ≡ full_depth
          → subtree_hash sha256 t e p ≡ subtree sha256 f (full_depth - e) (take e p))
      → fold_siblings sha256 path d
          (subtree sha256 f (full_depth - d) (take d path))
          (siblings_from sha256 t path d)
        ≡ subtree sha256 f full_depth []
  unfolding fold_siblings siblings_from
  fold_siblings-siblings_from f path t zero len h branches = refl
  fold_siblings-siblings_from f path t (suc d) len h branches =
      let sibling = branches (suc d) (flip path d) (omega arith) (length-flip path d ∙ len) in
      let up : parent_hash sha256 path d (subtree sha256 f (full_depth - suc d) (take (suc d) path))
            (subtree_hash sha256 t (suc d) (flip path d))
          ≡ subtree sha256 f (full_depth - d) (take d path) =
        (λ i.
          parent_hash sha256 path d (subtree sha256 f (full_depth - suc d) (take (suc d) path))
            (sibling i))
        ∙ parent_hash-subtree sha256 f path d (full_depth - suc d) (omega (arith, len))
        ∙ ap (λ n. subtree sha256 f n (take d path)) (omega arith) in
      ap (λ x. fold_siblings sha256 path d x (siblings_from sha256 t path d)) up
      ∙ fold_siblings-siblings_from f path t d len (omega arith) branches

  length-siblings_from :
      (t : SparseMerkleTree) (path : BitPath) (d : ℕ) → length (siblings_from sha256 t path d) ≡ d
  unfolding siblings_from
  length-siblings_from t path zero = refl
  length-siblings_from t path (suc d) = ap suc (length-siblings_from t path d)

  -- The proof read off a tree whose branches are right, for a key whose leaf is the one of the value,
  -- is accepted against the root of the tree.
  pub verify-proof_siblings :
      Digest32 sha256
      → (key value : Bytes) (leaf : Hash) (t : SparseMerkleTree) → IsCanonical sha256 t
      → leaf_hash sha256 key value ≡ some leaf
      → get (path_of sha256 key) t.leaves ≡ some leaf
      → (siblings : List Hash) × (proof_siblings sha256 t key ≡ some siblings)
        × (verify sha256 (record { key = key; value = value; siblings = siblings }) t.root
            ≡ some true)
  unfolding proof_siblings verify
  verify-proof_siblings h key value leaf t c l g =
      let path = path_of sha256 key in
      let f = leaf_at sha256 t.leaves in
      let len = length-path_of sha256 h key in
      let there : contains_key path t.leaves ≡ true =
        ground (arith, contains_key-get sha256 path t.leaves) in
      let whole : subtree sha256 f (full_depth - full_depth) (take full_depth path) ≡ leaf =
        subtree-whole sha256 f path len ∙ ap (or_empty sha256) g in
      let folded : fold_siblings sha256 path full_depth leaf
            (siblings_from sha256 t path full_depth)
          ≡ t.root =
        ap (λ x. fold_siblings sha256 path full_depth x (siblings_from sha256 t path full_depth))
          (sym whole)
        ∙ fold_siblings-siblings_from f path t full_depth len (omega arith) c.branches
        ∙ sym c.at_root in
      (
        siblings_from sha256 t path full_depth,
        rw there refl,
        rw
            (
              (==_iff (length (siblings_from sha256 t path full_depth)) full_depth).1
                  (length-siblings_from t path full_depth),
              l,
            )
            (ap some ((list_beq_iff _ t.root).1 folded)),
      )
