-- ===== src/Merkle/Canonical.antt =====
-- What the stored branches of consensus-node/executor/state/src/merkle.rs hold between two
-- operations, and how the loop up a path restores it.
use jx.Base.{
  ℕ, zero, suc, ◌-◌, ◌≤◌, ◌<◌, ◌==◌, ==_iff, ◌≡◌, ◌≢◌, ◌⊎◌, refl, sym, ◌∙◌, ap, ◌&&◌, false, [],
  take, length, inl, inr, Bool-cases, list_eq, list_beq, list_beq_iff, pair_eq, nat_eq,
  if◌then◌else◌, arith,
}
use jx.Base.Map.{get, get-put, get-remove}
use jx.Roster.{Bytes}
use jx.MerkleLog.{Hash}
use jx.Merkle.{
  SparseMerkleTree, full_depth, mask, empty, or_empty, subtree_hash, set_branch, parent_hash, climb,
}
use jx.Merkle.Bits.{BitPath, bool_eq, flip, length-flip}
use jx.Merkle.Subtree.{mask-take, mask-injective, subtree, leaf_at, parent_hash-subtree}

module _ (sha256 : Bytes → Hash) where
  -- Every branch and the root are the hashes of the whole tree over the leaves.
  pub record IsCanonical (t : SparseMerkleTree) : Type 0 where
    pub branches :
        (depth : ℕ) (path : BitPath)
        → depth ≤ full_depth
        → length path ≡ full_depth
        → subtree_hash sha256 t depth path
          ≡ subtree sha256 (leaf_at sha256 t.leaves) (full_depth - depth) (take depth path)
    pub at_root : t.root ≡ subtree sha256 (leaf_at sha256 t.leaves) full_depth []

  -- The branches that the loop has reached, and those off the path, are right.
  abbrev pub Settled : (BitPath → Hash) → BitPath → ℕ → SparseMerkleTree → Type 0
  Settled leaf path d t =
      (e : ℕ) (p : BitPath)
      → e ≤ full_depth
      → length p ≡ full_depth
      → (d ≤ e) ⊎ (take e p ≢ take e path)
      → subtree_hash sha256 t e p ≡ subtree sha256 leaf (full_depth - e) (take e p)

  get-branch :
      (k : ℕ) (m : BitPath) (hash : Hash) (t : SparseMerkleTree) (e : ℕ) (p : BitPath)
      → or_empty sha256 (get (e, p) (set_branch sha256 k m hash t).nodes)
        ≡ (if (k == e) && list_beq m p then hash else or_empty sha256 (get (e, p) t.nodes))
  unfolding set_branch
  get-branch k m hash t e p = elim (Bool-cases (list_beq hash (empty sha256))) [
    | inl q ↦ ground (arith, get-remove (k, m) (e, p) t.nodes, list_beq_iff hash (empty sha256))
    | inr q ↦ ground (arith, get-put (k, m) (e, p) hash t.nodes)
  ]

  set_branch-leaves :
      (k : ℕ) (m : BitPath) (hash : Hash) (t : SparseMerkleTree)
      → (set_branch sha256 k m hash t).leaves ≡ t.leaves
  unfolding set_branch
  set_branch-leaves k m hash t = ground arith

  -- Storing a branch changes what is read at its own place, and only there.
  subtree_hash-set_branch :
      (k : ℕ) (m : BitPath) (hash : Hash) (t : SparseMerkleTree) (e : ℕ) (p : BitPath)
      → subtree_hash sha256 (set_branch sha256 k m hash t) e p ≡ (
          if e == full_depth
          then subtree_hash sha256 t e p
          else if (k == e) && list_beq m (mask p e)
          then hash
          else subtree_hash sha256 t e p)
  unfolding subtree_hash
  subtree_hash-set_branch k m hash t e p = elim (Bool-cases (e == full_depth)) [
    | inl q ↦ rw (q, set_branch-leaves)
    | inr q ↦ rw (q, get-branch)
  ]

  -- A branch that was not the one written is above the path's, or off the path.
  still_off :
      (path p : BitPath) (k e : ℕ)
      → ((k == e) && list_beq (mask path k) (mask p e)) ≡ false
      → (k ≤ e) ⊎ (take e p ≢ take e path)
      → (suc k ≤ e) ⊎ (take e p ≢ take e path)
  still_off path p k e c (inr n) = inr n
  still_off path p k e c (inl le) = elim (Bool-cases (k == e)) [
    | inl q ↦
        let ke : k ≡ e = (==_iff k e).0 q in
        inr λ same.
          let masks : mask path k ≡ mask p e = ap (mask path) ke ∙ sym (mask-take p path e same) in
          ground (arith, (list_beq_iff (mask path k) (mask p e)).1 masks)
    | inr q ↦ inl (ground (arith, ==_iff k e))
  ]

  -- Writing the next branch of the path settles it.
  pub set_branch-Settled :
      (f : BitPath → Hash) (path : BitPath) (k : ℕ) (hash : Hash) (t : SparseMerkleTree)
      → length path ≡ full_depth
      → k < full_depth
      → hash ≡ subtree sha256 f (full_depth - k) (take k path)
      → Settled f path (suc k) t
      → Settled f path k (set_branch sha256 k (mask path k) hash t)
  set_branch-Settled f path k hash t len h eq settled e p le lp off =
      elim (Bool-cases (e == full_depth)) [
        | inl top ↦
            let here : e ≡ full_depth = (==_iff e full_depth).0 top in
            subtree_hash-set_branch k (mask path k) hash t e p
            ∙ rw top (settled e p le lp (inl (omega (arith, here))))
        | inr inside ↦ elim (Bool-cases ((k == e) && list_beq (mask path k) (mask p e))) [
          | inl c ↦
              let ke : k ≡ e = ground (arith, ==_iff k e) in
              let masks : mask path k ≡ mask p e =
                ground (arith, list_beq_iff (mask path k) (mask p e)) in
              let takes : take e path ≡ take e p =
                mask-injective path p e (omega (arith, len)) (omega (arith, lp))
                  (ap (mask path) (sym ke) ∙ masks) in
              let written : hash ≡ subtree sha256 f (full_depth - e) (take e p) =
                eq
                ∙ ap (λ z. subtree sha256 f (full_depth - z) (take z path)) ke
                ∙ ap (subtree sha256 f (full_depth - e)) takes in
              subtree_hash-set_branch k (mask path k) hash t e p ∙ rw (inside, c) written
          | inr c ↦
              subtree_hash-set_branch k (mask path k) hash t e p
              ∙ rw (inside, c) (settled e p le lp (still_off path p k e c off))
        ]
      ]

  pub record Climbed (f : BitPath → Hash) (path : BitPath) (d : ℕ) (current : Hash)
      (t : SparseMerkleTree) : Type 0 where
    pub top : (climb sha256 path d current t).1 ≡ subtree sha256 f full_depth []
    pub settled : Settled f path 0 (climb sha256 path d current t).0
    pub same_leaves : (climb sha256 path d current t).0.leaves ≡ t.leaves

  -- The loop ends with the hash of the whole tree, and every branch right.
  pub climb-Climbed :
      (f : BitPath → Hash) (path : BitPath) (d : ℕ) (current : Hash) (t : SparseMerkleTree)
      → length path ≡ full_depth
      → d ≤ full_depth
      → current ≡ subtree sha256 f (full_depth - d) (take d path)
      → Settled f path d t
      → Climbed f path d current t
  unfolding climb
  climb-Climbed f path zero current t len h eq settled = record {
    top = eq;
    settled = settled;
    same_leaves = refl;
  }
  climb-Climbed f path (suc d) current t len h eq settled =
      let parent =
        parent_hash sha256 path d current (subtree_hash sha256 t (suc d) (flip path d)) in
      let up = set_branch sha256 d (mask path d) parent t in
      let sibling =
        settled (suc d) (flip path d) (omega arith) (length-flip path d ∙ len)
          (inl (omega arith)) in
      let right : parent ≡ subtree sha256 f (full_depth - d) (take d path) =
        (λ i. parent_hash sha256 path d (eq i) (sibling i))
        ∙ parent_hash-subtree sha256 f path d (full_depth - suc d) (omega (arith, len))
        ∙ ap (λ n. subtree sha256 f n (take d path)) (omega arith) in
      let rest =
        climb-Climbed f path d parent up len (omega arith) right
          (set_branch-Settled f path d parent t len (omega arith) right settled) in
      record {
        top = rest.top;
        settled = rest.settled;
        same_leaves = rest.same_leaves ∙ set_branch-leaves d (mask path d) parent t;
      }
