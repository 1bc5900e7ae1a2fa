-- ===== src/Merkle/Subtree.antt =====
-- The tree that consensus-node/executor/state/src/merkle.rs stores in part, as a whole: the hash of
-- each node is that of its two children, down to the leaves.
use jx.Base.{
  ℕ, zero, suc, ◌-◌, ◌≤◌, ◌<◌, ◌≡◌, refl, sym, ◌∙◌, ap, Bool, true, false, [], ◌∷◌, ◌++◌, take,
  replicate, length, length-take, take-append, Bool-cases, inl, inr, list_eq, arith,
}
use jx.Base.Map.{Map, get}
use mathlib.Core.List.{append_assoc, append-nil}
use jx.Roster.{Bytes}
use jx.MerkleLog.{Hash}
use jx.Merkle.{full_depth, mask, combine, or_empty, parent_hash}
use jx.Merkle.Bits.{BitPath, bool_eq, bit, flip, take-suc, take-flip}

-- A mask keeps the prefix and nothing else.
pub mask-take : (p q : BitPath) (k : ℕ) → take k p ≡ take k q → mask p k ≡ mask q k
unfolding mask
mask-take p q k e = ap (λ r. r ++ replicate (full_depth - k) false) e

take-mask : (p : BitPath) (k : ℕ) → k ≤ length p → take k (mask p k) ≡ take k p
unfolding mask
take-mask p k h =
    let len : length (take k p) ≡ k = omega (arith, length-take k p) in
    ap (λ n. take n (take k p ++ replicate (full_depth - k) false)) (sym len)
    ∙ take-append (take k p) (replicate (full_depth - k) false)

pub mask-injective :
    (p q : BitPath) (k : ℕ)
    → k ≤ length p
    → k ≤ length q
    → mask p k ≡ mask q k
    → take k p ≡ take k q
mask-injective p q k hp hq e = sym (take-mask p k hp) ∙ ap (take k) e ∙ take-mask q k hq

module _ (sha256 : Bytes → Hash) where
  -- the hash of a node of that height, over the leaves below a prefix
  unfoldable pub subtree : (BitPath → Hash) → ℕ → BitPath → Hash
  subtree leaf zero prefix = leaf prefix
  subtree leaf (suc height) prefix =
      combine sha256 (subtree leaf height (prefix ++ false ∷ []))
        (subtree leaf height (prefix ++ true ∷ []))

  abbrev pub leaf_at : Map BitPath Hash → BitPath → Hash
  leaf_at leaves path = or_empty sha256 (get path leaves)

  -- Leaves that agree below a prefix have one hash there.
  pub subtree-agree :
      (f g : BitPath → Hash) (height : ℕ) (prefix : BitPath)
      → ((s : BitPath) → length s ≡ height → f (prefix ++ s) ≡ g (prefix ++ s))
      → subtree f height prefix ≡ subtree g height prefix
  unfolding subtree
  subtree-agree f g zero prefix h =
      ap f (sym (append-nil prefix)) ∙ h [] refl ∙ ap g (append-nil prefix)
  subtree-agree f g (suc height) prefix h =
      let below : (b : Bool)
          → subtree f height (prefix ++ b ∷ []) ≡ subtree g height (prefix ++ b ∷ []) =
        λ b. subtree-agree f g height (prefix ++ b ∷ []) λ s e.
          ap f (append_assoc prefix (b ∷ []) s)
          ∙ h (b ∷ s) (ap suc e)
          ∙ ap g (sym (append_assoc prefix (b ∷ []) s)) in
      λ i. combine sha256 (below false i) (below true i)

  -- A node of the path and its sibling, the one of the other last bit, are the children of the
  -- node above.
  pub parent_hash-subtree :
      (f : BitPath → Hash) (path : BitPath) (d height : ℕ)
      → d < length path
      → parent_hash sha256 path d
          (subtree f height (take (suc d) path))
          (subtree f height (take (suc d) (flip path d)))
        ≡ subtree f (suc height) (take d path)
  unfolding parent_hash subtree
  parent_hash-subtree f path d height h = elim (Bool-cases (bit path d)) [
    | inl t ↦ rw (take-suc path d h, take-flip path d h, t)
    | inr t ↦ rw (take-suc path d h, take-flip path d h, t)
  ]
