-- ===== src/Merkle/Sound.antt =====
-- `verify` of consensus-node/executor/state/src/merkle.rs against the leaves of a tree, up to
-- collisions of the digest.
use jx.Base.{
  ℕ, zero, suc, ◌+◌, ◌<◌, ◌^◌, ==_iff, ◌≡◌, ◌≢◌, ◌⊎◌, refl, sym, ◌∙◌, ap, true, false, some, List,
  [], ◌∷◌, ◌++◌, length, length-append, inl, inr, Bool-cases, Option-cases, list_beq, list_beq_iff,
  list_eq, nat_eq, All, if◌then◌else◌, arith, drop,
}
use jx.Base.Map.{Map, get}
use jx.Roster.{Bytes}
use jx.MerkleLog.{Hash}
use jx.MerkleLog.Sound.{Is32, Collision, map_left, append_split}
use jx.Wire.{to_be_bytes, length-to_be_bytes}
use jx.Op.{Decoded, accepted, take_bytes, write_bytes}
use jx.Op.Codec.{take_bytes-field}
use jx.Merkle.{
  SparseMerkleTree, MerkleProof, full_depth, empty, path_of, leaf_hash, or_empty, combine, internal,
  singleton, parent_hash, fold_siblings, verify,
}
use jx.Merkle.Bits.{BitPath, bool_eq}
use jx.Merkle.Subtree.{subtree, leaf_at}
use jx.Merkle.Canonical.{IsCanonical}
use jx.Merkle.Update.{Digest32}

abbrev fields_of : Decoded (Bytes × Bytes) → Bytes × Bytes
fields_of (accepted p) = p
fields_of _ = ([], [])

module _ (sha256 : Bytes → Hash) where
  -- what the hash of two children is the digest of
  unfoldable image : Hash → Hash → Bytes
  image left right =
      if list_beq left (empty sha256)
      then (if list_beq right (empty sha256) then 0 ∷ [] else 1 ∷ right)
      else if list_beq right (empty sha256)
      then 1 ∷ left
      else 2 ∷ left ++ right

  combine-image : (a b : Hash) → combine sha256 a b ≡ sha256 (image a b)
  unfolding combine image empty internal singleton
  combine-image a b = ground arith

  -- One digest comes of one input, or there is a collision.
  one_input : (x y : Bytes) → sha256 x ≡ sha256 y → (x ≡ y) ⊎ Collision sha256
  one_input x y e = elim (Bool-cases (list_beq x y)) [
    | inl t ↦ inl ((list_beq_iff x y).0 t)
    | inr t ↦ inr (x, y, (λ same. ground (arith, (list_beq_iff x y).1 same)), e)
  ]

  abbrev Among : Hash → Hash → Hash → Type 0
  Among x l r = (x ≡ l) ⊎ (x ≡ r)

  -- A child that is not empty is one of the two children of an equal image.
  image-left :
      (x y l r : Hash) → Is32 x → Is32 l → x ≢ empty sha256 → image x y ≡ image l r → Among x l r
  unfolding image
  image-left x y l r px pl nx e =
      ground (arith, list_beq_iff x (empty sha256), append_split x y l r)

  image-right :
      (x y l r : Hash)
      → Is32 y
      → Is32 r
      → Is32 x
      → Is32 l
      → x ≢ empty sha256
      → image y x ≡ image l r
      → Among x l r
  unfolding image
  image-right x y l r py pr px pl nx e =
      ground (arith, list_beq_iff x (empty sha256), append_split y x l r)

  -- A node that has a child that is not empty is not empty.
  image-not_empty : (x y : Hash) → x ≢ empty sha256 → (image x y ≢ 0 ∷ []) × (image y x ≢ 0 ∷ [])
  unfolding image
  image-not_empty x y nx =
      (ground (arith, list_beq_iff x (empty sha256)), ground (arith, list_beq_iff x (empty sha256)))

  -- One step up the path.
  parent_hash-image :
      (path : BitPath) (d : ℕ) (x y : Hash)
      → (parent_hash sha256 path d x y ≡ combine sha256 x y)
        ⊎ (parent_hash sha256 path d x y ≡ combine sha256 y x)
  unfolding parent_hash
  parent_hash-image path d x y = ground arith

  digest-not_empty :
      (h : Hash) (bytes : Bytes)
      → h ≡ sha256 bytes
      → bytes ≢ 0 ∷ []
      → (h ≢ empty sha256) ⊎ Collision sha256
  unfolding empty
  digest-not_empty h bytes e m = elim (Bool-cases (list_beq h (empty sha256))) [
    | inl t ↦ inr (bytes, 0 ∷ [], m, sym e ∙ (list_beq_iff h (empty sha256)).0 t)
    | inr t ↦ inl λ same. ground (arith, (list_beq_iff h (empty sha256)).1 same)
  ]

  -- The parent of a node that is not empty is not empty, or there is a collision.
  parent_hash-not_empty :
      (path : BitPath) (d : ℕ) (x y : Hash)
      → x ≢ empty sha256
      → (parent_hash sha256 path d x y ≢ empty sha256) ⊎ Collision sha256
  parent_hash-not_empty path d x y nx = elim (parent_hash-image path d x y) [
    | inl e ↦ digest-not_empty _ (image x y) (e ∙ combine-image x y) (image-not_empty x y nx).0
    | inr e ↦ digest-not_empty _ (image y x) (e ∙ combine-image y x) (image-not_empty x y nx).1
  ]

  -- If its parent is the hash of two nodes, it is one of them, or there is a collision.
  child-Among :
      (path : BitPath) (d : ℕ) (x y l r : Hash)
      → Is32 x
      → Is32 y
      → Is32 l
      → Is32 r
      → x ≢ empty sha256
      → parent_hash sha256 path d x y ≡ combine sha256 l r
      → Among x l r ⊎ Collision sha256
  child-Among path d x y l r px py pl pr nx e = elim (parent_hash-image path d x y) [
    | inl q ↦ map_left (image-left x y l r px pl nx) (
        one_input (image x y) (image l r) (sym (combine-image x y) ∙ sym q ∙ e ∙ combine-image l r))
    | inr q ↦ map_left (image-right x y l r py pr px pl nx) (
        one_input (image y x) (image l r) (sym (combine-image y x) ∙ sym q ∙ e ∙ combine-image l r))
  ]

  abbrev Found : (BitPath → Hash) → ℕ → Hash → Type 0
  Found f height x = ((q : BitPath) × (x ≡ subtree sha256 f height q)) ⊎ Collision sha256

  subtree-Is32 :
      Digest32 sha256
      → (f : BitPath → Hash) → ((q : BitPath) → Is32 (f q))
      → (n : ℕ) (q : BitPath) → Is32 (subtree sha256 f n q)
  unfolding subtree
  subtree-Is32 h f w zero q = w q
  subtree-Is32 h f w (suc n) q = ap length (combine-image _ _) ∙ h (image _ _)

  found_below :
      (f : BitPath → Hash) (n : ℕ) (q : BitPath) (x : Hash)
      → Among x (subtree sha256 f n (q ++ false ∷ [])) (subtree sha256 f n (q ++ true ∷ []))
      → (q : BitPath) × (x ≡ subtree sha256 f n q)
  found_below f n q x (inl e) = (q ++ false ∷ [], e)
  found_below f n q x (inr e) = (q ++ true ∷ [], e)

  parent_hash-Is32 :
      Digest32 sha256 → (path : BitPath) (d : ℕ) (x y : Hash) → Is32 (parent_hash sha256 path d x y)
  parent_hash-Is32 h path d x y = elim (parent_hash-image path d x y) [
    | inl e ↦ ap length (e ∙ combine-image x y) ∙ h (image x y)
    | inr e ↦ ap length (e ∙ combine-image y x) ∙ h (image y x)
  ]

  -- A parent found in the tree has the child found in it.
  Found-child :
      Digest32 sha256
      → (f : BitPath → Hash) → ((q : BitPath) → Is32 (f q))
      → (path : BitPath) (d n : ℕ) (x y : Hash) → Is32 x
      → Is32 y
      → x ≢ empty sha256
      → Found f (suc n) (parent_hash sha256 path d x y)
      → Found f n x
  unfolding subtree
  Found-child h f w path d n x y px py nx (inr c) = inr c
  Found-child h f w path d n x y px py nx (inl (q, e)) = map_left (found_below f n q x) (
      child-Among path d x y _ _ px py (subtree-Is32 h f w n (q ++ false ∷ []))
        (subtree-Is32 h f w n (q ++ true ∷ [])) nx e)

  -- From the root down: a node from which the siblings lead to the root is in the tree.
  fold_siblings-Found :
      Digest32 sha256
      → (f : BitPath → Hash) → ((q : BitPath) → Is32 (f q))
      → (path : BitPath) (d n total : ℕ) (x : Hash) (siblings : List Hash) → d + n ≡ total
      → length siblings ≡ d
      → All Is32 siblings
      → Is32 x
      → x ≢ empty sha256
      → fold_siblings sha256 path d x siblings ≡ subtree sha256 f total []
      → Found f n x
  unfolding fold_siblings
  fold_siblings-Found h f w path zero n total x siblings sum len all px nx e =
      inl ([], e ∙ ap (λ k. subtree sha256 f k []) (omega (arith, sum)))
  fold_siblings-Found h f w path (suc d) n total x [] sum len all px nx e = ground arith
  fold_siblings-Found h f w path (suc d) n total x (y ∷ ys) sum len all px nx e =
      elim (parent_hash-not_empty path d x y nx) [
        | inr c ↦ inr c
        | inl np ↦ Found-child h f w path d n x y px all.0 nx (
            fold_siblings-Found h f w path d (suc n) total (parent_hash sha256 path d x y) ys
              (omega (arith, sum)) (omega (arith, len)) all.1 (parent_hash-Is32 h path d x y) np e)
      ]

  -- The field of a key or value: its length, and its bytes.
  abbrev field : Bytes → Bytes
  field bytes = to_be_bytes 4 (length bytes) ++ bytes

  -- what a leaf's hash is the digest of
  pub record LeafOf (key value : Bytes) (leaf : Hash) : Type 0 where
    pub short_key : length key < 2 ^ 32
    pub short_value : length value < 2 ^ 32
    pub of_image : leaf ≡ sha256 (0 ∷ (field key ++ field value))

  pub leaf_hash-LeafOf :
      (key value : Bytes) (leaf : Hash)
      → leaf_hash sha256 key value ≡ some leaf
      → LeafOf key value leaf
  unfolding leaf_hash write_bytes
  leaf_hash-LeafOf key value leaf e = ground arith

  pub LeafOf-Is32 :
      Digest32 sha256 → (key value : Bytes) (leaf : Hash) → LeafOf key value leaf → Is32 leaf
  LeafOf-Is32 h key value leaf l = ap length l.of_image ∙ h (0 ∷ (field key ++ field value))

  -- A leaf's digest is not that of the empty subtree, or there is a collision.
  leaf-not_empty :
      (key value : Bytes) (leaf : Hash)
      → LeafOf key value leaf
      → (leaf ≢ empty sha256) ⊎ Collision sha256
  leaf-not_empty key value leaf l =
      digest-not_empty leaf (0 ∷ (field key ++ field value)) l.of_image λ same. omega (
        arith,
        ap length same,
        length-append (field key) (field value),
        length-append (to_be_bytes 4 (length key)) key,
        length-to_be_bytes 4 (length key),
      )

  fields-injective :
      (key value k v : Bytes)
      → length key < 2 ^ 32
      → length value < 2 ^ 32
      → length k < 2 ^ 32
      → length v < 2 ^ 32
      → (field key ++ field value) ≡ (field k ++ field v)
      → (key ≡ k) × (value ≡ v)
  fields-injective key value k v a b c d e =
      let first = ap fields_of (
        sym (take_bytes-field key (field value) a)
        ∙ ap take_bytes e
        ∙ take_bytes-field k (field v) c) in
      let key_same : key ≡ k = ap (λ p. p.0) first in
      let values : field value ≡ field v = ap (λ p. p.1) first in
      let second = ap fields_of (
        sym (take_bytes-field value [] b)
        ∙ ap (λ x. take_bytes (x ++ [])) values
        ∙ take_bytes-field v [] d) in
      (key_same, ap (λ p. p.0) second)

  -- Equal leaves are of one key and one value, or there is a collision.
  pub LeafOf-injective :
      (key value k v : Bytes) (leaf : Hash)
      → LeafOf key value leaf
      → LeafOf k v leaf
      → ((key ≡ k) × (value ≡ v)) ⊎ Collision sha256
  LeafOf-injective key value k v leaf l m =
      map_left
        (λ e.
          fields-injective key value k v l.short_key l.short_value m.short_key m.short_value
            (ap (drop 1) e))
        (one_input (0 ∷ (field key ++ field value)) (0 ∷ (field k ++ field v))
          (sym l.of_image ∙ m.of_image))

  leaf_at-Is32 :
      Digest32 sha256
      → (m : Map BitPath Hash) → ((p : BitPath) (leaf : Hash) → get p m ≡ some leaf → Is32 leaf)
      → (q : BitPath) → Is32 (leaf_at sha256 m q)
  unfolding empty
  leaf_at-Is32 h m w q = elim (Option-cases (get q m)) [
    | inl n ↦ rw n (h (0 ∷ []))
    | inr (leaf, g) ↦ rw g (w q leaf g)
  ]

  -- a leaf that a place of the tree has is stored there
  stored_leaf :
      (m : Map BitPath Hash) (q : BitPath) (leaf : Hash)
      → leaf ≢ empty sha256
      → leaf ≡ leaf_at sha256 m q
      → get q m ≡ some leaf
  stored_leaf m q leaf n e = elim (Option-cases (get q m)) [
    | inl g ↦ ground (arith, n)
    | inr (x, g) ↦ g ∙ ap some (sym (ap (or_empty sha256) g) ∙ sym e)
  ]

  -- the leaf of an accepted proof, and where its siblings lead
  pub record Accepted (proof : MerkleProof) (root : Hash) : Type 0 where
    pub leaf : Hash
    pub is_leaf : leaf_hash sha256 proof.key proof.value ≡ some leaf
    pub deep : length proof.siblings ≡ full_depth
    pub leads :
        fold_siblings sha256 (path_of sha256 proof.key) full_depth leaf proof.siblings ≡ root

  verify-Accepted :
      (proof : MerkleProof) (root : Hash)
      → verify sha256 proof root ≡ some true
      → Accepted proof root
  unfolding verify
  verify-Accepted proof root e = elim (Option-cases (leaf_hash sha256 proof.key proof.value)) [
    | inl n ↦ ground (arith, n)
    | inr (leaf, l) ↦ record {
      leaf = leaf;
      is_leaf = l;
      deep = ground (arith, ==_iff (length proof.siblings) full_depth);
      leads = ground (
        arith,
        l,
        list_beq_iff
            (fold_siblings sha256 (path_of sha256 proof.key) full_depth leaf proof.siblings) root,
      );
    }
  ]

  -- A proof that is accepted against the root of a tree whose branches are right is of a leaf that
  -- the tree stores, or there is a collision of the digest.
  pub verify-stored :
      Digest32 sha256
      → (proof : MerkleProof) (t : SparseMerkleTree) → IsCanonical sha256 t
      → ((p : BitPath) (leaf : Hash) → get p t.leaves ≡ some leaf → Is32 leaf)
      → All Is32 proof.siblings
      → verify sha256 proof t.root ≡ some true
      → ((p : BitPath) × (leaf : Hash) × (leaf_hash sha256 proof.key proof.value ≡ some leaf)
          × (get p t.leaves ≡ some leaf))
        ⊎ Collision sha256
  unfolding subtree
  verify-stored h proof t c w all e =
      let a = verify-Accepted proof t.root e in
      let f = leaf_at sha256 t.leaves in
      let l = leaf_hash-LeafOf proof.key proof.value a.leaf a.is_leaf in
      elim (leaf-not_empty proof.key proof.value a.leaf l) [
        | inr x ↦ inr x
        | inl n ↦
            map_left
              (λ found. (found.0, a.leaf, a.is_leaf, stored_leaf t.leaves found.0 a.leaf n found.1))
              (fold_siblings-Found h f (leaf_at-Is32 h t.leaves w) (path_of sha256 proof.key)
                full_depth 0 full_depth a.leaf proof.siblings refl a.deep all
                (ap length l.of_image ∙ h (0 ∷ (field proof.key ++ field proof.value))) n
                (a.leads ∙ c.at_root))
      ]
