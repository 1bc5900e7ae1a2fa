-- ===== src/State/Load.antt =====
-- `to_bytes`, `from_bytes` and `root_of_bytes` of consensus-node/executor/state/src/state.rs.
use jx.Base.{
  ℕ, zero, suc, ◌^◌, ◌≤◌, ◌<◌, ◌≡◌, refl, sym, ◌∙◌, ap, true, Option, none, some, List, [], ◌∷◌,
  ◌++◌, inl, inr, length, length-append, list_eq, list_beq, list_beq_iff, All, nat_eq, Bool-cases,
  Option-cases, arith,
}
use mathlib.Core.Option.{some-injective}
use jx.Roster.{Bytes}
use jx.Wire.{to_be_bytes, length-to_be_bytes}
use jx.MerkleLog.{Hash}
use jx.MerkleLog.Codec.{then_read}
use jx.Op.{Decoded, accepted, refused, take_bytes, write_bytes}
use jx.Op.Codec.{take_bytes-field, write_bytes-fits}
use jx.Merkle
use jx.Merkle.{SparseMerkleTree, leaf_hash, new_tree, path_of}
use jx.Merkle.Update.{Digest32}
use jx.State.{
  Keyspace, KeyspaceLaws, State, Ascending, Sorted, read_bytes, is_above, write_pairs, root_loop,
  root_of_bytes, new, to_bytes, from_loop, from_bytes,
}
use jx.State.Synced.{Unshared, no_entry, with_entry, new_tree-Holds, insert-Holds}
use jx.State.Ascending.{loaded, loaded-get, Sorted-DistinctKeys}
use jx.Base.Map.{get, DistinctKeys}
use jx.State.Apply.{Holds-cong, reads, IsSynced, root-reads}

abbrev field : Bytes → Bytes
field bytes = to_be_bytes 4 (length bytes) ++ bytes

abbrev decoded : Decoded (Bytes × Bytes) → Option (Bytes × Bytes)
decoded (accepted p) = some p
decoded (refused e) = none

read_bytes-take_bytes : (c : Bytes) → read_bytes c ≡ decoded (take_bytes c)
unfolding read_bytes take_bytes
read_bytes-take_bytes c = ground arith

read_bytes-field :
    (bytes rest : Bytes)
    → length bytes < 2 ^ 32
    → read_bytes (field bytes ++ rest) ≡ some (bytes, rest)
read_bytes-field bytes rest h =
    read_bytes-take_bytes (field bytes ++ rest) ∙ ap decoded (take_bytes-field bytes rest h)

-- the encoding of a pair and of those after it
record PairThen (key value : Bytes) (es : List (Bytes × Bytes)) (bytes : Bytes) : Type 0 where
  short_key : length key < 2 ^ 32
  short_value : length value < 2 ^ 32
  rest : Bytes
  of_rest : write_pairs es ≡ some rest
  whole : bytes ≡ field key ++ (field value ++ rest)

write_pairs-PairThen :
    (key value : Bytes) (es : List (Bytes × Bytes)) (bytes : Bytes)
    → write_pairs ((key, value) ∷ es) ≡ some bytes
    → PairThen key value es bytes
unfolding write_pairs write_bytes
write_pairs-PairThen key value es bytes e = elim (Option-cases (write_pairs es)) [
  | inl n ↦ ground (arith, n)
  | inr (rest, r) ↦ record {
    short_key = ground (arith, r);
    short_value = ground (arith, r);
    rest = rest;
    of_rest = r;
    whole = ground (arith, r);
  }
]

pair_length :
    (key value : Bytes) (es : List (Bytes × Bytes)) (bytes : Bytes)
    (p : PairThen key value es bytes)
    → suc (length p.rest) ≤ length bytes
pair_length key value es bytes p = omega (
  arith,
  ap length p.whole,
  length-append (field key) (field value ++ p.rest),
  length-append (to_be_bytes 4 (length key)) key,
  length-to_be_bytes 4 (length key),
  length-append (field value) p.rest,
)

-- the pairs go on upwards from the key before
abbrev Continues : Option Bytes → List (Bytes × Bytes) → Type 0
Continues none es = Sorted es
Continues (some p) es = Ascending p es

Continues-cons :
    (prev : Option Bytes) (key value : Bytes) (es : List (Bytes × Bytes))
    → Continues prev ((key, value) ∷ es)
    → (is_above prev key ≡ true) × Ascending key es
Continues-cons none key value es a = (refl, a)
Continues-cons (some p) key value es a = a

-- The pairs of a list with distinct keys are among those of any map that has what the list has.
entries_among :
    (source : Bytes → Option Bytes) (es : List (Bytes × Bytes))
    → DistinctKeys es
    → ((k v : Bytes) → get k es ≡ some v → source k ≡ some v)
    → All (λ (e : Bytes × Bytes). source e.0 ≡ some e.1) es
unfolding get
entries_among source [] d f = tt
entries_among source ((key, value) ∷ es) d f = (
  f key value (rw ((list_beq_iff key key).1 refl) refl),
  entries_among source es d.1 λ k v g. f k v (elim (Bool-cases (list_beq key k)) [
    | inl t ↦ ground (arith, d.0, g, ap (λ z. get z es) ((list_beq_iff key k).0 t))
    | inr n ↦ rw n g
  ]),
)

then_read-some :
    {A B C : Type 0} (f : A → B) (g : B → C) (o : Option A)
    → then_read (then_read o λ a. some (f a)) (λ b. some (g b)) ≡ then_read o λ a. some (g (f a))
then_read-some f g none = refl
then_read-some f g (some a) = refl

module _ (sha256 : Bytes → Hash) where
  leaf_hash_short :
      (key value : Bytes)
      → length key < 2 ^ 32
      → length value < 2 ^ 32
      → leaf_hash sha256 key value ≡ some (sha256 (0 ∷ (field key ++ field value)))
  unfolding leaf_hash
  leaf_hash_short key value a b = rw (write_bytes-fits key a, write_bytes-fits value b) refl

  -- a leaf of short fields, and the tree with it
  insert_short :
      (key value : Bytes) (t : SparseMerkleTree)
      → length key < 2 ^ 32
      → length value < 2 ^ 32
      → (u : SparseMerkleTree) × (Merkle.insert sha256 key value t ≡ some u)
  unfolding Merkle.insert
  insert_short key value t a b = elim (Option-cases (Merkle.insert sha256 key value t)) [
    | inr found ↦ found
    | inl n ↦ ground (arith, n, leaf_hash_short key value a b)
  ]

  module _ {K : Type 0} (s : Keyspace K) where
    -- The keyspace takes every write.
    abbrev pub TakesWrites : Type 0
    TakesWrites =
        (key value : Bytes) (kv : K) → (after : K) × (s.write key value kv ≡ (after, true))

    -- Where the keyspace takes every write, `root_of_bytes` accepts what `from_bytes` does and gives
    -- its root.
    root_loop-from_loop :
        TakesWrites
        → (fuel : ℕ) (cursor : Bytes) (prev : Option Bytes) (st : State K)
        → root_loop sha256 fuel cursor prev st.tree
          ≡ then_read (from_loop sha256 s fuel cursor prev st) λ after. some after.tree
    unfolding root_loop from_loop
    root_loop-from_loop w fuel [] prev st = refl
    root_loop-from_loop w zero (b ∷ cursor) prev st = refl
    root_loop-from_loop w (suc fuel) (b ∷ cursor) prev st =
        elim (Option-cases (read_bytes (b ∷ cursor))) [
          | inl n ↦ rw n refl
          | inr (key, r) ↦ elim (Option-cases (read_bytes key.1)) [
            | inl n ↦ rw (r, n) refl
            | inr (value, q) ↦ elim (Bool-cases (is_above prev key.0)) [
              | inr n ↦ rw (r, q, n) refl
              | inl t ↦ elim (Option-cases (Merkle.insert sha256 key.0 value.0 st.tree)) [
                | inl n ↦ rw (r, q, t, n, (w key.0 value.0 st.kv).1) refl
                | inr (u, i) ↦
                    let after = (w key.0 value.0 st.kv).0 in
                    rw (r, q, t, i, (w key.0 value.0 st.kv).1)
                      (root_loop-from_loop w fuel value.1 (some key.0)
                        (record { kv = after; tree = u }))
              ]
            ]
          ]
        ]

    -- Where the keyspace takes every write, `root_of_bytes` accepts the bytes that `from_bytes`
    -- accepts and no other, and gives the root of the state that `from_bytes` gives.
    pub root_of_bytes-from_bytes :
        TakesWrites
        → (kv : K) (bytes : Bytes)
        → root_of_bytes sha256 bytes
          ≡ then_read (from_bytes sha256 s kv bytes) λ st. some st.tree.root
    unfolding root_of_bytes from_bytes new
    root_of_bytes-from_bytes w kv bytes =
        let e = root_loop-from_loop w (length bytes) bytes none (new sha256 s kv) in
        ap (λ o. then_read o λ tree. some tree.root) e
        ∙ then_read-some (λ after. after.tree) (λ tree. tree.root)
            (from_loop sha256 s (length bytes) bytes none (new sha256 s kv))

    from_loop-turn :
        (fuel : ℕ) (bytes : Bytes) (prev : Option Bytes) (st : State K) (key value c rest : Bytes)
        (kv : K) (u : SparseMerkleTree)
        → read_bytes bytes ≡ some (key, c)
        → read_bytes c ≡ some (value, rest)
        → is_above prev key ≡ true
        → s.write key value st.kv ≡ (kv, true)
        → Merkle.insert sha256 key value st.tree ≡ some u
        → from_loop sha256 s (suc fuel) bytes prev st
          ≡ from_loop sha256 s fuel rest (some key) (record { kv = kv; tree = u })
    unfolding from_loop read_bytes
    from_loop-turn fuel [] prev st key value c rest kv u r q t w i = ground arith
    from_loop-turn fuel (b ∷ bytes) prev st key value c rest kv u r q t w i =
        rw (r, q, t, w, i) refl

    -- a state that holds what was read in
    record Loaded (es : List (Bytes × Bytes)) (st after : State K) : Type 0 where
      synced : IsSynced sha256 s after
      same : (k : Bytes) → reads sha256 s after k ≡ loaded es (reads sha256 s st) k

    -- what is stored is stored in the source as well
    abbrev Within : (Bytes → Option Bytes) → State K → Type 0
    Within source st =
        (k v : Bytes) → reads sha256 s st k ≡ some v → (w : Bytes) × (source k ≡ some w)

    Within-write :
        (source : Bytes → Option Bytes) (key value : Bytes) (st mid : State K)
        → Within source st
        → source key ≡ some value
        → ((k : Bytes) → reads sha256 s mid k ≡ with_entry key (some value) (reads sha256 s st) k)
        → Within source mid
    Within-write source key value st mid within e r k v f = elim (Bool-cases (list_beq key k)) [
      | inl t ↦ (value, ap source (sym ((list_beq_iff key k).0 t)) ∙ e)
      | inr n ↦ within k v (ground (arith, n, r k))
    ]

    from_loop-Loaded :
        KeyspaceLaws s
        → Digest32 sha256
        → TakesWrites
        → (source : Bytes → Option Bytes)
        → ((j k v w : Bytes)
            → source j ≡ some v
            → source k ≡ some w
            → path_of sha256 j ≡ path_of sha256 k
            → j ≡ k)
        → (es : List (Bytes × Bytes)) (bytes : Bytes) (fuel : ℕ) (prev : Option Bytes)
          (st : State K)
        → All (λ (e : Bytes × Bytes). source e.0 ≡ some e.1) es
        → Within source st
        → write_pairs es ≡ some bytes
        → length bytes ≤ fuel
        → Continues prev es
        → IsSynced sha256 s st
        → (after : State K) × (from_loop sha256 s fuel bytes prev st ≡ some after)
          × Loaded es st after
    unfolding write_pairs from_loop loaded
    from_loop-Loaded laws d w source apart [] bytes fuel prev st among within e h a i = (
      st,
      ap (λ b. from_loop sha256 s fuel b prev st) (sym (some-injective _ _ e)),
      record { synced = i; same = λ k. refl },
    )
    from_loop-Loaded laws d w source apart ((key, value) ∷ es) bytes zero prev st among within e h a
          i =
        let p = write_pairs-PairThen key value es bytes e in
        ground (arith, pair_length key value es bytes p)
    from_loop-Loaded laws d w source apart ((key, value) ∷ es) bytes (suc fuel) prev st among within
          e h a i =
        let p = write_pairs-PairThen key value es bytes e in
        let n = pair_length key value es bytes p in
        let (kv, wrote) = w key value st.kv in
        let (u, inserted) = insert_short key value st.tree p.short_key p.short_value in
        let mid : State K = record { kv = kv; tree = u } in
        let c = Continues-cons prev key value es a in
        let turn =
          from_loop-turn fuel bytes prev st key value (field value ++ p.rest) p.rest kv u
            (ap read_bytes p.whole ∙ read_bytes-field key (field value ++ p.rest) p.short_key)
            (read_bytes-field value p.rest p.short_value) c.0 wrote inserted in
        let r = laws.read-write key value st.kv kv wrote in
        let entry = with_entry key (some value) (reads sha256 s st) in
        let free : Unshared sha256 (reads sha256 s st) key = λ k v f same.
          let stored = within k v f in apart k key stored.0 value stored.1 among.0 same in
        let held = insert-Holds sha256 d (reads sha256 s st) key value st.tree u i inserted free in
        let z =
          from_loop-Loaded laws d w source apart es p.rest fuel (some key) mid among.1
            (Within-write source key value st mid within among.0 r) p.of_rest (omega (arith, n)) c.1
            (Holds-cong sha256 entry (reads sha256 s mid) u (λ k. sym (r k)) held) in
        (
          z.0,
          turn ∙ z.1,
          record {
            synced = z.2.synced;
            same = λ k. z.2.same k ∙ ap (λ f. loaded es f k) (λ j m. r m j);
          },
        )

    -- What `to_bytes` gives is read back: into an empty keyspace that takes every write, it gives a
    -- state with the same entries and the same root.
    pub from_bytes-to_bytes :
        KeyspaceLaws s
        → Digest32 sha256
        → TakesWrites
        → (st : State K) (bytes : Bytes) (kv : K) → IsSynced sha256 s st
        → to_bytes sha256 s st ≡ some bytes
        → ((k : Bytes) → s.read k kv ≡ none)
        → (after : State K) × (from_bytes sha256 s kv bytes ≡ some after)
          × ((k : Bytes) → reads sha256 s after k ≡ reads sha256 s st k)
          × (after.tree.root ≡ st.tree.root)
    unfolding to_bytes from_bytes new
    from_bytes-to_bytes laws d w st bytes kv h e free = elim (Option-cases (s.entries st.kv)) [
      | inl n ↦ ground (arith, n)
      | inr (es, x) ↦
          let written : write_pairs es ≡ some bytes = ground (arith, x) in
          let empty =
            Holds-cong sha256 no_entry (λ k. s.read k kv) (new_tree sha256) (λ k. sym (free k))
              (new_tree-Holds sha256) in
          let nothing : (λ k. s.read k kv) ≡ no_entry = λ j m. free m j in
          let sorted = laws.entries-Sorted st.kv es x in
          let among =
            entries_among (reads sha256 s st) es (Sorted-DistinctKeys es sorted)
              λ k v g. sym (laws.get-entries st.kv es x k) ∙ g in
          let z =
            from_loop-Loaded laws d w (reads sha256 s st) h.distinct es bytes (length bytes) none
              (new sha256 s kv) among (λ k v f. ground (arith, free k, f)) written (omega arith)
              sorted empty in
          let same : (k : Bytes) → reads sha256 s z.0 k ≡ reads sha256 s st k = λ k.
            z.2.same k
            ∙ ap (λ f. loaded es f k) nothing
            ∙ loaded-get es k sorted
            ∙ laws.get-entries st.kv es x k in
          (z.0, z.1, same, root-reads sha256 s z.0 st z.2.synced h same)
    ]

    -- `root_of_bytes` of what `to_bytes` gives is the root of the state.
    pub root_of_bytes-to_bytes :
        KeyspaceLaws s
        → Digest32 sha256
        → TakesWrites
        → (st : State K) (bytes : Bytes) (kv : K) → IsSynced sha256 s st
        → to_bytes sha256 s st ≡ some bytes
        → ((k : Bytes) → s.read k kv ≡ none)
        → root_of_bytes sha256 bytes ≡ some st.tree.root
    root_of_bytes-to_bytes laws d w st bytes kv h e free =
        let z = from_bytes-to_bytes laws d w st bytes kv h e free in
        root_of_bytes-from_bytes w kv bytes
        ∙ ap (λ o. then_read o λ after. some after.tree.root) z.1
        ∙ ap some z.3
