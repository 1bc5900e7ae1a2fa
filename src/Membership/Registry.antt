-- ===== src/Membership/Registry.antt =====
-- The key lookups, `to_bytes` and `from_bytes` of `MembershipRegistry` of
-- consensus-node/protocol/crypto/src/membership.rs.
-- A member takes 88 bytes, so that the loop over the bytes has fuel for each of them.
use jx.Base.{
  ◌⊎◌, ℕ, zero, suc, ◌^◌, ◌<◌, ◌≤◌, ◌≡◌, refl, sym, ◌∙◌, ap, Bool, true, Option, none, some, List,
  [], ◌∷◌, ◌++◌, length, length-append, leb, sort_by, insert_by, if◌then◌else◌, All, Bool-cases,
  inl, inr, ◌==◌, nat_eq, ==_iff, arith,
}
use jx.Base.Map
use jx.Base.Map.{Map, DistinctKeys, get-put}
use mathlib.Core.List.{append-nil}
use jx.Roster.{NodeId, Bytes, MemberKeys, MembershipRegistry, empty_registry, register}
use jx.Membership.{CryptoError, unknown_signer}
use jx.Wire.{
  to_be_bytes, length-to_be_bytes, read_exact, read_exact-append, read_number,
  read_number-to_be_bytes,
}
use jx.MerkleLog.Codec.{then_read}

unfoldable pub key_for : MembershipRegistry → NodeId → CryptoError ⊎ Bytes
unfolding Map.get
key_for registry node = elim (Map.get node registry.keys) [
  | none ↦ inl (unknown_signer node)
  | some keys ↦ inr keys.key
]

unfoldable pub bls_key_for : MembershipRegistry → NodeId → Option Bytes
unfolding Map.get
bls_key_for registry node = elim (Map.get node registry.keys) [
  | none ↦ none
  | some keys ↦ some keys.bls_key
]

abbrev pub Member : Type 0
Member = NodeId × MemberKeys

abbrev pub by_id : Member → Member → Bool
by_id a b = leb a.0 b.0

abbrev pub encode_member : Member → Bytes
encode_member member = to_be_bytes 8 member.0 ++ (member.1.key ++ member.1.bls_key)

unfoldable pub encode_members : List Member → Bytes
encode_members [] = []
encode_members (member ∷ members) = encode_member member ++ encode_members members

unfoldable pub registry_to_bytes : MembershipRegistry → Bytes
registry_to_bytes registry = encode_members (sort_by by_id registry.keys)

-- the members registered one after the other
unfoldable put_all : List Member → Map NodeId MemberKeys → Map NodeId MemberKeys
put_all [] m = m
put_all (member ∷ members) m = put_all members (Map.put member.0 member.1 m)

option_eta : (o : Option MemberKeys) → (elim o [ none ↦ none | some v ↦ some v ]) ≡ o
option_eta none = refl
option_eta (some v) = refl

module _ (is_point : Bytes → Bool) where
  -- the 88 bytes of a member
  unfoldable pub decode_member : Bytes → Option Member
  decode_member head = then_read (read_number 8 head) λ (node : ℕ × Bytes).
      then_read (read_exact 32 node.1) λ (key : Bytes × Bytes).
        if is_point key.0
        then then_read (read_exact 48 key.1) (λ (bls_key : Bytes × Bytes).
          some (node.0, record { key = key.0; bls_key = bls_key.0 }))
        else none

  unfoldable pub load_members : ℕ → Bytes → MembershipRegistry → Option MembershipRegistry
  load_members fuel [] registry = some registry
  load_members zero (b ∷ bytes) registry = none
  load_members (suc fuel) (b ∷ bytes) registry =
      then_read (read_exact 88 (b ∷ bytes)) λ (head : Bytes × Bytes).
        then_read (decode_member head.0) λ member.
          load_members fuel head.1 (register registry member.0 member.1.key member.1.bls_key)

  unfoldable pub registry_from_bytes : Bytes → Option MembershipRegistry
  registry_from_bytes bytes = load_members (length bytes) bytes empty_registry

  -- a member whose fields have the widths of their types, and whose key is a point
  pub record IsMember (member : Member) : Type 0 where
    pub id_64 : member.0 < 2 ^ 64
    pub key_32 : length member.1.key ≡ 32
    pub point : is_point member.1.key ≡ true
    pub bls_48 : length member.1.bls_key ≡ 48

  length-encode_member : (member : Member) → IsMember member → length (encode_member member) ≡ 88
  length-encode_member member h = omega (
    arith,
    h.key_32,
    h.bls_48,
    length-to_be_bytes 8 member.0,
    length-append (to_be_bytes 8 member.0) (member.1.key ++ member.1.bls_key),
    length-append member.1.key member.1.bls_key,
  )

  decode_member-encode_member :
      (member : Member) → IsMember member → decode_member (encode_member member) ≡ some member
  unfolding decode_member
  decode_member-encode_member (node, keys) h =
      let last : read_exact 48 keys.bls_key ≡ some (keys.bls_key, []) =
        ap (read_exact 48) (sym (append-nil keys.bls_key))
        ∙ read_exact-append 48 keys.bls_key [] h.bls_48 in
      rw
        (
          read_number-to_be_bytes 8 node (keys.key ++ keys.bls_key) (omega (arith, h.id_64)),
          read_exact-append 32 keys.key keys.bls_key h.key_32,
          h.point,
          last,
        )
        refl

  load_members-turn :
      (fuel : ℕ) (bytes rest : Bytes) (member : Member) (registry : MembershipRegistry)
      → read_exact 88 bytes ≡ some (encode_member member, rest)
      → IsMember member
      → load_members (suc fuel) bytes registry
        ≡ load_members fuel rest (register registry member.0 member.1.key member.1.bls_key)
  unfolding load_members read_exact
  load_members-turn fuel [] rest member registry e h = ground arith
  load_members-turn fuel (b ∷ bytes) rest member registry e h =
      rw (e, decode_member-encode_member member h) refl

  load_members-encode_members :
      (members : List Member) (fuel : ℕ) (m : Map NodeId MemberKeys)
      → All IsMember members
      → length (encode_members members) ≤ fuel
      → load_members fuel (encode_members members) (record { keys = m })
        ≡ some (record { keys = put_all members m })
  unfolding load_members encode_members put_all register
  load_members-encode_members [] fuel m a f = refl
  load_members-encode_members (member ∷ members) zero m a f =
      let long = length-encode_member member a.0 in
      absurd (omega (arith, long, f, length-append (encode_member member) (encode_members members)))
  load_members-encode_members (member ∷ members) (suc fuel) m a f =
      let long = length-encode_member member a.0 in
      let rest = encode_members members in
      load_members-turn fuel (encode_member member ++ rest) rest member (record { keys = m })
        (read_exact-append 88 (encode_member member) rest long) a.0
      ∙ load_members-encode_members members fuel (Map.put member.0 member.1 m) a.1
          (omega (arith, long, f, length-append (encode_member member) rest))

get-put_all :
    (members : List Member) (m : Map NodeId MemberKeys) (node : NodeId)
    → DistinctKeys members
    → Map.get node (put_all members m)
      ≡ (elim (Map.get node members) [ none ↦ Map.get node m | some v ↦ some v ])
unfolding put_all Map.get
get-put_all [] m node d = refl
get-put_all ((k, v) ∷ members) m node d =
    ground
      (arith, get-put_all members (Map.put k v m) node d.1, get-put k node v m, ==_iff k node, d.0)

get-insert_by :
    (k : NodeId) (v : MemberKeys) (es : List Member) (node : NodeId)
    → Map.get k es ≡ none
    → Map.get node (insert_by by_id (k, v) es) ≡ Map.get node ((k, v) ∷ es)
unfolding Map.get insert_by
get-insert_by k v [] node f = refl
get-insert_by k v ((j, w) ∷ es) node f =
    ground (arith, get-insert_by k v es node, ==_iff k node, ==_iff j node, ==_iff j k, f)

get-sort_by :
    (es : List Member) (node : NodeId)
    → DistinctKeys es
    → Map.get node (sort_by by_id es) ≡ Map.get node es
unfolding Map.get sort_by
get-sort_by [] node d = refl
get-sort_by ((k, v) ∷ es) node d =
    get-insert_by k v (sort_by by_id es) node (get-sort_by es k d.1 ∙ d.0)
    ∙ ap (λ rest. if k == node then some v else rest) (get-sort_by es node d.1)

insert_by-DistinctKeys :
    (k : NodeId) (v : MemberKeys) (es : List Member)
    → Map.get k es ≡ none
    → DistinctKeys es
    → DistinctKeys (insert_by by_id (k, v) es)
unfolding Map.get insert_by
insert_by-DistinctKeys k v [] f d = (refl, tt)
insert_by-DistinctKeys k v ((j, w) ∷ es) f d = ground (
  arith,
  insert_by-DistinctKeys k v es,
  get-insert_by k v es j,
  ==_iff j k,
  ==_iff k j,
  f,
  d.0,
  d.1,
)

sort_by-DistinctKeys : (es : List Member) → DistinctKeys es → DistinctKeys (sort_by by_id es)
unfolding sort_by
sort_by-DistinctKeys [] d = tt
sort_by-DistinctKeys ((k, v) ∷ es) d =
    insert_by-DistinctKeys k v (sort_by by_id es) (get-sort_by es k d.1 ∙ d.0)
      (sort_by-DistinctKeys es d.1)

module _ (P : Member → Type 0) where
  All-insert_by : (e : Member) (es : List Member) → P e → All P es → All P (insert_by by_id e es)
  unfolding insert_by
  All-insert_by e [] p a = (p, tt)
  All-insert_by e (x ∷ es) p a = elim (Bool-cases (by_id e x)) [
    | inl t ↦ rw t (p, a)
    | inr n ↦ rw n (a.0, All-insert_by e es p a.1)
  ]

  All-sort_by : (es : List Member) → All P es → All P (sort_by by_id es)
  unfolding sort_by
  All-sort_by [] a = tt
  All-sort_by (e ∷ es) a = All-insert_by e (sort_by by_id es) a.0 (All-sort_by es a.1)

-- A registry whose fields have the widths of their types, and whose keys are points of the curve,
-- is read from its encoding as a registry with the same keys for every node.
pub registry_from_bytes-registry_to_bytes :
    (is_point : Bytes → Bool) (registry : MembershipRegistry)
    → DistinctKeys registry.keys
    → All (IsMember is_point) registry.keys
    → (loaded : MembershipRegistry) × (registry_from_bytes is_point (registry_to_bytes registry)
        ≡ some loaded)
      × ((node : NodeId) → Map.get node loaded.keys ≡ Map.get node registry.keys)
unfolding registry_from_bytes registry_to_bytes empty_registry Map.get
registry_from_bytes-registry_to_bytes is_point registry d a =
    let sorted = sort_by by_id registry.keys in
    let no_members : Map NodeId MemberKeys = [] in
    (
      record { keys = put_all sorted no_members },
      load_members-encode_members is_point sorted (length (encode_members sorted)) no_members
          (All-sort_by (IsMember is_point) registry.keys a) (omega arith),
      λ node.
          get-put_all sorted no_members node (sort_by-DistinctKeys registry.keys d)
          ∙ ap (λ o. elim o [ none ↦ none | some v ↦ some v ]) (get-sort_by registry.keys node d)
          ∙ option_eta (Map.get node registry.keys),
    )

-- A registered key is the one that is found for its node, and any other node has the keys it had.
pub key_for-register :
    (registry : MembershipRegistry) (node other : NodeId) (key bls_key : Bytes)
    → (key_for (register registry node key bls_key) other
        ≡ (if node == other then inr key else key_for registry other))
      × (bls_key_for (register registry node key bls_key) other
          ≡ (if node == other then some bls_key else bls_key_for registry other))
unfolding key_for bls_key_for register Map.get
key_for-register registry node other key bls_key =
    ground (arith, get-put node other (record { key = key; bls_key = bls_key }) registry.keys)
