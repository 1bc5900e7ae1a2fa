-- ===== src/Membership/Tests.antt =====
-- Concrete operations on the membership of consensus-node/protocol/crypto/src/roster.rs, and the
-- theorems at them.
use jx.Base.{ℕ, ◌≡◌, refl, Bool, true, some, [], ◌∷◌, ◌++◌, inl, inr, replicate, nat_eq, arith}
use jx.Roster.{Bytes}
use jx.Wire.{to_be_bytes, read_exact, read_number}
use jx.Membership.{
  malformed_op, unknown_membership_opcode, socket_v4, socket_v6, SocketAddr, MembershipOp, add,
  encode_membership, decode_remove, decode_membership,
}
use jx.Base.Map
use jx.Roster.{NodeId, MemberKeys, MembershipRegistry}
use jx.Membership.Registry.{
  registry_to_bytes, registry_from_bytes, registry_from_bytes-registry_to_bytes,
}
use jx.Membership.Codec.{without_scopes, decode_membership-encode_membership}

abbrev any_point : Bytes → Bool
any_point key = true

abbrev local_addr : SocketAddr
local_addr = socket_v4 (127 ∷ 0 ∷ 0 ∷ 1 ∷ []) 9000

abbrev reconnect : SocketAddr
reconnect = socket_v6 (replicate 16 0) 9100 0 2

abbrev addition : MembershipOp
addition = add 7 (replicate 32 1) (replicate 48 2) (replicate 96 3) local_addr (some reconnect)

decode_membership-encode_membership_example :
    (bytes : Bytes) × (encode_membership addition ≡ some bytes)
    × (decode_membership any_point bytes ≡ inr (without_scopes addition))
decode_membership-encode_membership_example =
    decode_membership-encode_membership any_point addition (
      omega arith,
      refl,
      refl,
      refl,
      refl,
      record { octets = refl; port_16 = omega arith },
      record { octets = refl; port_16 = omega arith },
    )

-- the scope of the address of the reconnect port is lost
scope_lost :
    without_scopes addition
    ≡ add 7
        (replicate 32 1)
        (replicate 48 2)
        (replicate 96 3)
        local_addr
        (some (socket_v6 (replicate 16 0) 9100 0 0))
scope_lost = refl

-- an unknown code is reported before any field is read
unknown_code : decode_membership any_point (2 ∷ []) ≡ inl (unknown_membership_opcode 2)
unfolding decode_membership
unknown_code = refl

-- a byte after a removal makes it malformed
trailing_byte : decode_membership any_point (1 ∷ (to_be_bytes 8 7 ++ (0 ∷ []))) ≡ inl malformed_op
unfolding decode_membership decode_remove to_be_bytes read_number read_exact
trailing_byte = refl

abbrev keys_of : ℕ → MemberKeys
keys_of seed = record { key = replicate 32 seed; bls_key = replicate 48 seed }

-- the members of a map, which does not keep them in the order of their numbers
abbrev two_members : MembershipRegistry
two_members = record { keys = (9, keys_of 1) ∷ (4, keys_of 2) ∷ [] }

registry_from_bytes-registry_to_bytes_example :
    (loaded : MembershipRegistry) × (registry_from_bytes any_point (registry_to_bytes two_members)
      ≡ some loaded)
    × ((node : NodeId) → Map.get node loaded.keys ≡ Map.get node two_members.keys)
unfolding Map.get
registry_from_bytes-registry_to_bytes_example =
    registry_from_bytes-registry_to_bytes any_point two_members (refl, (refl, tt))
      (
        record { id_64 = omega arith; key_32 = refl; point = refl; bls_48 = refl },
        (record { id_64 = omega arith; key_32 = refl; point = refl; bls_48 = refl }, tt),
      )
