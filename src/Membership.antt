-- ===== src/Membership.antt =====
-- `MembershipOp` of consensus-node/protocol/crypto/src/roster.rs and its wire form. Inside the
-- decoder, `none` is the error `MalformedOp`. An address of version 6 has a flow label and
-- a scope, as `SocketAddrV6` of the standard library, which `SocketAddr::new` makes 0.
pub mod Codec
pub mod Registry
mod Tests
use jx.Base.{
  ℕ, ◌==◌, Option, none, some, List, [], ◌∷◌, ◌++◌, ◌⊎◌, inl, inr, if◌then◌else◌, Bool, true, false,
}
use jx.Roster.{NodeId, Bytes}
use jx.Wire.{to_be_bytes, read_exact, read_number}
use jx.MerkleLog.Codec.{then_read}
use jx.Op.{write_bytes, append_field}
use jx.Merkle.Codec.{read_field}

-- `Error` of consensus-node/protocol/primitives/src, its texts as their bytes
pub data PrimitivesError : Type 0 where
  validation : Bytes → PrimitivesError
  out_of_range : Bytes → Bytes → PrimitivesError
  serialization_failed : Bytes → PrimitivesError
  invalid_state : Bytes → PrimitivesError

pub data CryptoError : Type 0 where
  base : PrimitivesError → CryptoError
  signature_verification_failed : CryptoError
  unknown_signer : NodeId → CryptoError
  malformed_op : CryptoError
  unknown_membership_opcode : ℕ → CryptoError
  bls_key_gen_failed : CryptoError
  bls_aggregate_failed : CryptoError
  empty_derivation_path : CryptoError
  invalid_derivation_index : ℕ → CryptoError
  invalid_tag_code : ℕ → CryptoError
  hmac_init_failed : CryptoError

pub data IpAddr : Type 0 where
  v4 : Bytes → IpAddr
  v6 : Bytes → IpAddr

-- octets and port; with version 6, also the flow label and the scope
pub data SocketAddr : Type 0 where
  socket_v4 : Bytes → ℕ → SocketAddr
  socket_v6 : Bytes → ℕ → ℕ → ℕ → SocketAddr

abbrev pub ip_of : SocketAddr → IpAddr
ip_of (socket_v4 octets port) = v4 octets
ip_of (socket_v6 octets port flowinfo scope_id) = v6 octets

abbrev pub port_of : SocketAddr → ℕ
port_of (socket_v4 octets port) = port
port_of (socket_v6 octets port flowinfo scope_id) = port

-- `SocketAddr::new`
abbrev pub new_addr : IpAddr → ℕ → SocketAddr
new_addr (v4 octets) port = socket_v4 octets port
new_addr (v6 octets) port = socket_v6 octets port 0 0

pub data MembershipOp : Type 0 where
  add : NodeId → Bytes → Bytes → Bytes → SocketAddr → Option SocketAddr → MembershipOp
  remove : NodeId → MembershipOp

abbrev ip_bytes : IpAddr → Bytes
ip_bytes (v4 octets) = 4 ∷ octets
ip_bytes (v6 octets) = 6 ∷ octets

unfoldable pub encode_addr : SocketAddr → Bytes
encode_addr addr = ip_bytes (ip_of addr) ++ to_be_bytes 2 (port_of addr)

unfoldable pub encode_optional_addr : Option SocketAddr → Option Bytes
encode_optional_addr none = some (0 ∷ [])
encode_optional_addr (some addr) = append_field (some (1 ∷ [])) (write_bytes (encode_addr addr))

-- `MembershipOp::encode`
unfoldable pub encode_membership : MembershipOp → Option Bytes
encode_membership (add node key bls_key pop addr reconnect_addr) =
    append_field (some (0 ∷ (to_be_bytes 8 node ++ (key ++ (bls_key ++ pop)))))
      (append_field (write_bytes (encode_addr addr)) (encode_optional_addr reconnect_addr))
encode_membership (remove node) = some (1 ∷ to_be_bytes 8 node)

-- `reject_trailing`
abbrev pub when_empty : {A : Type 0} → A → Bytes → Option A
when_empty a [] = some a
when_empty a (b ∷ rest) = none

abbrev with_port : (Bytes → IpAddr) → Option (Bytes × Bytes) → Option SocketAddr
with_port f none = none
with_port f (some (octets, rest)) =
    then_read (read_number 2 rest)
      λ (port : ℕ × Bytes). when_empty (new_addr (f octets) port.0) port.1

-- the body of the field of an address
unfoldable pub decode_addr : Bytes → Option SocketAddr
decode_addr [] = none
decode_addr (tag ∷ rest) =
    if tag == 4
    then with_port v4 (read_exact 4 rest)
    else if tag == 6
    then with_port v6 (read_exact 16 rest)
    else none

unfoldable pub take_addr : Bytes → Option (SocketAddr × Bytes)
take_addr cursor =
    then_read (read_field cursor)
      λ (encoded : Bytes × Bytes). then_read (decode_addr encoded.0) λ addr. some (addr, encoded.1)

abbrev present : Option (SocketAddr × Bytes) → Option (Option SocketAddr × Bytes)
present none = none
present (some (addr, rest)) = some (some addr, rest)

unfoldable pub take_optional_addr : Bytes → Option (Option SocketAddr × Bytes)
take_optional_addr [] = none
take_optional_addr (flag ∷ cursor) =
    if flag == 0
    then some (none, cursor)
    else if flag == 1
    then present (take_addr cursor)
    else none

-- the fields of a removal
unfoldable pub decode_remove : Bytes → Option MembershipOp
decode_remove cursor =
    then_read (read_number 8 cursor) λ (node : ℕ × Bytes). when_empty (remove node.0) node.1

abbrev or_malformed : Option MembershipOp → CryptoError ⊎ MembershipOp
or_malformed none = inl malformed_op
or_malformed (some op) = inr op

module _ (is_point : Bytes → Bool) where
  -- `take_key`
  unfoldable pub read_key : Bytes → Option (Bytes × Bytes)
  read_key cursor =
      then_read (read_exact 32 cursor)
        λ (key : Bytes × Bytes). if is_point key.0 then some key else none

  -- the fields of an addition
  unfoldable pub decode_add : Bytes → Option MembershipOp
  decode_add cursor = then_read (read_number 8 cursor) λ (node : ℕ × Bytes).
      then_read (read_key node.1) λ (key : Bytes × Bytes).
        then_read (read_exact 48 key.1) λ (bls_key : Bytes × Bytes).
          then_read (read_exact 96 bls_key.1) λ (pop : Bytes × Bytes).
            then_read (take_addr pop.1) λ (addr : SocketAddr × Bytes).
              then_read (take_optional_addr addr.1) λ (reconnect : Option SocketAddr × Bytes).
                when_empty (add node.0 key.0 bls_key.0 pop.0 addr.0 reconnect.0) reconnect.1

  -- `MembershipOp::decode`
  unfoldable pub decode_membership : Bytes → CryptoError ⊎ MembershipOp
  decode_membership [] = inl malformed_op
  decode_membership (opcode ∷ cursor) =
      if opcode == 0
      then or_malformed (decode_add cursor)
      else if opcode == 1
      then or_malformed (decode_remove cursor)
      else inl (unknown_membership_opcode opcode)
