-- ===== src/Membership/Codec.antt =====
-- The wire form of `MembershipOp` of consensus-node/protocol/crypto/src/roster.rs, read back.
use jx.Base.{
  ℕ, ◌^◌, ◌<◌, ◌≤◌, ◌≡◌, refl, sym, ◌∙◌, ap, Bool, true, Option, none, some, [], ◌∷◌, ◌++◌, inr,
  length, length-append, arith,
}
use mathlib.Core.List.{append_assoc, append-nil}
use jx.Roster.{Bytes}
use jx.Wire.{
  to_be_bytes, length-to_be_bytes, read_exact-append, read_number, read_number-to_be_bytes,
}
use jx.Op.{write_bytes}
use jx.Op.Codec.{write_bytes-fits}
use jx.Merkle.Codec.{read_field-append}
use jx.Membership.{
  IpAddr, v4, v6, SocketAddr, socket_v4, socket_v6, ip_of, port_of, new_addr, MembershipOp, add,
  remove, encode_addr, encode_optional_addr, encode_membership, decode_addr, take_addr,
  take_optional_addr, decode_remove, read_key, decode_add, decode_membership, ip_bytes,
}

abbrev IsIp : IpAddr → Type 0
IsIp (v4 octets) = length octets ≡ 4
IsIp (v6 octets) = length octets ≡ 16

-- an address that fits its wire form
pub record IsAddr (addr : SocketAddr) : Type 0 where
  pub octets : IsIp (ip_of addr)
  pub port_16 : port_of addr < 2 ^ 16

-- The flow label and the scope of an address of version 6 are 0.
abbrev pub without_scope : SocketAddr → SocketAddr
without_scope (socket_v4 octets port) = socket_v4 octets port
without_scope (socket_v6 octets port flowinfo scope_id) = socket_v6 octets port 0 0

abbrev pub without_scope_option : Option SocketAddr → Option SocketAddr
without_scope_option none = none
without_scope_option (some addr) = some (without_scope addr)

abbrev pub without_scopes : MembershipOp → MembershipOp
without_scopes (add node key bls_key pop addr reconnect_addr) =
    add node key bls_key pop (without_scope addr) (without_scope_option reconnect_addr)
without_scopes (remove node) = remove node

new_addr-without_scope :
    (addr : SocketAddr) → new_addr (ip_of addr) (port_of addr) ≡ without_scope addr
new_addr-without_scope (socket_v4 octets port) = refl
new_addr-without_scope (socket_v6 octets port flowinfo scope_id) = refl

abbrev field : Bytes → Bytes
field bytes = to_be_bytes 4 (length bytes) ++ bytes

port_read : (port : ℕ) → port < 2 ^ 16 → read_number 2 (to_be_bytes 2 port) ≡ some (port, [])
port_read port h =
    ap (read_number 2) (sym (append-nil (to_be_bytes 2 port)))
    ∙ read_number-to_be_bytes 2 port [] (omega (arith, h))

decode_ip :
    (ip : IpAddr) (port : ℕ)
    → IsIp ip
    → port < 2 ^ 16
    → decode_addr (ip_bytes ip ++ to_be_bytes 2 port) ≡ some (new_addr ip port)
unfolding decode_addr
decode_ip (v4 octets) port h p =
    rw (read_exact-append 4 octets (to_be_bytes 2 port) h, port_read port p) refl
decode_ip (v6 octets) port h p =
    rw (read_exact-append 16 octets (to_be_bytes 2 port) h, port_read port p) refl

length-ip_bytes : (ip : IpAddr) → IsIp ip → length (ip_bytes ip) ≤ 17
length-ip_bytes (v4 octets) h = omega (arith, h)
length-ip_bytes (v6 octets) h = omega (arith, h)

length-encode_addr : (addr : SocketAddr) → IsAddr addr → length (encode_addr addr) < 2 ^ 32
unfolding encode_addr
length-encode_addr addr h = omega (
  arith,
  length-ip_bytes (ip_of addr) h.octets,
  length-append (ip_bytes (ip_of addr)) (to_be_bytes 2 (port_of addr)),
  length-to_be_bytes 2 (port_of addr),
)

-- An address is written, and read back in front of any bytes.
write_addr :
    (addr : SocketAddr)
    → IsAddr addr
    → write_bytes (encode_addr addr) ≡ some (field (encode_addr addr))
write_addr addr h = write_bytes-fits (encode_addr addr) (length-encode_addr addr h)

take_addr-field :
    (addr : SocketAddr) (rest : Bytes)
    → IsAddr addr
    → take_addr (field (encode_addr addr) ++ rest) ≡ some (without_scope addr, rest)
unfolding take_addr encode_addr
take_addr-field addr rest h =
    rw
      (
        read_field-append (encode_addr addr) rest (length-encode_addr addr h),
        decode_ip (ip_of addr) (port_of addr) h.octets h.port_16,
      )
      (ap (λ a. some (a, rest)) (new_addr-without_scope addr))

-- the address of the reconnect port, when there is one
abbrev IsReconnect : Option SocketAddr → Type 0
IsReconnect none = Unit
IsReconnect (some addr) = IsAddr addr

take_optional_addr-encode_optional_addr :
    (reconnect : Option SocketAddr)
    → IsReconnect reconnect
    → (bytes : Bytes) × (encode_optional_addr reconnect ≡ some bytes)
      × (take_optional_addr bytes ≡ some (without_scope_option reconnect, []))
unfolding take_optional_addr encode_optional_addr
take_optional_addr-encode_optional_addr none h = (0 ∷ [], refl, refl)
take_optional_addr-encode_optional_addr (some addr) h =
    let bytes = field (encode_addr addr) in
    let read_back : take_addr bytes ≡ some (without_scope addr, []) =
      ap take_addr (sym (append-nil bytes)) ∙ take_addr-field addr [] h in
    (1 ∷ bytes, rw (write_addr addr h) refl, rw read_back refl)

flatten :
    (node key bls_key pop rest : Bytes)
    → (node ++ (key ++ (bls_key ++ pop))) ++ rest ≡ node ++ (key ++ (bls_key ++ (pop ++ rest)))
flatten node key bls_key pop rest =
    append_assoc node (key ++ (bls_key ++ pop)) rest
    ∙ ap (λ x. node ++ x)
        (append_assoc key (bls_key ++ pop) rest
          ∙ ap (λ x. key ++ x) (append_assoc bls_key pop rest))

module _ (is_point : Bytes → Bool) where
  -- an operation whose fields have the widths of their types
  abbrev pub IsOp : MembershipOp → Type 0
  IsOp (add node key bls_key pop addr reconnect_addr) =
      (node < 2 ^ 64)
      × (length key ≡ 32)
      × (is_point key ≡ true)
      × (length bls_key ≡ 48)
      × (length pop ≡ 96)
      × IsAddr addr
      × IsReconnect reconnect_addr
  IsOp (remove node) = node < 2 ^ 64

  -- A membership operation whose fields have the widths of their types, and whose key is a point of
  -- the curve, is encoded without a panic, and decoded from its encoding as the same operation but
  -- that the flow labels and the scopes of its addresses of version 6 are 0.
  pub decode_membership-encode_membership :
      (op : MembershipOp)
      → IsOp op
      → (bytes : Bytes) × (encode_membership op ≡ some bytes)
        × (decode_membership is_point bytes ≡ inr (without_scopes op))
  unfolding encode_membership decode_membership decode_add decode_remove read_key
  decode_membership-encode_membership (add node key bls_key pop addr reconnect_addr)
        (n, k, point, b, p, a, r) =
      let (tail, written, read_back) = take_optional_addr-encode_optional_addr reconnect_addr r in
      let body = field (encode_addr addr) ++ tail in
      let id = to_be_bytes 8 node in
      (
        0 ∷ ((id ++ (key ++ (bls_key ++ pop))) ++ body),
        rw (write_addr addr a, written) refl,
        rw
            (
              flatten id key bls_key pop body,
              read_number-to_be_bytes 8 node (key ++ (bls_key ++ (pop ++ body))) (omega (arith, n)),
              read_exact-append 32 key (bls_key ++ (pop ++ body)) k,
              point,
              read_exact-append 48 bls_key (pop ++ body) b,
              read_exact-append 96 pop body p,
              take_addr-field addr tail a,
              read_back,
            )
            refl,
      )
  decode_membership-encode_membership (remove node) n =
      let id = to_be_bytes 8 node in
      let read_back : read_number 8 id ≡ some (node, []) =
        ap (read_number 8) (sym (append-nil id))
        ∙ read_number-to_be_bytes 8 node [] (omega (arith, n)) in
      (1 ∷ id, refl, rw read_back refl)
