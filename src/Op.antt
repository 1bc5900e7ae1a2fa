-- ===== src/Op.antt =====
-- consensus-node/executor/state/src/op.rs: the operations on the state, their encoding, and the
-- dispatch of a transaction's payload. The decoders of the other crates and modules are parameters.
pub mod Codec
mod Tests
use jx.Base.{
  ℕ, zero, suc, ◌+◌, ◌^◌, Bool, true, false, Option, none, some, List, [], ◌∷◌, ◌++◌, take, drop,
  length, ltb, leb, ◌==◌, if◌then◌else◌,
}
use jx.Roster.{Bytes}
use jx.Wire.{to_be_bytes, from_be_bytes}

pub data ExecutorError : Type 0 where
  empty_payload truncated trailing_bytes : ExecutorError
  malformed_membership_op malformed_did_op malformed_sub_actor_op malformed_rebind_op :
      ExecutorError
  invalid_did no_signing_method expected_sub_actor : ExecutorError
  unknown_opcode reserved_key_prefix : ℕ → ExecutorError
  unsupported_did_document_version unknown_verification_method_type : ℕ → ExecutorError
  unknown_actor_id_variant unknown_actor_tag actor_index_out_of_range : ℕ → ExecutorError

pub data Decoded {ℓ} (A : Type ℓ) : Type ℓ where
  accepted : A → Decoded A
  refused : ExecutorError → Decoded A

abbrev pub and_then {ℓ} : {A B : Type ℓ} → Decoded A → (A → Decoded B) → Decoded B
and_then (accepted a) f = f a
and_then (refused e) f = refused e

pub data Op : Type 0 where
  put : Bytes → Bytes → Op
  delete : Bytes → Op

-- A length prefix of four bytes, and as many bytes. `4usize.checked_add` of a 32-bit length does not
-- overflow.
unfoldable pub take_bytes : Bytes → Decoded (Bytes × Bytes)
take_bytes cursor =
    if ltb (length cursor) 4
    then refused truncated
    else let end_ = 4 + from_be_bytes (take 4 cursor) in
      if ltb (length cursor) end_
      then refused truncated
      else accepted (take (from_be_bytes (take 4 cursor)) (drop 4 cursor), drop end_ cursor)

unfoldable pub reject_trailing : {A : Type 0} → A → Bytes → Decoded A
reject_trailing a [] = accepted a
reject_trailing a (b ∷ cursor) = refused trailing_bytes

-- the prefixes 0xD1 and 0xA1 of the keys of DIDs and of actors
unfoldable pub reject_reserved_prefix : Bytes → Decoded (Unit {0})
reject_reserved_prefix [] = accepted tt
reject_reserved_prefix (b ∷ key) =
    if b == 0xD1
    then refused (reserved_key_prefix 0xD1)
    else if b == 0xA1
    then refused (reserved_key_prefix 0xA1)
    else accepted tt

-- the bodies of the two operations
unfoldable pub decode_put : Bytes → Decoded Op
decode_put cursor = and_then (take_bytes cursor) λ (k : Bytes × Bytes).
    and_then (reject_reserved_prefix k.0)
      λ _. and_then (take_bytes k.1) λ (v : Bytes × Bytes). reject_trailing (put k.0 v.0) v.1

unfoldable pub decode_delete : Bytes → Decoded Op
decode_delete cursor = and_then (take_bytes cursor) λ (k : Bytes × Bytes).
    and_then (reject_reserved_prefix k.0) λ _. reject_trailing (delete k.0) k.1

-- `Op::decode`
unfoldable pub decode : Bytes → Decoded Op
decode [] = refused empty_payload
decode (opcode ∷ cursor) =
    if opcode == 0
    then decode_put cursor
    else if opcode == 1
    then decode_delete cursor
    else refused (unknown_opcode opcode)

-- `none` is the panic of `expect` on a field of 2^32 bytes or more
unfoldable pub write_bytes : Bytes → Option Bytes
write_bytes bytes =
    if ltb (length bytes) (2 ^ 32) then some (to_be_bytes 4 (length bytes) ++ bytes) else none

abbrev pub append_field : Option Bytes → Option Bytes → Option Bytes
append_field (some a) (some b) = some (a ++ b)
append_field (some a) none = none
append_field none b = none

-- `Op::encode`
unfoldable pub encode : Op → Option Bytes
encode (put key value) =
    append_field (some (0 ∷ [])) (append_field (write_bytes key) (write_bytes value))
encode (delete key) = append_field (some (1 ∷ [])) (write_bytes key)

pub data DecodedOp (M D S R : Type 0) : Type 0 where
  kv : Op → DecodedOp M D S R
  membership : M → DecodedOp M D S R
  did : D → DecodedOp M D S R
  sub_actor : S → DecodedOp M D S R
  rebind : R → DecodedOp M D S R

-- `map(..).map_err(|_| ..)`
abbrev pub with_error {ℓ} : {A B : Type ℓ} → (A → B) → ExecutorError → Option A → Decoded B
with_error f e none = refused e
with_error f e (some a) = accepted (f a)

abbrev pub as_kv : {M D S R : Type 0} → Decoded Op → Decoded (DecodedOp M D S R)
as_kv (accepted op) = accepted (kv op)
as_kv (refused e) = refused e

-- `DecodedOp::decode`
unfoldable pub decode_payload :
    {M D S R : Type 0}
    → (Bytes → Option M)
    → (Bytes → Option D)
    → (Bytes → Option S)
    → (Bytes → Option R)
    → Bytes
    → Decoded (DecodedOp M D S R)
decode_payload m d s r [] = refused empty_payload
decode_payload m d s r (opcode ∷ cursor) =
    if opcode == 0
    then as_kv (decode_put cursor)
    else if opcode == 1
    then as_kv (decode_delete cursor)
    else if opcode == 2
    then with_error membership malformed_membership_op (m cursor)
    else if opcode == 3
    then with_error did malformed_did_op (d cursor)
    else if opcode == 4
    then with_error sub_actor malformed_sub_actor_op (s cursor)
    else if opcode == 5
    then with_error rebind malformed_rebind_op (r cursor)
    else refused (unknown_opcode opcode)
