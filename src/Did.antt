-- ===== src/Did.antt =====
-- consensus-node/executor/state/src/did.rs: identifiers, documents and operations of `did:jkain`. A
-- string is its UTF-8 bytes and a key of the crates for Ed25519 and X25519 is its 32 bytes. Which
-- bytes are UTF-8, and which are a point of Ed25519, are parameters.
pub mod Codec
use jx.Base.{
  ℕ, zero, suc, ◌+◌, ◌%◌, ◌^◌, Bool, true, false, not, ◌||◌, Option, none, some, List, [], ◌∷◌,
  ◌++◌, take, drop, length, any, ltb, leb, ◌==◌, if◌then◌else◌,
}
use jx.Roster.{Bytes}
use jx.Op.{
  ExecutorError, truncated, invalid_did, no_signing_method, unsupported_did_document_version,
  unknown_verification_method_type, trailing_bytes, Decoded, accepted, refused, and_then,
  take_bytes, write_bytes, append_field, reject_trailing,
}

pub record DidId : Type 0 where
  pub network : Bytes
  pub alias : Bytes
  pub uuid : Bytes

pub data VerificationMethod : Type 0 where
  signing : Bytes → VerificationMethod
  agreement : Bytes → VerificationMethod

pub record DidDocument : Type 0 where
  pub control_key : Bytes
  pub methods : List VerificationMethod
  pub deactivated : Bool

pub record DidOp : Type 0 where
  pub id : DidId
  pub document : DidDocument
  pub signature : Bytes
  pub signed_by : ℕ
  pub is_creation : Bool

-- `contains(':')`
abbrev pub has_colon : Bytes → Bool
has_colon bytes = any (λ b. b == 58) bytes

abbrev pub max_verification_methods : ℕ
max_verification_methods = 5

-- `take_exact`
unfoldable pub take_exact : ℕ → Bytes → Decoded (Bytes × Bytes)
take_exact len cursor =
    if leb len (length cursor)
    then accepted (take len cursor, drop len cursor)
    else refused truncated

abbrev first_byte : Bytes × Bytes → Decoded (ℕ × Bytes)
first_byte ([], rest) = refused truncated
first_byte (b ∷ bytes, rest) = accepted (b, rest)

-- `take_exact(cursor, 1)?[0]`
unfoldable pub take_byte : Bytes → Decoded (ℕ × Bytes)
take_byte cursor = and_then (take_exact 1 cursor) first_byte

-- `DidId::encode`
unfoldable pub encode_id : DidId → Option Bytes
encode_id id =
    append_field (write_bytes id.network) (append_field (write_bytes id.alias) (some id.uuid))

-- `did_state_key`
unfoldable pub did_state_key : DidId → Option Bytes
did_state_key id = append_field (some (0xD1 ∷ [])) (encode_id id)

abbrev pub method_type : VerificationMethod → ℕ
method_type (signing key) = 1
method_type (agreement key) = 2

abbrev pub key_bytes : VerificationMethod → Bytes
key_bytes (signing key) = key
key_bytes (agreement key) = key

abbrev pub is_signing : VerificationMethod → Bool
is_signing (signing key) = true
is_signing (agreement key) = false

-- `DidDocument::new`
unfoldable pub new_document : Bytes → List VerificationMethod → Bool → Decoded DidDocument
new_document control_key methods deactivated =
    if (length methods == 0) || ltb max_verification_methods (length methods)
    then refused truncated
    else if any is_signing methods
    then accepted
        (record { control_key = control_key; methods = methods; deactivated = deactivated })
    else refused no_signing_method

-- `signing_key`: the methods that are for signing, counted in their order
unfoldable pub nth_signing : List VerificationMethod → ℕ → Option Bytes
nth_signing [] index = none
nth_signing (agreement key ∷ methods) index = nth_signing methods index
nth_signing (signing key ∷ methods) zero = some key
nth_signing (signing key ∷ methods) (suc index) = nth_signing methods index

unfoldable pub signing_key : DidDocument → ℕ → Option Bytes
signing_key document index = nth_signing document.methods index

unfoldable pub encode_methods : List VerificationMethod → Bytes
encode_methods [] = []
encode_methods (method ∷ methods) =
    method_type method ∷ (key_bytes method ++ encode_methods methods)

abbrev pub flag_byte : Bool → ℕ
flag_byte true = 1
flag_byte false = 0

-- `DidDocument::encode`
unfoldable pub encode_document : DidDocument → Bytes
encode_document document =
    2
    ∷ (document.control_key
        ++ (length document.methods % 256
            ∷ (encode_methods document.methods ++ flag_byte document.deactivated ∷ [])))

abbrev pub did_signed_domain : Bytes
did_signed_domain = 106 ∷ 107 ∷ 97 ∷ 105 ∷ 110 ∷ 58 ∷ 100 ∷ 105 ∷ 100 ∷ 58 ∷ 118 ∷ 49 ∷ []

-- `DidOp::signed_payload`
unfoldable pub did_signed_payload : DidOp → Option Bytes
did_signed_payload op =
    append_field (some did_signed_domain)
      (append_field (encode_id op.id) (some (encode_document op.document)))

-- `DidOp::encode`
unfoldable pub encode_did_op : DidOp → Option Bytes
encode_did_op op = append_field (encode_id op.id) (
    some (
      encode_document op.document
      ++ (op.signature ++ op.signed_by ∷ flag_byte op.is_creation ∷ [])))

module _ (is_utf8 : Bytes → Bool) where
  -- `DidId::decode`
  unfoldable pub decode_id : Bytes → Decoded (DidId × Bytes)
  decode_id cursor = and_then (take_bytes cursor) λ (network : Bytes × Bytes).
      and_then (take_bytes network.1) λ (alias : Bytes × Bytes).
        and_then (take_exact 16 alias.1) λ (uuid : Bytes × Bytes).
          if not (is_utf8 network.0)
          then refused invalid_did
          else if not (is_utf8 alias.0)
          then refused invalid_did
          else if has_colon network.0 || has_colon alias.0
          then refused invalid_did
          else accepted (record { network = network.0; alias = alias.0; uuid = uuid.0 }, uuid.1)

module _ (is_point : Bytes → Bool) where
  -- `VerifyingKey::from_bytes`
  unfoldable pub take_key : Bytes → Decoded (Bytes × Bytes)
  take_key cursor =
      and_then (take_exact 32 cursor)
        λ (key : Bytes × Bytes). if is_point key.0 then accepted key else refused truncated

  abbrev decode_method : ℕ → Bytes × Bytes → Decoded (VerificationMethod × Bytes)
  decode_method method_type (key, rest) =
      if method_type == 1
      then (if is_point key then accepted (signing key, rest) else refused truncated)
      else if method_type == 2
      then accepted (agreement key, rest)
      else refused (unknown_verification_method_type method_type)

  -- the loop over the methods
  unfoldable pub decode_methods : ℕ → Bytes → Decoded (List VerificationMethod × Bytes)
  decode_methods zero cursor = accepted ([], cursor)
  decode_methods (suc count) cursor = and_then (take_byte cursor) λ (method_type : ℕ × Bytes).
      and_then (take_exact 32 method_type.1) λ (key : Bytes × Bytes).
        and_then (decode_method method_type.0 key) λ (method : VerificationMethod × Bytes).
          and_then (decode_methods count method.1)
            λ (rest : List VerificationMethod × Bytes). accepted (method.0 ∷ rest.0, rest.1)

  -- `DidDocument::decode`
  unfoldable pub decode_document : Bytes → Decoded (DidDocument × Bytes)
  decode_document cursor = and_then (take_byte cursor) λ (version : ℕ × Bytes).
      if not (version.0 == 2)
      then refused (unsupported_did_document_version version.0)
      else and_then (take_key version.1) λ (control : Bytes × Bytes).
        and_then (take_byte control.1) λ (num_methods : ℕ × Bytes).
          if (num_methods.0 == 0) || ltb max_verification_methods num_methods.0
          then refused truncated
          else and_then (decode_methods num_methods.0 num_methods.1)
              λ (methods : List VerificationMethod × Bytes).
                and_then (take_byte methods.1) λ (flag : ℕ × Bytes).
                  if any is_signing methods.0
                  then accepted (
                    record {
                      control_key = control.0;
                      methods = methods.0;
                      deactivated = not (flag.0 == 0);
                    },
                    flag.1,
                  )
                  else refused no_signing_method

  module _ (is_utf8 : Bytes → Bool) where
    -- `DidOp::decode`
    unfoldable pub decode_did_op : Bytes → Decoded DidOp
    decode_did_op payload = and_then (decode_id is_utf8 payload) λ (id : DidId × Bytes).
        and_then (decode_document id.1) λ (document : DidDocument × Bytes).
          and_then (take_exact 64 document.1) λ (signature : Bytes × Bytes).
            and_then (take_byte signature.1) λ (signed_by : ℕ × Bytes).
              and_then (take_byte signed_by.1) λ (is_creation : ℕ × Bytes).
                reject_trailing
                  (record {
                    id = id.0;
                    document = document.0;
                    signature = signature.0;
                    signed_by = signed_by.0;
                    is_creation = not (is_creation.0 == 0);
                  })
                  is_creation.1
