-- ===== src/Did/Codec.antt =====
-- The encodings of identifiers and documents of consensus-node/executor/state/src/did.rs, read back.
use jx.Base.{
  ℕ, ◌%◌, ◌^◌, ◌≤◌, ◌<◌, ◌≡◌, refl, sym, ◌∙◌, ap, Bool, true, false, not, ◌||◌, some, List, [], ◌∷◌,
  ◌++◌, take, drop, length, length-append, take-append, drop-append, any, All, ltb, le→leb, ◌==◌,
  arith,
}
use mathlib.Core.List.{append_assoc}
use jx.Roster.{Bytes}
use jx.Wire.{to_be_bytes}
use jx.Op.{Decoded, accepted, and_then}
use jx.Op.Codec.{take_bytes-field, write_bytes-fits}
use jx.Did.{
  DidId, VerificationMethod, signing, agreement, DidDocument, has_colon, max_verification_methods,
  take_exact, take_byte, first_byte, encode_id, is_signing, encode_methods, flag_byte,
  encode_document, decode_id, take_key, decode_methods, decode_document,
}

-- A decoder reads a value off its encoding, whatever comes after.
abbrev pub Reads : {A : Type 0} → (Bytes → Decoded (A × Bytes)) → Bytes → A → Type 0
Reads decode bytes a = (rest : Bytes) → decode (bytes ++ rest) ≡ accepted (a, rest)

pub take_exact-Reads : (n : ℕ) (bytes : Bytes) → length bytes ≡ n → Reads (take_exact n) bytes bytes
unfolding take_exact
take_exact-Reads n bytes e rest =
    let room : n ≤ length (bytes ++ rest) = omega (arith, e, length-append bytes rest) in
    let front : take n (bytes ++ rest) ≡ bytes =
      ap (λ k. take k (bytes ++ rest)) (sym e) ∙ take-append bytes rest in
    let back : drop n (bytes ++ rest) ≡ rest =
      ap (λ k. drop k (bytes ++ rest)) (sym e) ∙ drop-append bytes rest in
    rw (le→leb n (length (bytes ++ rest)) room, front, back) refl

pub take_byte-Reads : (b : ℕ) → Reads take_byte (b ∷ []) b
unfolding take_byte
take_byte-Reads b rest = ap (λ d. and_then d first_byte) (take_exact-Reads 1 (b ∷ []) refl rest)

-- an identifier that the decoder takes: short fields that are UTF-8 and have no colon
pub record IsId (is_utf8 : Bytes → Bool) (id : DidId) : Type 0 where
  pub short_network : length id.network < 2 ^ 32
  pub short_alias : length id.alias < 2 ^ 32
  pub sixteen : length id.uuid ≡ 16
  pub network_utf8 : is_utf8 id.network ≡ true
  pub alias_utf8 : is_utf8 id.alias ≡ true
  pub network_colon : has_colon id.network ≡ false
  pub alias_colon : has_colon id.alias ≡ false

abbrev field : Bytes → Bytes
field bytes = to_be_bytes 4 (length bytes) ++ bytes

abbrev id_bytes : DidId → Bytes
id_bytes id = field id.network ++ (field id.alias ++ id.uuid)

-- An identifier is encoded, and read back from its encoding.
pub decode_id-Reads :
    (is_utf8 : Bytes → Bool) (id : DidId)
    → IsId is_utf8 id
    → (bytes : Bytes) × (encode_id id ≡ some bytes) × Reads (decode_id is_utf8) bytes id
unfolding encode_id decode_id
decode_id-Reads is_utf8 id h = (
  id_bytes id,
  rw (write_bytes-fits id.network h.short_network, write_bytes-fits id.alias h.short_alias) refl,
  λ rest.
      rw
        (
          append_assoc (field id.network) (field id.alias ++ id.uuid) rest,
          append_assoc (field id.alias) id.uuid rest,
          take_bytes-field id.network (field id.alias ++ (id.uuid ++ rest)) h.short_network,
          take_bytes-field id.alias (id.uuid ++ rest) h.short_alias,
          take_exact-Reads 16 id.uuid h.sixteen rest,
          h.network_utf8,
          h.alias_utf8,
          h.network_colon,
          h.alias_colon,
        )
        refl,
)

module _ (is_point : Bytes → Bool) where
  -- a method with a key of 32 bytes, a point where it is for signing
  abbrev pub IsMethod : VerificationMethod → Type 0
  IsMethod (signing key) = (length key ≡ 32) × (is_point key ≡ true)
  IsMethod (agreement key) = length key ≡ 32

  pub record IsDocument (document : DidDocument) : Type 0 where
    pub control_32 : length document.control_key ≡ 32
    pub control_point : is_point document.control_key ≡ true
    pub each_method : All IsMethod document.methods
    pub some_method : 0 < length document.methods
    pub few_methods : length document.methods ≤ max_verification_methods
    pub some_signing : any is_signing document.methods ≡ true

  pub take_key-Reads :
      (key : Bytes) → length key ≡ 32 → is_point key ≡ true → Reads (take_key is_point) key key
  unfolding take_key
  take_key-Reads key len point rest = rw (take_exact-Reads 32 key len rest, point) refl

  flag_read : (b : Bool) → not (flag_byte b == 0) ≡ b
  flag_read true = refl
  flag_read false = refl

  decode_methods-Reads :
      (methods : List VerificationMethod)
      → All IsMethod methods
      → Reads (decode_methods is_point (length methods)) (encode_methods methods) methods
  unfolding decode_methods encode_methods
  decode_methods-Reads [] a rest = refl
  decode_methods-Reads (signing key ∷ methods) a rest =
      rw
        (
          take_byte-Reads 1 ((key ++ encode_methods methods) ++ rest),
          append_assoc key (encode_methods methods) rest,
          take_exact-Reads 32 key a.0.0 (encode_methods methods ++ rest),
          a.0.1,
          decode_methods-Reads methods a.1 rest,
        )
        refl
  decode_methods-Reads (agreement key ∷ methods) a rest =
      rw
        (
          take_byte-Reads 2 ((key ++ encode_methods methods) ++ rest),
          append_assoc key (encode_methods methods) rest,
          take_exact-Reads 32 key a.0 (encode_methods methods ++ rest),
          decode_methods-Reads methods a.1 rest,
        )
        refl

  -- A document is read back from its encoding.
  pub decode_document-Reads :
      (document : DidDocument)
      → IsDocument document
      → Reads (decode_document is_point) (encode_document document) document
  unfolding decode_document encode_document
  decode_document-Reads document h rest =
      let count = length document.methods in
      let tail : Bytes = encode_methods document.methods ++ flag_byte document.deactivated ∷ [] in
      let low : length document.methods % 256 ≡ length document.methods =
        omega (arith, h.few_methods) in
      let allowed : (length document.methods == 0)
            || ltb max_verification_methods (length document.methods)
          ≡ false =
        ground (arith, h.some_method, h.few_methods) in
      rw
        (
          low,
          take_byte-Reads 2 ((document.control_key ++ (count ∷ tail)) ++ rest),
          append_assoc document.control_key (count ∷ tail) rest,
          take_key-Reads document.control_key h.control_32 h.control_point ((count ∷ tail) ++ rest),
          take_byte-Reads count (tail ++ rest),
          allowed,
          append_assoc (encode_methods document.methods) (flag_byte document.deactivated ∷ []) rest,
          decode_methods-Reads document.methods h.each_method
              (flag_byte document.deactivated ∷ [] ++ rest),
          take_byte-Reads (flag_byte document.deactivated) rest,
          h.some_signing,
          flag_read document.deactivated,
        )
        refl
