-- ===== src/Merkle/Codec.antt =====
-- The wire form of `MerkleProof` of consensus-node/executor/state/src/merkle.rs: the key and the
-- value behind their lengths, a count of four bytes, and the hashes one after the other.
use jx.Base.{
  ℕ, zero, suc, ◌^◌, ◌<◌, ◌==◌, ==_iff, ◌≡◌, refl, Option, none, some, List, [], ◌∷◌, ◌++◌, length,
  ltb, lt→ltb, All, if◌then◌else◌, arith,
}
use mathlib.Core.List.{append_assoc}
use jx.Roster.{Bytes}
use jx.Wire.{to_be_bytes, read_exact, read_exact-append, read_number, read_number-to_be_bytes}
use jx.MerkleLog.{Hash}
use jx.MerkleLog.Codec.{then_read, concat, at_end}
use jx.MerkleLog.Sound.{Is32}
use jx.Op.{write_bytes, append_field}
use jx.Op.Codec.{write_bytes-fits}
use jx.Merkle.{MerkleProof, full_depth}

-- `none` is the panic of `expect` on 2^32 siblings or more
unfoldable pub write_siblings : List Hash → Option Bytes
write_siblings siblings =
    if ltb (length siblings) (2 ^ 32)
    then some (to_be_bytes 4 (length siblings) ++ concat siblings)
    else none

-- `MerkleProof::encode`
unfoldable pub encode : MerkleProof → Option Bytes
encode proof =
    append_field (write_bytes proof.key)
      (append_field (write_bytes proof.value) (write_siblings proof.siblings))

-- `read_bytes`
unfoldable pub read_field : Bytes → Option (Bytes × Bytes)
read_field bytes = then_read (read_number 4 bytes) λ (len : ℕ × Bytes). read_exact len.0 len.1

-- the loop over the siblings
unfoldable pub read_siblings : ℕ → Bytes → Option (List Hash × Bytes)
read_siblings zero bytes = some ([], bytes)
read_siblings (suc count) bytes = then_read (read_exact 32 bytes) λ (sibling : Bytes × Bytes).
    then_read (read_siblings count sibling.1)
      λ (rest : List Hash × Bytes). some (sibling.0 ∷ rest.0, rest.1)

-- `MerkleProof::decode`
unfoldable pub decode : Bytes → Option MerkleProof
decode bytes = then_read (read_field bytes) λ (key : Bytes × Bytes).
    then_read (read_field key.1) λ (value : Bytes × Bytes).
      then_read (read_number 4 value.1) λ (count : ℕ × Bytes).
        if count.0 == full_depth
        then at_end (λ siblings. record { key = key.0; value = value.0; siblings = siblings })
            (read_siblings count.0 count.1)
        else none

pub read_field-append :
    (bytes rest : Bytes)
    → length bytes < 2 ^ 32
    → read_field ((to_be_bytes 4 (length bytes) ++ bytes) ++ rest) ≡ some (bytes, rest)
unfolding read_field
read_field-append bytes rest h =
    rw
      (
        append_assoc (to_be_bytes 4 (length bytes)) bytes rest,
        read_number-to_be_bytes 4 (length bytes) (bytes ++ rest) h,
      )
      (read_exact-append (length bytes) bytes rest refl)

read_siblings-concat :
    (siblings : List Hash)
    → All Is32 siblings
    → read_siblings (length siblings) (concat siblings) ≡ some (siblings, [])
unfolding read_siblings
read_siblings-concat [] a = refl
read_siblings-concat (s ∷ siblings) a =
    rw (read_exact-append 32 s (concat siblings) a.0, read_siblings-concat siblings a.1) refl

-- A proof whose fields have 32-bit lengths, with a sibling of 32 bytes at each of the 256 depths, is
-- decoded from its encoding.
pub decode-encode_proof :
    (proof : MerkleProof)
    → length proof.key < 2 ^ 32
    → length proof.value < 2 ^ 32
    → length proof.siblings ≡ full_depth
    → All Is32 proof.siblings
    → (bytes : Bytes) × (encode proof ≡ some bytes) × (decode bytes ≡ some proof)
unfolding encode decode write_siblings
decode-encode_proof proof hk hv len all =
    let field : Bytes → Bytes = λ b. to_be_bytes 4 (length b) ++ b in
    let siblings : Bytes = to_be_bytes 4 (length proof.siblings) ++ concat proof.siblings in
    let short : length proof.siblings < 2 ^ 32 = omega (arith, len) in
    let counted : read_number 4 siblings ≡ some (length proof.siblings, concat proof.siblings) =
      read_number-to_be_bytes 4 (length proof.siblings) (concat proof.siblings) short in
    (
      field proof.key ++ (field proof.value ++ siblings),
      rw
          (
            write_bytes-fits proof.key hk,
            write_bytes-fits proof.value hv,
            lt→ltb (length proof.siblings) (2 ^ 32) short,
          )
          refl,
      rw
          (
            read_field-append proof.key (field proof.value ++ siblings) hk,
            read_field-append proof.value siblings hv,
            counted,
            (==_iff (length proof.siblings) full_depth).1 len,
            read_siblings-concat proof.siblings all,
          )
          refl,
    )
