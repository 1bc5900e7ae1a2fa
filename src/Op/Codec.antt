-- ===== src/Op/Codec.antt =====
-- The codec of an operation on the state, op.rs.
use jx.Base.{
  ℕ, ◌+◌, ◌^◌, ◌<◌, ◌≡◌, sym, ◌∙◌, ap, false, Option, some, [], ◌∷◌, ◌++◌, take, drop, length,
  length-append, take-append, drop-append, ltb, lt→ltb, arith,
}
use mathlib.Core.List.{append_assoc, append-nil}
use jx.Roster.{Bytes}
use jx.Wire.{to_be_bytes, from_be_bytes, length-to_be_bytes, from_be_bytes-to_be_bytes}
use jx.Op.{
  Op, put, delete, accepted, take_bytes, reject_trailing, reject_reserved_prefix, decode_put,
  decode_delete, decode, write_bytes, encode, decode_payload, as_kv,
}

take_of : (k : ℕ) (xs ys : Bytes) → length xs ≡ k → take k (xs ++ ys) ≡ xs
take_of k xs ys e = ap (λ n. take n (xs ++ ys)) (sym e) ∙ take-append xs ys

drop_of : (k : ℕ) (xs ys : Bytes) → length xs ≡ k → drop k (xs ++ ys) ≡ ys
drop_of k xs ys e = ap (λ n. drop n (xs ++ ys)) (sym e) ∙ drop-append xs ys

-- A field that was written is taken off again.
pub take_bytes-field :
    (bytes rest : Bytes)
    → length bytes < 2 ^ 32
    → take_bytes ((to_be_bytes 4 (length bytes) ++ bytes) ++ rest) ≡ accepted (bytes, rest)
unfolding take_bytes
take_bytes-field bytes rest h =
    let n = length bytes in
    let p = to_be_bytes 4 n in
    let lp : length p ≡ 4 = length-to_be_bytes 4 n in
    let lf : length (p ++ bytes) ≡ 4 + n = length-append p bytes ∙ omega (arith, lp) in
    let lw = length-append (p ++ bytes) rest in
    let whole = (p ++ bytes) ++ rest in
    let split : whole ≡ p ++ (bytes ++ rest) = append_assoc p bytes rest in
    let header : take 4 whole ≡ p = ap (take 4) split ∙ take_of 4 p (bytes ++ rest) lp in
    let number : from_be_bytes (take 4 whole) ≡ n =
      ap from_be_bytes header ∙ from_be_bytes-to_be_bytes 4 n h in
    let room : ltb (length whole) 4 ≡ false = ground (arith, lw, lf) in
    let room' : ltb (length whole) (4 + n) ≡ false = ground (arith, lw, lf) in
    let body : take n (drop 4 whole) ≡ bytes =
      ap (λ z. take n (drop 4 z)) split
      ∙ ap (take n) (drop_of 4 p (bytes ++ rest) lp)
      ∙ take-append bytes rest in
    rw (room, number, room', body, drop_of (4 + n) (p ++ bytes) rest lf)

pub write_bytes-fits :
    (bytes : Bytes)
    → length bytes < 2 ^ 32
    → write_bytes bytes ≡ some (to_be_bytes 4 (length bytes) ++ bytes)
unfolding write_bytes
write_bytes-fits bytes h = rw (lt→ltb (length bytes) (2 ^ 32) h)

-- the key that an operation is on, and its fields
abbrev pub key_of : Op → Bytes
key_of (put key value) = key
key_of (delete key) = key

abbrev pub Fits : Op → Type 0
Fits (put key value) = (length key < 2 ^ 32) × (length value < 2 ^ 32)
Fits (delete key) = length key < 2 ^ 32

-- An operation whose fields have a 32-bit length and whose key has no reserved prefix is decoded from
-- its encoding.
pub decode-encode :
    (op : Op)
    → Fits op
    → reject_reserved_prefix (key_of op) ≡ accepted tt
    → (bytes : Bytes) × (encode op ≡ some bytes) × (decode bytes ≡ accepted op)
unfolding encode decode decode_put decode_delete reject_trailing
decode-encode (put key value) fits free =
    let fk = to_be_bytes 4 (length key) ++ key in
    let fv = to_be_bytes 4 (length value) ++ value in
    let last : take_bytes fv ≡ accepted (value, []) =
      ap take_bytes (sym (append-nil fv)) ∙ take_bytes-field value [] fits.1 in
    (
      0 ∷ fk ++ fv,
      rw (write_bytes-fits key fits.0, write_bytes-fits value fits.1),
      rw (take_bytes-field key fv fits.0, free, last),
    )
decode-encode (delete key) fits free =
    let fk = to_be_bytes 4 (length key) ++ key in
    let last : take_bytes fk ≡ accepted (key, []) =
      ap take_bytes (sym (append-nil fk)) ∙ take_bytes-field key [] fits in
    (1 ∷ fk, rw (write_bytes-fits key fits), rw (last, free))

-- A payload that begins with the byte of an operation on the state is dispatched as `Op::decode` reads
-- it, whatever the other decoders do.
pub decode_payload-decode :
    {M D S R : Type 0} (m : Bytes → Option M) (d : Bytes → Option D) (s : Bytes → Option S)
    (r : Bytes → Option R) (opcode : ℕ) (body : Bytes)
    → opcode < 2
    → decode_payload m d s r (opcode ∷ body) ≡ as_kv (decode (opcode ∷ body))
unfolding decode_payload decode
decode_payload-decode m d s r opcode body h = ground arith
