-- ===== src/Op/Tests.antt =====
-- Concrete operations, at which the theorems apply.
use jx.Base.{◌≡◌, refl, some, [], ◌∷◌, arith}
use jx.Roster.{Bytes}
use jx.Op.{Op, put, accepted, reject_reserved_prefix, encode, decode}
use jx.Op.Codec.{decode-encode}

abbrev write : Op
write = put (1 ∷ 2 ∷ []) (3 ∷ [])

decode-encode_example :
    (bytes : Bytes) × (encode write ≡ some bytes) × (decode bytes ≡ accepted write)
unfolding reject_reserved_prefix
decode-encode_example = decode-encode write (omega arith, omega arith) refl
