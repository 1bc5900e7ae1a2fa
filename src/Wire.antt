-- ===== src/Wire.antt =====
-- Big-endian numbers and slices, as `to_be_bytes`, `from_be_bytes` and the crates' cursor reads use
-- them (consensus-node/executor/state/src/merkle_log.rs and op.rs).
use jx.Base.{
  ℕ, zero, suc, ◌+◌, ◌*◌, ◌/◌, ◌%◌, ◌^◌, ◌≤◌, ◌<◌, ◌≡◌, refl, sym, ◌∙◌, ap, Option, none, some, [],
  ◌∷◌, ◌++◌, take, drop, length, length-append, take-append, drop-append, leb, le→leb,
  if◌then◌else◌, arith,
}
use jx.Roster.{Bytes}

-- the `count` low bytes of a number, the highest first
unfoldable pub to_be_bytes : ℕ → ℕ → Bytes
to_be_bytes zero n = []
to_be_bytes (suc count) n = to_be_bytes count (n / 256) ++ n % 256 ∷ []

abbrev pub from_be_onto : ℕ → Bytes → ℕ
from_be_onto acc [] = acc
from_be_onto acc (b ∷ bytes) = from_be_onto (acc * 256 + b) bytes

unfoldable pub from_be_bytes : Bytes → ℕ
from_be_bytes bytes = from_be_onto 0 bytes

-- `bytes.get(..len)?`, and the bytes after it
unfoldable pub read_exact : ℕ → Bytes → Option (Bytes × Bytes)
read_exact len bytes =
    if leb len (length bytes) then some (take len bytes, drop len bytes) else none

from_be_onto-append :
    (acc : ℕ) (xs : Bytes) (b : ℕ) → from_be_onto acc (xs ++ b ∷ []) ≡ from_be_onto acc xs * 256 + b
from_be_onto-append acc [] b = refl
from_be_onto-append acc (x ∷ xs) b = from_be_onto-append (acc * 256 + x) xs b

pub length-to_be_bytes : (count n : ℕ) → length (to_be_bytes count n) ≡ count
unfolding to_be_bytes
length-to_be_bytes zero n = refl
length-to_be_bytes (suc count) n =
    length-append (to_be_bytes count (n / 256)) (n % 256 ∷ [])
    ∙ omega (arith, length-to_be_bytes count (n / 256))

-- A number below the bound of its width is read back from its bytes.
pub from_be_bytes-to_be_bytes :
    (count n : ℕ) → n < 256 ^ count → from_be_bytes (to_be_bytes count n) ≡ n
unfolding from_be_bytes to_be_bytes
from_be_bytes-to_be_bytes zero n h = omega arith
from_be_bytes-to_be_bytes (suc count) n h =
    let high = from_be_bytes-to_be_bytes count (n / 256) (omega arith) in
    from_be_onto-append 0 (to_be_bytes count (n / 256)) (n % 256)
    ∙ ap (λ x. x * 256 + n % 256) high
    ∙ omega arith

-- What was appended is read off again.
pub read_exact-append :
    (len : ℕ) (xs ys : Bytes) → length xs ≡ len → read_exact len (xs ++ ys) ≡ some (xs, ys)
unfolding read_exact
read_exact-append len xs ys e =
    let room : len ≤ length (xs ++ ys) = omega (arith, length-append xs ys) in
    let front : take len (xs ++ ys) ≡ xs =
      ap (λ n. take n (xs ++ ys)) (sym e) ∙ take-append xs ys in
    let back : drop len (xs ++ ys) ≡ ys = ap (λ n. drop n (xs ++ ys)) (sym e) ∙ drop-append xs ys in
    rw (le→leb len (length (xs ++ ys)) room, front, back)

-- a number of `count` bytes
abbrev pub number_of : Option (Bytes × Bytes) → Option (ℕ × Bytes)
number_of none = none
number_of (some (bytes, rest)) = some (from_be_bytes bytes, rest)

unfoldable pub read_number : ℕ → Bytes → Option (ℕ × Bytes)
read_number count bytes = number_of (read_exact count bytes)

pub read_number-to_be_bytes :
    (count n : ℕ) (rest : Bytes)
    → n < 256 ^ count
    → read_number count (to_be_bytes count n ++ rest) ≡ some (n, rest)
unfolding read_number
read_number-to_be_bytes count n rest h =
    ap number_of (read_exact-append count (to_be_bytes count n) rest (length-to_be_bytes count n))
    ∙ ap (λ x. some (x, rest)) (from_be_bytes-to_be_bytes count n h)
