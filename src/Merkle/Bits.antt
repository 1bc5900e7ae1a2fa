-- ===== src/Merkle/Bits.antt =====
-- The bits of a path, as `bit` and `flip` of consensus-node/executor/state/src/merkle.rs read and
-- write them, and the prefixes that the branches stand at.
use jx.Base.{
  ℕ, zero, suc, ◌/◌, ◌%◌, ◌^◌, ◌*◌, ◌<◌, ◌==◌, ◌≡◌, ◌↔◌, refl, ap, Bool, true, false, not, List, [],
  ◌∷◌, ◌++◌, take, length, Eq, arith,
}
use jx.Roster.{Bytes}

abbrev pub BitPath : Type 0
BitPath = List Bool

abbrev bool_beq : Bool → Bool → Bool
bool_beq true b = b
bool_beq false b = not b

pub bool_beq_iff : (a b : Bool) → (bool_beq a b ≡ true) ↔ (a ≡ b)
bool_beq_iff a b = ground arith

instance abbrev pub bool_eq : Eq Bool
bool_eq = record { beq = bool_beq; beq_iff = bool_beq_iff }

-- `(byte >> shift) & 1`
abbrev shifted_bit : ℕ → ℕ → Bool
shifted_bit byte shift = byte / 2 ^ shift % 2 == 1

-- the bits of bytes, the high bit of each first
unfoldable pub bits_of : Bytes → BitPath
bits_of [] = []
bits_of (b ∷ bytes) =
    shifted_bit b 7
    ∷ shifted_bit b 6
    ∷ shifted_bit b 5
    ∷ shifted_bit b 4
    ∷ shifted_bit b 3
    ∷ shifted_bit b 2
    ∷ shifted_bit b 1
    ∷ shifted_bit b 0
    ∷ bits_of bytes

-- `bit`: whether the bit is 1. A place beyond the path, where the code panics, is not asked for.
unfoldable pub bit : BitPath → ℕ → Bool
bit [] d = false
bit (b ∷ path) zero = b
bit (b ∷ path) (suc d) = bit path d

unfoldable pub flip : BitPath → ℕ → BitPath
flip [] d = []
flip (b ∷ path) zero = not b ∷ path
flip (b ∷ path) (suc d) = b ∷ flip path d

pub length-bits_of : (bytes : Bytes) → length (bits_of bytes) ≡ 8 * length bytes
unfolding bits_of
length-bits_of [] = refl
length-bits_of (b ∷ bytes) = omega (arith, length-bits_of bytes)

pub length-flip : (path : BitPath) (d : ℕ) → length (flip path d) ≡ length path
unfolding flip
length-flip [] d = refl
length-flip (b ∷ path) zero = refl
length-flip (b ∷ path) (suc d) = ap suc (length-flip path d)

-- A prefix ends in its last bit.
pub take-suc :
    (path : BitPath) (d : ℕ) → d < length path → take (suc d) path ≡ take d path ++ bit path d ∷ []
unfolding bit
take-suc [] d h = ground arith
take-suc (b ∷ path) zero h = refl
take-suc (b ∷ path) (suc d) h = ap (λ p. b ∷ p) (take-suc path d (omega arith))

-- The sibling's prefix differs in its last bit.
pub take-flip :
    (path : BitPath) (d : ℕ)
    → d < length path
    → take (suc d) (flip path d) ≡ take d path ++ not (bit path d) ∷ []
unfolding bit flip
take-flip [] d h = ground arith
take-flip (b ∷ path) zero h = refl
take-flip (b ∷ path) (suc d) h = ap (λ p. b ∷ p) (take-flip path d (omega arith))
