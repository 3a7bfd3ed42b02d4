-- ===== src/Json/Double.antt =====
-- Python's `float`: an IEEE double, by its 64 bits.
use agentue.Prelude.{
  ℕ, ◌/◌, ◌%◌, ◌^◌, Bool, true, false, not, ◌&&◌, ◌==◌, leb, ◌≡◌, refl, Bool-cases, inl, inr,
  if◌then◌else◌,
}

abbrev pub exponent : ℕ → ℕ
exponent bits = bits / 2 ^ 52 % 2 ^ 11

-- the sign bit of a double
abbrev pub sign_bit : ℕ → Bool
sign_bit bits = bits / 2 ^ 63 % 2 == 1

abbrev pub is_nan : ℕ → Bool
is_nan bits = exponent bits == 2047 && not (bits % 2 ^ 52 == 0)

-- two doubles: the same bits, or two zeros, and never a NaN
unfoldable pub float_eq : ℕ → ℕ → Bool
float_eq a b =
    if is_nan a then false else if a == b then true else a % 2 ^ 63 == 0 && b % 2 ^ 63 == 0

-- the bits without the sign, which order the doubles of one sign
abbrev pub size_bits : ℕ → ℕ
size_bits bits = bits % 2 ^ 63

-- `a <= b`: never for a NaN, and a zero of either sign is at most another
unfoldable pub float_le : ℕ → ℕ → Bool
float_le a b =
    if is_nan a
    then false
    else if is_nan b
    then false
    else if sign_bit a
    then (if sign_bit b then leb (size_bits b) (size_bits a) else true)
    else if sign_bit b
    then size_bits a == 0 && size_bits b == 0
    else leb (size_bits a) (size_bits b)

-- a NaN is at most nothing, and nothing is at most a NaN
pub float_le-nan_left : (a b : ℕ) → is_nan a ≡ true → float_le a b ≡ false
unfolding float_le
float_le-nan_left a b h = rw h refl

pub float_le-nan_right : (a b : ℕ) → is_nan b ≡ true → float_le a b ≡ false
unfolding float_le
float_le-nan_right a b h = elim (Bool-cases (is_nan a)) [
  | inl nan ↦ rw nan refl
  | inr number ↦ rw (number, h) refl
]
