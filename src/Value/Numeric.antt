-- ===== src/Value/Numeric.antt =====
-- JavaScript numbers. Every finite double is a whole number over a power of two, so integers,
-- comparisons, clamping and rounding are exact.
use native.Mathlib.Nat.{le-div_iff_mul-le, div-le_of_le-mul, one-le-pow, mul_comm}
use remote_controll_app.Prelude.{
  ℕ, suc, ◌*◌, ◌/◌, ◌%◌, ◌^◌, ◌≤◌, ◌<◌, ◌≡◌, arith, Bool, true, false, ◌&&◌, Option, none, some,
  if◌then◌else◌, leb, nat_beq,
}

-- `nonneg m k` is m / 2^k, and `negative m k` is -(m + 1) / 2^k.
pub data Number : Type 0 where
  nonneg negative : ℕ → ℕ → Number
  nan plus_infinity minus_infinity : Number

abbrev pub of_ℕ : ℕ → Number
of_ℕ n = nonneg n 0

-- `Number.isInteger`
unfoldable pub is_integer : Number → Bool
is_integer (nonneg m k) = nat_beq (m % 2 ^ k) 0
is_integer (negative m k) = nat_beq (suc m % 2 ^ k) 0
is_integer _ = false

-- `Number.isFinite`
unfoldable pub is_finite : Number → Bool
is_finite (nonneg m k) = true
is_finite (negative m k) = true
is_finite _ = false

-- `value <= bound` for a whole bound.
unfoldable pub at_most : Number → ℕ → Bool
at_most (nonneg m k) bound = leb m (bound * 2 ^ k)
at_most (negative m k) bound = true
at_most minus_infinity bound = true
at_most _ bound = false

-- `value >= bound` for a whole bound.
unfoldable pub at_least : Number → ℕ → Bool
at_least (nonneg m k) bound = leb (bound * 2 ^ k) m
at_least (negative m k) bound = false
at_least plus_infinity bound = true
at_least _ bound = false

-- `value === bound`
unfoldable pub equals : Number → ℕ → Bool
equals (nonneg m k) bound = nat_beq m (bound * 2 ^ k)
equals _ bound = false

-- The number that a nonnegative integer is.
abbrev pub whole_part : Number → Option ℕ
whole_part (nonneg m k) = some (m / 2 ^ k)
whole_part _ = none

-- `Number.isInteger(value) && value >= lo && value <= hi`, with the number in hand.
unfoldable pub whole_within : ℕ → ℕ → Number → Option ℕ
unfolding is_integer at_least at_most
whole_within lo hi n = if is_integer n && at_least n lo && at_most n hi then whole_part n else none

whole-le : (lo hi m p : ℕ) → 0 < p → lo * p ≤ m → m ≤ hi * p → (lo ≤ m / p) × (m / p ≤ hi)
whole-le lo hi m p pos a b =
    ((le-div_iff_mul-le pos).1 a, div-le_of_le-mul p (omega (arith, b, mul_comm hi p)))

-- What is accepted lies within the bounds.
pub whole_within_bounds :
    (lo hi : ℕ) (n : Number) {v : ℕ} → whole_within lo hi n ≡ some v → (lo ≤ v) × (v ≤ hi)
unfolding whole_within
whole_within_bounds lo hi (nonneg m k) {v} h =
    ground (arith, whole-le lo hi m (2 ^ k) (one-le-pow k 2 (omega arith)))
whole_within_bounds lo hi (negative m k) h = ground arith
whole_within_bounds lo hi nan h = ground arith
whole_within_bounds lo hi plus_infinity h = ground arith
whole_within_bounds lo hi minus_infinity h = ground arith

-- A whole number within the bounds is accepted as itself.
pub whole_within-of_ℕ : (lo hi v : ℕ) → lo ≤ v → v ≤ hi → whole_within lo hi (of_ℕ v) ≡ some v
unfolding whole_within
whole_within-of_ℕ lo hi v a b = ground arith
