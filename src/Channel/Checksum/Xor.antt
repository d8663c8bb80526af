-- ===== src/Channel/Checksum/Xor.antt =====
-- Laws of the exclusive or, of which the libraries have none.
use Prim.Native.Nat.{bit_xor, bit_xor-bitwise, digits, differ}
use remote_controll_app.Prelude.{ℕ, zero, suc, ◌+◌, ◌*◌, ◌/◌, ◌%◌, ◌^◌, ◌≤◌, ◌<◌, ◌≡◌, refl, arith}
use native.Mathlib.Nat.{pow-suc}

abbrev xor_digits : ℕ → ℕ → ℕ → ℕ
xor_digits n a b = digits (λ b. b) differ n a b

xor_digits_fuel : (n m a b : ℕ) → a ≤ n → a ≤ m → xor_digits n a b ≡ xor_digits m a b
xor_digits_fuel zero zero a b p q = refl
xor_digits_fuel zero (suc m) zero b p q = refl
xor_digits_fuel zero (suc m) (suc a) b p q = absurd (omega arith)
xor_digits_fuel (suc n) zero zero b p q = refl
xor_digits_fuel (suc n) zero (suc a) b p q = absurd (omega arith)
xor_digits_fuel (suc n) (suc m) zero b p q = refl
xor_digits_fuel (suc n) (suc m) (suc a) b p q =
    omega (arith, xor_digits_fuel n m (suc a / 2) (b / 2) (omega arith) (omega arith))

zero-bit_xor : (b : ℕ) → bit_xor 0 b ≡ b
zero-bit_xor b = bit_xor-bitwise 0 b

bit_xor_digit : (a b : ℕ) → bit_xor a b ≡ bit_xor (a / 2) (b / 2) * 2 + differ (a % 2) (b % 2)
bit_xor_digit zero b = omega (arith, zero-bit_xor b, zero-bit_xor (b / 2))
bit_xor_digit (suc a) b = omega (
  arith,
  bit_xor-bitwise (suc a) b,
  bit_xor-bitwise (suc a / 2) (b / 2),
  xor_digits_fuel a (suc a / 2) (suc a / 2) (b / 2) (omega arith) (omega arith),
)

differ_bits : (x y : ℕ) → x < 2 → y < 2 → differ x y ≡ (x + y) % 2
differ_bits zero zero p q = refl
differ_bits zero (suc zero) p q = refl
differ_bits (suc zero) zero p q = refl
differ_bits (suc zero) (suc zero) p q = refl
differ_bits (suc (suc x)) y p q = absurd (omega arith)
differ_bits zero (suc (suc y)) p q = absurd (omega arith)
differ_bits (suc zero) (suc (suc y)) p q = absurd (omega arith)

-- The law for the lowest digit.
pub bit_xor_step : (a b : ℕ) → bit_xor a b ≡ bit_xor (a / 2) (b / 2) * 2 + (a + b) % 2
bit_xor_step a b =
    omega (arith, bit_xor_digit a b, differ_bits (a % 2) (b % 2) (omega arith) (omega arith))

-- With one number fixed, the other can be told from the result.
bit_xor-left_fuel : (n a a' b : ℕ) → a ≤ n → a' ≤ n → bit_xor a b ≡ bit_xor a' b → a ≡ a'
bit_xor-left_fuel zero a a' b p q e = omega arith
bit_xor-left_fuel (suc n) a a' b p q e = omega (
  arith,
  bit_xor_step a b,
  bit_xor_step a' b,
  e,
  bit_xor-left_fuel n (a / 2) (a' / 2) (b / 2) (omega arith) (omega arith)
      (omega (arith, bit_xor_step a b, bit_xor_step a' b, e)),
)

pub bit_xor-left : (a a' b : ℕ) → bit_xor a b ≡ bit_xor a' b → a ≡ a'
bit_xor-left a a' b = bit_xor-left_fuel (a + a') a a' b (omega arith) (omega arith)

bit_xor-right_fuel : (n a b b' : ℕ) → b ≤ n → b' ≤ n → bit_xor a b ≡ bit_xor a b' → b ≡ b'
bit_xor-right_fuel zero a b b' p q e = omega arith
bit_xor-right_fuel (suc n) a b b' p q e = omega (
  arith,
  bit_xor_step a b,
  bit_xor_step a b',
  e,
  bit_xor-right_fuel n (a / 2) (b / 2) (b' / 2) (omega arith) (omega arith)
      (omega (arith, bit_xor_step a b, bit_xor_step a b', e)),
)

pub bit_xor-right : (a b b' : ℕ) → bit_xor a b ≡ bit_xor a b' → b ≡ b'
bit_xor-right a b b' = bit_xor-right_fuel (b + b') a b b' (omega arith) (omega arith)

-- The result has no more digits than the two numbers.
pub bit_xor-lt : (k a b : ℕ) → a < 2 ^ k → b < 2 ^ k → bit_xor a b < 2 ^ k
bit_xor-lt zero a b p q = ground (arith, zero-bit_xor b)
bit_xor-lt (suc k) a b p q = omega (
  arith,
  bit_xor_step a b,
  pow-suc 2 k,
  bit_xor-lt k (a / 2) (b / 2) (omega (arith, pow-suc 2 k)) (omega (arith, pow-suc 2 k)),
)
