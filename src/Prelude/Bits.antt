-- ===== src/Prelude/Bits.antt =====
-- Laws of exclusive or, which the native operation has only by its digit recursion.
use Prim.Native.Nat.{
  ℕ, zero, suc, ◌+◌, ◌*◌, ◌/◌, ◌%◌, ◌^◌, ◌≤◌, ◌<◌, bit_xor, digits, bit_xor-bitwise, differ,
}
use mathlib.Core.Path.{◌≡◌, refl}
use native.Mathlib.Nat.{pow-suc}
use native.Mathlib.Omega.{arith}

abbrev xor_digits : ℕ → ℕ → ℕ → ℕ
xor_digits = digits (λ b. b) differ

xor_digits_fuel : (n m a b : ℕ) → a ≤ n → a ≤ m → xor_digits n a b ≡ xor_digits m a b
xor_digits_fuel zero zero a b p q = refl
xor_digits_fuel zero (suc m) zero b p q = refl
xor_digits_fuel zero (suc m) (suc a) b p q = absurd (omega arith)
xor_digits_fuel (suc n) zero zero b p q = refl
xor_digits_fuel (suc n) zero (suc a) b p q = absurd (omega arith)
xor_digits_fuel (suc n) (suc m) zero b p q = refl
xor_digits_fuel (suc n) (suc m) (suc a) b p q =
    rw (xor_digits_fuel n m (suc a / 2) (b / 2) (omega arith) (omega arith))

bit_xor-zero : (b : ℕ) → bit_xor 0 b ≡ b
bit_xor-zero b = bit_xor-bitwise 0 b

digit_sum : (a b : ℕ) → a < 2 → b < 2 → differ a b ≡ (a + b) % 2
digit_sum zero zero h k = refl
digit_sum zero (suc zero) h k = refl
digit_sum zero (suc (suc b)) h k = absurd (omega arith)
digit_sum (suc zero) zero h k = refl
digit_sum (suc zero) (suc zero) h k = refl
digit_sum (suc zero) (suc (suc b)) h k = absurd (omega arith)
digit_sum (suc (suc a)) b h k = absurd (omega arith)

-- The lowest digit, and the rest.
pub bit_xor_step : (a b : ℕ) → bit_xor a b ≡ bit_xor (a / 2) (b / 2) * 2 + (a + b) % 2
bit_xor_step zero b = omega (arith, bit_xor-zero b, bit_xor-zero (b / 2))
bit_xor_step (suc a) b = omega (
  arith,
  bit_xor-bitwise (suc a) b,
  bit_xor-bitwise (suc a / 2) (b / 2),
  xor_digits_fuel a (suc a / 2) (suc a / 2) (b / 2) (omega arith) (omega arith),
  digit_sum (suc a % 2) (b % 2) (omega arith) (omega arith),
)

-- Exclusive or stays within a width.
pub bit_xor-lt : (n a b : ℕ) → a < 2 ^ n → b < 2 ^ n → bit_xor a b < 2 ^ n
bit_xor-lt zero zero zero p q = omega (arith, bit_xor-zero 0)
bit_xor-lt zero zero (suc b) p q = absurd (omega arith)
bit_xor-lt zero (suc a) b p q = absurd (omega arith)
bit_xor-lt (suc n) a b p q = omega (
  arith,
  pow-suc 2 n,
  bit_xor_step a b,
  bit_xor-lt n (a / 2) (b / 2) (omega (arith, pow-suc 2 n)) (omega (arith, pow-suc 2 n)),
)

bit_xor-half : (a b : ℕ) → bit_xor a b / 2 ≡ bit_xor (a / 2) (b / 2)
bit_xor-half a b = omega (arith, bit_xor_step a b)

-- To xor twice with one word changes nothing.
pub bit_xor_cancel : (n a b : ℕ) → a < 2 ^ n → b < 2 ^ n → bit_xor (bit_xor a b) b ≡ a
bit_xor_cancel zero zero zero p q = rw (bit_xor-zero 0) (bit_xor-zero 0)
bit_xor_cancel zero zero (suc b) p q = absurd (omega arith)
bit_xor_cancel zero (suc a) b p q = absurd (omega arith)
bit_xor_cancel (suc n) a b p q =
    rw (bit_xor_step (bit_xor a b) b, bit_xor-half a b)
      (omega (
        arith,
        bit_xor_step a b,
        bit_xor_cancel n (a / 2) (b / 2) (omega (arith, pow-suc 2 n)) (omega (arith, pow-suc 2 n)),
      ))

-- The order in which two words are xored in does not matter.
pub bit_xor_right_comm :
    (n a b c : ℕ)
    → a < 2 ^ n
    → b < 2 ^ n
    → c < 2 ^ n
    → bit_xor (bit_xor a b) c ≡ bit_xor (bit_xor a c) b
bit_xor_right_comm zero zero zero zero p q r = refl
bit_xor_right_comm zero zero zero (suc c) p q r = absurd (omega arith)
bit_xor_right_comm zero zero (suc b) c p q r = absurd (omega arith)
bit_xor_right_comm zero (suc a) b c p q r = absurd (omega arith)
bit_xor_right_comm (suc n) a b c p q r =
    rw
      (
        bit_xor_step (bit_xor a b) c,
        bit_xor_step (bit_xor a c) b,
        bit_xor-half a b,
        bit_xor-half a c,
      )
      (omega (
        arith,
        bit_xor_step a b,
        bit_xor_step a c,
        bit_xor_right_comm n (a / 2) (b / 2) (c / 2) (omega (arith, pow-suc 2 n))
            (omega (arith, pow-suc 2 n)) (omega (arith, pow-suc 2 n)),
      ))
