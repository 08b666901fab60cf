-- ===== src/Trading/Bits.antt =====
-- The bitwise or of numbers whose digits do not overlap is their sum.
use Prim.Native.Nat.{digits, bit_or, bit_or-bitwise, max}
use deepx_python_sdk.Prelude.{ℕ, zero, suc, ◌+◌, ◌*◌, ◌/◌, ◌%◌, ◌^◌, ◌<◌, ◌≤◌, ◌≡◌, refl, arith}
use native.Mathlib.Nat.{pow-suc, mul_assoc}

abbrev or_digits : ℕ → ℕ → ℕ → ℕ
or_digits n a b = digits (λ b. b) max n a b

or_digits_fuel : (n m a b : ℕ) → a ≤ n → a ≤ m → or_digits n a b ≡ or_digits m a b
or_digits_fuel zero zero a b p q = refl
or_digits_fuel zero (suc m) zero b p q = refl
or_digits_fuel zero (suc m) (suc a) b p q = absurd (omega arith)
or_digits_fuel (suc n) zero zero b p q = refl
or_digits_fuel (suc n) zero (suc a) b p q = absurd (omega arith)
or_digits_fuel (suc n) (suc m) zero b p q = refl
or_digits_fuel (suc n) (suc m) (suc a) b p q =
    omega (arith, or_digits_fuel n m (suc a / 2) (b / 2) (omega arith) (omega arith))

zero-bit_or : (b : ℕ) → bit_or 0 b ≡ b
zero-bit_or b = bit_or-bitwise 0 b

bit_or_step : (a b : ℕ) → bit_or a b ≡ bit_or (a / 2) (b / 2) * 2 + max (a % 2) (b % 2)
bit_or_step zero b = omega (arith, zero-bit_or b, zero-bit_or (b / 2))
bit_or_step (suc a) b = omega (
  arith,
  bit_or-bitwise (suc a) b,
  bit_or-bitwise (suc a / 2) (b / 2),
  or_digits_fuel a (suc a / 2) (suc a / 2) (b / 2) (omega arith) (omega arith),
)

double_step : (a p : ℕ) → bit_or (a / 2) p ≡ a / 2 + p → bit_or a (p * 2) ≡ a + p * 2
double_step a p h =
    let half : p * 2 / 2 ≡ p = omega arith in
    let step : bit_or a (p * 2) ≡ bit_or (a / 2) p * 2 + max (a % 2) (p * 2 % 2) =
      rw half at (bit_or_step a (p * 2)) in
    omega (arith, step, h)

pub bit_or_disjoint : (k a b : ℕ) → a < 2 ^ k → bit_or a (b * 2 ^ k) ≡ a + b * 2 ^ k
bit_or_disjoint zero a b h =
    let e : a ≡ 0 = omega (arith, h) in rw e (omega (arith, zero-bit_or (b * 2 ^ 0)))
bit_or_disjoint (suc k) a b h =
    let small : a / 2 < 2 ^ k = omega (arith, pow-suc 2 k, h) in
    rw (pow-suc 2 k, ← mul_assoc b (2 ^ k) 2)
      (double_step a (b * 2 ^ k) (bit_or_disjoint k (a / 2) b small))
