-- ===== src/Units/Precision.antt =====
-- src/deepx_sdk/units.py: the precision that the conversions set for their context.
use deepx_python_sdk.Prelude.{
  pow_add, ℕ, zero, suc, ◌+◌, ◌*◌, ◌/◌, ◌^◌, ◌<◌, ◌≤◌, inl, inr, Bool-cases, arith, ltb, max,
}
use deepx_python_sdk.Units.Numbers.{
  Decimal, digits_below, digits, precision, default_prec, scaled, reduce,
}
use native.Mathlib.Nat.{one-le-pow, pow-suc, pow-le-pow_right, mul-lt-mul_of_pos_right}

tenfold : (n k : ℕ) → n / 10 < 10 ^ k → n < 10 ^ suc k
tenfold n k h = rw (pow-suc 10 k) (omega arith)

digits_below_lem : (k n : ℕ) → n ≤ k → n < 10 ^ digits_below k n
unfolding digits_below
digits_below_lem zero n h = omega arith
digits_below_lem (suc k) n h = elim (Bool-cases (ltb n 10)) [
  | inl e ↦ rw e (ground (arith, e))
  | inr e ↦
      rw e (tenfold n (digits_below k (n / 10)) (digits_below_lem k (n / 10) (ground (arith, e))))
]

-- A number has the digits that its printed length says.
lt-digits : (n : ℕ) → n < 10 ^ digits n
unfolding digits
lt-digits n = digits_below_lem n n (omega arith)

-- a product with a power of ten, and a precision that leaves room for it
product_fits : (x a k p : ℕ) → x < 10 ^ a → a + k ≤ p → x * 10 ^ k < 10 ^ p
product_fits x a k p h l =
    let room : 10 ^ (a + k) ≤ 10 ^ p = pow-le-pow_right (omega arith) l in
    let part : x * 10 ^ k < 10 ^ a * 10 ^ k =
      mul-lt-mul_of_pos_right h (omega (arith, one-le-pow k 10 (omega arith))) in
    omega (arith, room, part, pow_add 10 a k)

reduce-le : (k n : ℕ) → (reduce k n).0 ≤ n
unfolding reduce
reduce-le zero n = omega arith
reduce-le (suc k) n = ground (arith, reduce-le k (n / 10))

fits : (x a p : ℕ) → x < 10 ^ a → a ≤ p → x < 10 ^ p
fits x a p h l = let room : 10 ^ a ≤ 10 ^ p = pow-le-pow_right (omega arith) l in omega arith

room : (a k : ℕ) → a + k ≤ max default_prec (a + k + 10)
room a k = omega arith

room_for : (a k : ℕ) → a ≤ max default_prec (a + k + 10)
room_for a k = omega arith

-- The product of an amount with the scale, and any quotient of an amount in base units, have no more
-- digits than the precision of the context: neither is rounded.
pub precision_enough :
    (d : Decimal) (n k : ℕ)
    → (scaled d k < 10 ^ precision d.coefficient k) × ((reduce k n).0 < 10 ^ precision n k)
unfolding precision scaled
precision_enough d n k = (
  product_fits d.coefficient (digits d.coefficient) k (precision d.coefficient k)
      (lt-digits d.coefficient) (unfold precision in room (digits d.coefficient) k),
  fits (reduce k n).0 (digits n) (precision n k) (omega (arith, reduce-le k n, lt-digits n))
      (unfold precision in room_for (digits n) k),
)
