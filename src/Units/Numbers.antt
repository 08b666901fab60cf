-- ===== src/Units/Numbers.antt =====
-- src/deepx_sdk/units.py: the conversions. The context has the precision that the code sets, which
-- Precision shows to be enough, so that the product and the quotient are exact.
use deepx_python_sdk.Prelude.{
  ℕ, zero, suc, ◌+◌, ◌*◌, ◌/◌, ◌%◌, ◌^◌, Bool, true, false, ◌&&◌, ◌||◌, Outcome, returned, raised,
  if◌then◌else◌, ltb, ◌==◌, max, ℤ, pos, negsuc,
}

pub record Decimal : Type 0 where
  pub negative : Bool
  pub coefficient : ℕ
  pub exponent : ℤ

-- what Decimal(str(amount)) gives: a number, an infinity or a NaN, or InvalidOperation
pub data Reading : Type 0 where
  finite : Decimal → Reading
  not_finite invalid : Reading

pub data UnitsError : Type 0 where
  negative_decimals invalid_amount amount_not_finite too_precise : UnitsError

infixl 5 ◌>>=◌
abbrev pub ◌>>=◌ :
    {A B : Type 0} → Outcome UnitsError A → (A → Outcome UnitsError B) → Outcome UnitsError B
returned a >>= f = f a
raised e >>= f = raised e

unfoldable pub validate_decimals : ℤ → Outcome UnitsError ℕ
validate_decimals (pos n) = returned n
validate_decimals (negsuc n) = raised negative_decimals

unfoldable pub to_decimal : Reading → Outcome UnitsError Decimal
to_decimal (finite d) = returned d
to_decimal not_finite = raised amount_not_finite
to_decimal invalid = raised invalid_amount

-- the default precision of a context
abbrev pub default_prec : ℕ
default_prec = 28

-- len(str(n)), which is also the number of the digits of a coefficient
unfoldable pub digits_below : ℕ → ℕ → ℕ
digits_below zero n = 1
digits_below (suc k) n = let rest = digits_below k (n / 10) in if ltb n 10 then 1 else suc rest

unfoldable pub digits : ℕ → ℕ
unfolding digits_below
digits n = digits_below n n

-- ctx.prec = max(ctx.prec, digits + decimals + 10)
unfoldable pub precision : ℕ → ℕ → ℕ
unfolding digits
precision n decimals = max default_prec (digits n + decimals + 10)

-- the coefficient of decimal_amount * scale; its sign and its exponent are those of the amount
unfoldable pub scaled : Decimal → ℕ → ℕ
scaled d decimals = d.coefficient * 10 ^ decimals

-- ROUND_HALF_EVEN of x / m
unfoldable pub half_even : ℕ → ℕ → ℕ
half_even x m =
    let q = x / m in
    let twice = 2 * (x % m) in if ltb m twice || ((twice == m) && (q % 2 == 1)) then suc q else q

-- value.to_integral_value() for the coefficient and the exponent of `value`, as a whole number
unfoldable pub integral_value : ℕ → ℤ → ℕ
unfolding half_even
integral_value x (pos e) = x * 10 ^ e
integral_value x (negsuc e) = half_even x (10 ^ suc e)

-- value == integral
unfoldable pub is_integral : ℕ → ℤ → Bool
unfolding half_even
is_integral x (pos e) = true
is_integral x (negsuc e) = half_even x (10 ^ suc e) * 10 ^ suc e == x

-- int of a decimal with exponent 0
unfoldable pub signed : Bool → ℕ → ℤ
signed true zero = pos 0
signed true (suc n) = negsuc n
signed false n = pos n

unfoldable pub whole : Decimal → ℕ → Outcome UnitsError ℤ
unfolding integral_value is_integral signed
whole d value =
    if is_integral value d.exponent
    then returned (signed d.negative (integral_value value d.exponent))
    else raised too_precise

-- to_quote_unit is the same function
unfoldable pub to_base_unit : Reading → ℤ → Outcome UnitsError ℤ
unfolding validate_decimals to_decimal scaled whole
to_base_unit amount decimals = do
  places ← validate_decimals decimals
  decimal_amount ← to_decimal amount
  whole decimal_amount (scaled decimal_amount places)

unfoldable pub is_negative : ℤ → Bool
is_negative (pos n) = false
is_negative (negsuc n) = true

-- abs(n)
unfoldable pub magnitude : ℤ → ℕ
magnitude (pos n) = n
magnitude (negsuc n) = suc n

-- the exponent -k
unfoldable pub minus : ℕ → ℤ
minus zero = pos 0
minus (suc k) = negsuc k

-- The quotient of n by 10 ** k, with the trailing zeros that the division drops.
unfoldable pub reduce : ℕ → ℕ → ℕ × ℕ
reduce zero n = (n, 0)
reduce (suc k) n = let rest = reduce k (n / 10) in if n % 10 == 0 then rest else (n, suc k)

unfoldable pub quotient : ℤ → ℕ → Decimal
unfolding is_negative magnitude minus reduce
quotient amount decimals =
    let (coefficient, places) = reduce decimals (magnitude amount) in
    record { negative = is_negative amount; coefficient = coefficient; exponent = minus places }

-- from_quote_unit is the same function
unfoldable pub from_base_unit : ℤ → ℤ → Outcome UnitsError Decimal
unfolding validate_decimals quotient
from_base_unit amount decimals = do
  places ← validate_decimals decimals
  returned (quotient amount places)
