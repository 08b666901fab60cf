-- ===== src/Units/Exact.antt =====
-- src/deepx_sdk/units.py: the conversions against exact arithmetic on whole numbers.
use deepx_python_sdk.Prelude.{
  ℕ, zero, suc, ◌*◌, ◌/◌, ◌%◌, ◌^◌, ◌<◌, ◌≡◌, ◌↔◌, refl, sym, ap, inl, inr, Bool, true, false,
  Bool-cases, returned, arith, ◌==◌, ℤ, pos, negsuc, ==_iff,
}
use deepx_python_sdk.Units.Numbers.{
  Decimal, finite, ◌>>=◌, half_even, integral_value, is_integral, signed, whole, scaled,
  to_base_unit, is_negative, magnitude, minus, reduce, quotient, from_base_unit,
}
use mathlib.Core.Path.{subst, ◌≡⟨◌⟩◌, ◌∎}
use native.Mathlib.Nat.{mul-div_cancel, mul-mod_left, one-le-pow, mul_assoc, pow-suc}

-- n is x · 10 ^ e
abbrev pub SameValue : ℕ → ℤ → ℕ → Type 0
SameValue x (pos e) n = n ≡ x * 10 ^ e
SameValue x (negsuc e) n = n * 10 ^ suc e ≡ x

power_pos : (e : ℕ) → 0 < 10 ^ e
power_pos e = omega (arith, one-le-pow e 10 (omega arith))

half_even_mul : (n m : ℕ) → 0 < m → half_even (n * m) m ≡ n
unfolding half_even
half_even_mul n m h = rw (mul-div_cancel n h, mul-mod_left n m) (ground arith)

integral_lem :
    (x : ℕ) (e : ℤ) (n : ℕ) → SameValue x e n → (is_integral x e ≡ true) × (integral_value x e ≡ n)
unfolding is_integral integral_value
integral_lem x (pos e) n h = (refl, sym h)
integral_lem x (negsuc e) n h =
    let q = half_even_mul n (10 ^ suc e) (power_pos (suc e)) in
    rw (← h) (rw q ((==_iff (n * 10 ^ suc e) (n * 10 ^ suc e)).1 refl, refl))

integral_value-SameValue :
    (x : ℕ) (e : ℤ) → is_integral x e ≡ true → SameValue x e (integral_value x e)
unfolding is_integral integral_value
integral_value-SameValue x (pos e) h = refl
integral_value-SameValue x (negsuc e) h = (==_iff _ x).0 h

magnitude-signed : (b : Bool) (n : ℕ) → magnitude (signed b n) ≡ n
unfolding magnitude signed
magnitude-signed true zero = refl
magnitude-signed true (suc n) = refl
magnitude-signed false n = refl

signed-magnitude : (n : ℤ) → signed (is_negative n) (magnitude n) ≡ n
unfolding magnitude signed is_negative
signed-magnitude (pos n) = refl
signed-magnitude (negsuc n) = refl

-- r is d · 10 ^ k
abbrev pub IsAmount : Decimal → ℕ → ℤ → Type 0
IsAmount d k r =
    (r ≡ signed d.negative (magnitude r))
    × SameValue (d.coefficient * 10 ^ k) d.exponent (magnitude r)

is_amount : (d : Decimal) (k : ℕ) (r : ℤ) → whole d (scaled d k) ≡ returned r → IsAmount d k r
unfolding whole scaled
is_amount d k r h =
    let x = d.coefficient * 10 ^ k in
    let n = integral_value x d.exponent in
    elim (Bool-cases (is_integral x d.exponent)) [
      | inl i ↦
          let q : signed d.negative n ≡ r = cc (rw i at h) in
          subst (IsAmount d k) q
            (rw (magnitude-signed d.negative n) (refl, integral_value-SameValue x d.exponent i))
      | inr i ↦ absurd (cc (rw i at h))
    ]

amount_is : (d : Decimal) (k : ℕ) (r : ℤ) → IsAmount d k r → whole d (scaled d k) ≡ returned r
unfolding whole scaled
amount_is d k r (s, v) =
    let (i, n) = integral_lem (d.coefficient * 10 ^ k) d.exponent (magnitude r) v in
    rw (i, n) (ap returned (sym s))

-- A finite amount d is converted to r base units of k decimals exactly when r is d · 10 ^ k, with no
-- rounding.
pub to_base_unit_exact :
    (d : Decimal) (k : ℕ) (r : ℤ) → (to_base_unit (finite d) (pos k) ≡ returned r) ↔ IsAmount d k r
unfolding to_base_unit
to_base_unit_exact d k r = (is_amount d k r, amount_is d k r)

shift : (c p n q : ℕ) → n / 10 * 10 ≡ n → c * p ≡ n / 10 * q → c * (p * 10) ≡ n * q
shift c p n q e h =
    c * (p * 10)
    ≡⟨ sym (mul_assoc c p 10) ⟩ c * p * 10
    ≡⟨ ap (λ x. x * 10) h ⟩ n / 10 * q * 10
    ≡⟨ grind arith ⟩ n / 10 * 10 * q
    ≡⟨ ap (λ x. x * q) e ⟩ n * q ∎

reduce_value : (k n : ℕ) → (reduce k n).0 * 10 ^ k ≡ n * 10 ^ (reduce k n).1
unfolding reduce
reduce_value zero n = refl
reduce_value (suc k) n = elim (Bool-cases (n % 10 == 0)) [
  | inl e ↦
      rw (e, pow-suc 10 k)
        (shift (reduce k (n / 10)).0 (10 ^ k) n (10 ^ (reduce k (n / 10)).1) (ground (arith, e))
          (reduce_value k (n / 10)))
  | inr e ↦ rw e refl
]

minus_value : (x p n : ℕ) → x ≡ n * 10 ^ p → SameValue x (minus p) n
unfolding minus
minus_value x zero n h = omega (arith, h)
minus_value x (suc p) n h = sym h

-- An amount in base units, converted to a decimal and back with the same number of decimals, is the
-- same.
pub to_base_unit-from_base_unit :
    (n : ℤ) (k : ℕ)
    → (from_base_unit n (pos k) >>= λ d. to_base_unit (finite d) (pos k)) ≡ returned n
unfolding from_base_unit
to_base_unit-from_base_unit n k = (to_base_unit_exact (quotient n k) k n).1 (
  sym (signed-magnitude n),
  minus_value ((quotient n k).coefficient * 10 ^ k) (reduce k (magnitude n)).1 (magnitude n)
      (reduce_value k (magnitude n)),
)
