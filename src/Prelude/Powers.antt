-- ===== src/Prelude/Powers.antt =====
-- Powers of native numbers.
use Prim.Native.Nat.{ℕ, zero, suc, ◌+◌, ◌*◌, ◌^◌}
use mathlib.Core.Path.{◌≡◌}
use native.Mathlib.Omega.{arith}
use native.Mathlib.Nat.{add-zero, mul_assoc, pow-zero, pow-suc}

pub pow_add : (x m n : ℕ) → x ^ (m + n) ≡ x ^ m * x ^ n
pow_add x m zero = rw (add-zero m, pow-zero x) (omega arith)
pow_add x m (suc n) =
    let e : m + suc n ≡ suc (m + n) = omega arith in
    rw (e, pow-suc x (m + n), pow-suc x n) (rw (pow_add x m n) (mul_assoc (x ^ m) (x ^ n) x))
