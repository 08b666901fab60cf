-- ===== src/Scale/Bytes.antt =====
-- src/deepx_sdk/_native_py.py: little-endian bytes, and where a slice of a longer buffer lies.
use deepx_python_sdk.Prelude.{
  ℕ, zero, suc, ◌+◌, ◌-◌, ◌*◌, ◌/◌, ◌^◌, ◌≤◌, ◌<◌, ◌≡◌, refl, List, [], ◌∷◌, ◌++◌, length, take,
  drop, All, arith,
}
use native.Mathlib.Nat.{pow-suc, pow-le-pow_right}
use native.Mathlib.Numerals.{towards_suc}
use native.Mathlib.Decide.{dec_le}
use deepx_python_sdk.Scale.{to_bytes, from_bytes, bits, bit_length}

pub length-to_bytes : (k v : ℕ) → length (to_bytes k v) ≡ k
unfolding to_bytes
length-to_bytes zero v = refl
length-to_bytes (suc k) v = omega (arith, length-to_bytes k (v / 256))

pub from_bytes-to_bytes : (k v : ℕ) → v < 256 ^ k → from_bytes (to_bytes k v) ≡ v
unfolding to_bytes from_bytes
from_bytes-to_bytes zero v h = omega arith
from_bytes-to_bytes (suc k) v h =
    let low = rw pow-suc at h in omega (arith, from_bytes-to_bytes k (v / 256) (omega arith))

from_bytes-zeros : (k : ℕ) → from_bytes (to_bytes k 0) ≡ 0
unfolding to_bytes from_bytes
from_bytes-zeros zero = refl
from_bytes-zeros (suc k) = omega (arith, from_bytes-zeros k)

pub from_bytes-append_zeros :
    (xs : List ℕ) (k : ℕ) → from_bytes (xs ++ to_bytes k 0) ≡ from_bytes xs
unfolding from_bytes
from_bytes-append_zeros [] k = from_bytes-zeros k
from_bytes-append_zeros (x ∷ xs) k = omega (arith, from_bytes-append_zeros xs k)

pub to_bytes-IsByte : (k v : ℕ) → All (λ b. b < 256) (to_bytes k v)
unfolding to_bytes
to_bytes-IsByte zero v = tt
to_bytes-IsByte (suc k) v = (omega arith, to_bytes-IsByte k (v / 256))

-- v < 2 ^ (bit_length v)
lt-bits : (f v : ℕ) → v ≤ f → v < 2 ^ bits f v
unfolding bits
lt-bits zero v h = omega arith
lt-bits (suc f) v h = ground (arith, pow-suc 2 (bits f (v / 2)), lt-bits f (v / 2))

-- bit_length v ≤ 32 when v < 2 ^ 32
pub bits-le : (k f v : ℕ) → v < 2 ^ k → bits f v ≤ k
unfolding bits
bits-le k zero v h = omega arith
bits-le zero (suc f) v h = ground arith
bits-le (suc k) (suc f) v h = ground (arith, pow-suc 2 k, bits-le k f (v / 2))

eight_more : (b : ℕ) → 2 ^ (b + 8) ≡ 256 * 2 ^ b
eight_more b = simp towards_suc (omega arith)

two_pow_le : (k b : ℕ) → b ≤ 8 * k → 2 ^ b ≤ 256 ^ k
two_pow_le zero zero h = omega arith
two_pow_le zero (suc b) h = absurd (omega arith)
two_pow_le (suc k) b h = elim (dec_le b 8) [
  | yes small ↦ omega (
    arith,
    pow-le-pow_right {n = 2} (omega arith) small,
    two_pow_le k 0 (omega arith),
    pow-suc 256 k,
  )
  | no big ↦
      let split : b ≡ (b - 8) + 8 = omega arith in
      let below = two_pow_le k (b - 8) (omega arith) in
      rw split (omega (arith, below, eight_more (b - 8), pow-suc 256 k))
]

-- the width that `encode_big` takes is enough for the value
pub lt-width : (v : ℕ) → v < 256 ^ ((bit_length v + 7) / 8)
unfolding bit_length
lt-width v =
    omega
      (arith, lt-bits v v (omega arith), two_pow_le ((bits v v + 7) / 8) (bits v v) (omega arith))

pub drop-append {ℓ} : {A : Type ℓ} (xs ys : List A) → drop (length xs) (xs ++ ys) ≡ ys
drop-append [] ys = refl
drop-append (x ∷ xs) ys = drop-append xs ys

pub take-append {ℓ} : {A : Type ℓ} (xs ys : List A) → take (length xs) (xs ++ ys) ≡ xs
take-append [] ys = refl
take-append (x ∷ xs) ys = rw (take-append xs ys)
