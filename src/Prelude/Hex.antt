-- ===== src/Prelude/Hex.antt =====
-- Printed hexadecimal digits: they are read back, and strip leaves them alone.
use Prim.Native.Nat.{ℕ, suc, ◌+◌, ◌*◌, ◌/◌, ◌%◌, ◌≤◌, ◌<◌}
use mathlib.Core.Path.{◌≡◌, refl, subst}
use mathlib.Core.Bool.{false}
use mathlib.Core.Logic.{inl, inr}
use mathlib.Core.Option.{Option, none, some}
use mathlib.Core.List.{[], ◌∷◌}
use native.Mathlib.Omega.{arith}
use deepx_python_sdk.Prelude.Tests.{Bool-cases}
use deepx_python_sdk.Prelude.Lists.{length, All}
use deepx_python_sdk.Prelude.Texts.{
  Text, Bytes, is_space, lstrip, put_back, rstrip, strip, hex_digit, is_gap, hex_byte,
  from_hex_after, from_hex, to_digit, to_hex,
}

abbrev pub IsByte : ℕ → Type 0
IsByte b = b < 256

abbrev pub IsDark : ℕ → Type 0
IsDark c = is_space c ≡ false

hex_digit-to_digit : (n : ℕ) → n < 16 → hex_digit (to_digit n) ≡ some n
unfolding hex_digit to_digit
hex_digit-to_digit n h = ground arith

to_digit_no_gap : (n : ℕ) → n < 16 → is_gap (to_digit n) ≡ false
unfolding is_gap to_digit
to_digit_no_gap n h = ground arith

to_digit-IsDark : (n : ℕ) → n < 16 → IsDark (to_digit n)
unfolding is_space to_digit
to_digit-IsDark n h = ground arith

from_hex_byte :
    (h l : ℕ) (s : Text)
    → h < 16
    → l < 16
    → from_hex (to_digit h ∷ to_digit l ∷ s) ≡ hex_byte (some h) (some l) (from_hex s)
unfolding from_hex from_hex_after
from_hex_byte h l s hh hl =
    rw (to_digit_no_gap h hh, hex_digit-to_digit h hh, hex_digit-to_digit l hl) refl

joined : (b : ℕ) → b / 16 * 16 + b % 16 ≡ b
joined b = omega arith

-- bytes.fromhex reads back what bytes.hex prints.
pub from_hex-to_hex : (bs : Bytes) → All IsByte bs → from_hex (to_hex bs) ≡ some bs
unfolding to_hex hex_byte from_hex from_hex_after
from_hex-to_hex [] h = refl
from_hex-to_hex (b ∷ bs) (hb, hbs) =
    rw (from_hex_byte (b / 16) (b % 16) (to_hex bs) (omega arith) (omega arith))
      (rw (from_hex-to_hex bs hbs) (rw (joined b) refl))

pub length-to_hex : (bs : Bytes) → length (to_hex bs) ≡ 2 * length bs
unfolding to_hex
length-to_hex [] = omega arith
length-to_hex (b ∷ bs) = omega (arith, length-to_hex bs)

pub to_hex-IsDark : (bs : Bytes) → All IsByte bs → All IsDark (to_hex bs)
unfolding to_hex
to_hex-IsDark [] h = tt
to_hex-IsDark (b ∷ bs) (hb, hbs) = (
  to_digit-IsDark (b / 16) (omega arith),
  (to_digit-IsDark (b % 16) (omega arith), to_hex-IsDark bs hbs),
)

put_back_dark : (c : ℕ) (s : Text) → IsDark c → put_back c s ≡ c ∷ s
unfolding put_back
put_back_dark c [] h = rw h refl
put_back_dark c (d ∷ s) h = refl

rstrip_dark : (s : Text) → All IsDark s → rstrip s ≡ s
unfolding rstrip
rstrip_dark [] h = refl
rstrip_dark (c ∷ s) (hc, hs) = rw (rstrip_dark s hs) (put_back_dark c s hc)

lstrip_dark : (s : Text) → All IsDark s → lstrip s ≡ s
unfolding lstrip
lstrip_dark [] h = refl
lstrip_dark (c ∷ s) (hc, hs) = rw hc refl

-- str.strip leaves a text without whitespace alone.
pub strip_dark : (s : Text) → All IsDark s → strip s ≡ s
unfolding strip
strip_dark s h = rw (lstrip_dark s h) (rstrip_dark s h)

hex_digit-lt : (c n : ℕ) → hex_digit c ≡ some n → n < 16
unfolding hex_digit
hex_digit-lt c n h = ground arith

-- how many digits a pending one counts for
abbrev held : Option ℕ → ℕ
held none = 0
held (some d) = 1

hex_byte_inv :
    (h l : Option ℕ) (rest : Option Bytes) (bs : Bytes)
    → hex_byte h l rest ≡ some bs
    → (x : ℕ) × (y : ℕ) × (tail : Bytes) × (h ≡ some x)
      × (l ≡ some y)
      × (rest ≡ some tail)
      × ((x * 16 + y) ∷ tail ≡ bs)
unfolding hex_byte
hex_byte_inv (some x) (some y) (some tail) bs e = (x, y, tail, refl, refl, refl, ground arith)
hex_byte_inv (some x) (some y) none bs e = cc
hex_byte_inv (some x) none rest bs e = cc
hex_byte_inv none l rest bs e = cc

-- bytes read from `n` digits
abbrev ReadFrom : ℕ → Bytes → Type 0
ReadFrom n bs = (2 * length bs ≤ n) × All IsByte bs

read_less : (n m : ℕ) (bs : Bytes) → n ≤ m → ReadFrom n bs → ReadFrom m bs
read_less n m bs l (h, k) = (omega arith, k)

read_more :
    (n x y : ℕ) (tail : Bytes)
    → x < 16
    → y < 16
    → ReadFrom n tail
    → ReadFrom (suc (suc n)) ((x * 16 + y) ∷ tail)
read_more n x y tail hx hy (h, k) = (omega arith, (omega arith, k))

from_hex_after_bounds :
    (p : Option ℕ) (s : Text) (bs : Bytes)
    → from_hex_after p s ≡ some bs
    → ReadFrom (held p + length s) bs
unfolding from_hex_after
from_hex_after_bounds none [] bs e =
    let q : [] ≡ bs = cc e in subst (ReadFrom 0) q (omega arith, tt)
from_hex_after_bounds (some h) [] bs e = absurd (cc e)
from_hex_after_bounds none (c ∷ s) bs e = elim (Bool-cases (is_gap c)) [
  | inl g ↦
      read_less (0 + length s) (0 + length (c ∷ s)) bs (omega arith)
        (from_hex_after_bounds none s bs (rw g at e))
  | inr g ↦
      read_less (1 + length s) (0 + length (c ∷ s)) bs (omega arith)
        (from_hex_after_bounds (some c) s bs (rw g at e))
]
from_hex_after_bounds (some h) (c ∷ s) bs e =
    let (x, y, tail, dx, dy, r, whole) =
      hex_byte_inv (hex_digit h) (hex_digit c) (from_hex_after none s) bs e in
    subst (ReadFrom (1 + length (c ∷ s))) whole (
      read_less (suc (suc (0 + length s))) (1 + length (c ∷ s)) ((x * 16 + y) ∷ tail) (omega arith)
        (read_more (0 + length s) x y tail (hex_digit-lt h x dx) (hex_digit-lt c y dy)
          (from_hex_after_bounds none s tail r)))

-- What bytes.fromhex reads are bytes, at most one for two characters.
pub from_hex_bounds :
    (s : Text) (bs : Bytes) → from_hex s ≡ some bs → (2 * length bs ≤ length s) × All IsByte bs
unfolding from_hex
from_hex_bounds s bs e =
    read_less (0 + length s) (length s) bs (omega arith) (from_hex_after_bounds none s bs e)
