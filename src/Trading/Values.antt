-- ===== src/Trading/Values.antt =====
-- src/deepx_sdk/_perp_market.py and _spot_market.py: _parse_int_value, which both files have in the
-- same words, with int on texts of ASCII digits.
use Prim.Native.Nat.{bit_or, bit_and, bit_xor}
use deepx_python_sdk.Prelude.{
  ℕ, zero, suc, ◌+◌, ◌-◌, ◌*◌, ◌^◌, String, Bool, true, false, ◌&&◌, ◌||◌, Option, none, some, List,
  [], ◌∷◌, Text, codes, ℤ, pos, negsuc, if◌then◌else◌, leb, ltb, ◌==◌, str_eq, length, strip,
  starts_with, drop, hex_digit,
}
use deepx_python_sdk.Trading.Json.{
  Json, null, real, bool, int, str, arr, obj, Items, nil, cons, Fields, end, field,
}

unfoldable pub digit_in : ℕ → Option ℕ → Option ℕ
digit_in base none = none
digit_in base (some d) = if ltb d base then some d else none

-- the digits of int(s, base), with single underscores between them; `last` tells whether a digit
-- stands before
unfoldable pub scan : ℕ → ℕ → Bool → Text → Option ℕ
unfolding digit_in hex_digit
scan base acc last [] = if last then some acc else none
scan base acc last (c ∷ s) =
    let skip = scan base acc false s in
    let step = λ (d : ℕ). scan base (acc * base + d) true s in
    if c == b'_'
    then (if last then skip else none)
    else elim (digit_in base (hex_digit c)) [ none ↦ none | some d ↦ step d ]

unfoldable pub positive : Option ℕ → Option ℤ
positive none = none
positive (some n) = some (pos n)

unfoldable pub negative : Option ℕ → Option ℤ
negative none = none
negative (some zero) = some (pos 0)
negative (some (suc n)) = some (negsuc n)

-- int(s) of a stripped text
unfoldable pub decimal_int : Text → Option ℤ
unfolding scan positive negative
decimal_int [] = none
decimal_int (c ∷ s) =
    if c == b'-'
    then negative (scan 10 0 false s)
    else if c == b'+'
    then positive (scan 10 0 false s)
    else positive (scan 10 0 false (c ∷ s))

-- int("0x" + s, 16), where an underscore may follow the prefix
unfoldable pub hex_int : Text → Option ℤ
unfolding scan positive
hex_int [] = none
hex_int (c ∷ s) =
    if c == b'_' then positive (scan 16 0 false s) else positive (scan 16 0 false (c ∷ s))

unfoldable pub text_int : Text → Option ℤ
unfolding decimal_int hex_int
text_int s =
    let val = strip s in
    if starts_with (codes "0x") val then hex_int (drop 2 val) else decimal_int val

-- a | b
unfoldable pub int_or : ℤ → ℤ → ℤ
int_or (pos a) (pos b) = pos (bit_or a b)
int_or (pos a) (negsuc b) = negsuc (bit_xor b (bit_and a b))
int_or (negsuc a) (pos b) = negsuc (bit_xor a (bit_and a b))
int_or (negsuc a) (negsuc b) = negsuc (bit_and a b)

-- n << k
unfoldable pub shift_left : ℤ → ℕ → ℤ
shift_left (pos n) k = pos (n * 2 ^ k)
shift_left (negsuc n) k = negsuc (suc n * 2 ^ k - 1)

-- the loop over the limbs, from the limb of a number on
unfoldable pub join_limbs : ℕ → ℤ → List ℤ → ℤ
unfolding int_or shift_left
join_limbs i total [] = total
join_limbs i total (limb ∷ items) =
    join_limbs (suc i) (int_or total (shift_left limb (64 * i))) items

unfoldable pub is_byte : ℤ → Bool
is_byte (pos n) = leb n 255
is_byte (negsuc n) = false

unfoldable pub all_bytes : List ℤ → Bool
unfolding is_byte
all_bytes [] = true
all_bytes (v ∷ vs) = is_byte v && all_bytes vs

unfoldable pub byte_of : ℤ → ℕ
byte_of (pos n) = n
byte_of (negsuc n) = 0

-- int.from_bytes(bytes(items), "little")
unfoldable pub from_little : List ℤ → ℕ
unfolding byte_of
from_little [] = 0
from_little (v ∷ vs) = byte_of v + 256 * from_little vs

unfoldable pub from_items : Option (List ℤ) → Option ℤ
unfolding join_limbs all_bytes from_little
from_items none = none
from_items (some []) = none
from_items (some (v ∷ vs)) =
    let items = v ∷ vs in
    some (
      if all_bytes items && ((length items == 16) || (length items == 32))
      then pos (from_little items)
      else join_limbs 0 (pos 0) items)

unfoldable pub more_items : Option ℤ → Option (List ℤ) → Option (List ℤ)
more_items none rest = none
more_items (some v) none = none
more_items (some v) (some vs) = some (v ∷ vs)

unfoldable pub bool_int : Bool → ℤ
bool_int true = pos 1
bool_int false = pos 0

unfoldable pub by_key : Option (Option ℤ) → Option (Option ℤ) → Option ℤ
by_key (some v) values = v
by_key none (some vs) = vs
by_key none none = none

-- `none` stands for the ValueError
unfoldable mutual
  unfolding text_int from_items more_items bool_int by_key

  pub parse_int_value : Json → Option ℤ
  parse_int_value null = none
  parse_int_value real = none
  parse_int_value (bool b) = some (bool_int b)
  parse_int_value (int n) = some n
  parse_int_value (str s) = text_int s
  parse_int_value (arr items) = from_items (parse_items items)
  parse_int_value (obj fs) = by_key (parse_named "value" fs) (parse_named "values" fs)

  pub parse_items : Items → Option (List ℤ)
  parse_items nil = some []
  parse_items (cons v vs) = more_items (parse_int_value v) (parse_items vs)

  -- the value under a key, where it is present
  pub parse_named : String → Fields → Option (Option ℤ)
  parse_named key end = none
  parse_named key (field k v fs) =
      let rest = parse_named key fs in
      let found = parse_int_value v in if str_eq k key then some found else rest
