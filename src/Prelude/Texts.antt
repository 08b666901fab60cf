-- ===== src/Prelude/Texts.antt =====
-- Python's str as the list of its code points, bytes as a list of numbers, and the methods of both
-- that the code calls.
use Prim.Native.Char.{code}
use Prim.Native.Nat.{ℕ, ◌+◌, ◌-◌, ◌*◌, ◌/◌, ◌%◌}
use Prim.Native.String.{String}
use mathlib.Core.Bool.{Bool, true, false, ◌&&◌, ◌||◌}
use mathlib.Core.Option.{Option, none, some}
use mathlib.Core.List.{List, [], ◌∷◌}
use deepx_python_sdk.Prelude.Tests.{ltb, leb, ◌==◌, if◌then◌else◌}

abbrev pub Text : Type 0
Text = List ℕ

abbrev pub Bytes : Type 0
Bytes = List ℕ

abbrev pub codes : String → Text
codes String.[] = []
codes (String.◌∷◌ c s) = code c ∷ codes s

-- c.isspace(), for the characters that str.strip removes
unfoldable pub is_space : ℕ → Bool
is_space c =
    (leb 9 c && leb c 13)
    || (leb 28 c && leb c 32)
    || (c == 133)
    || (c == 160)
    || (c == 5760)
    || (leb 8192 c && leb c 8202)
    || (c == 8232)
    || (c == 8233)
    || (c == 8239)
    || (c == 8287)
    || (c == 12288)

unfoldable pub lstrip : Text → Text
unfolding is_space
lstrip [] = []
lstrip (c ∷ s) = let rest = lstrip s in if is_space c then rest else c ∷ s

unfoldable pub put_back : ℕ → Text → Text
unfolding is_space
put_back c [] = if is_space c then [] else c ∷ []
put_back c (d ∷ s) = c ∷ d ∷ s

unfoldable pub rstrip : Text → Text
unfolding put_back
rstrip [] = []
rstrip (c ∷ s) = put_back c (rstrip s)

-- s.strip()
unfoldable pub strip : Text → Text
unfolding lstrip rstrip
strip s = rstrip (lstrip s)

-- s.startswith(p)
unfoldable pub starts_with : Text → Text → Bool
starts_with [] s = true
starts_with (c ∷ p) [] = false
starts_with (c ∷ p) (d ∷ s) = (c == d) && starts_with p s

unfoldable pub hex_digit : ℕ → Option ℕ
hex_digit c =
    if leb b'0' c && leb c b'9'
    then some (c - b'0')
    else if leb b'a' c && leb c b'f'
    then some (c - b'a' + 10)
    else if leb b'A' c && leb c b'F'
    then some (c - b'A' + 10)
    else none

-- the ASCII whitespace that bytes.fromhex skips between two bytes
unfoldable pub is_gap : ℕ → Bool
is_gap c = (leb 9 c && leb c 13) || (c == 32)

unfoldable pub hex_byte : Option ℕ → Option ℕ → Option Bytes → Option Bytes
hex_byte (some h) (some l) (some bs) = some ((h * 16 + l) ∷ bs)
hex_byte (some h) (some l) none = none
hex_byte (some h) none rest = none
hex_byte none l rest = none

-- bytes.fromhex(s); `none` stands for its ValueError. The first argument is the digit read of a
-- byte that is not complete.
unfoldable pub from_hex_after : Option ℕ → Text → Option Bytes
unfolding hex_digit is_gap hex_byte
from_hex_after none [] = some []
from_hex_after (some h) [] = none
from_hex_after none (c ∷ s) =
    let skipped = from_hex_after none s in
    let opened = from_hex_after (some c) s in if is_gap c then skipped else opened
from_hex_after (some h) (c ∷ s) = hex_byte (hex_digit h) (hex_digit c) (from_hex_after none s)

unfoldable pub from_hex : Text → Option Bytes
unfolding from_hex_after
from_hex s = from_hex_after none s

-- b.hex()
unfoldable pub to_digit : ℕ → ℕ
to_digit n = if ltb n 10 then b'0' + n else b'a' + (n - 10)

unfoldable pub to_hex : Bytes → Text
unfolding to_digit
to_hex [] = []
to_hex (b ∷ bs) = to_digit (b / 16) ∷ to_digit (b % 16) ∷ to_hex bs
