-- ===== src/Scale.antt =====
-- src/deepx_sdk/_native_py.py: SCALE integers. A bytes object is a list of numbers below 256, and
-- an int that may be negative is a ℤ. `x << 2` is `x * 4`, so the bits that are put in by `|` are
-- added; `x & 3` is `x % 4` and `x >> 2` is `x / 4`.
pub mod Bytes
pub mod RoundTrip
pub mod Combine
use deepx_python_sdk.Prelude.{
  ℕ, zero, suc, ◌+◌, ◌-◌, ◌*◌, ◌/◌, ◌%◌, ◌^◌, Bool, true, false, List, [], ◌∷◌, ◌++◌, ltb, leb,
  ◌==◌, if◌then◌else◌, length, take, drop, Outcome, returned, raised, ℤ, pos, negsuc,
}

pub data ScaleError : Type 0 where
  invalid_width invalid_compact compact_too_large out_of_range : ScaleError
  requires_two requires_four big_out_of_range does_not_fit : ScaleError

-- int.to_bytes(k, "little") of a value that fits
unfoldable pub to_bytes : ℕ → ℕ → List ℕ
to_bytes zero v = []
to_bytes (suc k) v = (v % 256) ∷ to_bytes k (v / 256)

-- int.from_bytes(_, "little")
unfoldable pub from_bytes : List ℕ → ℕ
from_bytes [] = 0
from_bytes (b ∷ bs) = b + 256 * from_bytes bs

-- the rounds of int.bit_length, at most as many as the number
unfoldable pub bits : ℕ → ℕ → ℕ
bits zero v = 0
bits (suc f) v = elim (v == 0) [ true ↦ 0 | false ↦ suc (bits f (v / 2)) ]

unfoldable pub bit_length : ℕ → ℕ
unfolding bits
bit_length v = bits v v

-- _u8_scale, _u32_scale and _u64_scale, at the width in bytes
unfoldable pub fixed_scale : ℕ → ℤ → Outcome ScaleError (List ℕ)
fixed_scale width (negsuc n) = raised invalid_width
fixed_scale width (pos v) =
    if ltb (256 ^ width - 1) v then raised invalid_width else returned (to_bytes width v)

unfoldable pub u8_scale : ℤ → Outcome ScaleError (List ℕ)
unfolding fixed_scale
u8_scale v = fixed_scale 1 v

unfoldable pub u32_scale : ℤ → Outcome ScaleError (List ℕ)
unfolding fixed_scale
u32_scale v = fixed_scale 4 v

unfoldable pub u64_scale : ℤ → Outcome ScaleError (List ℕ)
unfolding fixed_scale
u64_scale v = fixed_scale 8 v

-- raw + b"\x00" * (4 - len(raw))
unfoldable pub pad_four : List ℕ → List ℕ
pad_four raw = if ltb (length raw) 4 then raw ++ to_bytes (4 - length raw) 0 else raw

-- the big-integer mode of `_encode_compact_u32`
unfoldable pub encode_big : ℕ → Outcome ScaleError (List ℕ)
unfolding pad_four
encode_big v =
    let raw = pad_four (to_bytes ((bit_length v + 7) / 8) v) in
    if ltb 67 (length raw)
    then raised compact_too_large
    else returned (((length raw - 4) * 4 + 3) ∷ raw)

-- _encode_compact_u32
unfoldable pub encode_compact_u32 : ℤ → Outcome ScaleError (List ℕ)
encode_compact_u32 (negsuc n) = raised invalid_compact
encode_compact_u32 (pos v) =
    if ltb v (2 ^ 6)
    then returned ((v * 4) ∷ [])
    else if ltb v (2 ^ 14)
    then returned (to_bytes 2 (v * 4 + 1))
    else if ltb v (2 ^ 30)
    then returned (to_bytes 4 (v * 4 + 2))
    else encode_big v

-- data[start:start + count]
unfoldable pub slice : List ℕ → ℕ → ℕ → List ℕ
slice bytes start count = take count (drop start bytes)

-- the modes of `_decode_compact_u32`, at the first byte
unfoldable pub decode_mode : List ℕ → ℕ → ℕ → Outcome ScaleError (ℕ × ℕ)
unfolding slice
decode_mode bytes offset first =
    let len : ℕ = length bytes in
    if first % 4 == 0
    then returned (first / 4, offset + 1)
    else if first % 4 == 1
    then (if leb len (offset + 1)
        then raised requires_two
        else returned (from_bytes (slice bytes offset 2) / 4, offset + 2))
    else if first % 4 == 2
    then (if leb len (offset + 3)
        then raised requires_four
        else returned (from_bytes (slice bytes offset 4) / 4, offset + 4))
    else (let byte_len : ℕ = first / 4 + 4 in
        let stop : ℕ = offset + 1 + byte_len in
        let value : ℕ = from_bytes (slice bytes (offset + 1) byte_len) in
        if ltb len stop
        then raised big_out_of_range
        else if ltb 0xffffffff value
        then raised does_not_fit
        else returned (value, stop))

-- _decode_compact_u32
unfoldable pub decode_compact_u32 : List ℕ → ℤ → Outcome ScaleError (ℕ × ℕ)
decode_compact_u32 bytes (negsuc n) = raised out_of_range
decode_compact_u32 bytes (pos offset) = elim (drop offset bytes) [
  | [] ↦ raised out_of_range
  | first ∷ tail ↦ decode_mode bytes offset first
]
