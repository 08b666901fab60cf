-- ===== src/Scale/RoundTrip.antt =====
-- src/deepx_sdk/_native_py.py: `_decode_compact_u32` after `_encode_compact_u32`.
use deepx_python_sdk.Prelude.{
  ℕ, ◌+◌, ◌-◌, ◌*◌, ◌/◌, ◌%◌, ◌^◌, ◌≤◌, ◌<◌, ◌≡◌, ◌∙◌, refl, ap, List, [], ◌∷◌, ◌++◌, ltb, length,
  length-append, arith, returned, raised, pos, inl, inr, if◌then◌else◌, ◌⊎◌,
}
use mathlib.Core.List.{append_assoc}
use deepx_python_sdk.Scale.{
  to_bytes, from_bytes, bit_length, pad_four, encode_big, encode_compact_u32, slice, decode_mode,
  decode_compact_u32, does_not_fit,
}
use deepx_python_sdk.Scale.Bytes.{
  length-to_bytes, from_bytes-to_bytes, from_bytes-append_zeros, lt-width, bits-le, drop-append,
  take-append,
}

-- a slice that covers exactly the middle part of a buffer
slice_middle :
    (front mid back : List ℕ) → slice (front ++ (mid ++ back)) (length front) (length mid) ≡ mid
unfolding slice
slice_middle front mid back = rw drop-append (take-append mid back)

decode_first :
    (front rest : List ℕ) (first : ℕ)
    → decode_compact_u32 (front ++ (first ∷ rest)) (pos (length front))
      ≡ decode_mode (front ++ (first ∷ rest)) (length front) first
unfolding decode_compact_u32
decode_first front rest first = rw (drop-append front (first ∷ rest), decode_compact_u32)

-- the modes of one, two and four bytes
decode_one :
    (v : ℕ) (front back : List ℕ)
    → decode_compact_u32 (front ++ (((v * 4) ∷ []) ++ back)) (pos (length front))
      ≡ returned (v, length front + 1)
decode_one v front back = decode_first front back (v * 4) ∙ (unfold decode_mode in ground arith)

length_around :
    (front mid back : List ℕ)
    → length (front ++ (mid ++ back)) ≡ length front + length mid + length back
length_around front mid back = rw (length-append front, length-append mid) (omega arith)

mode_two :
    (front mid back : List ℕ) (first : ℕ)
    → length mid ≡ 2
    → first % 4 ≡ 1
    → decode_mode (front ++ (mid ++ back)) (length front) first
      ≡ returned (from_bytes mid / 4, length front + 2)
unfolding decode_mode
mode_two front mid back first two mode =
    let middle = rw two at (slice_middle front mid back) in
    ground (arith, middle, length_around front mid back)

mode_four :
    (front mid back : List ℕ) (first : ℕ)
    → length mid ≡ 4
    → first % 4 ≡ 2
    → decode_mode (front ++ (mid ++ back)) (length front) first
      ≡ returned (from_bytes mid / 4, length front + 4)
unfolding decode_mode
mode_four front mid back first four mode =
    let middle = rw four at (slice_middle front mid back) in
    ground (arith, middle, length_around front mid back)

decode_two :
    (v : ℕ) (front back : List ℕ)
    → v < 2 ^ 14
    → decode_compact_u32 (front ++ (to_bytes 2 (v * 4 + 1) ++ back)) (pos (length front))
      ≡ returned (v, length front + 2)
unfolding to_bytes
decode_two v front back h =
    let raw : ℕ = v * 4 + 1 in
    decode_first front (to_bytes 1 (raw / 256) ++ back) (raw % 256)
    ∙ mode_two front (to_bytes 2 raw) back (raw % 256) refl (omega arith)
    ∙ ap (λ n. returned (n / 4, length front + 2)) (from_bytes-to_bytes 2 raw (omega arith))
    ∙ ground arith

decode_four :
    (v : ℕ) (front back : List ℕ)
    → v < 2 ^ 30
    → decode_compact_u32 (front ++ (to_bytes 4 (v * 4 + 2) ++ back)) (pos (length front))
      ≡ returned (v, length front + 4)
unfolding to_bytes
decode_four v front back h =
    let raw : ℕ = v * 4 + 2 in
    decode_first front (to_bytes 3 (raw / 256) ++ back) (raw % 256)
    ∙ mode_four front (to_bytes 4 raw) back (raw % 256) refl (omega arith)
    ∙ ap (λ n. returned (n / 4, length front + 4)) (from_bytes-to_bytes 4 raw (omega arith))
    ∙ ground arith

slice_after :
    (front raw back : List ℕ) (first : ℕ)
    → slice (front ++ ((first ∷ raw) ++ back)) (length front + 1) (length raw) ≡ raw
slice_after front raw back first =
    let middle = slice_middle (front ++ (first ∷ [])) raw back in
    rw (append_assoc, length-append) at middle

-- the big-integer mode, for whatever bytes follow the prefix
decode_big :
    (front raw back : List ℕ)
    → 4 ≤ length raw
    → decode_compact_u32
        (front ++ ((((length raw - 4) * 4 + 3) ∷ raw) ++ back))
        (pos (length front))
      ≡ (if ltb 0xffffffff (from_bytes raw)
          then raised does_not_fit
          else returned (from_bytes raw, length front + 1 + length raw))
unfolding decode_mode
decode_big front raw back h =
    let first : ℕ = (length raw - 4) * 4 + 3 in
    let count : first / 4 + 4 ≡ length raw = omega arith in
    let mode : first % 4 ≡ 3 = omega arith in
    decode_first front (raw ++ back) first
    ∙ rw count (
        ground
          (arith, mode, slice_after front raw back first, length_around front (first ∷ raw) back))

length-pad_four : (raw : List ℕ) → 4 ≤ length (pad_four raw)
unfolding pad_four
length-pad_four raw =
    ground
      (arith, length-append raw (to_bytes (4 - length raw) 0), length-to_bytes (4 - length raw) 0)

from_bytes-pad_four : (raw : List ℕ) → from_bytes (pad_four raw) ≡ from_bytes raw
unfolding pad_four
from_bytes-pad_four raw = ground (arith, from_bytes-append_zeros raw (4 - length raw))

-- the bytes that `encode_big` puts behind its prefix
big_bytes : ℕ → List ℕ
big_bytes v = pad_four (to_bytes ((bit_length v + 7) / 8) v)

from_bytes-big_bytes : (v : ℕ) → from_bytes (big_bytes v) ≡ v
unfolding big_bytes
from_bytes-big_bytes v = from_bytes-pad_four _ ∙ from_bytes-to_bytes _ v (lt-width v)

-- what the encoder returns, by the size of the value
encode_cases :
    (v : ℕ) {bytes : List ℕ}
    → encode_compact_u32 (pos v) ≡ returned bytes
    → (v < 2 ^ 6) × (bytes ≡ (v * 4) ∷ [])
      ⊎ (v < 2 ^ 14) × (bytes ≡ to_bytes 2 (v * 4 + 1))
      ⊎ (v < 2 ^ 30) × (bytes ≡ to_bytes 4 (v * 4 + 2))
      ⊎ (2 ^ 30 ≤ v) × (bytes ≡ ((length (big_bytes v) - 4) * 4 + 3) ∷ big_bytes v)
unfolding encode_compact_u32 encode_big big_bytes
encode_cases v h = ground arith

-- What the decoder reads at the end of any `front` is what the encoder was given, and it stops just
-- behind it, if the value is below 2 ^ 32; a larger value, which the encoder accepts up to 67
-- bytes, is refused by the decoder.
pub decode-encode :
    (v : ℕ) (front bytes back : List ℕ)
    → encode_compact_u32 (pos v) ≡ returned bytes
    → decode_compact_u32 (front ++ (bytes ++ back)) (pos (length front))
      ≡ (if ltb v (2 ^ 32) then returned (v, length front + length bytes) else raised does_not_fit)
decode-encode v front bytes back h = elim (encode_cases v h) [
  | inl (small, e) ↦ rw e (decode_one v front back ∙ ground arith)
  | inr (inl (small, e)) ↦
      rw e (decode_two v front back small ∙ ground (arith, length-to_bytes 2 (v * 4 + 1)))
  | inr (inr (inl (small, e))) ↦
      rw e (decode_four v front back small ∙ ground (arith, length-to_bytes 4 (v * 4 + 2)))
  | inr (inr (inr (large, e))) ↦ rw e (
      decode_big front (big_bytes v) back (unfold big_bytes in length-pad_four _)
      ∙ rw from_bytes-big_bytes (ground arith))
]

length-big_bytes : (v : ℕ) → v < 2 ^ 32 → length (big_bytes v) ≤ 4
unfolding big_bytes pad_four bit_length
length-big_bytes v h =
    let width : ℕ = (bit_length v + 7) / 8 in
    let raw = to_bytes width v in
    ground (
      arith,
      bits-le 32 v v h,
      length-to_bytes width v,
      length-append raw (to_bytes (4 - length raw) 0),
      length-to_bytes (4 - length raw) 0,
    )

encoded : ℕ → List ℕ
encoded v =
    if ltb v (2 ^ 6)
    then (v * 4) ∷ []
    else if ltb v (2 ^ 14)
    then to_bytes 2 (v * 4 + 1)
    else if ltb v (2 ^ 30)
    then to_bytes 4 (v * 4 + 2)
    else ((length (big_bytes v) - 4) * 4 + 3) ∷ big_bytes v

-- The encoder accepts every value below 2 ^ 32, in at most five bytes.
pub encode_total :
    (v : ℕ)
    → v < 2 ^ 32
    → (bytes : List ℕ) × (encode_compact_u32 (pos v) ≡ returned bytes) × (length bytes ≤ 5)
unfolding encode_compact_u32 encode_big encoded
encode_total v h =
    let fits = length-big_bytes v h in
    (
      encoded v,
      unfold big_bytes in ground (arith, fits),
      ground (arith, fits, length-to_bytes 2 (v * 4 + 1), length-to_bytes 4 (v * 4 + 2)),
    )
