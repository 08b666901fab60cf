-- ===== src/Witnesses/Numbers.antt =====
-- src/deepx_sdk/_native_py.py and _async_encoder.py on concrete numbers.
use deepx_python_sdk.Prelude.{
  ℕ, ◌≡◌, ◌≤◌, ◌<◌, ◌+◌, ◌^◌, refl, true, false, if◌then◌else◌, ltb, String, some, List, [], ◌∷◌,
  ◌++◌, ◌==◌, length, returned, raised, pos, arith,
}
use deepx_python_sdk.Scale.{encode_compact_u32, decode_compact_u32, does_not_fit}
use deepx_python_sdk.Scale.RoundTrip.{decode-encode}
use deepx_python_sdk.Scale.Combine.{
  combine_events_map_batches, combine-Batches, Batches, none_left, batch, IsBatch,
}
use deepx_python_sdk.Nonce.{
  Allocator, new_allocator, next, reserve, release, contains, distance, window_ms, first_candidate,
}
use deepx_python_sdk.Nonce.Search.{After, next_total}
use deepx_python_sdk.Nonce.Order.{
  free, perform_all, Passed, next_increasing, reserve_exact, release-reserve,
}

abbrev front : List ℕ
front = 9 ∷ []

abbrev two_bytes : List ℕ
two_bytes = 161 ∷ 15 ∷ []

encoded_1000 : encode_compact_u32 (pos 1000) ≡ returned two_bytes
unfolding encode_compact_u32 deepx_python_sdk.Scale.to_bytes
encoded_1000 = refl

decode-encode_example :
    decode_compact_u32 (front ++ (two_bytes ++ (4 ∷ []))) (pos (length front)) ≡ (
      if ltb 1000 (2 ^ 32)
      then returned (1000, length front + length two_bytes)
      else raised does_not_fit)
decode-encode_example = decode-encode 1000 front two_bytes (4 ∷ []) encoded_1000

abbrev two_batches : String → List ℕ
two_batches s = 4 ∷ 7 ∷ []

one-IsBatch : (s : String) → IsBatch two_batches s 1 (7 ∷ [])
one-IsBatch s = record {
  prefix = 4 ∷ [];
  encoded = unfold encode_compact_u32 in refl;
  bytes = refl;
}

stored : Batches two_batches ("a" ∷ "b" ∷ []) 2 (7 ∷ 7 ∷ [])
stored =
    batch (one-IsBatch "a") (omega arith)
      (batch (one-IsBatch "b") (omega arith) none_left {k = 1} refl {r = 7 ∷ []} refl) refl refl

combine-Batches_example :
    (bytes : List ℕ) × (combine_events_map_batches two_batches ("a" ∷ "b" ∷ [])
      ≡ returned (bytes ++ (7 ∷ 7 ∷ [])))
    × (decode_compact_u32 (bytes ++ (7 ∷ 7 ∷ [])) (pos 0) ≡ returned (2, length bytes))
combine-Batches_example =
    combine-Batches two_batches ("a" ∷ "b" ∷ []) 2 (7 ∷ 7 ∷ []) stored (omega arith)

abbrev busy : Allocator
busy = record { high_water_mark = some 5; reserved = 6 ∷ 5 ∷ [] }

next_total_example :
    (n : ℕ) × (b : Allocator) × (next 3 busy ≡ some (n, b))
    × (contains n busy.reserved ≡ false)
    × (3 ≤ n)
    × After busy.high_water_mark n
    × (b.high_water_mark ≡ some n)
    × ((k : ℕ) → contains k b.reserved ≡ (if n == k then true else contains k busy.reserved))
next_total_example = next_total 3 busy

abbrev after_seven : Allocator
after_seven = record { high_water_mark = some 7; reserved = 7 ∷ 6 ∷ 5 ∷ [] }

first_next : next 3 busy ≡ some (7, after_seven)
unfolding next
first_next = refl

second_next :
    next 2 (perform_all (free (pos 7) ∷ []) after_seven)
    ≡ some (8, record { high_water_mark = some 8; reserved = 8 ∷ 6 ∷ 5 ∷ [] })
unfolding next perform_all release deepx_python_sdk.Nonce.Order.perform
second_next = refl

next_increasing_example : 7 < 8
next_increasing_example = next_increasing 3 2 busy (free (pos 7) ∷ []) first_next second_next

four_reserved : (reserve (pos 4) 3 busy).0 ≡ returned 4
unfolding reserve
four_reserved = refl
