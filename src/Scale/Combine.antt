-- ===== src/Scale/Combine.antt =====
-- src/deepx_sdk/_native_py.py: `_combine_events_map_batches` joins the event batches of the threads
-- of a block into one. `normalize` stands for `_normalize_events_map_batch_bytes`, which decodes by
-- the node's metadata.
use deepx_python_sdk.Prelude.{
  ℕ, ◌+◌, ◌^◌, ◌<◌, ◌≡◌, ◌∙◌, List, [], ◌∷◌, ◌++◌, length, drop, arith, Outcome, returned, raised,
  pos, String,
}
use mathlib.Core.List.{append-nil, append_assoc}
use native.Mathlib.Nat.{add-zero, zero-add, add_assoc}
use deepx_python_sdk.Scale.{ScaleError, encode_compact_u32, decode_compact_u32}
use deepx_python_sdk.Scale.Bytes.{drop-append}
use deepx_python_sdk.Scale.RoundTrip.{decode-encode, encode_total}

-- the encoded total in front of the payloads
unfoldable pub with_count : Outcome ScaleError (List ℕ) → List ℕ → Outcome ScaleError (List ℕ)
with_count (returned count) payload = returned (count ++ payload)
with_count (raised e) payload = raised e

-- what the loop does with the count of a batch
unfoldable pub add_batch :
    (ℕ → List ℕ → Outcome ScaleError (List ℕ))
    → List ℕ
    → ℕ
    → List ℕ
    → Outcome ScaleError (ℕ × ℕ)
    → Outcome ScaleError (List ℕ)
add_batch rest batch total payload (returned (count, offset)) =
    rest (total + count) (payload ++ drop offset batch)
add_batch rest batch total payload (raised e) = raised e

module _ (normalize : String → List ℕ) where
  -- the loop, with `total_num_events` and `combined_payload`
  unfoldable pub combine_loop : List String → ℕ → List ℕ → Outcome ScaleError (List ℕ)
  unfolding with_count add_batch
  combine_loop [] total payload = with_count (encode_compact_u32 (pos total)) payload
  combine_loop (raw ∷ raws) total payload = elim (normalize raw) [
    | [] ↦ combine_loop raws total payload
    | b ∷ bs ↦
        add_batch (combine_loop raws) (b ∷ bs) total payload (decode_compact_u32 (b ∷ bs) (pos 0))
  ]

  -- _combine_events_map_batches
  unfoldable pub combine_events_map_batches : List String → Outcome ScaleError (List ℕ)
  unfolding combine_loop
  combine_events_map_batches raws = combine_loop raws 0 []

  -- a stored value that is a batch: the encoded number of its events and their bytes
  pub record IsBatch (raw : String) (count : ℕ) (payload : List ℕ) : Type 0 where
    pub prefix : List ℕ
    pub encoded : encode_compact_u32 (pos count) ≡ returned prefix
    pub bytes : normalize raw ≡ prefix ++ payload

  pub data Batches : List String → ℕ → List ℕ → Type 0 where
    none_left : Batches [] 0 []
    absent :
        {raw : String} {raws : List String} {n : ℕ} {p : List ℕ}
        → normalize raw ≡ []
        → Batches raws n p
        → Batches (raw ∷ raws) n p
    batch :
        {raw : String} {raws : List String} {n m : ℕ} {p q : List ℕ}
        → IsBatch raw n p
        → n < 2 ^ 32
        → Batches raws m q
        → {k : ℕ} → k ≡ n + m
        → {r : List ℕ} → r ≡ p ++ q
        → Batches (raw ∷ raws) k r

  combine_step :
      (raw : String) (raws : List String) (total : ℕ) (payload bytes : List ℕ) (n k : ℕ)
      → normalize raw ≡ bytes
      → decode_compact_u32 bytes (pos 0) ≡ returned (n, k)
      → combine_loop (raw ∷ raws) total payload
        ≡ combine_loop raws (total + n) (payload ++ drop k bytes)
  unfolding combine_loop
  combine_step raw raws total payload [] n k e d = unfold decode_compact_u32 in cc
  combine_step raw raws total payload (b ∷ bs) n k e d = rw (e, combine_loop) (rw d)

  combine_skip :
      (raw : String) (raws : List String) (total : ℕ) (payload : List ℕ)
      → normalize raw ≡ []
      → combine_loop (raw ∷ raws) total payload ≡ combine_loop raws total payload
  unfolding combine_loop
  combine_skip raw raws total payload e = rw (e, combine_loop)

  combine_loop_lem :
      {raws : List String} {n : ℕ} {p : List ℕ} (total : ℕ) (payload : List ℕ)
      → Batches raws n p
      → combine_loop raws total payload
        ≡ with_count (encode_compact_u32 (pos (total + n))) (payload ++ p)
  combine_loop_lem total payload none_left =
      unfold combine_loop in rw (append-nil payload, add-zero total)
  combine_loop_lem total payload (absent {raw} {raws} e bs) =
      combine_skip raw raws total payload e ∙ combine_loop_lem total payload bs
  combine_loop_lem total payload (batch {raw} {raws} {n} {m} {p} {q} b fits bs k r) =
      let ih = combine_loop_lem (total + n) (payload ++ p) bs in
      let read = decode-encode n [] b.prefix p b.encoded ∙ ground arith in
      let stepped =
        combine_step raw raws total payload (b.prefix ++ p) n (length b.prefix) b.bytes read in
      rw (drop-append b.prefix p) at stepped ∙ ih ∙ rw (k, r, append_assoc payload, add_assoc total)

  -- If every stored value is absent or a batch, the joined batch is the encoding of the sum of their
  -- counts in front of their payloads in order; where the sum is below 2 ^ 32 it is accepted, and the decoder reads
  -- that sum back.
  pub combine-Batches :
      (raws : List String) (n : ℕ) (p : List ℕ)
      → Batches raws n p
      → n < 2 ^ 32
      → (bytes : List ℕ) × (combine_events_map_batches raws ≡ returned (bytes ++ p))
        × (decode_compact_u32 (bytes ++ p) (pos 0) ≡ returned (n, length bytes))
  unfolding combine_events_map_batches
  combine-Batches raws n p h fits =
      let (bytes, e, short) = encode_total n fits in
      (
        bytes,
        combine_loop_lem 0 [] h ∙ rw (zero-add n, e, with_count),
        decode-encode n [] bytes p e ∙ ground arith,
      )
