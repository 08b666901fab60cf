-- ===== src/Nonce/Encoding.antt =====
-- src/deepx_sdk/_async_encoder.py: ExtrinsicEncoder.encode_pallet_call, from its nonce to its end.
-- The composition and signing call the node's library and are a parameter.
use deepx_python_sdk.Prelude.{
  ℕ, ◌≡◌, refl, false, Option, none, some, List, Outcome, returned, raised, if◌then◌else◌, ◌==◌, ℤ,
  pos, arith,
}
use deepx_python_sdk.Nonce.{NonceError, Allocator, contains, next, reserve, release}
use deepx_python_sdk.Nonce.Search.{contains-discard, next_found}
use deepx_python_sdk.Nonce.Order.{AllocatorCall, perform_all}

-- `out_of_fuel` has no counterpart in the program
pub data EncodeError : Type 0 where
  bad_nonce : NonceError → EncodeError
  out_of_fuel : EncodeError
  not_encoded : EncodeError

unfoldable pub allocated : Allocator → Option (ℕ × Allocator) → Outcome EncodeError ℕ × Allocator
allocated a none = (raised out_of_fuel, a)
allocated a (some (n, b)) = (returned n, b)

unfoldable pub claimed : Outcome NonceError ℕ × Allocator → Outcome EncodeError ℕ × Allocator
claimed (returned n, b) = (returned n, b)
claimed (raised e, b) = (raised (bad_nonce e), b)

-- the nonce of the call: the next one, or the one that is given
unfoldable pub resolved_nonce : Option ℤ → ℕ → Allocator → Outcome EncodeError ℕ × Allocator
unfolding allocated claimed
resolved_nonce none estimated a = allocated a (next estimated a)
resolved_nonce (some nonce) estimated a = claimed (reserve nonce estimated a)

-- Without a given nonce the call never fails before the encoding: the allocator finds one.
pub resolved_nonce_total :
    (estimated : ℕ) (a : Allocator)
    → (n : ℕ) × (b : Allocator) × (resolved_nonce none estimated a ≡ (returned n, b))
unfolding resolved_nonce
resolved_nonce_total estimated a =
    let (n, b, e, fresh, ge, mark, adds) = next_found estimated a in (n, b, rw (e, allocated) refl)

module _ {X : Type 0} where
  -- `except BaseException`: the nonce of a call that ends with an exception is released
  unfoldable pub end_call :
      ℕ → Outcome EncodeError X → Allocator → Outcome EncodeError X × Allocator
  end_call nonce (returned x) a = (returned x, a)
  end_call nonce (raised e) a = (raised e, (release (pos nonce) a).1)

  -- `others` are the calls on the allocator while this one waits for the gate, the lock and the
  -- thread; `encode` is how the wait or the encoding ends, cancellation included
  unfoldable pub run_call :
      (ℕ → Outcome EncodeError X)
      → List AllocatorCall
      → Outcome EncodeError ℕ × Allocator
      → Outcome EncodeError X × Allocator
  unfolding end_call
  run_call encode others (raised e, a) = (raised e, a)
  run_call encode others (returned nonce, a) = end_call nonce (encode nonce) (perform_all others a)

  unfoldable pub encode_pallet_call :
      (ℕ → Outcome EncodeError X)
      → List AllocatorCall
      → Option ℤ
      → ℕ
      → Allocator
      → Outcome EncodeError X × Allocator
  unfolding run_call resolved_nonce
  encode_pallet_call encode others given estimated a =
      run_call encode others (resolved_nonce given estimated a)

  -- A call that got a nonce and is not encoded raises and leaves that nonce free for later calls;
  -- every other reservation is as the calls in between have left it.
  pub encode_pallet_call_failure :
      (encode : ℕ → Outcome EncodeError X) (others : List AllocatorCall) (given : Option ℤ)
      (estimated n : ℕ) (a b : Allocator) (e : EncodeError)
      → resolved_nonce given estimated a ≡ (returned n, b)
      → encode n ≡ raised e
      → let (outcome, c) = encode_pallet_call encode others given estimated a in
        (outcome ≡ raised e)
        × (contains n c.reserved ≡ false)
        × ((k : ℕ)
            → contains k c.reserved
              ≡ (if n == k then false else contains k (perform_all others b).reserved))
  unfolding encode_pallet_call run_call end_call release
  encode_pallet_call_failure encode others given estimated n a b e h k =
      let rest = (perform_all others b).reserved in
      rw (h, run_call)
        (rw (k, end_call)
          (refl, ground (arith, contains-discard n n rest), λ j. contains-discard n j rest))
