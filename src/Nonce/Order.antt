-- ===== src/Nonce/Order.antt =====
-- src/deepx_sdk/_async_encoder.py: allocated nonces over a whole life of the allocator.
use deepx_python_sdk.Prelude.{
  ℕ, ◌≤◌, ◌<◌, ◌≡◌, ◌↔◌, false, Option, none, some, List, [], ◌∷◌, arith, ℤ, pos, returned,
}
use deepx_python_sdk.Nonce.{
  Allocator, contains, add, first_candidate, next, reserve, release, distance, window_ms,
}
use deepx_python_sdk.Nonce.Search.{contains-add, contains-discard, next_found}

-- the calls on an allocator, each with the chain time that it sees
pub data AllocatorCall : Type 0 where
  allocate : ℕ → AllocatorCall
  claim : ℤ → ℕ → AllocatorCall
  free : ℤ → AllocatorCall

abbrev after_next : Allocator → Option (ℕ × Allocator) → Allocator
after_next a none = a
after_next a (some (n, b)) = b

unfoldable pub perform : AllocatorCall → Allocator → Allocator
perform (allocate estimated) a = after_next a (next estimated a)
perform (claim nonce estimated) a = (reserve nonce estimated a).1
perform (free nonce) a = (release nonce a).1

unfoldable pub perform_all : List AllocatorCall → Allocator → Allocator
perform_all [] a = a
perform_all (c ∷ cs) a = perform_all cs (perform c a)

-- the high-water mark is set, and at least `n`
abbrev pub Passed : ℕ → Option ℕ → Type 0
Passed n none = ⊥
Passed n (some mark) = n ≤ mark

candidate-Passed : (n estimated : ℕ) (m : Option ℕ) → Passed n m → n < first_candidate estimated m
unfolding first_candidate
candidate-Passed n estimated none h = absurd h
candidate-Passed n estimated (some mark) h = omega arith

perform-Passed :
    (n : ℕ) (c : AllocatorCall) (a : Allocator)
    → Passed n a.high_water_mark
    → Passed n (perform c a).high_water_mark
unfolding perform reserve release
perform-Passed n (allocate estimated) a h =
    let (m, b, e, fresh, ge, mark, adds) = next_found estimated a in
    let higher = candidate-Passed n estimated a.high_water_mark h in
    rw (e, after_next) (rw mark (omega arith))
perform-Passed n (claim nonce estimated) a h = ground arith
perform-Passed n (free nonce) a h = ground arith

perform_all-Passed :
    (n : ℕ) (cs : List AllocatorCall) (a : Allocator)
    → Passed n a.high_water_mark
    → Passed n (perform_all cs a).high_water_mark
unfolding perform_all
perform_all-Passed n [] a h = h
perform_all-Passed n (c ∷ cs) a h = perform_all-Passed n cs (perform c a) (perform-Passed n c a h)

-- A nonce that `next` returns is larger than every nonce it returned before, whatever was reserved
-- or released in between and whatever chain times were seen.
pub next_increasing :
    (estimated later : ℕ) (a : Allocator) (cs : List AllocatorCall) {n m : ℕ} {b c : Allocator}
    → next estimated a ≡ some (n, b)
    → next later (perform_all cs b) ≡ some (m, c)
    → n < m
next_increasing estimated later a cs {n} {m} {b} {c} h k =
    let (n', b', e, fresh, ge, mark, adds) = next_found estimated a in
    let (m', c', e', fresh', ge', mark', adds') = next_found later (perform_all cs b) in
    let is_mark : b.high_water_mark ≡ some n = cc (h, e, mark) in
    let start : Passed n b.high_water_mark = rw is_mark (omega arith) in
    let higher = candidate-Passed n later _ (perform_all-Passed n cs b start) in
    let same : m ≡ m' = cc (k, e') in rw same (omega (arith, higher, ge'))

-- `reserve` of a non-negative nonce returns exactly when the nonce is within an hour of the chain
-- time and is not reserved.
pub reserve_exact :
    (nonce estimated : ℕ) (a : Allocator)
    → ((reserve (pos nonce) estimated a).0 ≡ returned nonce)
      ↔ ((distance nonce estimated ≤ window_ms) × (contains nonce a.reserved ≡ false))
unfolding reserve
reserve_exact nonce estimated a = (λ h. ground arith, λ h. ground arith)

-- Releasing a nonce that `reserve` accepted gives back the reservations as they were, but keeps the
-- high-water mark at the nonce or above it.
pub release-reserve :
    (nonce estimated : ℕ) (a : Allocator)
    → (reserve (pos nonce) estimated a).0 ≡ returned nonce
    → let b = (release (pos nonce) (reserve (pos nonce) estimated a).1).1 in
      ((k : ℕ) → contains k b.reserved ≡ contains k a.reserved) × Passed nonce b.high_water_mark
unfolding reserve release
release-reserve nonce estimated a h = (
  λ k.
      ground
        (arith, contains-discard nonce k (add nonce a.reserved), contains-add nonce k a.reserved),
  ground arith,
)
