-- ===== src/Nonce/Search.antt =====
-- src/deepx_sdk/_async_encoder.py: the loop of `next`.
use deepx_python_sdk.Prelude.{
  ℕ, zero, suc, ◌+◌, ◌≤◌, ◌<◌, ◌≡◌, refl, true, false, Option, none, some, List, [], ◌∷◌, leb, ◌==◌,
  if◌then◌else◌, length, arith, Bool-cases, inl, inr,
}
use deepx_python_sdk.Nonce.{Allocator, contains, discard, add, search, first_candidate, next}

-- how many reserved nonces are at least `n`
above : ℕ → List ℕ → ℕ
above n [] = 0
above n (m ∷ ms) = let rest = above n ms in if leb n m then suc rest else rest

above-le : (n : ℕ) (ms : List ℕ) → above n ms ≤ length ms
unfolding above
above-le n [] = omega arith
above-le n (m ∷ ms) = ground (arith, above-le n ms)

above_step : (n : ℕ) (ms : List ℕ) → above (n + 1) ms ≤ above n ms
unfolding above
above_step n [] = omega arith
above_step n (m ∷ ms) = ground (arith, above_step n ms)

above_found : (n : ℕ) (ms : List ℕ) → contains n ms ≡ true → above (n + 1) ms < above n ms
unfolding above contains
above_found n [] h = cc
above_found n (m ∷ ms) h = ground (arith, above_found n ms, above_step n ms)

-- enough fuel finds the first nonce from `n` on that is not reserved
search_total :
    (f n : ℕ) (ms : List ℕ)
    → above n ms < f
    → (r : ℕ) × (search f n ms ≡ some r) × (n ≤ r) × (contains r ms ≡ false)
unfolding search
search_total zero n ms h = absurd (omega arith)
search_total (suc f) n ms h = elim (Bool-cases (contains n ms)) [
  | inl taken ↦
      let (r, e, ge, free) = search_total f (n + 1) ms (omega (arith, above_found n ms taken)) in
      (r, rw taken e, omega arith, free)
  | inr free ↦ (n, rw free, omega arith, free)
]

pub contains-add :
    (n k : ℕ) (ms : List ℕ) → contains k (add n ms) ≡ (if n == k then true else contains k ms)
unfolding add contains
contains-add n k ms = ground arith

pub contains-discard :
    (n k : ℕ) (ms : List ℕ) → contains k (discard n ms) ≡ (if n == k then false else contains k ms)
unfolding contains discard
contains-discard n k [] = ground arith
contains-discard n k (m ∷ ms) = ground (arith, contains-discard n k ms)

pub next_found :
    (estimated : ℕ) (a : Allocator)
    → (n : ℕ) × (b : Allocator) × (next estimated a ≡ some (n, b))
      × (contains n a.reserved ≡ false)
      × (first_candidate estimated a.high_water_mark ≤ n)
      × (b.high_water_mark ≡ some n)
      × ((k : ℕ) → contains k b.reserved ≡ (if n == k then true else contains k a.reserved))
unfolding next
next_found estimated a =
    let start = first_candidate estimated a.high_water_mark in
    let (n, e, ge, free) =
      search_total (suc (length a.reserved)) start a.reserved
        (omega (arith, above-le start a.reserved)) in
    (
      n,
      record { high_water_mark = some n; reserved = add n a.reserved },
      rw (e, next),
      free,
      ge,
      refl,
      λ k. contains-add n k a.reserved,
    )

-- A nonce is after the high-water mark, if there is one.
abbrev pub After : Option ℕ → ℕ → Type 0
After none n = Unit
After (some mark) n = mark < n

candidate-After :
    (estimated n : ℕ) (m : Option ℕ) → first_candidate estimated m ≤ n → (estimated ≤ n) × After m n
unfolding first_candidate
candidate-After estimated n none h = (omega (arith, h), tt)
candidate-After estimated n (some mark) h = (omega (arith, h), omega (arith, h))

-- `next` always returns: a nonce that was not reserved, not before the estimated chain time, and
-- after the high-water mark if there was one, which it becomes; it and nothing else is newly
-- reserved.
pub next_total :
    (estimated : ℕ) (a : Allocator)
    → (n : ℕ) × (b : Allocator) × (next estimated a ≡ some (n, b))
      × (contains n a.reserved ≡ false)
      × (estimated ≤ n)
      × After a.high_water_mark n
      × (b.high_water_mark ≡ some n)
      × ((k : ℕ) → contains k b.reserved ≡ (if n == k then true else contains k a.reserved))
next_total estimated a =
    let (n, b, e, free, ge, mark, adds) = next_found estimated a in
    let (late, after) = candidate-After estimated n a.high_water_mark ge in
    (n, b, e, free, late, after, mark, adds)
