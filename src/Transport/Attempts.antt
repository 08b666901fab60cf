-- ===== src/Transport/Attempts.antt =====
-- src/deepx_sdk/_async_transport.py: which endpoint an attempt to connect ends at, which endpoints
-- are kept, and how the delays between the attempts grow.
use deepx_python_sdk.Prelude.{
  ℕ, zero, suc, ◌+◌, ◌-◌, ◌*◌, ◌^◌, ◌<◌, ◌≡◌, refl, ap, sym, ◌∙◌, inl, inr, Bool, true, false, leb,
  string_eq, Bool-cases, arith,
}
use deepx_python_sdk.Transport.Endpoints.{advance_endpoint, connect_available, delay_after, min}
use native.Mathlib.Nat.{zero-add, mod-eq_of_lt, mod_self, pow-suc, mul_assoc, mul-one}

-- the endpoint after `d` failed attempts
abbrev after : ℕ → ℕ → ℕ → ℕ
after zero count index = index
after (suc d) count index = after d count (advance_endpoint count index)

after-add : (d e count index : ℕ) → after (d + e) count index ≡ after e count (after d count index)
after-add zero e count index = rw (zero-add e) refl
after-add (suc d) e count index =
    let shift : suc d + e ≡ suc (d + e) = omega arith in
    rw shift (after-add d e count (advance_endpoint count index))

hits :
    (attempts d : ℕ) (reachable : ℕ → Bool) (count index : ℕ)
    → d < attempts
    → reachable (after d count index) ≡ true
    → (connect_available attempts reachable count index).0 ≡ true
unfolding connect_available
hits zero d reachable count index l r = absurd (omega (arith, l))
hits (suc attempts) zero reachable count index l r = rw r refl
hits (suc attempts) (suc d) reachable count index l r = elim (Bool-cases (reachable index)) [
  | inl e ↦ rw e refl
  | inr e ↦
      rw e (hits attempts d reachable count (advance_endpoint count index) (omega (arith, l)) r)
]

advance-inside : (count index : ℕ) → index + 1 < count → advance_endpoint count index ≡ index + 1
unfolding advance_endpoint
advance-inside count index h =
    let e : leb count 1 ≡ false = ground (arith, h) in rw e (mod-eq_of_lt h)

advance-last : (count index : ℕ) → index + 1 ≡ count → advance_endpoint count index ≡ 0
unfolding advance_endpoint
advance-last count index h = elim (Bool-cases (leb count 1)) [
  | inl e ↦ rw e (ground (arith, h))
  | inr e ↦ rw e (rw h (mod_self count))
]

after-inside : (d count index : ℕ) → index + d < count → after d count index ≡ index + d
after-inside zero count index h = omega arith
after-inside (suc d) count index h =
    rw (advance-inside count index (omega (arith, h)))
      (after-inside d count (index + 1) (omega (arith, h)) ∙ omega arith)

after-around : (count index : ℕ) → index < count → after (count - index) count index ≡ 0
after-around count index h =
    let d = count - 1 - index in
    let split : count - index ≡ d + 1 = omega (arith, h) in
    rw split (
      after-add d 1 count index
      ∙ rw (after-inside d count index (omega (arith, h)))
          (advance-last count (index + d) (omega (arith, h))))

reaches :
    (count index j : ℕ)
    → index < count
    → j < count
    → (d : ℕ) × (d < count) × (after d count index ≡ j)
reaches count index j h k = elim (Bool-cases (leb index j)) [
  | inl e ↦ (
    j - index,
    ground (arith, h, k, e),
    after-inside (j - index) count index (ground (arith, k, e)) ∙ ground (arith, e),
  )
  | inr e ↦ (
    count - index + j,
    ground (arith, h, k, e),
    after-add (count - index) j count index
        ∙ rw (after-around count index h) (after-inside j count 0 (omega (arith, k)) ∙ zero-add j),
  )
]

ends :
    (attempts : ℕ) (reachable : ℕ → Bool) (count index : ℕ)
    → (connect_available attempts reachable count index).0 ≡ true
    → reachable (connect_available attempts reachable count index).1 ≡ true
unfolding connect_available
ends zero reachable count index h = absurd (cc h)
ends (suc attempts) reachable count index h = elim (Bool-cases (reachable index)) [
  | inl e ↦ rw e e
  | inr e ↦ rw e (ends attempts reachable count (advance_endpoint count index) (rw e at h))
]

-- One round of attempts, as many as there are endpoints and from whichever endpoint it starts,
-- connects if any endpoint can be reached, and then the endpoint it stays at can be reached.
pub connect_available_lem :
    (count index j : ℕ) (reachable : ℕ → Bool)
    → index < count
    → j < count
    → reachable j ≡ true
    → let (connected, at_) = connect_available count reachable count index in
      (connected ≡ true) × (reachable at_ ≡ true)
connect_available_lem count index j reachable h k r =
    let (d, l, e) = reaches count index j h k in
    let hit = hits count d reachable count index l (rw e r) in
    (hit, ends count reachable count index hit)

min_step : (d x m : ℕ) → min d m ≡ min x m → min (min (d * 2) m) m ≡ min (x * 2) m
min_step d x m h = ground (arith, h)

-- Before the jitter, the delay of an attempt is the initial delay doubled for every round of attempts
-- that failed before, cut off at the maximum.
pub delay_doubles :
    (failures initial_ms max_ms : ℕ)
    → min (delay_after failures initial_ms max_ms) max_ms ≡ min (initial_ms * 2 ^ failures) max_ms
unfolding delay_after
delay_doubles zero initial_ms max_ms = rw (mul-one initial_ms) refl
delay_doubles (suc failures) initial_ms max_ms =
    min_step (delay_after failures initial_ms max_ms) (initial_ms * 2 ^ failures) max_ms
      (delay_doubles failures initial_ms max_ms)
    ∙ ap (λ x. min x max_ms)
        (mul_assoc initial_ms (2 ^ failures) 2
          ∙ ap (λ x. initial_ms * x) (sym (pow-suc 2 failures)))
