-- ===== src/Nonce.antt =====
-- src/deepx_sdk/_async_encoder.py: TimestampNonceAllocator. The set of reserved nonces is a list,
-- the estimated chain time is what the callback returns to the call, and each method holds the
-- lock throughout, so a method is one step.
pub mod Search
pub mod Order
pub mod Encoding
use deepx_python_sdk.Prelude.{
  ℕ, zero, suc, ◌+◌, ◌-◌, ◌*◌, max, Bool, true, false, not, ◌||◌, Option, none, some, List, [], ◌∷◌,
  ltb, ◌==◌, if◌then◌else◌, length, Outcome, returned, raised, ℤ, pos, negsuc, is_none,
}

abbrev pub window_ms : ℕ
window_ms = 60 * 60 * 1000

pub data NonceError : Type 0 where
  negative outside_window already_reserved : NonceError

pub record Allocator : Type 0 where
  pub high_water_mark : Option ℕ
  pub reserved : List ℕ

abbrev pub new_allocator : Allocator
new_allocator = record { high_water_mark = none; reserved = [] }

-- n in reserved
unfoldable pub contains : ℕ → List ℕ → Bool
contains n [] = false
contains n (m ∷ ms) = m == n || contains n ms

-- reserved.discard(n)
unfoldable pub discard : ℕ → List ℕ → List ℕ
discard n [] = []
discard n (m ∷ ms) = let rest = discard n ms in if m == n then rest else m ∷ rest

-- reserved.add(n)
unfoldable pub add : ℕ → List ℕ → List ℕ
unfolding contains
add n ms = if contains n ms then ms else n ∷ ms

-- `while nonce in self._reserved: nonce += 1`; `none` means that the fuel ran out
unfoldable pub search : ℕ → ℕ → List ℕ → Option ℕ
search zero nonce reserved = none
search (suc fuel) nonce reserved =
    let further = search fuel (nonce + 1) reserved in
    if contains nonce reserved then further else some nonce

-- max(estimated, estimated if mark is None else mark + 1)
unfoldable pub first_candidate : ℕ → Option ℕ → ℕ
first_candidate estimated none = max estimated estimated
first_candidate estimated (some mark) = max estimated (mark + 1)

unfoldable pub next : ℕ → Allocator → Option (ℕ × Allocator)
unfolding search first_candidate add
next estimated a =
    elim (search (suc (length a.reserved)) (first_candidate estimated a.high_water_mark)
      a.reserved) [
        | none ↦ none
        | some nonce ↦
            some (nonce, record { high_water_mark = some nonce; reserved = add nonce a.reserved })
      ]

-- abs(a - b) of two non-negative ints
unfoldable pub distance : ℕ → ℕ → ℕ
distance a b = if ltb a b then b - a else a - b

-- the mark after `reserve`: moved only upwards
unfoldable pub raise_mark : ℕ → Option ℕ → Option ℕ
raise_mark explicit none = some explicit
raise_mark explicit (some mark) = if ltb mark explicit then some explicit else some mark

-- reserve, behind _coerce_nonce's test of the sign
unfoldable pub reserve : ℤ → ℕ → Allocator → Outcome NonceError ℕ × Allocator
unfolding contains distance raise_mark add
reserve (negsuc n) estimated a = (raised negative, a)
reserve (pos explicit) estimated a =
    if ltb window_ms (distance explicit estimated)
    then (raised outside_window, a)
    else if contains explicit a.reserved
    then (raised already_reserved, a)
    else (
      returned explicit,
      record {
        high_water_mark = raise_mark explicit a.high_water_mark;
        reserved = add explicit a.reserved;
      },
    )

unfoldable pub release : ℤ → Allocator → Outcome NonceError (Unit {0}) × Allocator
unfolding discard
release (negsuc n) a = (raised negative, a)
release (pos explicit) a = (returned tt, record a { reserved = discard explicit a.reserved })
