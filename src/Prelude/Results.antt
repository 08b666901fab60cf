-- ===== src/Prelude/Results.antt =====
-- A Python call either returns or raises; a method also leaves a new object state behind.
use mathlib.Core.Path.{◌≡◌, refl}
use mathlib.Core.Logic.{◌⊎◌, inl, inr}

pub data Outcome {ℓ} (E A : Type ℓ) : Type ℓ where
  returned : A → Outcome E A
  raised : E → Outcome E A

pub Outcome-cases {ℓ} :
    {E A : Type ℓ} (o : Outcome E A) → ((a : A) × (o ≡ returned a)) ⊎ ((e : E) × (o ≡ raised e))
Outcome-cases (returned a) = inl (a, refl)
Outcome-cases (raised e) = inr (e, refl)
