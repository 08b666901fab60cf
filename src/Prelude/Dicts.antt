-- ===== src/Prelude/Dicts.antt =====
-- Python's dict as an association list in insertion order, over any type of keys with a Boolean
-- equality test.
use Prim.Native.Nat.{ℕ}
use Prim.Native.String.{String}
use mathlib.Core.Path.{◌≡◌, refl}
use mathlib.Core.Logic.{◌↔◌}
use mathlib.Core.Bool.{Bool, true, false}
use mathlib.Core.Option.{Option, none, some}
use mathlib.Core.List.{List, [], ◌∷◌}
use native.Mathlib.Omega.{arith}
use text.Mathlib.Text.{◌==◌ as str_eq}
use text.Mathlib.TextEquality.{eq_iff}
use deepx_python_sdk.Prelude.Tests.{if◌then◌else◌, ==_iff, ◌==◌ as nat_beq}

pub record Eq {ℓ} (A : Type ℓ) : Type ℓ where
  pub beq : A → A → Bool
  pub beq_iff : (a b : A) → (beq a b ≡ true) ↔ (a ≡ b)

instance abbrev pub nat_eq : Eq ℕ
nat_eq = record { beq = nat_beq; beq_iff = ==_iff }

instance abbrev pub string_eq : Eq String
string_eq = record { beq = str_eq; beq_iff = eq_iff }

abbrev pub Dict : Type 0 → Type 0 → Type 0
Dict K V = List (K × V)

module _ {K V : Type 0} ⦃e : Eq K⦄ where
  -- d.get(k)
  unfoldable pub get : K → Dict K V → Option V
  get k [] = none
  get k ((j, v) ∷ d) = if e.beq j k then some v else get k d

  -- d[k] = v
  unfoldable pub put : K → V → Dict K V → Dict K V
  put k v [] = (k, v) ∷ []
  put k v ((j, w) ∷ d) = if e.beq j k then (j, v) ∷ d else (j, w) ∷ put k v d

  -- d.pop(k, None)
  unfoldable pub pop : K → Dict K V → Dict K V
  pop k [] = []
  pop k ((j, w) ∷ d) = let rest = pop k d in if e.beq j k then rest else (j, w) ∷ rest

  pub get-put :
      (k j : K) (v : V) (d : Dict K V) → get j (put k v d) ≡ (if e.beq k j then some v else get j d)
  unfolding get put
  get-put k j v [] = refl
  get-put k j v ((i, w) ∷ d) =
      ground (arith, e.beq_iff k j, e.beq_iff i k, e.beq_iff i j, get-put k j v d)

  pub get-pop : (k j : K) (d : Dict K V) → get j (pop k d) ≡ (if e.beq k j then none else get j d)
  unfolding get pop
  get-pop k j [] = ground arith
  get-pop k j ((i, w) ∷ d) =
      ground (arith, e.beq_iff k j, e.beq_iff i k, e.beq_iff i j, get-pop k j d)

-- a Python set as a list
module _ {K : Type 0} ⦃e : Eq K⦄ where
  -- k in s
  unfoldable pub member : K → List K → Bool
  member k [] = false
  member k (j ∷ js) = if e.beq j k then true else member k js

  -- s.add(k)
  unfoldable pub include : K → List K → List K
  unfolding member
  include k js = if member k js then js else k ∷ js

  pub member-include :
      (k j : K) (js : List K) → member j (include k js) ≡ (if e.beq k j then true else member j js)
  unfolding include member
  member-include k j js = ground (arith, e.beq_iff k j)

  -- s.discard(k)
  unfoldable pub discard : K → List K → List K
  discard k [] = []
  discard k (j ∷ js) = let rest = discard k js in if e.beq k j then rest else j ∷ rest

  pub member-discard :
      (k j : K) (js : List K) → member j (discard k js) ≡ (if e.beq k j then false else member j js)
  unfolding discard member
  member-discard k j [] = ground arith
  member-discard k j (i ∷ js) =
      ground (arith, e.beq_iff k j, e.beq_iff k i, e.beq_iff i j, member-discard k j js)
