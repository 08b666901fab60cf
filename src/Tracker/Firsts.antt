-- ===== src/Tracker/Firsts.antt =====
-- src/deepx_sdk/_native_py.py: which event of a block the event filters find, told by the events
-- themselves.
use deepx_python_sdk.Prelude.{
  ℕ, ==_iff, ◌≡◌, ◌≢◌, ap, refl, inl, inr, ◌⊎◌, String, str_eq, eq_iff, true, false, Option,
  Bool-cases, none, some, List, [], ◌∷◌, ◌++◌, All,
}
use deepx_python_sdk.Tracker.Events.{
  Event, is_idx, is_event, filter_events_for_extrinsic, failed_attrs, first_matching,
}

-- an event of another extrinsic, of another pallet or of another name
abbrev pub IsOther : {A : Type 0} → ℕ → String → String → Event A → Type 0
IsOther i pallet event e =
    (e.extrinsic_idx ≢ some i) ⊎ (e.module_id ≢ pallet) ⊎ (e.event_id ≢ event)

-- the first event of an extrinsic with a pallet and a name, or that there is none
abbrev pub First : {A : Type 0} → ℕ → String → String → List (Event A) → Option (Event A) → Type 0
First i pallet event es none = All (IsOther i pallet event) es
First i pallet event es (some e) =
    (before : List (Event _)) × (after : List (Event _)) × (es ≡ before ++ (e ∷ after))
    × (e.extrinsic_idx ≡ some i)
    × (e.module_id ≡ pallet)
    × (e.event_id ≡ event)
    × All (IsOther i pallet event) before

First-later :
    {A : Type 0} (i : ℕ) (pallet event : String) (e : Event A) (es : List (Event A))
    (o : Option (Event A))
    → IsOther i pallet event e
    → First i pallet event es o
    → First i pallet event (e ∷ es) o
First-later i pallet event e es none h f = (h, f)
First-later i pallet event e es (some d) h (before, after, split, own, m, n, others) =
    (e ∷ before, after, ap (λ r. e ∷ r) split, own, m, n, (h, others))

is_idx_inv : (o : Option ℕ) (i : ℕ) → is_idx o i ≡ true → o ≡ some i
is_idx_inv none i h = absurd (cc h)
is_idx_inv (some j) i h = ap some ((==_iff j i).0 h)

not_idx : (o : Option ℕ) (i : ℕ) → is_idx o i ≡ false → o ≢ some i
not_idx o i h e = let same : is_idx o i ≡ true = rw e ((==_iff i i).1 refl) in cc

not_text : (a b : String) → str_eq a b ≡ false → a ≢ b
not_text a b h e = let same : str_eq a b ≡ true = (eq_iff a b).1 e in cc

is_event_inv :
    {A : Type 0} (i : ℕ) (pallet event : String) (e : Event A)
    → is_event pallet event e ≡ false
    → IsOther i pallet event e
unfolding is_event
is_event_inv i pallet event e h = elim (Bool-cases (str_eq e.module_id pallet)) [
  | inl same ↦ inr (inr (not_text e.event_id event (rw same at h)))
  | inr other ↦ inr (inl (not_text e.module_id pallet other))
]

is_event-named :
    {A : Type 0} (pallet event : String) (e : Event A)
    → is_event pallet event e ≡ true
    → (e.module_id ≡ pallet) × (e.event_id ≡ event)
unfolding is_event
is_event-named pallet event e h = elim (Bool-cases (str_eq e.module_id pallet)) [
  | inl same ↦ ((eq_iff e.module_id pallet).0 same, (eq_iff e.event_id event).0 (rw same at h))
  | inr other ↦ absurd (cc (rw other at h))
]

pub first_matching-First :
    {A : Type 0} (i : ℕ) (pallet event : String) (es : List (Event A))
    → First i pallet event es (first_matching pallet event (filter_events_for_extrinsic i es))
unfolding filter_events_for_extrinsic first_matching
first_matching-First i pallet event [] = tt
first_matching-First i pallet event (e ∷ es) =
    let rest = first_matching-First i pallet event es in
    elim (Bool-cases (is_idx e.extrinsic_idx i)) [
      | inl own ↦ elim (Bool-cases (is_event pallet event e)) [
        | inl named ↦
            let (m, n) = is_event-named pallet event e named in
            rw (own, named) ([], es, refl, is_idx_inv e.extrinsic_idx i own, m, n, tt)
        | inr other ↦
            rw (own, other)
              (First-later i pallet event e es _ (is_event_inv i pallet event e other) rest)
      ]
      | inr foreign ↦
          rw foreign
            (First-later i pallet event e es _ (inl (not_idx e.extrinsic_idx i foreign)) rest)
    ]

unfoldable pub attributes_of : {A : Type 0} → Option (Event A) → Option A
attributes_of none = none
attributes_of (some e) = e.attributes

pub failed_attrs-first :
    {A : Type 0} (es : List (Event A))
    → failed_attrs es ≡ attributes_of (first_matching "System" "ExtrinsicFailed" es)
unfolding failed_attrs first_matching attributes_of
failed_attrs-first [] = refl
failed_attrs-first (e ∷ es) = elim (Bool-cases (is_event "System" "ExtrinsicFailed" e)) [
  | inl named ↦ rw named refl
  | inr other ↦ rw other (failed_attrs-first es)
]
