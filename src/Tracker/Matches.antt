-- ===== src/Tracker/Matches.antt =====
-- src/deepx_sdk/_async_tracker.py: the matches of a block against its candidates.
use deepx_python_sdk.Prelude.{
  ℕ, ◌≡◌, refl, String, Bool, true, false, none, some, List, [], ◌∷◌, Dict, get, member, include,
  member-include, string_eq, arith, Bool-cases, inl, inr, ◌⊎◌, Option-cases, if◌then◌else◌,
}
use mathlib.Core.Path.{subst}
use deepx_python_sdk.Tracker.Blocks.{find_matches, add_absent}

-- h in dict(matches)
abbrev pub keyed : String → List (String × ℕ) → Bool
keyed h [] = false
keyed h ((k, i) ∷ rest) = if string_eq.beq k h then true else keyed h rest

pub beq_self : (h : String) → string_eq.beq h h ≡ true
beq_self h = (string_eq.beq_iff h h).1 refl

member-first : (h : String) (hs : List String) → member h (h ∷ hs) ≡ true
unfolding member
member-first h hs = rw (beq_self h) refl

member-rest : (j h : String) (hs : List String) → member j hs ≡ true → member j (h ∷ hs) ≡ true
unfolding member
member-rest j h hs m = ground arith

pub none_left :
    (indexes : Dict String ℕ) (applied hs : List String)
    → ((h : String) → member h hs ≡ true → member h applied ≡ true)
    → find_matches indexes applied hs ≡ []
unfolding find_matches
none_left indexes applied [] a = refl
none_left indexes applied (h ∷ hs) a =
    rw (a h (member-first h hs)) (none_left indexes applied hs (λ j m. a j (member-rest j h hs m)))

pub include-grows :
    (j k : String) (applied : List String)
    → member j applied ≡ true
    → member j (include k applied) ≡ true
include-grows j k applied m = rw (member-include k j applied) (ground arith)

add_absent-none :
    (indexes : Dict String ℕ) (h : String) (hs applied : List String)
    → get h indexes ≡ none
    → add_absent indexes (h ∷ hs) applied ≡ add_absent indexes hs (include h applied)
unfolding add_absent
add_absent-none indexes h hs applied e = rw (e, add_absent)

add_absent-some :
    (indexes : Dict String ℕ) (h : String) (hs applied : List String) {i : ℕ}
    → get h indexes ≡ some i
    → add_absent indexes (h ∷ hs) applied ≡ add_absent indexes hs applied
unfolding add_absent
add_absent-some indexes h hs applied e = rw (e, add_absent)

absent-grows :
    (indexes : Dict String ℕ) (j : String) (hs applied : List String)
    → member j applied ≡ true
    → member j (add_absent indexes hs applied) ≡ true
absent-grows indexes j [] applied m = unfold add_absent in m
absent-grows indexes j (h ∷ hs) applied m = elim (Option-cases (get h indexes)) [
  | inl e ↦
      rw (add_absent-none indexes h hs applied e)
        (absent-grows indexes j hs (include h applied) (include-grows j h applied m))
  | inr (i, e) ↦ rw (add_absent-some indexes h hs applied e) (absent-grows indexes j hs applied m)
]

pub member-own : (h : String) (applied : List String) → member h (include h applied) ≡ true
member-own h applied = rw (member-include h h applied, beq_self h) refl

-- an equal key can be replaced
member-same :
    (h j : String) (hs : List String)
    → string_eq.beq h j ≡ true
    → member h hs ≡ true
    → member j hs ≡ true
member-same h j hs e m = rw ((string_eq.beq_iff h j).0 e) at m

find_matches-rest :
    (indexes : Dict String ℕ) (j h : String) (hs before : List String)
    → keyed j (find_matches indexes before hs) ≡ true
    → keyed j (find_matches indexes before (h ∷ hs)) ≡ true
unfolding find_matches
find_matches-rest indexes j h hs before m =
    ground (arith, Option-cases (get h indexes), Bool-cases (member h before))

find_matches-found :
    (indexes : Dict String ℕ) (h : String) (hs before : List String) {i : ℕ}
    → get h indexes ≡ some i
    → member h before ≡ false
    → keyed h (find_matches indexes before (h ∷ hs)) ≡ true
unfolding find_matches
find_matches-found indexes h hs before e m = rw (m, e, beq_self h) refl

-- the first candidate is noted as absent, or is among the matches
promised-first :
    (indexes : Dict String ℕ) (h : String) (hs before applied : List String)
    → (member h before ≡ true → member h applied ≡ true)
    → (member h (add_absent indexes (h ∷ hs) applied) ≡ true)
      ⊎ (keyed h (find_matches indexes before (h ∷ hs)) ≡ true)
promised-first indexes h hs before applied a = elim (Option-cases (get h indexes)) [
  | inl e ↦ inl (
      rw (add_absent-none indexes h hs applied e)
        (absent-grows indexes h hs (include h applied) (member-own h applied)))
  | inr (i, e) ↦ elim (Bool-cases (member h before)) [
    | inl b ↦ inl (absent-grows indexes h (h ∷ hs) applied (a b))
    | inr b ↦ inr (find_matches-found indexes h hs before e b)
  ]
]

member-later :
    (j h : String) (hs : List String)
    → string_eq.beq h j ≡ false
    → member j (h ∷ hs) ≡ true
    → member j hs ≡ true
unfolding member
member-later j h hs e m = rw e at m

pub promised :
    (indexes : Dict String ℕ) (j : String) (hs before applied : List String)
    → ((k : String) → member k before ≡ true → member k applied ≡ true)
    → member j hs ≡ true
    → (member j (add_absent indexes hs applied) ≡ true)
      ⊎ (keyed j (find_matches indexes before hs) ≡ true)
promised indexes j [] before applied a m = absurd (unfold member in cc m)
promised indexes j (h ∷ hs) before applied a m = elim (Bool-cases (string_eq.beq h j)) [
  | inl e ↦
      subst
        (λ k.
          (member k (add_absent indexes (h ∷ hs) applied) ≡ true)
          ⊎ (keyed k (find_matches indexes before (h ∷ hs)) ≡ true))
        ((string_eq.beq_iff h j).0 e) (promised-first indexes h hs before applied (a h))
  | inr e ↦
      let later : member j hs ≡ true = member-later j h hs e m in
      elim (Option-cases (get h indexes)) [
        | inl g ↦
            elim (promised indexes j hs before (include h applied)
              (λ k q. include-grows k h applied (a k q)) later) [
                | inl q ↦ inl (rw (add_absent-none indexes h hs applied g) q)
                | inr q ↦ inr (find_matches-rest indexes j h hs before q)
              ]
        | inr (i, g) ↦ elim (promised indexes j hs before applied a later) [
          | inl q ↦ inl (rw (add_absent-some indexes h hs applied g) q)
          | inr q ↦ inr (find_matches-rest indexes j h hs before q)
        ]
      ]
]
