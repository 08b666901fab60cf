-- ===== src/Tracker/Once.antt =====
-- src/deepx_sdk/_async_tracker.py: a block that is resolved a second time.
use deepx_python_sdk.Prelude.{
  ℕ, ◌≡◌, refl, ap, ◌∙◌, String, true, Option, none, some, List, [], ◌∷◌, Outcome, returned, raised,
  Outcome-cases, get, put, get-put, member, include, string_eq, arith, inl, inr, ◌⊎◌,
}
use mathlib.Core.Path.{subst}
use deepx_python_sdk.Ticket.{Ticket}
use deepx_python_sdk.Pending.{Failure}
use deepx_python_sdk.Tracker.{Tracked, Clocks}
use deepx_python_sdk.Tracker.Events.{Event, Place}
use deepx_python_sdk.Tracker.Matches.{
  keyed, beq_self, include-grows, member-own, none_left, promised,
}
use deepx_python_sdk.Tracker.Blocks.{
  Store, Block, or_empty, find_matches, add_absent, note_applied, apply_to, apply_matches,
  resolve_block,
}

abbrev applied_at : {R : Type 0} → String → Store R → List String
applied_at block_hash s = or_empty (get block_hash s.applied_block_transactions)

module _ {R A : Type 0} (chain_error : A → Option String)
    (decode : Option A → Ticket R → Outcome String (Option R)) where
  apply_to-applied :
      (b : String) (p : Place) (events : Option (List (Event A))) (clocks : Clocks) (h : String)
      (o : Option (Tracked R)) (s : Store R)
      → applied_at b (apply_to chain_error decode p events clocks h o s).1 ≡ applied_at b s
  unfolding apply_to
  apply_to-applied b p events clocks h none s = refl
  apply_to-applied b p events clocks h (some x) s = refl

  noted :
      (b k h : String) (s : Store R)
      → member h (applied_at b s) ≡ true
      → member h (applied_at b (note_applied b k s)) ≡ true
  unfolding note_applied
  noted b k h s m =
      rw
        (
          get-put b b (include k (or_empty (get b s.applied_block_transactions)))
              s.applied_block_transactions,
          beq_self b,
        )
        (include-grows h k (applied_at b s) m)

  noted-own : (b h : String) (s : Store R) → member h (applied_at b (note_applied b h s)) ≡ true
  unfolding note_applied
  noted-own b h s =
      rw
        (
          get-put b b (include h (or_empty (get b s.applied_block_transactions)))
              s.applied_block_transactions,
          beq_self b,
        )
        (member-own h (applied_at b s))

  -- the first match, applied
  abbrev pub first_match :
      String
      → Option (List (Event A))
      → Clocks
      → String
      → ℕ
      → Store R
      → Outcome Failure (Unit {0}) × Store R
  first_match b events clocks g i s =
      apply_to chain_error decode (record { block_hash = b; extrinsic_index = i }) events clocks g
        (get g (note_applied b g s).transactions) (note_applied b g s)

  pub apply_matches-returned :
      (b : String) (events : Option (List (Event A))) (clocks : Clocks) (g : String) (i : ℕ)
      (rest : List (String × ℕ)) (s : Store R) {u : Unit {0}}
      → (first_match b events clocks g i s).0 ≡ returned u
      → apply_matches chain_error decode b events clocks ((g, i) ∷ rest) s
        ≡ apply_matches chain_error decode b events clocks rest
            (first_match b events clocks g i s).1
  unfolding apply_matches note_applied
  apply_matches-returned b events clocks g i rest s e = rw (e, apply_matches)

  pub apply_matches-raised :
      (b : String) (events : Option (List (Event A))) (clocks : Clocks) (g : String) (i : ℕ)
      (rest : List (String × ℕ)) (s : Store R) {f : Failure}
      → (first_match b events clocks g i s).0 ≡ raised f
      → apply_matches chain_error decode b events clocks ((g, i) ∷ rest) s
        ≡ (raised f, (first_match b events clocks g i s).1)
  unfolding apply_matches note_applied
  apply_matches-raised b events clocks g i rest s e = rw (e, apply_matches)

  first-applied :
      (b : String) (events : Option (List (Event A))) (clocks : Clocks) (g : String) (i : ℕ)
      (h : String) (s : Store R)
      → (member h (applied_at b s) ≡ true) ⊎ (string_eq.beq g h ≡ true)
      → member h (applied_at b (first_match b events clocks g i s).1) ≡ true
  first-applied b events clocks g i h s m =
      rw
        (apply_to-applied b _ events clocks g (get g (note_applied b g s).transactions)
          (note_applied b g s))
        (elim m [
          | inl q ↦ noted b g h s q
          | inr q ↦
              subst (λ k. member k (applied_at b (note_applied b g s)) ≡ true)
                ((string_eq.beq_iff g h).0 q) (noted-own b g s)
        ])

  keyed-cases :
      (h g : String) (i : ℕ) (rest : List (String × ℕ))
      → keyed h ((g, i) ∷ rest) ≡ true
      → (string_eq.beq g h ≡ true) ⊎ (keyed h rest ≡ true)
  keyed-cases h g i rest k = ground arith

  apply_matches-applied :
      (b : String) (events : Option (List (Event A))) (clocks : Clocks)
      (matches : List (String × ℕ)) (h : String) (s : Store R)
      → (apply_matches chain_error decode b events clocks matches s).0 ≡ returned tt
      → (member h (applied_at b s) ≡ true) ⊎ (keyed h matches ≡ true)
      → member h (applied_at b (apply_matches chain_error decode b events clocks matches s).1)
        ≡ true
  apply_matches-applied b events clocks [] h s r (inl m) = unfold apply_matches in m
  apply_matches-applied b events clocks [] h s r (inr k) = absurd (cc k)
  apply_matches-applied b events clocks ((g, i) ∷ rest) h s r m =
      elim (Outcome-cases (first_match b events clocks g i s).0) [
        | inl (u, e) ↦
            let split : (member h (applied_at b (first_match b events clocks g i s).1) ≡ true)
                ⊎ (keyed h rest ≡ true) =
              elim m [
                | inl q ↦ inl (first-applied b events clocks g i h s (inl q))
                | inr k ↦ elim (keyed-cases h g i rest k) [
                  | inl q ↦ inl (first-applied b events clocks g i h s (inr q))
                  | inr q ↦ inr q
                ]
              ] in
            rw (apply_matches-returned b events clocks g i rest s e) (
              apply_matches-applied b events clocks rest h (first_match b events clocks g i s).1
                (rw (apply_matches-returned b events clocks g i rest s e) at r) split)
        | inr (f, e) ↦ absurd (cc (rw (apply_matches-raised b events clocks g i rest s e) at r))
      ]

  apply_to-candidates :
      (p : Place) (events : Option (List (Event A))) (clocks : Clocks) (h : String)
      (o : Option (Tracked R)) (s : Store R)
      → (apply_to chain_error decode p events clocks h o s).1.block_transactions
        ≡ s.block_transactions
  unfolding apply_to
  apply_to-candidates p events clocks h none s = refl
  apply_to-candidates p events clocks h (some x) s = refl

  apply_matches-candidates :
      (b : String) (events : Option (List (Event A))) (clocks : Clocks)
      (matches : List (String × ℕ)) (s : Store R)
      → (apply_matches chain_error decode b events clocks matches s).1.block_transactions
        ≡ s.block_transactions
  unfolding note_applied
  apply_matches-candidates b events clocks [] s = unfold apply_matches in refl
  apply_matches-candidates b events clocks ((g, i) ∷ rest) s =
      let first =
        apply_to-candidates (record { block_hash = b; extrinsic_index = i }) events clocks g
          (get g (note_applied b g s).transactions) (note_applied b g s) in
      elim (Outcome-cases (first_match b events clocks g i s).0) [
        | inl (u, e) ↦ rw (apply_matches-returned b events clocks g i rest s e) (
            apply_matches-candidates b events clocks rest (first_match b events clocks g i s).1
            ∙ first)
        | inr (f, e) ↦ rw (apply_matches-raised b events clocks g i rest s e) first
      ]

  abbrev candidates_at : String → Store R → List String
  candidates_at b s = or_empty (get b s.block_transactions)

  -- the store before the matches are applied
  abbrev with_absent : String → Block A → Store R → Store R
  with_absent b block s = record s {
    applied_block_transactions =
        put b (add_absent block.extrinsic_indexes (candidates_at b s) (applied_at b s))
          s.applied_block_transactions;
  }

  nothing_to_apply :
      (b : String) (block : Block A) (later : Clocks) (t : Store R)
      → find_matches block.extrinsic_indexes (applied_at b t) (candidates_at b t) ≡ []
      → let (o, again) = resolve_block chain_error decode b block later t in
        (o ≡ returned tt) × (again.transactions ≡ t.transactions)
  unfolding resolve_block apply_matches
  nothing_to_apply b block later t e = rw e (refl, refl)

  absent-applied :
      (b h : String) (block : Block A) (s : Store R)
      → member h (candidates_at b s) ≡ true
      → (member h (applied_at b (with_absent b block s)) ≡ true)
        ⊎ (keyed h (find_matches block.extrinsic_indexes (applied_at b s) (candidates_at b s))
            ≡ true)
  absent-applied b h block s m =
      rw
        (
          get-put b b (add_absent block.extrinsic_indexes (candidates_at b s) (applied_at b s))
              s.applied_block_transactions,
          beq_self b,
        )
        (promised block.extrinsic_indexes h (candidates_at b s) (applied_at b s) (applied_at b s)
          (λ k q. q) m)

  resolved-applied :
      (b h : String) (block : Block A) (clocks : Clocks) (s : Store R)
      → (resolve_block chain_error decode b block clocks s).0 ≡ returned tt
      → member h (candidates_at b s) ≡ true
      → member h (applied_at b (resolve_block chain_error decode b block clocks s).1) ≡ true
  unfolding resolve_block
  resolved-applied b h block clocks s r m =
      apply_matches-applied b block.events clocks _ h (with_absent b block s) r
        (absent-applied b h block s m)

  resolved-candidates :
      (b : String) (block : Block A) (clocks : Clocks) (s : Store R)
      → candidates_at b (resolve_block chain_error decode b block clocks s).1 ≡ candidates_at b s
  unfolding resolve_block
  resolved-candidates b block clocks s =
      ap (λ d. or_empty (get b d))
        (apply_matches-candidates b block.events clocks _ (with_absent b block s))

  -- A block that was resolved without an exception has no effect on any transaction when it is
  -- resolved again, and that resolution returns, whatever events are fetched and whenever it happens.
  pub resolve_block_once :
      (b : String) (block : Block A) (events : Option (List (Event A))) (clocks later : Clocks)
      (s : Store R)
      → (resolve_block chain_error decode b block clocks s).0 ≡ returned tt
      → let after = (resolve_block chain_error decode b block clocks s).1 in
        let (o, again) =
          resolve_block chain_error decode b (record block { events = events }) later after in
        (o ≡ returned tt) × (again.transactions ≡ after.transactions)
  resolve_block_once b block events clocks later s r =
      let after = (resolve_block chain_error decode b block clocks s).1 in
      nothing_to_apply b (record block { events = events }) later after
        (rw (resolved-candidates b block clocks s) (
          none_left block.extrinsic_indexes (applied_at b after) (candidates_at b s)
            (λ h m. resolved-applied b h block clocks s r m)))
