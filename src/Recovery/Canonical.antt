-- ===== src/Recovery/Canonical.antt =====
-- src/deepx_sdk/_async_recovery.py: which transactions _reconcile_finalized finalizes.
use deepx_python_sdk.Prelude.{
  ℕ, ◌≤◌, ◌≡◌, refl, ap, ◌∙◌, ◌⊎◌, inl, inr, String, Option, none, some, Outcome, returned, raised,
  ltb, str_eq, eq_iff, Bool-cases, arith,
}
use deepx_python_sdk.Status.{finalized}
use deepx_python_sdk.Ticket.{Ticket}
use deepx_python_sdk.Pending.{mark_reconciliation_required}
use deepx_python_sdk.Tracker.{Clocks}
use deepx_python_sdk.Tracker.Reconcile.{Gap, require_reconciliation, note_gap, is_open}
use deepx_python_sdk.Recovery.Diagnose.{require_for_mismatch}
use deepx_python_sdk.Recovery.Finality.{
  at_hash, inspect_number, inspect_block, settle_canonical, settle_inspected,
}

-- `block` is the block of the chain at its number, which is not above the finalized one
pub record IsCanonical (header_number : String → Outcome String (Option ℕ))
    (hash_at : ℕ → Outcome String String) (finalized_number : ℕ) (block : String) : Type 0 where
  pub number : ℕ
  pub in_header : header_number block ≡ returned (some number)
  pub not_later : number ≤ finalized_number
  pub on_chain : hash_at number ≡ returned block

module _ {R : Type 0} where
  reconcile-finalized :
      (g : Gap) (clocks : Clocks) (t : Ticket R)
      → (require_reconciliation g clocks t).1.status ≡ finalized
      → t.status ≡ finalized
  unfolding require_reconciliation mark_reconciliation_required note_gap is_open
  reconcile-finalized g clocks t h = ground arith

  canonical_settled :
      (finalized_number : ℕ) (finalized_hash endpoint : String) (clocks : Clocks) (included : ℕ)
      (canonical block : String) (t : Ticket R)
      → (settle_canonical finalized_number finalized_hash endpoint clocks included canonical block
          t).1.status
        ≡ finalized
      → (t.status ≡ finalized) ⊎ (canonical ≡ block)
  unfolding settle_canonical require_for_mismatch
  canonical_settled fn fh endpoint clocks included canonical block t h =
      elim (Bool-cases (str_eq canonical block)) [
        | inl e ↦ inr ((eq_iff canonical block).0 e)
        | inr e ↦ inl (reconcile-finalized _ clocks t (rw e at h))
      ]

  module _ (header_number : String → Outcome String (Option ℕ))
      (hash_at : ℕ → Outcome String String) (finalized_number : ℕ)
      (finalized_hash endpoint : String) (clocks : Clocks) (block : String) (t : Ticket R) where
    by_hash :
        (n : ℕ) (q : Outcome String String)
        → header_number block ≡ returned (some n)
        → n ≤ finalized_number
        → hash_at n ≡ q
        → (settle_inspected finalized_number finalized_hash endpoint clocks
            (at_hash n q)
            block
            t).1.status
          ≡ finalized
        → (t.status ≡ finalized) ⊎ IsCanonical header_number hash_at finalized_number block
    unfolding settle_inspected
    by_hash n (raised cause) e l q h = inl h
    by_hash n (returned canonical) e l q h =
        elim (canonical_settled finalized_number finalized_hash endpoint clocks n canonical block t
          h) [
            | inl k ↦ inl k
            | inr k ↦
                inr (record {
                  number = n;
                  in_header = e;
                  not_later = l;
                  on_chain = q ∙ ap returned k;
                })
          ]

    by_number :
        (o : Outcome String (Option ℕ))
        → header_number block ≡ o
        → (settle_inspected finalized_number finalized_hash endpoint clocks
            (inspect_number hash_at finalized_number o)
            block
            t).1.status
          ≡ finalized
        → (t.status ≡ finalized) ⊎ IsCanonical header_number hash_at finalized_number block
    unfolding inspect_number settle_inspected
    by_number (raised cause) e h = inl h
    by_number (returned none) e h = inl h
    by_number (returned (some n)) e h = elim (Bool-cases (ltb finalized_number n)) [
      | inl b ↦ inl (rw b at h)
      | inr b ↦ by_hash n (hash_at n) e (ground (arith, b)) refl (rw b at h)
    ]

    -- A transaction that was not finalized before is finalized by the reconciliation of its block
    -- only if the header of that block gives a number that is not above the finalized one, and the
    -- chain has that block at this number.
    pub finalized_is_canonical :
        (settle_inspected finalized_number finalized_hash endpoint clocks
            (inspect_block header_number hash_at finalized_number block)
            block
            t).1.status
          ≡ finalized
        → (t.status ≡ finalized) ⊎ IsCanonical header_number hash_at finalized_number block
    unfolding inspect_block
    finalized_is_canonical h = by_number (header_number block) refl h
