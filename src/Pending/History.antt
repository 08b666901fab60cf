-- ===== src/Pending/History.antt =====
-- src/deepx_sdk/_pending_tx.py: the queue behind `updates()` as the history of a handle.
use deepx_python_sdk.Prelude.{
  ◌≡◌, ◌⊎◌, inl, inr, Bool, true, false, Option, none, some, List, [], ◌∷◌, ◌++◌, String, arith,
  refl, ℕ, ◌∙◌, Bool-cases,
}
use deepx_python_sdk.Status.{
  TxStatus, created, submitted, in_block_success, in_block_failed, invalid, dropped, usurped,
  retracted, reconciliation_required, client_closed, is_terminal, is_legal,
}
use deepx_python_sdk.Ticket.{TxTimeouts, QueueItem, update, finish, Ticket, new_ticket}
use deepx_python_sdk.Pending.{Change, no_change, advance, complete_error, closed_error, end_mark}
use deepx_python_sdk.Pending.Waits.{is_finalized}
use deepx_python_sdk.Pending.Invariant.{
  Call, submitting, accept, succeed, fail, finalize, retract, reject_invalid, drop, not_include,
  usurp, require_reconciliation, close, step, run,
}

-- The updates, read from the status `s`, lead to the status `t`: each starts where the one before
-- it ended and follows the table, and nothing comes after the end mark.
abbrev pub Leads : TxStatus → List QueueItem → TxStatus → Type 0
Leads s [] t = s ≡ t
Leads s (update u ∷ rest) t =
    (u.previous_status ≡ s) × (is_legal s u.status ≡ true) × Leads u.status rest t
Leads s (finish ∷ rest) t = (is_terminal s ≡ true) × (rest ≡ []) × (s ≡ t)

abbrev pub has_finish : List QueueItem → Bool
has_finish [] = false
has_finish (update u ∷ rest) = has_finish rest
has_finish (finish ∷ rest) = true

-- some update in the queue entered the status `s`
abbrev pub Entered : TxStatus → List QueueItem → Type 0
Entered s [] = ⊥
Entered s (update u ∷ rest) = (u.status ≡ s) ⊎ Entered s rest
Entered s (finish ∷ rest) = Entered s rest

Leads-append :
    (s : TxStatus) (xs : List QueueItem) (t : TxStatus) (ys : List QueueItem) (u : TxStatus)
    → Leads s xs t
    → is_terminal t ≡ false
    → Leads t ys u
    → Leads s (xs ++ ys) u
Leads-append s [] t ys u h n k = ground arith
Leads-append s (update v ∷ xs) t ys u h n k = (h.0, h.1, Leads-append v.status xs t ys u h.2 n k)
Leads-append s (finish ∷ xs) t ys u h n k = ground arith

has_finish-append :
    (xs ys : List QueueItem) → has_finish xs ≡ false → has_finish (xs ++ ys) ≡ has_finish ys
has_finish-append [] ys h = refl
has_finish-append (update v ∷ xs) ys h = has_finish-append xs ys h
has_finish-append (finish ∷ xs) ys h = cc

legal_not_terminal : (s t : TxStatus) → is_legal s t ≡ true → is_terminal s ≡ false
unfolding is_legal is_terminal
legal_not_terminal s t h = ground arith

end_mark_lem :
    (s t : TxStatus)
    → is_legal s t ≡ true
    → Leads t (end_mark t) t × (has_finish (end_mark t) ≡ is_terminal t)
unfolding end_mark
end_mark_lem s t h = ground arith

module _ {R : Type 0} where
  -- the transition that a call asks for
  target_of : Call R → TxStatus
  target_of (submitting now) = TxStatus.submitting
  target_of (accept node_status now) = submitted
  target_of (succeed result block extrinsic now) = in_block_success
  target_of (fail e now) = in_block_failed
  target_of (finalize block now) = TxStatus.finalized
  target_of (retract now) = retracted
  target_of (reject_invalid e now) = invalid
  target_of (drop e now) = dropped
  target_of (not_include e now) = TxStatus.not_included
  target_of (usurp e now) = usurped
  target_of (require_reconciliation e now) = reconciliation_required
  target_of _ = client_closed

  time_of : Call R → ℕ
  time_of (submitting now) = now
  time_of (accept node_status now) = now
  time_of (succeed result block extrinsic now) = now
  time_of (fail e now) = now
  time_of (finalize block now) = now
  time_of (retract now) = now
  time_of (reject_invalid e now) = now
  time_of (drop e now) = now
  time_of (not_include e now) = now
  time_of (usurp e now) = now
  time_of (require_reconciliation e now) = now
  time_of (close e now clock) = now
  time_of _ = 0

  change_of : Call R → Ticket R → Change
  change_of (accept node_status now) t = record no_change { node_status = node_status }
  change_of (succeed result block extrinsic now) t = record no_change {
    block_hash = some block;
    extrinsic_hash = some extrinsic;
  }
  change_of (fail e now) t = record no_change { error = some (complete_error t e) }
  change_of (finalize block now) t = record no_change { block_hash = block }
  change_of (reject_invalid e now) t = record no_change { error = some (complete_error t e) }
  change_of (drop e now) t = record no_change { error = some (complete_error t e) }
  change_of (not_include e now) t = record no_change { error = some (complete_error t e) }
  change_of (usurp e now) t = record no_change { error = some (complete_error t e) }
  change_of (require_reconciliation e now) t = record no_change {
    error = some (complete_error t e);
  }
  change_of (close none now clock) t = record no_change {
    error = some (complete_error t (closed_error clock t));
  }
  change_of (close (some e) now clock) t = record no_change { error = some (complete_error t e) }
  change_of _ t = no_change

  step_shape :
      (c : Call R) (t : Ticket R)
      → ((step c t).updates ≡ t.updates) × ((step c t).status ≡ t.status)
        ⊎ (is_legal t.status (target_of c) ≡ true)
          × ((step c t).status ≡ target_of c)
          × ((step c t).updates ≡ (advance (target_of c) (change_of c t) (time_of c) t).updates)
  unfolding step target_of time_of change_of
  step_shape (submitting now) t = ground arith
  step_shape (close none now clock) t = ground arith
  step_shape _ t = ground arith

  -- the queue tells the history of the handle
  pub record IsHistory (t : Ticket R) : Type 0 where
    pub leads : Leads created t.updates t.status
    pub ended : has_finish t.updates ≡ is_terminal t.status

  advance-IsHistory :
      (target : TxStatus) (c : Change) (now : ℕ) (t : Ticket R)
      → is_legal t.status target ≡ true
      → IsHistory t
      → IsHistory (advance target c now t)
  unfolding advance end_mark
  advance-IsHistory target c now t l h =
      let open_end = legal_not_terminal t.status target l in
      let (tail, ended) = end_mark_lem t.status target l in
      record {
        leads = Leads-append created t.updates t.status _ target h.leads open_end (refl, l, tail);
        ended = has_finish-append t.updates _ (h.ended ∙ open_end) ∙ ended;
      }

  step-IsHistory : (c : Call R) (t : Ticket R) → IsHistory t → IsHistory (step c t)
  step-IsHistory c t h = elim (step_shape c t) [
    | inl (same, still) ↦ record {
      leads = rw (same, still) h.leads;
      ended = rw (same, still) h.ended;
    }
    | inr (l, status, items) ↦
        let next = advance-IsHistory (target_of c) (change_of c t) (time_of c) t l h in
        record {
          leads = rw (items, status) (unfold advance in next.leads);
          ended = rw (items, status) (unfold advance in next.ended);
        }
  ]

  run-IsHistory : (cs : List (Call R)) (t : Ticket R) → IsHistory t → IsHistory (run cs t)
  unfolding run
  run-IsHistory [] t h = h
  run-IsHistory (c ∷ cs) t h = run-IsHistory cs (step c t) (step-IsHistory c t h)

  -- For a handle that was just created, after any sequence of calls: its updates form a chain from CREATED to
  -- its status, each starting where the one before it ended and allowed by the table; the end mark
  -- is in the queue exactly when the status is terminal, and nothing comes after it.
  pub IsHistory-always :
      (i : ℕ) (tx_hash : String) (n : ℕ) (cloid : Option ℕ) (limits : TxTimeouts) (k : Option ℕ)
      (now clock : ℕ) (cs : List (Call R))
      → IsHistory (run cs (new_ticket i tx_hash n cloid limits k now clock))
  IsHistory-always i tx_hash n cloid limits k now clock cs =
      run-IsHistory cs (new_ticket i tx_hash n cloid limits k now clock) new_history
    where
      new_history : IsHistory (new_ticket {R = R} i tx_hash n cloid limits k now clock)
      new_history = record {
        leads = unfold new_ticket in refl;
        ended = unfold new_ticket is_terminal in refl;
      }

finalized-Entered :
    (s : TxStatus) (xs : List QueueItem)
    → Leads s xs TxStatus.finalized
    → is_finalized s ≡ false
    → (s ≡ in_block_success) ⊎ Entered in_block_success xs
unfolding is_legal is_finalized
finalized-Entered s [] h n = ground arith
finalized-Entered s (update u ∷ xs) h n = elim (Bool-cases (is_finalized u.status)) [
  | inl e ↦ inl (ground arith)
  | inr e ↦ elim (finalized-Entered u.status xs h.2 e) [ inl p ↦ inr (inl p) | inr q ↦ inr (inr q) ]
]
finalized-Entered s (finish ∷ xs) h n = ground arith

-- A handle whose history leads to FINALIZED was IN_BLOCK_SUCCESS before: some update entered it.
pub finalized_after_block :
    {R : Type 0} (t : Ticket R)
    → IsHistory t
    → t.status ≡ TxStatus.finalized
    → Entered in_block_success t.updates
finalized_after_block t h e =
    elim (finalized-Entered created t.updates (rw e at h.leads) (unfold is_finalized in refl)) [
      | inl p ↦ absurd (cc p)
      | inr q ↦ q
    ]
