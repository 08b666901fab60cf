-- ===== src/Tracker/Safety.antt =====
-- src/deepx_sdk/_async_tracker.py: what holds of a tracked transaction under any sequence of
-- notifications, block resolutions, finalizations and reconciliations.
use deepx_python_sdk.Prelude.{
  ℕ, ◌≡◌, refl, String, false, Option, none, some, List, [], ◌∷◌, Outcome, returned, raised, arith,
  is_none, if_both,
}
use deepx_python_sdk.Diagnostics.{TransactionError, from_node_reason}
use deepx_python_sdk.Ticket.{Ticket, RecoveryDiagnostics}
use deepx_python_sdk.Pending.{
  Failure, mark_submitted, mark_retracted, mark_invalid, mark_dropped, mark_usurped,
  mark_in_block_success, mark_in_block_failed, mark_reconciliation_required, mark_finalized,
}
use deepx_python_sdk.Pending.Waits.{safe_to_retry}
use deepx_python_sdk.Pending.Invariant.{
  Call, not_include, close, accept, succeed, fail, finalize, retract, reject_invalid, drop, usurp,
  require_reconciliation as needs_reconciliation, step, IsCoherent,
}
use deepx_python_sdk.Pending.Coherence.{step-IsCoherent}
use deepx_python_sdk.Tracker.{
  Tracked, Clocks, ExpectedEvent, error_about, record_submission_endpoint,
}
use deepx_python_sdk.Tracker.Status.{
  JsonValue, text, other, NodeStatus, pooled, classify, handle_entry, handle_status, accept_or_note,
  before_acceptance,
}
use deepx_python_sdk.Tracker.Events.{
  Event, Place, apply_block, apply_failed, apply_match, apply_decoded, mark_included_unresolved,
  note_place, execution_error,
}
use deepx_python_sdk.Tracker.Reconcile.{
  Gap, is_open, is_in_block, finalize_ancestor, note_gap, require_reconciliation,
}

-- what the tracker promises of a handle after submission
pub record IsTracked {R : Type 0} (t : Ticket R) : Type 0 where
  pub coherent : IsCoherent t
  pub no_retry : safe_to_retry t ≡ false

abbrev pub AfterTracked : {R : Type 0} → Outcome Failure (Unit {0}) × Ticket R → Type 0
AfterTracked r = IsTracked r.1

-- the error that a call brings, if any, does not offer a retry
abbrev pub OffersNoRetry : {R : Type 0} → Call R → Type 0
OffersNoRetry (fail e now) = e.retryable ≡ false
OffersNoRetry (reject_invalid e now) = e.retryable ≡ false
OffersNoRetry (drop e now) = e.retryable ≡ false
OffersNoRetry (not_include e now) = e.retryable ≡ false
OffersNoRetry (usurp e now) = e.retryable ≡ false
OffersNoRetry (needs_reconciliation e now) = e.retryable ≡ false
OffersNoRetry (close none now clock) = Unit
OffersNoRetry (close (some e) now clock) = e.retryable ≡ false
OffersNoRetry _ = Unit

module _ {R : Type 0} where
  step_no_retry :
      (c : Call R) (t : Ticket R)
      → OffersNoRetry c
      → safe_to_retry t ≡ false
      → safe_to_retry (step c t) ≡ false
  unfolding step safe_to_retry
  step_no_retry (close none now clock) t n h = ground arith
  step_no_retry (close (some e) now clock) t n h = ground arith
  step_no_retry _ t n h = ground arith

  pub step-IsTracked :
      (c : Call R) (t : Ticket R) → OffersNoRetry c → IsTracked t → IsTracked (step c t)
  step-IsTracked c t n h = record {
    coherent = step-IsCoherent c t h.coherent;
    no_retry = step_no_retry c t n h.no_retry;
  }

  submitted-IsTracked :
      (s : Option String) (now : ℕ) (t : Ticket R)
      → IsTracked t
      → IsTracked (mark_submitted s now t).1
  unfolding step
  submitted-IsTracked s now t h = step-IsTracked (accept s now) t tt h

  success-IsTracked :
      (r : Option R) (b x : String) (now : ℕ) (t : Ticket R)
      → IsTracked t
      → IsTracked (mark_in_block_success r b x now t).1
  unfolding step
  success-IsTracked r b x now t h = step-IsTracked (succeed r b x now) t tt h

  failed_mark-IsTracked :
      (e : TransactionError) (now : ℕ) (t : Ticket R)
      → e.retryable ≡ false
      → IsTracked t
      → IsTracked (mark_in_block_failed e now t).1
  unfolding step
  failed_mark-IsTracked e now t n h = step-IsTracked (fail e now) t n h

  finalized-IsTracked :
      (b : Option String) (now : ℕ) (t : Ticket R)
      → IsTracked t
      → IsTracked (mark_finalized b now t).1
  unfolding step
  finalized-IsTracked b now t h = step-IsTracked (finalize b now) t tt h

  retracted-IsTracked : (now : ℕ) (t : Ticket R) → IsTracked t → IsTracked (mark_retracted now t).1
  unfolding step
  retracted-IsTracked now t h = step-IsTracked (retract now) t tt h

  invalid-IsTracked :
      (e : TransactionError) (now : ℕ) (t : Ticket R)
      → e.retryable ≡ false
      → IsTracked t
      → IsTracked (mark_invalid e now t).1
  unfolding step
  invalid-IsTracked e now t n h = step-IsTracked (reject_invalid e now) t n h

  dropped-IsTracked :
      (e : TransactionError) (now : ℕ) (t : Ticket R)
      → e.retryable ≡ false
      → IsTracked t
      → IsTracked (mark_dropped e now t).1
  unfolding step
  dropped-IsTracked e now t n h = step-IsTracked (drop e now) t n h

  usurped-IsTracked :
      (e : TransactionError) (now : ℕ) (t : Ticket R)
      → e.retryable ≡ false
      → IsTracked t
      → IsTracked (mark_usurped e now t).1
  unfolding step
  usurped-IsTracked e now t n h = step-IsTracked (usurp e now) t n h

  reconciled-IsTracked :
      (e : TransactionError) (now : ℕ) (t : Ticket R)
      → e.retryable ≡ false
      → IsTracked t
      → IsTracked (mark_reconciliation_required e now t).1
  unfolding step
  reconciled-IsTracked e now t n h = step-IsTracked (needs_reconciliation e now) t n h

  -- notes on the handle change nothing of this
  pub note-IsTracked :
      (n : Option String) (d : RecoveryDiagnostics) (t : Ticket R)
      → IsTracked t
      → IsTracked (record t { node_status = n; recovery = d })
  unfolding safe_to_retry
  note-IsTracked n d t h = record {
    coherent = record {
      error_on_failure = h.coherent.error_on_failure;
      finalized_result = h.coherent.finalized_result;
      submitted_waits = h.coherent.submitted_waits;
      in_block_waits = h.coherent.in_block_waits;
      finalized_waits = h.coherent.finalized_waits;
      in_block_given = h.coherent.in_block_given;
      finalized_given = h.coherent.finalized_given;
    };
    no_retry = h.no_retry;
  }

  endpoint-IsTracked :
      (endpoint : String) (t : Ticket R)
      → IsTracked t
      → IsTracked (record_submission_endpoint endpoint t)
  unfolding record_submission_endpoint
  endpoint-IsTracked endpoint t h =
      if_both IsTracked (is_none t.recovery.submission_endpoint) _ t
        (note-IsTracked t.node_status _ t h) h

  accept_or_note-IsTracked :
      (s : String) (now : ℕ) (t : Ticket R) → IsTracked t → IsTracked (accept_or_note s now t)
  unfolding accept_or_note
  accept_or_note-IsTracked s now t h =
      if_both IsTracked (before_acceptance t.status) _ _ (submitted-IsTracked (some s) now t h)
        (note-IsTracked (some s) t.recovery t h)

  handle_entry-IsTracked :
      (endpoint s : String) (v : JsonValue) (k : NodeStatus) (clocks : Clocks) (x : Tracked R)
      → IsTracked x.pending
      → IsTracked (handle_entry endpoint s v k clocks x).tracked.pending
  unfolding handle_entry error_about from_node_reason
  handle_entry-IsTracked endpoint s v pooled clocks x h =
      submitted-IsTracked (some s) clocks.now (record_submission_endpoint endpoint x.pending)
        (endpoint-IsTracked endpoint x.pending h)
  handle_entry-IsTracked endpoint s (text b) NodeStatus.in_block clocks x h =
      accept_or_note-IsTracked s clocks.now _ (endpoint-IsTracked endpoint x.pending h)
  handle_entry-IsTracked endpoint s other NodeStatus.in_block clocks x h = h
  handle_entry-IsTracked endpoint s (text b) NodeStatus.finalized clocks x h =
      accept_or_note-IsTracked s clocks.now _ (endpoint-IsTracked endpoint x.pending h)
  handle_entry-IsTracked endpoint s other NodeStatus.finalized clocks x h = h
  handle_entry-IsTracked endpoint s v NodeStatus.finality_timeout clocks x h =
      note-IsTracked (some s) x.pending.recovery x.pending h
  handle_entry-IsTracked endpoint s v NodeStatus.invalid clocks x h =
      invalid-IsTracked _ clocks.now x.pending refl h
  handle_entry-IsTracked endpoint s v NodeStatus.dropped clocks x h =
      dropped-IsTracked _ clocks.now x.pending refl h
  handle_entry-IsTracked endpoint s v NodeStatus.usurped clocks x h =
      usurped-IsTracked _ clocks.now x.pending refl h
  handle_entry-IsTracked endpoint s v NodeStatus.retracted clocks x h =
      retracted-IsTracked clocks.now _ (note-IsTracked (some s) x.pending.recovery x.pending h)
  handle_entry-IsTracked endpoint s v NodeStatus.unknown_status clocks x h = h

  pub handle_status-IsTracked :
      (endpoint : String) (u : Option (List (String × JsonValue))) (clocks : Clocks) (x : Tracked R)
      → IsTracked x.pending
      → IsTracked (handle_status endpoint u clocks x).tracked.pending
  unfolding handle_status
  handle_status-IsTracked endpoint none clocks x h = h
  handle_status-IsTracked endpoint (some []) clocks x h = h
  handle_status-IsTracked endpoint (some ((s, v) ∷ [])) clocks x h =
      handle_entry-IsTracked endpoint s v (classify s) clocks x h
  handle_status-IsTracked endpoint (some (a ∷ b ∷ rest)) clocks x h = h

  unresolved-IsTracked :
      (p : Place) (reason cause : String) (clocks : Clocks) (t : Ticket R)
      → IsTracked t
      → IsTracked (mark_included_unresolved p reason cause clocks t).1
  unfolding mark_included_unresolved note_place error_about
  unresolved-IsTracked p reason cause clocks t h =
      reconciled-IsTracked _ clocks.now _ refl (note-IsTracked t.node_status _ t h)

  pub reconcile-IsTracked :
      (g : Gap) (clocks : Clocks) (t : Ticket R)
      → IsTracked t
      → IsTracked (require_reconciliation g clocks t).1
  unfolding require_reconciliation note_gap error_about
  reconcile-IsTracked g clocks t h =
      if_both AfterTracked (is_open t.status) _ _
        (reconciled-IsTracked _ clocks.now _ refl (note-IsTracked t.node_status _ t h)) h

  pub finalize-IsTracked :
      (block : String) (now : ℕ) (t : Ticket R)
      → IsTracked t
      → IsTracked (finalize_ancestor block now t).1
  unfolding finalize_ancestor
  finalize-IsTracked block now t h =
      if_both AfterTracked (is_in_block t.status) _ _ (finalized-IsTracked (some block) now t h) h

  module _ {A : Type 0} (chain_error : A → Option String)
      (decode : Option A → Ticket R → Outcome String (Option R)) where
    decoded-IsTracked :
        (p : Place) (o : Outcome String (Option R)) (clocks : Clocks) (t : Ticket R)
        → IsTracked t
        → IsTracked (apply_decoded chain_error decode p o clocks t).1
    unfolding apply_decoded
    decoded-IsTracked p (returned r) clocks t h =
        success-IsTracked r p.block_hash t.tx_hash clocks.now t h
    decoded-IsTracked p (raised e) clocks t h = unresolved-IsTracked p _ e clocks t h

    match-IsTracked :
        (p : Place) (o : Option (Event A)) (clocks : Clocks) (t : Ticket R)
        → IsTracked t
        → IsTracked (apply_match chain_error decode p o clocks t).1
    unfolding apply_match
    match-IsTracked p none clocks t h = unresolved-IsTracked p _ _ clocks t h
    match-IsTracked p (some e) clocks t h = decoded-IsTracked p (decode e.attributes t) clocks t h

    no_retry_error :
        (o : Option String) (clocks : Clocks) (t : Ticket R)
        → (execution_error o clocks t).retryable ≡ false
    unfolding execution_error
    no_retry_error none clocks t = refl
    no_retry_error (some c) clocks t = refl

    failed-IsTracked :
        (p : Place) (expected : ExpectedEvent) (es : List (Event A)) (o : Option A)
        (clocks : Clocks) (t : Ticket R)
        → IsTracked t
        → IsTracked (apply_failed chain_error decode p expected es o clocks t).1
    unfolding apply_failed
    failed-IsTracked p expected es none clocks t h = match-IsTracked p _ clocks t h
    failed-IsTracked p expected es (some a) clocks t h =
        failed_mark-IsTracked _ clocks.now t (no_retry_error (chain_error a) clocks t) h

    pub block-IsTracked :
        (p : Place) (es : Option (List (Event A))) (clocks : Clocks) (x : Tracked R)
        → IsTracked x.pending
        → IsTracked (apply_block chain_error decode p es clocks x).1
    unfolding apply_block note_place
    block-IsTracked p none clocks x h = unresolved-IsTracked p _ _ clocks x.pending h
    block-IsTracked p (some es) clocks x h =
        failed-IsTracked p x.expected_event _ _ clocks _
          (note-IsTracked x.pending.node_status _ x.pending h)
