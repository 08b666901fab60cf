-- ===== src/Tracker/Early.antt =====
-- src/deepx_sdk/_async_tracker.py: a block that holds a transaction whose submission was not
-- answered yet.
use deepx_python_sdk.Prelude.{
  ℕ, ◌≡◌, String, Option, none, some, List, Outcome, returned, raised, arith,
}
use deepx_python_sdk.Status.{TxStatus, in_block_success, in_block_failed, reconciliation_required}
use deepx_python_sdk.Diagnostics.{TransactionError}
use deepx_python_sdk.Ticket.{Ticket}
use deepx_python_sdk.Pending.{
  Failure, illegal_transition, mark_in_block_success, mark_in_block_failed,
  mark_reconciliation_required,
}
use deepx_python_sdk.Tracker.{Tracked, Clocks, ExpectedEvent}
use deepx_python_sdk.Tracker.Events.{
  Event, Place, note_place, filter_events_for_extrinsic, failed_attrs, mark_included_unresolved,
  apply_decoded, apply_match, apply_failed, apply_block,
}
use deepx_python_sdk.Tracker.Verdict.{
  Verdict, success, failure, unresolved, judged, judge_match, judge,
}

-- what becomes of a submitting handle after its verdict
abbrev pub Refused : {R : Type 0} → Verdict R → Outcome Failure (Unit {0}) × Ticket R → Type 0
Refused (success r) (o, t) =
    (o ≡ raised (illegal_transition TxStatus.submitting in_block_success))
    × (t.status ≡ TxStatus.submitting)
Refused failure (o, t) =
    (o ≡ raised (illegal_transition TxStatus.submitting in_block_failed))
    × (t.status ≡ TxStatus.submitting)
Refused unresolved (o, t) = (o ≡ returned tt) × (t.status ≡ reconciliation_required)

module _ {R : Type 0} where
  success-Refused :
      (r : Option R) (b x : String) (now : ℕ) (t : Ticket R)
      → t.status ≡ TxStatus.submitting
      → Refused (success r) (mark_in_block_success r b x now t)
  unfolding mark_in_block_success
  success-Refused r b x now t h = ground arith

  failure-Refused :
      (e : TransactionError) (now : ℕ) (t : Ticket R)
      → t.status ≡ TxStatus.submitting
      → Refused failure (mark_in_block_failed e now t)
  unfolding mark_in_block_failed
  failure-Refused e now t h = ground arith

  unresolved-Refused :
      (p : Place) (reason cause : String) (clocks : Clocks) (t : Ticket R)
      → t.status ≡ TxStatus.submitting
      → Refused unresolved (mark_included_unresolved p reason cause clocks t)
  unfolding mark_included_unresolved mark_reconciliation_required note_place
  unresolved-Refused p reason cause clocks t h = ground arith

  module _ {A : Type 0} (chain_error : A → Option String)
      (decode : Option A → Ticket R → Outcome String (Option R)) where
    decoded-Refused :
        (p : Place) (o : Outcome String (Option R)) (clocks : Clocks) (t : Ticket R)
        → t.status ≡ TxStatus.submitting
        → Refused (judged o) (apply_decoded chain_error decode p o clocks t)
    unfolding apply_decoded
    decoded-Refused p (returned r) clocks t h = success-Refused r _ _ _ t h
    decoded-Refused p (raised e) clocks t h = unresolved-Refused p _ e clocks t h

    match-Refused :
        (p : Place) (o : Option (Event A)) (clocks : Clocks) (t : Ticket R)
        → t.status ≡ TxStatus.submitting
        → Refused (judge_match (λ a. decode a t) o) (apply_match chain_error decode p o clocks t)
    unfolding apply_match
    match-Refused p none clocks t h = unresolved-Refused p _ _ clocks t h
    match-Refused p (some e) clocks t h = decoded-Refused p (decode e.attributes t) clocks t h

    failed-Refused :
        (p : Place) (expected : ExpectedEvent) (es : List (Event A)) (o : Option A)
        (clocks : Clocks) (t : Ticket R)
        → t.status ≡ TxStatus.submitting
        → Refused
            (judge (λ a. decode a t) expected es o)
            (apply_failed chain_error decode p expected es o clocks t)
    unfolding apply_failed
    failed-Refused p expected es none clocks t h = match-Refused p _ clocks t h
    failed-Refused p expected es (some a) clocks t h = failure-Refused _ _ t h

    -- For a transaction that is still being submitted when it is found in a block whose events were
    -- fetched: a verdict of success or of failure raises an illegal transition and leaves the
    -- transaction submitting; every other verdict returns and asks for reconciliation.
    pub submitting_verdict :
        (p : Place) (es : List (Event A)) (clocks : Clocks) (x : Tracked R)
        → x.pending.status ≡ TxStatus.submitting
        → let scoped = filter_events_for_extrinsic p.extrinsic_index es in
          Refused
            (judge
              (λ a. decode a (note_place p x.pending))
              x.expected_event
              scoped
              (failed_attrs scoped))
            (apply_block chain_error decode p (some es) clocks x)
    unfolding apply_block note_place
    submitting_verdict p es clocks x h =
        failed-Refused p x.expected_event _ _ clocks (note_place p x.pending) h
