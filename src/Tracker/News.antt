-- ===== src/Tracker/News.antt =====
-- src/deepx_sdk/_async_tracker.py: what a notification does to the status of a handle.
use deepx_python_sdk.Prelude.{
  ℕ, ◌≡◌, ◌↔◌, refl, String, Bool, true, false, Option, none, some, List, [], ◌∷◌, returned, arith,
}
use deepx_python_sdk.Status.{TxStatus, in_block_success, in_block_failed}
use deepx_python_sdk.Diagnostics.{TransactionError}
use deepx_python_sdk.Ticket.{Ticket}
use deepx_python_sdk.Pending.{
  mark_submitted, mark_retracted, mark_invalid, mark_dropped, mark_usurped,
}
use deepx_python_sdk.Tracker.{Tracked, Clocks, record_submission_endpoint}
use deepx_python_sdk.Tracker.Status.{
  JsonValue, text, other, NodeStatus, pooled, classify, handle_entry, handle_status, accept_or_note,
  before_acceptance,
}

-- the statuses that say how the transaction went in a block
unfoldable pub reports_outcome : TxStatus → Bool
reports_outcome in_block_success = true
reports_outcome in_block_failed = true
reports_outcome TxStatus.finalized = true
reports_outcome _ = false

-- a status that reports an outcome was there before
abbrev NoNews : {R : Type 0} → Ticket R → Ticket R → Type 0
NoNews t u = reports_outcome u.status ≡ true → u.status ≡ t.status

module _ {R : Type 0} where
  submitted-NoNews :
      (s : Option String) (now : ℕ) (t : Ticket R) → NoNews t (mark_submitted s now t).1
  unfolding mark_submitted reports_outcome
  submitted-NoNews s now t h = ground arith

  retracted-NoNews : (now : ℕ) (t : Ticket R) → NoNews t (mark_retracted now t).1
  unfolding mark_retracted reports_outcome
  retracted-NoNews now t h = ground arith

  invalid-NoNews :
      (e : TransactionError) (now : ℕ) (t : Ticket R) → NoNews t (mark_invalid e now t).1
  unfolding mark_invalid reports_outcome
  invalid-NoNews e now t h = ground arith

  dropped-NoNews :
      (e : TransactionError) (now : ℕ) (t : Ticket R) → NoNews t (mark_dropped e now t).1
  unfolding mark_dropped reports_outcome
  dropped-NoNews e now t h = ground arith

  usurped-NoNews :
      (e : TransactionError) (now : ℕ) (t : Ticket R) → NoNews t (mark_usurped e now t).1
  unfolding mark_usurped reports_outcome
  usurped-NoNews e now t h = ground arith

  endpoint_status :
      (endpoint : String) (t : Ticket R) → (record_submission_endpoint endpoint t).status ≡ t.status
  unfolding record_submission_endpoint
  endpoint_status endpoint t = ground arith

  accept_or_note-NoNews :
      (endpoint s : String) (now : ℕ) (t : Ticket R)
      → NoNews t (accept_or_note s now (record_submission_endpoint endpoint t))
  unfolding accept_or_note mark_submitted record_submission_endpoint before_acceptance
      reports_outcome
  accept_or_note-NoNews endpoint s now t h = ground arith

  pooled-NoNews :
      (endpoint : String) (s : Option String) (now : ℕ) (t : Ticket R)
      → NoNews t (mark_submitted s now (record_submission_endpoint endpoint t)).1
  unfolding mark_submitted record_submission_endpoint reports_outcome
  pooled-NoNews endpoint s now t h = ground arith

  entry-NoNews :
      (endpoint s : String) (v : JsonValue) (k : NodeStatus) (clocks : Clocks) (x : Tracked R)
      → NoNews x.pending (handle_entry endpoint s v k clocks x).tracked.pending
  unfolding handle_entry
  entry-NoNews endpoint s v pooled clocks x = pooled-NoNews endpoint (some s) clocks.now x.pending
  entry-NoNews endpoint s (text b) NodeStatus.in_block clocks x =
      accept_or_note-NoNews endpoint s clocks.now x.pending
  entry-NoNews endpoint s other NodeStatus.in_block clocks x = λ h. refl
  entry-NoNews endpoint s (text b) NodeStatus.finalized clocks x =
      accept_or_note-NoNews endpoint s clocks.now x.pending
  entry-NoNews endpoint s other NodeStatus.finalized clocks x = λ h. refl
  entry-NoNews endpoint s v NodeStatus.finality_timeout clocks x = λ h. refl
  entry-NoNews endpoint s v NodeStatus.invalid clocks x = invalid-NoNews _ clocks.now x.pending
  entry-NoNews endpoint s v NodeStatus.dropped clocks x = dropped-NoNews _ clocks.now x.pending
  entry-NoNews endpoint s v NodeStatus.usurped clocks x = usurped-NoNews _ clocks.now x.pending
  entry-NoNews endpoint s v NodeStatus.retracted clocks x =
      retracted-NoNews clocks.now (record x.pending { node_status = some s })
  entry-NoNews endpoint s v NodeStatus.unknown_status clocks x = λ h. refl

  -- A notification alone never reports an outcome: if the status after `_handle_status` is
  -- success, failure or finality in a block, it is the status from before the notification,
  -- whatever the node sent.
  pub notification_no_outcome :
      (endpoint : String) (u : Option (List (String × JsonValue))) (clocks : Clocks) (x : Tracked R)
      → reports_outcome (handle_status endpoint u clocks x).tracked.pending.status ≡ true
      → (handle_status endpoint u clocks x).tracked.pending.status ≡ x.pending.status
  unfolding handle_status
  notification_no_outcome endpoint none clocks x = λ h. refl
  notification_no_outcome endpoint (some []) clocks x = λ h. refl
  notification_no_outcome endpoint (some ((s, v) ∷ [])) clocks x =
      entry-NoNews endpoint s v (classify s) clocks x
  notification_no_outcome endpoint (some (a ∷ b ∷ rest)) clocks x = λ h. refl

  -- A retraction is accepted exactly if the inclusion it takes back was already resolved to a
  -- success; before that (and in every other status) `_handle_status` raises.
  pub retraction_exact :
      (endpoint s : String) (v : JsonValue) (clocks : Clocks) (x : Tracked R)
      → classify s ≡ NodeStatus.retracted
      → ((handle_status endpoint (some ((s, v) ∷ [])) clocks x).outcome ≡ returned tt)
        ↔ (x.pending.status ≡ in_block_success)
  unfolding handle_status handle_entry mark_retracted
  retraction_exact endpoint s v clocks x h = rw h (ground arith)
