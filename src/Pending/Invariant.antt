-- ===== src/Pending/Invariant.antt =====
-- src/deepx_sdk/_pending_tx.py: a PendingTransaction under any sequence of calls, and what holds of
-- it between two of them.
use deepx_python_sdk.Prelude.{
  ℕ, ◌≡◌, Bool, true, false, Option, List, [], ◌∷◌, String, is_some, Outcome, returned, raised,
}
use deepx_python_sdk.Status.{
  TxStatus, created, submitted, in_block_success, retracted, reconciliation_required, client_closed,
  is_terminal,
}
use deepx_python_sdk.Diagnostics.{TransactionError}
use deepx_python_sdk.Ticket.{Future, waiting, resolved, Ticket}
use deepx_python_sdk.Pending.{
  Failure, mark_submitting, mark_submitted, mark_in_block_success, mark_in_block_failed,
  mark_finalized, mark_retracted, mark_invalid, mark_dropped, mark_not_included, mark_usurped,
  mark_reconciliation_required, mark_client_closed,
}
use deepx_python_sdk.Pending.Waits.{
  wait_submitted, wait_in_block, wait_finalized, is_finalized, WaitStart, ready, fails, waits,
}

-- the calls that change a handle, with the clock readings they make
pub data Call (R : Type 0) : Type 0 where
  submitting : ℕ → Call R
  accept : Option String → ℕ → Call R
  succeed : Option R → String → String → ℕ → Call R
  fail : TransactionError → ℕ → Call R
  finalize : Option String → ℕ → Call R
  retract : ℕ → Call R
  reject_invalid : TransactionError → ℕ → Call R
  drop : TransactionError → ℕ → Call R
  not_include : TransactionError → ℕ → Call R
  usurp : TransactionError → ℕ → Call R
  require_reconciliation : TransactionError → ℕ → Call R
  close : Option TransactionError → (now clock : ℕ) → Call R
  await_submitted await_in_block await_finalized : Call R

-- a wait as a call: it raises, or it answers or leaves its future in place
abbrev pub begun : {R A : Type 0} → WaitStart A × Ticket R → Outcome Failure (Unit {0}) × Ticket R
begun (ready a, t) = (returned tt, t)
begun (fails e, t) = (raised e, t)
begun (waits, t) = (returned tt, t)

module _ {R : Type 0} where
  unfoldable pub perform : Call R → Ticket R → Outcome Failure (Unit {0}) × Ticket R
  unfolding mark_submitting mark_submitted mark_in_block_success mark_in_block_failed mark_finalized
      mark_retracted mark_invalid mark_dropped mark_not_included mark_usurped
      mark_reconciliation_required mark_client_closed wait_submitted wait_in_block wait_finalized
  perform (submitting now) t = mark_submitting now t
  perform (accept node_status now) t = mark_submitted node_status now t
  perform (succeed result block extrinsic now) t =
      mark_in_block_success result block extrinsic now t
  perform (fail e now) t = mark_in_block_failed e now t
  perform (finalize block now) t = mark_finalized block now t
  perform (retract now) t = mark_retracted now t
  perform (reject_invalid e now) t = mark_invalid e now t
  perform (drop e now) t = mark_dropped e now t
  perform (not_include e now) t = mark_not_included e now t
  perform (usurp e now) t = mark_usurped e now t
  perform (require_reconciliation e now) t = mark_reconciliation_required e now t
  perform (close e now clock) t = mark_client_closed e now clock t
  perform await_submitted t = begun (wait_submitted t)
  perform await_in_block t = begun (wait_in_block t)
  perform await_finalized t = begun (wait_finalized t)

  -- The state after a call, whether or not it raised.
  unfoldable pub step : Call R → Ticket R → Ticket R
  unfolding perform
  step c t = (perform c t).1

  unfoldable pub run : List (Call R) → Ticket R → Ticket R
  run [] t = t
  run (c ∷ cs) t = run cs (step c t)

-- the terminal statuses that come with an error
unfoldable pub is_failure : TxStatus → Bool
unfolding is_terminal
is_failure TxStatus.finalized = false
is_failure s = is_terminal s

abbrev pub is_waiting : {A : Type 0} → Future A → Bool
is_waiting waiting = true
is_waiting _ = false

-- no acceptance has been seen yet
unfoldable pub is_early : TxStatus → Bool
is_early created = true
is_early TxStatus.submitting = true
is_early _ = false

-- an inclusion is still to come
unfoldable pub awaits_block : TxStatus → Bool
awaits_block created = true
awaits_block TxStatus.submitting = true
awaits_block submitted = true
awaits_block retracted = true
awaits_block _ = false

-- an in-block result that was given out may still be on record
unfoldable pub keeps_block : TxStatus → Bool
keeps_block in_block_success = true
keeps_block TxStatus.finalized = true
keeps_block reconciliation_required = true
keeps_block client_closed = true
keeps_block _ = false

pub record IsCoherent {R : Type 0} (t : Ticket R) : Type 0 where
  pub error_on_failure : is_some t.error ≡ is_failure t.status
  pub finalized_result : is_finalized t.status ≡ true → is_some t.result ≡ true
  pub submitted_waits : is_waiting t.submitted_future ≡ true → is_early t.status ≡ true
  pub in_block_waits : is_waiting t.in_block_future ≡ true → awaits_block t.status ≡ true
  pub finalized_waits : is_waiting t.finalized_future ≡ true → is_terminal t.status ≡ false
  pub in_block_given :
      (r : Option R)
      → t.in_block_future ≡ resolved r
      → (keeps_block t.status ≡ true) × (t.result ≡ r)
  pub finalized_given :
      (r : Option R)
      → t.finalized_future ≡ resolved r
      → (is_finalized t.status ≡ true) × (t.result ≡ r)
