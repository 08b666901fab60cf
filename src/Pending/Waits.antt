-- ===== src/Pending/Waits.antt =====
-- src/deepx_sdk/_pending_tx.py: wait_submitted, wait_in_block, wait_finalized, the future each of
-- them waits for, the timeout errors, replace(), and the answers to "may this be retried".
-- A wait either answers at once or leaves its future in place; `settle` is what the caller gets
-- once that future is done or its deadline has passed.
use deepx_python_sdk.Prelude.{
  ℕ, Bool, true, false, Option, none, some, ◌&&◌, Outcome, returned, raised, if◌then◌else◌, is_some,
  String,
}
use deepx_python_sdk.Status.{TxStatus, submitted, in_block_success, retracted}
use deepx_python_sdk.Diagnostics.{
  TransactionError, TxStage, submission, inclusion, finalization, client, OutcomeCertainty, unknown,
  not_submitted, ErrorKind, submission_timeout, inclusion_timeout, finalization_timeout,
  replacement_unsupported, timeout_slots,
}
use deepx_python_sdk.Ticket.{Future, absent, waiting, resolved, woken, Ticket}
use deepx_python_sdk.Pending.{Failure, failed_with, result_unavailable, elapsed, is_submitted}

pub data WaitStart (A : Type 0) : Type 0 where
  ready : A → WaitStart A
  fails : Failure → WaitStart A
  waits : WaitStart A

-- the statuses in which wait_submitted returns at once
unfoldable pub was_accepted : TxStatus → Bool
was_accepted submitted = true
was_accepted in_block_success = true
was_accepted TxStatus.finalized = true
was_accepted retracted = true
was_accepted _ = false

-- the statuses in which wait_in_block returns at once
unfoldable pub is_executed : TxStatus → Bool
is_executed in_block_success = true
is_executed TxStatus.finalized = true
is_executed _ = false

unfoldable pub is_finalized : TxStatus → Bool
is_finalized TxStatus.finalized = true
is_finalized _ = false

-- error.certainty is OutcomeCertainty.NOT_SUBMITTED
unfoldable pub is_not_submitted : OutcomeCertainty → Bool
is_not_submitted not_submitted = true
is_not_submitted _ = false

module _ {A : Type 0} where
  -- the `…_future_for_current_loop` methods
  unfoldable pub open_future : Future A → Future A
  open_future absent = waiting
  open_future f = f

  -- _wait_for, once the future is done or the timeout has passed
  unfoldable pub settle : Future A → TransactionError → Outcome Failure A
  settle (resolved a) timeout_error = returned a
  settle (woken e) timeout_error = raised (failed_with e)
  settle _ timeout_error = raised (failed_with timeout_error)

  -- _raise_if_terminal_error, then the wait on the future
  unfoldable pub raise_or_wait : Option TransactionError → WaitStart A
  raise_or_wait (some e) = fails (failed_with e)
  raise_or_wait none = waits

module _ {R : Type 0} where
  -- _result_or_raise
  unfoldable pub result_or_raise : Option TransactionError → Option R → WaitStart (Option R)
  result_or_raise (some e) result = fails (failed_with e)
  result_or_raise none none = fails result_unavailable
  result_or_raise none (some r) = ready (some r)

  unfoldable pub wait_submitted : Ticket R → WaitStart (Unit {0}) × Ticket R
  unfolding was_accepted raise_or_wait open_future
  wait_submitted t =
      if was_accepted t.status
      then (ready tt, t)
      else if is_some t.error
      then (raise_or_wait t.error, t)
      else (raise_or_wait t.error, record t { submitted_future = open_future t.submitted_future })

  unfoldable pub wait_in_block : Ticket R → WaitStart (Option R) × Ticket R
  unfolding is_executed result_or_raise raise_or_wait open_future
  wait_in_block t =
      if is_executed t.status
      then (result_or_raise t.error t.result, t)
      else if is_some t.error
      then (raise_or_wait t.error, t)
      else (raise_or_wait t.error, record t { in_block_future = open_future t.in_block_future })

  unfoldable pub wait_finalized : Ticket R → WaitStart (Option R) × Ticket R
  unfolding is_finalized result_or_raise raise_or_wait open_future
  wait_finalized t =
      if is_finalized t.status
      then (result_or_raise t.error t.result, t)
      else if is_some t.error
      then (raise_or_wait t.error, t)
      else (raise_or_wait t.error, record t { finalized_future = open_future t.finalized_future })

  -- what the three timeout errors have in common
  unfoldable pub timeout_error :
      ErrorKind → String → TxStage → OutcomeCertainty → String → ℕ → Ticket R → TransactionError
  unfolding timeout_slots elapsed
  timeout_error kind code stage certainty action clock t = timeout_slots (record {
    kind = kind;
    code = code;
    stage = stage;
    elapsed_ms = elapsed clock t;
    certainty = certainty;
    retryable = false;
    suggested_action = action;
    tx_hash = some t.tx_hash;
    cloid = t.cloid;
    nonce = some t.nonce;
    pending = some t.identity;
    cause = none;
    node_status = t.node_status;
    invalid_reason = none;
    slot_duration_ms = none;
    elapsed_slots = none;
  })

  -- _submission_timeout
  unfoldable pub submission_timed_out : ℕ → Ticket R → TransactionError
  unfolding timeout_error
  submission_timed_out clock t =
      timeout_error submission_timeout "SUBMISSION_TIMEOUT" submission unknown
        "Continue waiting or reconcile by tx hash/cloid before retrying." clock t

  -- _inclusion_timeout
  unfoldable pub inclusion_timed_out : ℕ → Ticket R → TransactionError
  unfolding timeout_error
  inclusion_timed_out clock t =
      timeout_error inclusion_timeout "INCLUSION_TIMEOUT" inclusion unknown
        "Continue waiting or reconcile by tx hash/cloid before retrying." clock t

  -- _finalization_timeout
  unfoldable pub finalization_timed_out : ℕ → Ticket R → TransactionError
  unfolding timeout_error
  finalization_timed_out clock t =
      timeout_error finalization_timeout "FINALIZATION_TIMEOUT" finalization
        OutcomeCertainty.included
        "Continue waiting or reconcile finality by tx hash/block hash; do not resubmit." clock t

  -- safe_to_retry
  unfoldable pub safe_to_retry : Ticket R → Bool
  unfolding is_not_submitted
  safe_to_retry t = elim t.error [
    | none ↦ false
    | some e ↦ is_not_submitted e.certainty && e.retryable
  ]

  -- replacement_allowed
  unfoldable pub replacement_allowed : Ticket R → Bool
  unfolding is_submitted
  replacement_allowed t = is_submitted t.status && is_some t.replacement_callback

  -- replace(): the callback to await, or the error
  unfoldable pub replace : ℕ → Ticket R → Outcome TransactionError ℕ
  unfolding is_submitted elapsed
  replace clock t =
      let refusal : TransactionError = record {
        kind = replacement_unsupported;
        code = "REPLACEMENT_UNSUPPORTED";
        stage = client;
        elapsed_ms = elapsed clock t;
        certainty = not_submitted;
        retryable = false;
        suggested_action =
            "Use explicit replacement only after node pool acceptance and only for transaction types that support the same-nonce replacement rule.";
        tx_hash = some t.tx_hash;
        cloid = t.cloid;
        nonce = some t.nonce;
        pending = some t.identity;
        cause = none;
        node_status = none;
        invalid_reason = none;
        slot_duration_ms = none;
        elapsed_slots = none;
      } in
      elim t.replacement_callback [
        | none ↦ raised refusal
        | some k ↦ if is_submitted t.status then returned k else raised refusal
      ]
