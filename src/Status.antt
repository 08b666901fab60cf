-- ===== src/Status.antt =====
-- src/deepx_sdk/_pending_tx.py: the statuses of a transaction, the business states they stand
-- for, and the table of legal transitions.
use deepx_python_sdk.Prelude.{Bool, true, false}

pub data TxStatus : Type 0 where
  created submitting submitted in_block_success in_block_failed finalized : TxStatus
  invalid dropped not_included usurped retracted reconciliation_required client_closed : TxStatus

pub data ExecutionState : Type 0 where
  submitting accepted executed finalized failed not_included action_required : ExecutionState

-- _TERMINAL_STATUSES
unfoldable pub is_terminal : TxStatus → Bool
is_terminal in_block_failed = true
is_terminal TxStatus.finalized = true
is_terminal invalid = true
is_terminal dropped = true
is_terminal TxStatus.not_included = true
is_terminal usurped = true
is_terminal reconciliation_required = true
is_terminal client_closed = true
is_terminal _ = false

-- target in _LEGAL_TRANSITIONS[source]
unfoldable pub is_legal : TxStatus → TxStatus → Bool
is_legal created TxStatus.submitting = true
is_legal created submitted = true
is_legal created invalid = true
is_legal created reconciliation_required = true
is_legal created client_closed = true
is_legal TxStatus.submitting submitted = true
is_legal TxStatus.submitting invalid = true
is_legal TxStatus.submitting reconciliation_required = true
is_legal TxStatus.submitting client_closed = true
is_legal submitted in_block_success = true
is_legal submitted in_block_failed = true
is_legal submitted invalid = true
is_legal submitted dropped = true
is_legal submitted TxStatus.not_included = true
is_legal submitted usurped = true
is_legal submitted client_closed = true
is_legal submitted reconciliation_required = true
is_legal in_block_success TxStatus.finalized = true
is_legal in_block_success retracted = true
is_legal in_block_success client_closed = true
is_legal in_block_success reconciliation_required = true
is_legal retracted submitted = true
is_legal retracted in_block_success = true
is_legal retracted in_block_failed = true
is_legal retracted invalid = true
is_legal retracted dropped = true
is_legal retracted TxStatus.not_included = true
is_legal retracted usurped = true
is_legal retracted client_closed = true
is_legal retracted reconciliation_required = true
is_legal _ _ = false

-- PendingTransaction.execution_state, over the status
unfoldable pub execution_state : TxStatus → ExecutionState
execution_state created = ExecutionState.submitting
execution_state TxStatus.submitting = ExecutionState.submitting
execution_state submitted = accepted
execution_state retracted = accepted
execution_state in_block_success = executed
execution_state TxStatus.finalized = ExecutionState.finalized
execution_state in_block_failed = failed
execution_state invalid = failed
execution_state dropped = failed
execution_state usurped = failed
execution_state TxStatus.not_included = ExecutionState.not_included
execution_state _ = action_required
