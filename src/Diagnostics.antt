-- ===== src/Diagnostics.antt =====
-- src/deepx_sdk/_tx_diagnostics.py: the errors of a transaction, with the stage, the certainty of
-- the outcome and the answer to "is a retry safe". An exception class is a constructor of
-- `ErrorKind`. `cause` and `details` are rendered text: their structure is only printed.
use deepx_python_sdk.Prelude.{
  ℕ, ◌+◌, ◌/◌, String, Bool, true, false, Option, none, some, if◌then◌else◌,
}
use Prim.Native.String.{◌++◌}
use text.Mathlib.Text.{starts_with, find?}

pub data TxStage : Type 0 where
  validation encoding submission inclusion finalization recovery client : TxStage

pub data OutcomeCertainty : Type 0 where
  not_submitted unknown rejected replaced executed_failed : OutcomeCertainty
  not_included included finalized : OutcomeCertainty

pub data ErrorKind : Type 0 where
  transaction_error submission_timeout inclusion_timeout finalization_timeout : ErrorKind
  transaction_invalid transaction_dropped transaction_not_included transaction_usurped : ErrorKind
  reconciliation client_backpressure client_not_connected replacement_unsupported : ErrorKind

pub record TransactionError : Type 0 where
  pub kind : ErrorKind
  pub code : String
  pub stage : TxStage
  pub elapsed_ms : ℕ
  pub certainty : OutcomeCertainty
  pub retryable : Bool
  pub suggested_action : String
  pub tx_hash : Option String
  pub cloid : Option ℕ
  pub nonce : Option ℕ
  pub pending : Option ℕ
  pub cause : Option String
  pub node_status : Option String
  pub invalid_reason : Option String
  pub slot_duration_ms : Option ℕ
  pub elapsed_slots : Option ℕ

abbrev pub slot_duration : ℕ
slot_duration = 70

-- _TimeoutError.__init__: math.ceil(elapsed_ms / 70)
unfoldable pub timeout_slots : TransactionError → TransactionError
timeout_slots e = record e {
  slot_duration_ms = some slot_duration;
  elapsed_slots = some ((e.elapsed_ms + 69) / slot_duration);
}

-- marker in text
unfoldable pub has_text : String → String → Bool
has_text marker text = elim (find? text marker) [ none ↦ false | some i ↦ true ]

-- _ADMISSION_FAILURES: the explanation and the action for a reason
abbrev pub admission_failure : String → Option (String × String)
admission_failure reason =
    if starts_with reason "ExceedPoolLimit"
    then some (
      "The account has reached the node's 50-transaction pool cap.",
      "Wait for an existing transaction to leave the pool, then submit again.",
    )
    else if starts_with reason "TimeStale"
    then some (
      "The timestamp nonce is duplicate or older-than-retained timestamp nonce.",
      "Use a fresh timestamp nonce and rebuild the transaction.",
    )
    else if starts_with reason "Future"
    then some (
      "The timestamp is outside the allowed future range.",
      "Synchronize time and use a timestamp nonce within the allowed range.",
    )
    else if starts_with reason "BadSigner"
    then some (
      "The signing account is inactive or frozen.",
      "Activate or unfreeze the account before rebuilding the transaction.",
    )
    else none

-- the `reason is None` branch
abbrev or_validity : Option (String × String) → String × String
or_validity none = (
  "The node rejected the transaction validity.",
  "Inspect the node reason, correct the transaction, then rebuild it.",
)
or_validity (some e) = e

-- the explanation and the action of TransactionInvalid.from_node_reason
unfoldable pub explain_reason : String → String × String
unfolding has_text
explain_reason raw_reason =
    if has_text "Payment" raw_reason
    then (if has_text "CallType::Timestamp(1)" raw_reason
        then (
          "Quota is exhausted or reserved, or the account is inside its 10-second quota-free interval.",
          "Wait for usable quota or the quota-free interval to end, then rebuild and submit.",
        )
        else (
          "The node reported a payment-related admission failure.",
          "Inspect payment requirements for this call type before rebuilding.",
        ))
    else or_validity (admission_failure raw_reason)

-- TransactionInvalid.from_node_reason
unfoldable pub from_node_reason :
    String → Option String → Option ℕ → Option ℕ → ℕ → Option ℕ → Option String → TransactionError
from_node_reason raw_reason tx_hash cloid nonce elapsed_ms pending node_status =
    let (explanation, action) = explain_reason raw_reason in
    record {
      kind = transaction_invalid;
      code = "TRANSACTION_INVALID";
      stage = submission;
      elapsed_ms = elapsed_ms;
      certainty = rejected;
      retryable = false;
      suggested_action = explanation ++ (" " ++ action);
      tx_hash = tx_hash;
      cloid = cloid;
      nonce = nonce;
      pending = pending;
      cause = none;
      node_status = node_status;
      invalid_reason = some raw_reason;
      slot_duration_ms = none;
      elapsed_slots = none;
    }
