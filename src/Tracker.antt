-- ===== src/Tracker.antt =====
-- src/deepx_sdk/_async_tracker.py: what TransactionTracker does to one tracked transaction. The
-- handle lies in its record, and the durations that the methods measure are not kept. `Effect` lists
-- what a method does beyond that record: the entry it makes in `_block_transactions` and the tasks
-- it spawns.
pub mod Status
pub mod Events
pub mod Reconcile
pub mod Safety
pub mod Calls
pub mod News
pub mod Firsts
pub mod Verdict
pub mod Blocks
pub mod Early
pub mod Once
pub mod Admission
pub mod Matches
use deepx_python_sdk.Prelude.{
  ℕ, ◌-◌, String, Bool, true, false, Option, none, some, List, [], ◌∷◌, ◌++◌, Outcome, is_none,
  if◌then◌else◌,
}
use deepx_python_sdk.Status.{TxStatus, created, is_terminal}
use deepx_python_sdk.Diagnostics.{TransactionError, ErrorKind, TxStage, OutcomeCertainty}
use deepx_python_sdk.Ticket.{RecoveryDiagnostics, Ticket}
use deepx_python_sdk.Pending.{Failure, elapsed}

pub record ExpectedEvent : Type 0 where
  pub pallet : String
  pub event : String

-- _TrackedTransaction. `submit` gives the handle the hash and the nonce of the encoded extrinsic, so
-- of `encoded` only `data_hex` is kept beside it.
pub record Tracked (R : Type 0) : Type 0 where
  pub data_hex : String
  pub pending : Ticket R
  pub expected_event : ExpectedEvent
  pub submit_started_ns : ℕ
  pub accepted_ns : Option ℕ
  pub in_block_received_ns : Option ℕ
  pub in_block_completed_ns : Option ℕ
  pub subscription_id : Option String

pub data Effect : Type 0 where
  note_block : (block tx_hash : String) → Effect
  spawn_resolve spawn_finalize : (block : String) → Effect

-- the state after a call, whether it raised, and its effects
pub record Reaction (R : Type 0) : Type 0 where
  pub outcome : Outcome Failure (Unit {0})
  pub tracked : Tracked R
  pub effects : List Effect

-- the clock readings of a call: wall clock, monotonic clock, performance counter
pub record Clocks : Type 0 where
  pub now : ℕ
  pub monotonic : ℕ
  pub counter : ℕ

module _ {R : Type 0} where
  -- an error about a handle with the fields that every call site fills in the same way
  unfoldable pub error_about :
      ErrorKind
      → String
      → TxStage
      → OutcomeCertainty
      → String
      → Option String
      → Option String
      → ℕ
      → Ticket R
      → TransactionError
  unfolding elapsed
  error_about kind code stage certainty action cause node_status monotonic t = record {
    kind = kind;
    code = code;
    stage = stage;
    elapsed_ms = elapsed monotonic t;
    certainty = certainty;
    retryable = false;
    suggested_action = action;
    tx_hash = some t.tx_hash;
    cloid = t.cloid;
    nonce = some t.nonce;
    pending = some t.identity;
    cause = cause;
    node_status = node_status;
    invalid_reason = none;
    slot_duration_ms = none;
    elapsed_slots = none;
  }

  -- _record_submission_endpoint
  unfoldable pub record_submission_endpoint : String → Ticket R → Ticket R
  record_submission_endpoint endpoint t =
      if is_none t.recovery.submission_endpoint
      then record t { recovery = record t.recovery { submission_endpoint = some endpoint } }
      else t

  -- _record_acceptance: the first reading stays
  unfoldable pub record_acceptance : ℕ → Tracked R → Tracked R
  record_acceptance counter x =
      if is_none x.accepted_ns then record x { accepted_ns = some counter } else x

  -- _record_inclusion
  unfoldable pub record_inclusion : ℕ → Tracked R → Tracked R
  record_inclusion counter x = record x { in_block_received_ns = some counter }
