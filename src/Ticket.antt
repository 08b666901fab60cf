-- ===== src/Ticket.antt =====
-- src/deepx_sdk/_pending_tx.py: the state of a PendingTransaction and the records it holds.
-- A time is a number of milliseconds. `None` is `none`, so a decoded result that is Python's None
-- is `none` too. A future is absent, waiting, or settled by a value or by the wake-up that carries
-- an error. `identity` is Python's id() of the handle, and a callback is known by a number:
-- `notified` lists the callback calls made so far, which run code of other components.
use deepx_python_sdk.Prelude.{
  ℕ, ◌-◌, String, Bool, false, Option, none, List, [], ◌∷◌, ◌++◌, length, drop,
}
use deepx_python_sdk.Status.{TxStatus, created}
use deepx_python_sdk.Diagnostics.{TransactionError}

pub record TxTimeouts : Type 0 where
  pub submit_ms : ℕ
  pub inclusion_ms : ℕ
  pub finalization_ms : ℕ

abbrev pub default_timeouts : TxTimeouts
default_timeouts = record { submit_ms = 1000; inclusion_ms = 5000; finalization_ms = 30000 }

-- the points in time; the measured durations in fractions of milliseconds are not kept
pub record TxTimings : Type 0 where
  pub created_at : ℕ
  pub submitting_at : Option ℕ
  pub submitted_at : Option ℕ
  pub in_block_at : Option ℕ
  pub finalized_at : Option ℕ
  pub last_message_at : Option ℕ

pub record RpcFailure : Type 0 where
  pub method : String
  pub error_type : String

pub record RecoveryDiagnostics : Type 0 where
  pub reason_code : Option String
  pub scan_start : Option ℕ
  pub scan_end : Option ℕ
  pub finalized_head : Option ℕ
  pub scan_complete : Option Bool
  pub missing_ranges : List (ℕ × ℕ)
  pub submission_endpoint : Option String
  pub recovery_endpoint : Option String
  pub pending_pool_checked : Bool
  pub pending_pool_endpoint : Option String
  pub pending_pool_result : Option String
  pub matched_block : Option String
  pub extrinsic_index : Option ℕ
  pub rpc_errors : List RpcFailure

abbrev pub no_recovery : RecoveryDiagnostics
no_recovery = record {
  reason_code = none;
  scan_start = none;
  scan_end = none;
  finalized_head = none;
  scan_complete = none;
  missing_ranges = [];
  submission_endpoint = none;
  recovery_endpoint = none;
  pending_pool_checked = false;
  pending_pool_endpoint = none;
  pending_pool_result = none;
  matched_block = none;
  extrinsic_index = none;
  rpc_errors = [];
}

-- RecoveryDiagnostics.add_rpc_error: `del self.rpc_errors[:-8]` keeps the last eight
unfoldable pub add_rpc_error : String → String → RecoveryDiagnostics → RecoveryDiagnostics
add_rpc_error method error_type d =
    let all = d.rpc_errors ++ (record { method = method; error_type = error_type } ∷ []) in
    record d { rpc_errors = drop (length all - 8) all }

pub record TxUpdate : Type 0 where
  pub status : TxStatus
  pub previous_status : TxStatus
  pub timestamp : ℕ
  pub node_status : Option String
  pub block_hash : Option String
  pub extrinsic_hash : Option String
  pub error : Option TransactionError

-- what the queue behind `updates()` holds: `finish` is _UPDATE_END
pub data QueueItem : Type 0 where
  update : TxUpdate → QueueItem
  finish : QueueItem

pub data Future (A : Type 0) : Type 0 where
  absent waiting : Future A
  resolved : A → Future A
  woken : TransactionError → Future A

pub record Ticket (R : Type 0) : Type 0 where
  pub identity : ℕ
  pub tx_hash : String
  pub nonce : ℕ
  pub cloid : Option ℕ
  pub timeouts : TxTimeouts
  pub status : TxStatus
  pub timings : TxTimings
  pub recovery : RecoveryDiagnostics
  pub block_hash : Option String
  pub extrinsic_hash : Option String
  pub node_status : Option String
  pub result : Option R
  pub error : Option TransactionError
  pub created_monotonic : ℕ
  pub submitted_future : Future (Unit {0})
  pub in_block_future : Future (Option R)
  pub finalized_future : Future (Option R)
  pub updates : List QueueItem
  pub callbacks : List ℕ
  pub notified : List (ℕ × TxUpdate)
  pub replacement_callback : Option ℕ

-- PendingTransaction.__init__
unfoldable pub new_ticket :
    {R : Type 0} → ℕ → String → ℕ → Option ℕ → TxTimeouts → Option ℕ → (now clock : ℕ) → Ticket R
new_ticket identity tx_hash nonce cloid timeouts replacement now clock = record {
  identity = identity;
  tx_hash = tx_hash;
  nonce = nonce;
  cloid = cloid;
  timeouts = timeouts;
  status = created;
  timings = record {
    created_at = now;
    submitting_at = none;
    submitted_at = none;
    in_block_at = none;
    finalized_at = none;
    last_message_at = none;
  };
  recovery = no_recovery;
  block_hash = none;
  extrinsic_hash = none;
  node_status = none;
  result = none;
  error = none;
  created_monotonic = clock;
  submitted_future = absent;
  in_block_future = absent;
  finalized_future = absent;
  updates = [];
  callbacks = [];
  notified = [];
  replacement_callback = replacement;
}
