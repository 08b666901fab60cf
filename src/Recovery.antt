-- ===== src/Recovery.antt =====
-- src/deepx_sdk/_async_recovery.py: RecoveryTracker, which walks the blocks that the notifications
-- of the node missed. `Cursor` is how far it has come. What a walk does to the transactions at a
-- block is a `Visit`: _resolve_block_number, which answers the hash of the block or raises (`raised`,
-- with the type of the exception) and may leave the transactions changed in both cases.
pub mod Walk
pub mod Batches
pub mod Diagnose
pub mod Scan
pub mod Coverage
pub mod Judgement
pub mod Keeps
pub mod Progress
pub mod Safety
pub mod Finality
pub mod Canonical
pub mod Drain
pub mod Iteration
use deepx_python_sdk.Prelude.{ℕ, String, Option, none, Outcome}

-- RecoveryConfig, with times in milliseconds
pub record RecoveryConfig : Type 0 where
  pub max_blocks : ℕ
  pub reconnect_initial_ms : ℕ
  pub reconnect_max_ms : ℕ
  pub watchdog_interval_ms : ℕ
  pub subscription_liveness_ms : ℕ
  pub stale_ms : ℕ
  pub scan_concurrency : ℕ
  pub iteration_timeout_ms : ℕ
  pub lock_wait_timeout_ms : ℕ
  pub no_progress_timeout_ms : ℕ

abbrev pub default_config : RecoveryConfig
default_config = record {
  max_blocks = 256;
  reconnect_initial_ms = 100;
  reconnect_max_ms = 3_000;
  watchdog_interval_ms = 5_000;
  subscription_liveness_ms = 15_000;
  stale_ms = 60_000;
  scan_concurrency = 8;
  iteration_timeout_ms = 30_000;
  lock_wait_timeout_ms = 30_000;
  no_progress_timeout_ms = 60_000;
}

-- the heads and scan positions of RecoveryTracker
pub record Cursor : Type 0 where
  pub last_best_number : Option ℕ
  pub last_best_hash : Option String
  pub last_finalized_number : Option ℕ
  pub last_finalized_hash : Option String
  pub last_finalized_scan_number : Option ℕ
  pub pending_best_number : Option ℕ
  pub pending_finalized_number : Option ℕ

abbrev pub new_cursor : Cursor
new_cursor = record {
  last_best_number = none;
  last_best_hash = none;
  last_finalized_number = none;
  last_finalized_hash = none;
  last_finalized_scan_number = none;
  pending_best_number = none;
  pending_finalized_number = none;
}

-- _resolve_block_number, for transactions in a state of type `S`, in the parts between which it
-- waits: once the hash of the block has arrived, once the block has (what the last part needs of it
-- is of type `M`), and once the events have
pub record Visit (S M : Type 0) : Type 0 where
  pub ask : ℕ → S → Outcome String String × S
  pub fetch : String → S → Outcome String M × S
  pub settle : String → M → S → Outcome String String × S
