-- ===== src/Tracker/Reconcile.antt =====
-- src/deepx_sdk/_async_tracker.py: finalize_ancestor, the end of _finalize_transaction, and
-- mark_reconciliation_required, on a handle that is the one tracked under its hash. The
-- attributes that repeat the recovery diagnostics on the error are not kept.
use deepx_python_sdk.Prelude.{
  ℕ, String, Bool, true, false, Option, none, some, List, [], ◌∷◌, Outcome, returned, if◌then◌else◌,
}
use Prim.Native.String.{◌++◌}
use deepx_python_sdk.Status.{TxStatus, submitted, in_block_success, retracted}
use deepx_python_sdk.Diagnostics.{reconciliation, recovery as recovery_stage, included, unknown}
use deepx_python_sdk.Ticket.{Ticket}
use deepx_python_sdk.Pending.{Failure, mark_finalized, mark_reconciliation_required}
use deepx_python_sdk.Tracker.{Clocks, error_about}

-- status is TxStatus.IN_BLOCK_SUCCESS
unfoldable pub is_in_block : TxStatus → Bool
is_in_block in_block_success = true
is_in_block _ = false

-- the statuses that mark_reconciliation_required acts on
unfoldable pub is_open : TxStatus → Bool
is_open TxStatus.submitting = true
is_open submitted = true
is_open retracted = true
is_open in_block_success = true
is_open _ = false

-- the keyword arguments of mark_reconciliation_required
pub record Gap : Type 0 where
  pub missing_start : Option ℕ
  pub missing_end : Option ℕ
  pub endpoint : String
  pub reason_code : String
  pub scan_start : Option ℕ
  pub scan_end : Option ℕ
  pub finalized_head : Option ℕ
  pub scan_complete : Bool
  pub cause : Option String

abbrev first_known : Option ℕ → Option ℕ → Option ℕ
first_known none b = b
first_known (some a) b = some a

abbrev pub missing_range : Option ℕ → Option ℕ → List (ℕ × ℕ)
missing_range (some a) (some b) = (a, b) ∷ []
missing_range (some a) none = []
missing_range none b = []

module _ {R : Type 0} where
  -- finalize_ancestor, and the end of _finalize_transaction
  unfoldable pub finalize_ancestor : String → ℕ → Ticket R → Outcome Failure (Unit {0}) × Ticket R
  unfolding is_in_block
  finalize_ancestor finalized_hash now t =
      if is_in_block t.status then mark_finalized (some finalized_hash) now t else (returned tt, t)

  -- the diagnostics that mark_reconciliation_required writes
  unfoldable pub note_gap : Gap → Ticket R → Ticket R
  note_gap g t = record t {
    recovery = record t.recovery {
      reason_code = some g.reason_code;
      scan_start = first_known g.scan_start g.missing_start;
      scan_end = first_known g.scan_end g.missing_end;
      finalized_head = g.finalized_head;
      scan_complete = some g.scan_complete;
      missing_ranges = missing_range g.missing_start g.missing_end;
      recovery_endpoint = some g.endpoint;
    };
  }

  -- TransactionTracker.mark_reconciliation_required
  unfoldable pub require_reconciliation :
      Gap → Clocks → Ticket R → Outcome Failure (Unit {0}) × Ticket R
  unfolding is_open is_in_block note_gap
  require_reconciliation g clocks t =
      if is_open t.status
      then mark_reconciliation_required
          (error_about reconciliation "RECONCILIATION_REQUIRED" recovery_stage
            (if is_in_block t.status then included else unknown)
            ("Inspect the structured recovery diagnostics and query an archive RPC or indexer at "
              ++ (g.endpoint ++ "; reconcile by tx hash/cloid before any resubmission."))
            g.cause t.node_status clocks.monotonic t)
          clocks.now (note_gap g t)
      else (returned tt, t)
