-- ===== src/Recovery/Diagnose.antt =====
-- src/deepx_sdk/_async_recovery.py: what the recovery writes on one transaction: the diagnostics of
-- a complete or incomplete scan, and the classification of a stale transaction by the pool of the
-- submission node. `digest` stands for _hash_extrinsic of an extrinsic's text in lower case, a
-- cryptographic hash. A text is compared in lower-case ASCII.
use deepx_python_sdk.Prelude.{
  ℕ, String, Bool, true, false, ◌&&◌, ◌||◌, Option, none, some, List, [], ◌∷◌, Outcome, returned,
  ltb, str_eq, if◌then◌else◌, ◌==◌,
}
use Prim.Native.Char.{code}
use deepx_python_sdk.Diagnostics.{
  TransactionError, transaction_not_included, recovery as recovery_stage, OutcomeCertainty,
}
use deepx_python_sdk.Ticket.{RecoveryDiagnostics, add_rpc_error, Ticket}
use deepx_python_sdk.Pending.{Failure, elapsed, mark_not_included}
use deepx_python_sdk.Tracker.{Tracked, Clocks, error_about}
use deepx_python_sdk.Tracker.Status.{lower_code}
use deepx_python_sdk.Tracker.Reconcile.{require_reconciliation}

-- the range of a finalized scan, and the endpoint it reads from
pub record Scan : Type 0 where
  pub start : ℕ
  pub stop : ℕ
  pub finalized_head : ℕ
  pub endpoint : String

abbrev pub or_start : Option ℕ → ℕ → Option ℕ
or_start none n = some n
or_start (some m) n = some m

-- a result that has to be told: the reason and the exception, if there was one
pub record Trouble : Type 0 where
  pub reason_code : String
  pub cause : Option String

-- diagnostics.add_rpc_error, if there is a cause
unfoldable pub note_cause : String → Option String → RecoveryDiagnostics → RecoveryDiagnostics
note_cause method none d = d
note_cause method (some cause) d = add_rpc_error method cause d

-- what the node answers to author_pendingExtrinsics: an exception, a value that is no list, or a
-- list, whose items are texts or something else
pub data PoolAnswer : Type 0 where
  unavailable : String → PoolAnswer
  malformed : PoolAnswer
  extrinsics : List (Option String) → PoolAnswer

-- a.lower() == b.lower()
unfoldable pub same_lower : String → String → Bool
same_lower String.[] String.[] = true
same_lower (String.◌∷◌ c s) (String.◌∷◌ d t) =
    lower_code (code c) == lower_code (code d) && same_lower s t
same_lower _ _ = false

-- pending_pool_contains for a list, of a transaction that the tracker holds
unfoldable pub pool_contains : (String → String) → String → String → List (Option String) → Bool
unfolding same_lower
pool_contains digest data_hex tx_hash [] = false
pool_contains digest data_hex tx_hash (none ∷ items) = pool_contains digest data_hex tx_hash items
pool_contains digest data_hex tx_hash (some item ∷ items) =
    same_lower item data_hex
    || str_eq (digest item) tx_hash
    || pool_contains digest data_hex tx_hash items

module _ {R : Type 0} where
  -- the loop body of _record_complete_finalized_scan
  unfoldable pub record_complete : Scan → Ticket R → Ticket R
  record_complete s t = record t {
    recovery = record t.recovery {
      scan_start = or_start t.recovery.scan_start s.start;
      scan_end = some s.stop;
      finalized_head = some s.finalized_head;
      scan_complete = some true;
      missing_ranges = [];
      recovery_endpoint = some s.endpoint;
    };
  }

  -- the diagnostics of _record_incomplete_finalized_scan
  unfoldable pub note_incomplete : Scan → Trouble → Ticket R → Ticket R
  unfolding note_cause
  note_incomplete s e t = record t {
    recovery = note_cause "finalized_scan" e.cause (record t.recovery {
      reason_code = some e.reason_code;
      scan_start = or_start t.recovery.scan_start s.start;
      scan_end = some s.stop;
      finalized_head = some s.finalized_head;
      scan_complete = some false;
      missing_ranges = (s.start, s.stop) ∷ [];
      recovery_endpoint = some s.endpoint;
    });
  }

  -- the loop body of _record_incomplete_finalized_scan
  unfoldable pub record_incomplete :
      ℕ → Scan → Trouble → Clocks → Ticket R → Outcome Failure (Unit {0}) × Ticket R
  unfolding note_incomplete
  record_incomplete stale_ms s e clocks t =
      let noted : Ticket R = note_incomplete s e t in
      if ltb (elapsed clocks.monotonic noted) stale_ms
      then (returned tt, noted)
      else require_reconciliation
          (record {
            missing_start = some s.start;
            missing_end = some s.stop;
            endpoint = s.endpoint;
            reason_code = e.reason_code;
            scan_start = noted.recovery.scan_start;
            scan_end = some s.stop;
            finalized_head = some s.finalized_head;
            scan_complete = false;
            cause = e.cause;
          })
          clocks noted

  -- the reconciliation of a transaction while the walk to the best head failed
  unfoldable pub require_for_best_scan :
      Scan → String → Clocks → Ticket R → Outcome Failure (Unit {0}) × Ticket R
  require_for_best_scan s cause clocks t =
      let noted : Ticket R = record t { recovery = add_rpc_error "best_scan" cause t.recovery } in
      require_reconciliation
        (record {
          missing_start = none;
          missing_end = none;
          endpoint = s.endpoint;
          reason_code = "BEST_SCAN_RPC_ERROR";
          scan_start = noted.recovery.scan_start;
          scan_end = some s.stop;
          finalized_head = some s.finalized_head;
          scan_complete = false;
          cause = some cause;
        })
        clocks noted

  -- the reconciliation of an overdue transaction in _scan_best_chain
  unfoldable pub require_for_best_gap :
      (start stop : ℕ)
      → Option ℕ
      → String
      → Clocks
      → Ticket R
      → Outcome Failure (Unit {0}) × Ticket R
  require_for_best_gap start stop finalized_head endpoint clocks t =
      require_reconciliation
        (record {
          missing_start = some start;
          missing_end = some stop;
          endpoint = endpoint;
          reason_code = "BEST_SCAN_GAP";
          scan_start = some start;
          scan_end = some stop;
          finalized_head = finalized_head;
          scan_complete = false;
          cause = none;
        })
        clocks t

  -- the reconciliation of a transaction in a block that is not on the finalized chain
  unfoldable pub require_for_mismatch :
      (included finalized_head : ℕ)
      → String
      → Clocks
      → Ticket R
      → Outcome Failure (Unit {0}) × Ticket R
  require_for_mismatch included finalized_head endpoint clocks t =
      require_reconciliation
        (record {
          missing_start = none;
          missing_end = none;
          endpoint = endpoint;
          reason_code = "FINALIZED_CANONICAL_MISMATCH";
          scan_start = some included;
          scan_end = some included;
          finalized_head = some finalized_head;
          scan_complete = false;
          cause = none;
        })
        clocks t

  -- _record_pool_diagnostics
  unfoldable pub record_pool : String → String → Scan → Ticket R → Ticket R
  record_pool result pool_endpoint s t = record t {
    recovery = record t.recovery {
      scan_start = or_start t.recovery.scan_start s.start;
      scan_end = some s.stop;
      finalized_head = some s.finalized_head;
      scan_complete = some true;
      missing_ranges = [];
      recovery_endpoint = some s.endpoint;
      pending_pool_checked = true;
      pending_pool_endpoint = some pool_endpoint;
      pending_pool_result = some result;
    };
  }

  -- _mark_pool_action_required
  unfoldable pub mark_pool_action_required :
      String → Trouble → String → Scan → Clocks → Ticket R → Outcome Failure (Unit {0}) × Ticket R
  unfolding record_pool note_cause
  mark_pool_action_required result e pool_endpoint s clocks t =
      let recorded : Ticket R = record_pool result pool_endpoint s t in
      let noted : Ticket R = record recorded {
        recovery = note_cause "author_pendingExtrinsics" e.cause recorded.recovery;
      } in
      require_reconciliation
        (record {
          missing_start = none;
          missing_end = none;
          endpoint = s.endpoint;
          reason_code = e.reason_code;
          scan_start = noted.recovery.scan_start;
          scan_end = some s.stop;
          finalized_head = some s.finalized_head;
          scan_complete = true;
          cause = e.cause;
        })
        clocks noted

  -- the error of a transaction that is in no block and not in the pool
  unfoldable pub not_included_error : Clocks → Ticket R → TransactionError
  unfolding error_about
  not_included_error clocks t =
      error_about transaction_not_included "TRANSACTION_NOT_INCLUDED" recovery_stage
        OutcomeCertainty.not_included
        "The transaction was absent from the complete finalized scan and the observed submission-node pool. Reconcile the indexer by tx hash/cloid before rebuilding."
        none t.node_status clocks.monotonic t

  -- the end of the loop body, once the pool has been searched
  unfoldable pub settle_by_pool :
      Bool → String → Scan → Clocks → Ticket R → Outcome Failure (Unit {0}) × Ticket R
  unfolding record_pool not_included_error
  settle_by_pool true pool_endpoint s clocks t =
      let noted : Ticket R = record_pool "present" pool_endpoint s t in
      (
        returned tt,
        record noted { recovery = record noted.recovery { reason_code = some "PENDING_IN_POOL" } },
      )
  settle_by_pool false pool_endpoint s clocks t =
      let noted : Ticket R = record_pool "absent" pool_endpoint s t in
      mark_not_included (not_included_error clocks noted) clocks.now (record noted {
        recovery = record noted.recovery { reason_code = some "NOT_INCLUDED_FINALIZED" };
      })

  -- the loop body for an endpoint that is known
  unfoldable pub classify_at :
      (String → String)
      → PoolAnswer
      → Bool
      → String
      → Scan
      → Clocks
      → Tracked R
      → Outcome Failure (Unit {0}) × Ticket R
  unfolding mark_pool_action_required settle_by_pool pool_contains
  classify_at digest (unavailable cause) same pool_endpoint s clocks x =
      mark_pool_action_required "unavailable"
        (record { reason_code = "PENDING_POOL_UNAVAILABLE"; cause = some cause }) pool_endpoint s
        clocks x.pending
  classify_at digest answer false pool_endpoint s clocks x =
      mark_pool_action_required "source_mismatch"
        (record { reason_code = "PENDING_POOL_SOURCE_MISMATCH"; cause = none }) pool_endpoint s
        clocks x.pending
  classify_at digest malformed true pool_endpoint s clocks x =
      mark_pool_action_required "invalid_response"
        (record { reason_code = "PENDING_POOL_INVALID_RESPONSE"; cause = some "TypeError" })
        pool_endpoint s clocks x.pending
  classify_at digest (extrinsics items) true pool_endpoint s clocks x =
      settle_by_pool (pool_contains digest x.data_hex x.pending.tx_hash items) pool_endpoint s
        clocks x.pending

  -- the loop body of _classify_stale_pending
  unfoldable pub classify_stale :
      (String → String)
      → PoolAnswer
      → String
      → Scan
      → Clocks
      → Option String
      → Tracked R
      → Outcome Failure (Unit {0}) × Ticket R
  unfolding classify_at
  classify_stale digest (unavailable cause) pool_endpoint s clocks submission_endpoint x =
      classify_at digest (unavailable cause) true pool_endpoint s clocks x
  classify_stale digest answer pool_endpoint s clocks none x =
      mark_pool_action_required "submission_endpoint_unknown"
        (record { reason_code = "SUBMISSION_ENDPOINT_UNKNOWN"; cause = none }) pool_endpoint s
        clocks x.pending
  classify_stale digest answer pool_endpoint s clocks (some submission_endpoint) x =
      classify_at digest answer (str_eq submission_endpoint pool_endpoint) pool_endpoint s clocks x
