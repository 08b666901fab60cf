-- ===== src/Tracker/Events.antt =====
-- src/deepx_sdk/_async_tracker.py, `resolve_block` for one transaction that the block holds, and the
-- event filters of _native_py.py that it calls. An event is a record of the fields that the
-- filters read, with attributes of a type `A`. `chain_error` stands for
-- _chain_error_from_failed_attrs, which reads a dispatch error by the node's metadata: the code of
-- the ChainError, if it makes one. `decode` is the caller's result decoder, which returns a result
-- (perhaps Python's None) or raises (`raised`, with the type of the exception).
use deepx_python_sdk.Prelude.{
  ℕ, String, Bool, false, ◌&&◌, Option, none, some, List, [], ◌∷◌, Outcome, returned, raised,
  str_eq, ◌==◌, if◌then◌else◌,
}
use deepx_python_sdk.Diagnostics.{
  TransactionError, reconciliation, inclusion, included, executed_failed, transaction_error,
}
use deepx_python_sdk.Ticket.{Ticket}
use deepx_python_sdk.Pending.{
  Failure, mark_in_block_success, mark_in_block_failed, mark_reconciliation_required,
}
use deepx_python_sdk.Tracker.{Tracked, ExpectedEvent, Clocks, error_about}

pub record Event (A : Type 0) : Type 0 where
  pub extrinsic_idx : Option ℕ
  pub module_id : String
  pub event_id : String
  pub attributes : Option A

abbrev pub is_idx : Option ℕ → ℕ → Bool
is_idx none i = false
is_idx (some j) i = j == i

module _ {A : Type 0} where
  -- _filter_events_for_extrinsic, for an index that is known
  unfoldable pub filter_events_for_extrinsic : ℕ → List (Event A) → List (Event A)
  filter_events_for_extrinsic i [] = []
  filter_events_for_extrinsic i (e ∷ es) =
      let rest = filter_events_for_extrinsic i es in
      if is_idx e.extrinsic_idx i then e ∷ rest else rest

  -- the test of both filters below
  unfoldable pub is_event : String → String → Event A → Bool
  is_event pallet event e = str_eq e.module_id pallet && str_eq e.event_id event

  -- the first of _filter_matching_events
  unfoldable pub first_matching : String → String → List (Event A) → Option (Event A)
  unfolding is_event
  first_matching pallet event [] = none
  first_matching pallet event (e ∷ es) =
      if is_event pallet event e then some e else first_matching pallet event es

  -- _system_extrinsic_failed_attrs
  unfoldable pub failed_attrs : List (Event A) → Option A
  unfolding is_event
  failed_attrs [] = none
  failed_attrs (e ∷ es) =
      if is_event "System" "ExtrinsicFailed" e then e.attributes else failed_attrs es

-- the block and the place in it at which the transaction was found
pub record Place : Type 0 where
  pub block_hash : String
  pub extrinsic_index : ℕ

module _ {R : Type 0} where
  -- recovery.matched_block and recovery.extrinsic_index
  unfoldable pub note_place : Place → Ticket R → Ticket R
  note_place p t = record t {
    recovery = record t.recovery {
      matched_block = some p.block_hash;
      extrinsic_index = some p.extrinsic_index;
    };
  }

  -- _mark_included_unresolved
  unfoldable pub mark_included_unresolved :
      Place → String → String → Clocks → Ticket R → Outcome Failure (Unit {0}) × Ticket R
  unfolding note_place
  mark_included_unresolved p reason cause clocks t =
      let noted : Ticket R = note_place p t in
      mark_reconciliation_required
        (error_about reconciliation reason inclusion included
          "The extrinsic is included, but its business result could not be resolved from block events. Inspect the block events or indexer result; do not resubmit."
          (some cause) t.node_status clocks.monotonic t)
        clocks.now (record noted { recovery = record noted.recovery { reason_code = some reason } })

  -- the error of a transaction that failed: _TrackedChainError, or the fallback
  unfoldable pub execution_error : Option String → Clocks → Ticket R → TransactionError
  unfolding error_about
  execution_error (some code) clocks t =
      error_about transaction_error code inclusion executed_failed
        "Inspect the decoded chain error; do not automatically resubmit." none t.node_status
        clocks.monotonic t
  execution_error none clocks t =
      error_about transaction_error "EXTRINSIC_FAILED_DECODE_ERROR" inclusion executed_failed
        "Inspect the raw dispatch error before taking another action." (some "RuntimeError")
        t.node_status clocks.monotonic t

  module _ {A : Type 0} (chain_error : A → Option String)
      (decode : Option A → Ticket R → Outcome String (Option R)) where
    -- the call of the result decoder and what follows it
    unfoldable pub apply_decoded :
        Place
        → Outcome String (Option R)
        → Clocks
        → Ticket R
        → Outcome Failure (Unit {0}) × Ticket R
    apply_decoded p (returned result) clocks t =
        mark_in_block_success result p.block_hash t.tx_hash clocks.now t
    apply_decoded p (raised cause) clocks t =
        mark_included_unresolved p "RESULT_DECODE_FAILED" cause clocks t

    -- after the test for System.ExtrinsicFailed
    unfoldable pub apply_match :
        Place → Option (Event A) → Clocks → Ticket R → Outcome Failure (Unit {0}) × Ticket R
    unfolding apply_decoded
    apply_match p none clocks t =
        mark_included_unresolved p "EXPECTED_EVENT_MISSING" "RuntimeError" clocks t
    apply_match p (some e) clocks t = apply_decoded p (decode e.attributes t) clocks t

    unfoldable pub apply_failed :
        Place
        → ExpectedEvent
        → List (Event A)
        → Option A
        → Clocks
        → Ticket R
        → Outcome Failure (Unit {0}) × Ticket R
    unfolding apply_match first_matching execution_error
    apply_failed p expected scoped (some attrs) clocks t =
        mark_in_block_failed (execution_error (chain_error attrs) clocks t) clocks.now t
    apply_failed p expected scoped none clocks t =
        apply_match p (first_matching expected.pallet expected.event scoped) clocks t

    -- the body of the second loop of `resolve_block`; `none` is the failure to fetch the events
    unfoldable pub apply_block :
        Place → Option (List (Event A)) → Clocks → Tracked R → Outcome Failure (Unit {0}) × Ticket R
    unfolding apply_failed filter_events_for_extrinsic failed_attrs note_place
    apply_block p none clocks x =
        mark_included_unresolved p "EVENTS_UNAVAILABLE" "Exception" clocks x.pending
    apply_block p (some events) clocks x =
        let scoped = filter_events_for_extrinsic p.extrinsic_index events in
        apply_failed p x.expected_event scoped (failed_attrs scoped) clocks (note_place p x.pending)
