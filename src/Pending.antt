-- ===== src/Pending.antt =====
-- src/deepx_sdk/_pending_tx.py: the methods of PendingTransaction that move a transaction through
-- its life. A method takes the clock readings it makes and returns whether it raised, with the new
-- state of the handle.
pub mod Waits
pub mod Invariant
pub mod Coherence
pub mod Lifecycle
pub mod History
use deepx_python_sdk.Prelude.{
  ℕ, ◌-◌, String, Bool, true, false, Option, none, some, List, [], ◌∷◌, ◌++◌, map, Outcome,
  returned, raised, if◌then◌else◌, or_else, truthy, is_none,
}
use deepx_python_sdk.Status.{
  TxStatus, submitted, in_block_success, in_block_failed, invalid, dropped, usurped, retracted,
  reconciliation_required, client_closed, is_terminal, is_legal,
}
use deepx_python_sdk.Diagnostics.{TransactionError, transaction_error, client, unknown}
use deepx_python_sdk.Ticket.{
  TxTimings, TxUpdate, QueueItem, update, finish, Future, absent, waiting, resolved, woken, Ticket,
}

pub data Failure : Type 0 where
  illegal_transition : TxStatus → TxStatus → Failure
  finalize_without_result result_unavailable : Failure
  failed_with : TransactionError → Failure

-- the keyword arguments of `_transition`
pub record Change : Type 0 where
  pub node_status : Option String
  pub block_hash : Option String
  pub extrinsic_hash : Option String
  pub error : Option TransactionError

abbrev pub no_change : Change
no_change = record { node_status = none; block_hash = none; extrinsic_hash = none; error = none }

-- the timestamp that a status sets
unfoldable pub stamp : TxStatus → ℕ → TxTimings → TxTimings
stamp TxStatus.submitting now t = record t { submitting_at = some now; last_message_at = some now }
stamp submitted now t = record t { submitted_at = some now; last_message_at = some now }
stamp in_block_success now t = record t { in_block_at = some now; last_message_at = some now }
stamp TxStatus.finalized now t = record t { finalized_at = some now; last_message_at = some now }
stamp _ now t = record t { last_message_at = some now }

unfoldable pub end_mark : TxStatus → List QueueItem
unfolding is_terminal
end_mark target = if is_terminal target then finish ∷ [] else []

module _ {A : Type 0} where
  -- _resolve_result and _resolve_submitted: only a future that is there and not done
  unfoldable pub resolve : A → Future A → Future A
  resolve a waiting = resolved a
  resolve a f = f

  -- _reject
  unfoldable pub reject : TransactionError → Future A → Future A
  reject e waiting = woken e
  reject e f = f

  -- _replace_completed_result_futures, for one future
  unfoldable pub replace_completed : Future A → Future A
  replace_completed (resolved a) = waiting
  replace_completed (woken e) = waiting
  replace_completed f = f

abbrev pub or_some {ℓ} : {A : Type ℓ} → Option A → A → Option A
or_some none a = some a
or_some (some b) a = some b

-- the completion of a TransactionError in `_finish_with_error`
unfoldable pub complete_error : {R : Type 0} → Ticket R → TransactionError → TransactionError
complete_error t e = record e {
  pending = or_some e.pending t.identity;
  tx_hash = or_some e.tx_hash t.tx_hash;
  nonce = or_some e.nonce t.nonce;
  cloid = if is_none e.cloid then t.cloid else e.cloid;
  node_status = if is_none e.node_status then t.node_status else e.node_status;
  suggested_action =
      if truthy e.suggested_action
      then e.suggested_action
      else "Reconcile by tx hash/cloid before taking another action.";
}

abbrev pub Method : Type 0 → Type 0
Method R = Ticket R → Outcome Failure (Unit {0}) × Ticket R

-- `self.status is TxStatus.SUBMITTED`
unfoldable pub is_submitted : TxStatus → Bool
is_submitted submitted = true
is_submitted _ = false

module _ {R : Type 0} where
  -- _elapsed_ms
  unfoldable pub elapsed : ℕ → Ticket R → ℕ
  elapsed clock t = clock - t.created_monotonic

  -- `_transition` past its assertion
  unfoldable pub advance : TxStatus → Change → ℕ → Ticket R → Ticket R
  unfolding stamp end_mark
  advance target c now t =
      let node : Option String = or_else c.node_status t.node_status in
      let block : Option String = or_else c.block_hash t.block_hash in
      let extrinsic : Option String = or_else c.extrinsic_hash t.extrinsic_hash in
      let event : TxUpdate = record {
        status = target;
        previous_status = t.status;
        timestamp = now;
        node_status = node;
        block_hash = block;
        extrinsic_hash = extrinsic;
        error = c.error;
      } in
      record t {
        status = target;
        node_status = node;
        block_hash = block;
        extrinsic_hash = extrinsic;
        timings = stamp target now t.timings;
        updates = t.updates ++ (update event ∷ end_mark target);
        notified = t.notified ++ map (λ k. (k, event)) t.callbacks;
      }

  -- _transition
  unfoldable pub transition : TxStatus → Change → ℕ → Method R
  unfolding is_legal advance
  transition target c now t =
      if is_legal t.status target
      then (returned tt, advance target c now t)
      else (raised (illegal_transition t.status target), t)

  -- goes on with `f` on the new state, if the call before it returned
  unfoldable pub and_then :
      Outcome Failure (Unit {0}) × Ticket R
      → (Ticket R → Ticket R)
      → Outcome Failure (Unit {0}) × Ticket R
  and_then (returned u, t) f = (returned u, f t)
  and_then (raised e, t) f = (raised e, t)

  -- _finish_with_error
  unfoldable pub finish_with_error : TxStatus → TransactionError → ℕ → Method R
  unfolding is_legal transition and_then complete_error reject
  finish_with_error target e now t =
      let done : TransactionError = complete_error t e in
      if is_legal t.status target
      then and_then
          (transition target (record no_change { error = some done }) now
            (record t { error = some done }))
          (λ u. record u {
            submitted_future = reject done u.submitted_future;
            in_block_future = reject done u.in_block_future;
            finalized_future = reject done u.finalized_future;
          })
      else (raised (illegal_transition t.status target), t)

  unfoldable pub mark_submitting : ℕ → Method R
  unfolding transition
  mark_submitting now t = transition TxStatus.submitting no_change now t

  unfoldable pub mark_submitted : Option String → ℕ → Method R
  unfolding is_submitted transition and_then resolve
  mark_submitted node_status now t =
      if is_submitted t.status
      then (
        returned tt,
        record t {
          node_status = or_else node_status t.node_status;
          timings = record t.timings { last_message_at = some now };
        },
      )
      else and_then (transition submitted (record no_change { node_status = node_status }) now t)
          (λ u. record u { submitted_future = resolve tt u.submitted_future })

  unfoldable pub mark_in_block_success : Option R → String → String → ℕ → Method R
  unfolding transition and_then resolve
  mark_in_block_success result block_hash extrinsic_hash now t =
      and_then
        (transition in_block_success
          (record no_change { block_hash = some block_hash; extrinsic_hash = some extrinsic_hash })
          now t)
        (λ u. record u {
          result = result;
          submitted_future = resolve tt u.submitted_future;
          in_block_future = resolve result u.in_block_future;
        })

  unfoldable pub mark_finalized : Option String → ℕ → Method R
  unfolding transition and_then resolve
  mark_finalized block_hash now t =
      if is_none t.result
      then (raised finalize_without_result, t)
      else and_then
          (transition TxStatus.finalized (record no_change { block_hash = block_hash }) now t)
          (λ u. record u { finalized_future = resolve u.result u.finalized_future })

  unfoldable pub mark_retracted : ℕ → Method R
  unfolding transition and_then replace_completed
  mark_retracted now t = and_then (transition retracted no_change now t) (λ u. record u {
    result = none;
    block_hash = none;
    extrinsic_hash = none;
    in_block_future = replace_completed u.in_block_future;
    finalized_future = replace_completed u.finalized_future;
  })

  -- the error that `mark_client_closed` builds when it is given none
  unfoldable pub closed_error : ℕ → Ticket R → TransactionError
  unfolding elapsed
  closed_error clock t = record {
    kind = transaction_error;
    code = "CLIENT_CLOSED";
    stage = client;
    elapsed_ms = elapsed clock t;
    certainty = unknown;
    retryable = false;
    suggested_action = "Reconcile by tx hash/cloid after reconnecting; do not resubmit blindly.";
    tx_hash = some t.tx_hash;
    cloid = t.cloid;
    nonce = some t.nonce;
    pending = some t.identity;
    cause = none;
    node_status = t.node_status;
    invalid_reason = none;
    slot_duration_ms = none;
    elapsed_slots = none;
  }

  unfoldable pub mark_client_closed : Option TransactionError → (now clock : ℕ) → Method R
  unfolding finish_with_error closed_error
  mark_client_closed none now clock t = finish_with_error client_closed (closed_error clock t) now t
  mark_client_closed (some e) now clock t = finish_with_error client_closed e now t

  pub add_status_callback : ℕ → Ticket R → Ticket R
  add_status_callback k t = record t { callbacks = t.callbacks ++ (k ∷ []) }

  unfoldable pub mark_in_block_failed : TransactionError → ℕ → Method R
  unfolding finish_with_error
  mark_in_block_failed e now t = finish_with_error in_block_failed e now t

  unfoldable pub mark_invalid : TransactionError → ℕ → Method R
  unfolding finish_with_error
  mark_invalid e now t = finish_with_error invalid e now t

  unfoldable pub mark_dropped : TransactionError → ℕ → Method R
  unfolding finish_with_error
  mark_dropped e now t = finish_with_error dropped e now t

  unfoldable pub mark_not_included : TransactionError → ℕ → Method R
  unfolding finish_with_error
  mark_not_included e now t = finish_with_error TxStatus.not_included e now t

  unfoldable pub mark_usurped : TransactionError → ℕ → Method R
  unfolding finish_with_error
  mark_usurped e now t = finish_with_error usurped e now t

  unfoldable pub mark_reconciliation_required : TransactionError → ℕ → Method R
  unfolding finish_with_error
  mark_reconciliation_required e now t = finish_with_error reconciliation_required e now t
