-- ===== src/Manager.antt =====
-- src/deepx_sdk/_transaction_manager.py: the registry of handles by hash and client order id, the
-- bounded record of completed transactions, and the bounded queue of events. A handle is known by
-- its Python identity, with the hash and client order id that it keeps for life. `S` is the type of
-- snapshots. `working` says that the worker task exists and has not ended; of the worker only that it
-- takes events from the queue is modelled, not the listener that it calls.
pub mod Bounds
pub mod Retention
use deepx_python_sdk.Prelude.{
  ℕ, ◌*◌, ◌≡◌, max, String, Bool, true, false, not, Option, none, some, List, [], ◌∷◌, ◌++◌, ltb,
  leb, ◌==◌, if◌then◌else◌, length, Dict, get, put, pop, nat_eq, string_eq,
}
use deepx_python_sdk.Status.{
  TxStatus, created, submitted, in_block_success, in_block_failed, invalid, dropped, usurped,
  retracted, reconciliation_required, client_closed, is_terminal,
}
use deepx_python_sdk.Ticket.{TxUpdate}
use deepx_python_sdk.Nonce.{contains, discard, add}

pub record Handle : Type 0 where
  pub identity : ℕ
  pub tx_hash : String
  pub cloid : Option ℕ

pub record TransactionEvent (S : Type 0) : Type 0 where
  pub snapshot : S
  pub previous_status : TxStatus
  pub timestamp : ℕ
  pub message : String

pub record Manager (S : Type 0) : Type 0 where
  pub max_completed : ℕ
  pub queue_size : ℕ
  pub queue : List (TransactionEvent S)
  pub by_hash : Dict String Handle
  pub by_cloid : Dict ℕ Handle
  pub registered : List ℕ
  pub completed : List (String × Handle)
  pub accepting : Bool
  pub working : Bool
  pub overflow_warned : Bool

-- _STATUS_MESSAGES
unfoldable pub status_message : TxStatus → String
status_message created = "Transaction created"
status_message TxStatus.submitting = "Submission in progress"
status_message submitted = "Node accepted the transaction; waiting for inclusion"
status_message in_block_success = "Transaction included and executed successfully"
status_message in_block_failed = "Transaction included but execution failed"
status_message TxStatus.finalized = "Transaction finalized"
status_message invalid = "Transaction invalid"
status_message dropped = "Transaction dropped from the transaction pool"
status_message TxStatus.not_included =
    "Transaction was not included through the observed finalized head"
status_message usurped = "Transaction replaced by another transaction with the same nonce"
status_message retracted = "Containing block retracted; waiting for reinclusion"
status_message reconciliation_required = "Outcome uncertain; reconciliation required"
status_message client_closed = "Client closed; reconcile the transaction outcome"

-- `d.get(key) is handle`
unfoldable pub is_handle : Option Handle → Handle → Bool
is_handle none h = false
is_handle (some g) h = g.identity == h.identity

abbrev pub put_cloid : Option ℕ → Handle → Dict ℕ Handle → Dict ℕ Handle
put_cloid none h d = d
put_cloid (some c) h d = put c h d

-- `if cloid is not None and by_cloid.get(cloid) is expired: pop`
unfoldable pub forget_cloid : Option ℕ → Handle → Dict ℕ Handle → Dict ℕ Handle
unfolding is_handle get pop
forget_cloid none h d = d
forget_cloid (some c) h d = if is_handle (get c d) h then pop c d else d

-- `if by_hash.get(tx_hash) is expired: pop`
unfoldable pub forget_hash : String → Handle → Dict String Handle → Dict String Handle
unfolding is_handle
forget_hash tx_hash h d = if is_handle (get tx_hash d) h then pop tx_hash d else d

module _ {S : Type 0} where
  -- TransactionManager.__init__, for a non-negative limit
  unfoldable pub new_manager : (max_tracked max_completed : ℕ) → Manager S
  new_manager max_tracked max_completed = record {
    max_completed = max_completed;
    queue_size = max 64 (max_tracked * 8);
    queue = [];
    by_hash = [];
    by_cloid = [];
    registered = [];
    completed = [];
    accepting = false;
    working = false;
    overflow_warned = false;
  }

  -- start
  unfoldable pub start : Manager S → Manager S
  start m = if m.working then m else record m { accepting = true; working = true }

  -- close, up to the wait for the queue
  unfoldable pub begin_close : Manager S → Manager S
  begin_close m = record m { accepting = false }

  -- the rest of close: the queue is empty when the wait is over, and then the worker ends
  unfoldable pub end_close : Manager S → Manager S
  end_close m = elim m.queue [ [] ↦ record m { working = false } | event ∷ rest ↦ m ]

  -- the worker takes the next event, in _run
  unfoldable pub take_event : Manager S → Option (TransactionEvent S) × Manager S
  take_event m = elim m.queue [
    | [] ↦ (none, m)
    | event ∷ rest ↦ (some event, record m { queue = rest })
  ]

  -- register; the second part says whether the status callback is added
  unfoldable pub register : Handle → Manager S → Manager S × Bool
  unfolding contains put
  register h m =
      let known : Bool = contains h.identity m.registered in
      (
        record m {
          by_hash = put h.tx_hash h m.by_hash;
          by_cloid = put_cloid h.cloid h m.by_cloid;
          registered = if known then m.registered else h.identity ∷ m.registered;
        },
        not known,
      )

  -- the body of the loop of _retain_completed
  unfoldable pub forget : String → Handle → Manager S → Manager S
  unfolding forget_hash forget_cloid discard
  forget tx_hash h m = record m {
    by_hash = forget_hash tx_hash h m.by_hash;
    by_cloid = forget_cloid h.cloid h m.by_cloid;
    registered = discard h.identity m.registered;
  }

  -- `while len(completed) > max: popleft …`
  unfoldable pub evict : List (String × Handle) → Manager S → Manager S
  unfolding forget
  evict [] m = record m { completed = [] }
  evict ((tx_hash, h) ∷ rest) m =
      let further = evict rest (forget tx_hash h m) in
      if ltb m.max_completed (length ((tx_hash, h) ∷ rest))
      then further
      else record m { completed = (tx_hash, h) ∷ rest }

  -- _retain_completed
  unfoldable pub retain_completed : Handle → Manager S → Manager S
  unfolding evict
  retain_completed h m = evict (m.completed ++ ((h.tx_hash, h) ∷ [])) m

  -- the part of _on_update behind the test of `_accepting`: put_nowait, or QueueFull
  unfoldable pub enqueue : TransactionEvent S → Manager S → Manager S
  enqueue event m =
      if leb m.queue_size (length m.queue)
      then record m { overflow_warned = true }
      else record m { queue = m.queue ++ (event ∷ []) }

  -- `if not self._accepting: return`
  unfoldable pub publish : TransactionEvent S → Manager S → Manager S
  unfolding enqueue
  publish event m = if not m.accepting then m else enqueue event m

  -- `if update.status in _TERMINAL_STATUSES`
  unfoldable pub retain_terminal : Handle → TxStatus → Manager S → Manager S
  unfolding is_terminal retain_completed
  retain_terminal h status m = if is_terminal status then retain_completed h m else m

  -- _on_update
  unfoldable pub on_update : Handle → TxUpdate → S → Manager S → Manager S
  unfolding retain_terminal publish status_message
  on_update h u snapshot m =
      publish
        (record {
          snapshot = snapshot;
          previous_status = u.previous_status;
          timestamp = u.timestamp;
          message = status_message u.status;
        })
        (retain_terminal h u.status m)
