-- ===== src/Manager/Bounds.antt =====
-- src/deepx_sdk/_transaction_manager.py: the limits of the record of completed transactions
-- and of the queue of events, under any calls.
use deepx_python_sdk.Prelude.{
  ℕ, ◌≤◌, ◌≡◌, String, List, [], ◌∷◌, ◌++◌, length, arith, length-append,
}
use deepx_python_sdk.Status.{TxStatus}
use deepx_python_sdk.Ticket.{TxUpdate}
use deepx_python_sdk.Manager.{
  Manager, Handle, forget, evict, register, TransactionEvent, retain_terminal, publish, on_update,
  new_manager, start, begin_close, end_close, take_event,
}

pub record IsBounded {S : Type 0} (m : Manager S) : Type 0 where
  pub completed_fits : length m.completed ≤ m.max_completed
  pub queue_fits : length m.queue ≤ m.queue_size

-- what a client of the manager makes happen
pub data ManagerCall (S : Type 0) : Type 0 where
  registers : Handle → ManagerCall S
  updates : Handle → TxUpdate → S → ManagerCall S
  starts closes closed takes : ManagerCall S

module _ {S : Type 0} where
  -- what eviction leaves alone, and how many it keeps
  pub evict_facts :
      (cs : List (String × Handle)) (m : Manager S)
      → ((evict cs m).max_completed ≡ m.max_completed)
        × ((evict cs m).queue_size ≡ m.queue_size)
        × ((evict cs m).queue ≡ m.queue)
        × ((evict cs m).accepting ≡ m.accepting)
        × (length (evict cs m).completed ≤ m.max_completed)
  unfolding evict
  evict_facts [] m = ground arith
  evict_facts ((tx_hash, h) ∷ rest) m = ground (arith, evict_facts rest (forget tx_hash h m))

  retain_terminal-IsBounded :
      (h : Handle) (s : TxStatus) (m : Manager S) → IsBounded m → IsBounded (retain_terminal h s m)
  unfolding retain_terminal
  retain_terminal-IsBounded h s m b =
      ground (arith, evict_facts (m.completed ++ ((h.tx_hash, h) ∷ [])) m)

  publish-IsBounded :
      (event : TransactionEvent S) (m : Manager S) → IsBounded m → IsBounded (publish event m)
  unfolding publish
  publish-IsBounded event m b = ground (arith, length-append m.queue (event ∷ []))

  register-IsBounded : (h : Handle) (m : Manager S) → IsBounded m → IsBounded (register h m).0
  unfolding register
  register-IsBounded h m b = record { completed_fits = b.completed_fits; queue_fits = b.queue_fits }

  unfoldable pub perform : ManagerCall S → Manager S → Manager S
  perform (registers h) m = (register h m).0
  perform (updates h u s) m = on_update h u s m
  perform starts m = start m
  perform closes m = begin_close m
  perform closed m = end_close m
  perform takes m = (take_event m).1

  unfoldable pub perform_all : List (ManagerCall S) → Manager S → Manager S
  perform_all [] m = m
  perform_all (c ∷ cs) m = perform_all cs (perform c m)

  perform-IsBounded : (c : ManagerCall S) (m : Manager S) → IsBounded m → IsBounded (perform c m)
  unfolding perform
  perform-IsBounded (registers h) m b = register-IsBounded h m b
  perform-IsBounded (updates h u s) m b =
      unfold on_update in publish-IsBounded _ _ (retain_terminal-IsBounded h u.status m b)
  perform-IsBounded starts m b = unfold start in ground arith
  perform-IsBounded closes m b = unfold begin_close in ground arith
  perform-IsBounded closed m b = unfold end_close in ground arith
  perform-IsBounded takes m b = unfold take_event in ground arith

  perform_all-IsBounded :
      (cs : List (ManagerCall S)) (m : Manager S) → IsBounded m → IsBounded (perform_all cs m)
  unfolding perform_all
  perform_all-IsBounded [] m b = b
  perform_all-IsBounded (c ∷ cs) m b =
      perform_all-IsBounded cs (perform c m) (perform-IsBounded c m b)

  -- From a new manager, after any starts and closes, registrations, status updates
  -- and events taken by the worker, the completed transactions are
  -- at most the limit and the queued events at most the size of the queue.
  pub IsBounded-always :
      (max_tracked max_completed : ℕ) (cs : List (ManagerCall S))
      → IsBounded (perform_all cs (new_manager max_tracked max_completed))
  IsBounded-always max_tracked max_completed cs =
      perform_all-IsBounded cs (new_manager max_tracked max_completed)
        (unfold new_manager in omega arith)
