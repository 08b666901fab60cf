-- ===== src/Pending/Coherence.antt =====
-- src/deepx_sdk/_pending_tx.py: the methods of PendingTransaction and the invariant of
-- Pending.Invariant.
use deepx_python_sdk.Prelude.{ℕ, Option, List, [], ◌∷◌, String, arith}
use deepx_python_sdk.Status.{is_terminal}
use deepx_python_sdk.Ticket.{TxTimeouts, Ticket, new_ticket}
use deepx_python_sdk.Pending.Waits.{is_finalized}
use deepx_python_sdk.Pending.Invariant.{
  Call, submitting, step, run, IsCoherent, is_failure, is_early, awaits_block, keeps_block,
}

module _ {R : Type 0} where
  new-IsCoherent :
      (i : ℕ) (tx_hash : String) (n : ℕ) (cloid : Option ℕ) (limits : TxTimeouts) (k : Option ℕ)
      (now clock : ℕ)
      → IsCoherent (new_ticket {R = R} i tx_hash n cloid limits k now clock)
  unfolding new_ticket is_failure is_terminal is_early awaits_block is_finalized
  new-IsCoherent i tx_hash n cloid limits k now clock = ground arith

  -- Every call keeps the invariant, on the branch that raises too.
  pub step-IsCoherent : (c : Call R) (t : Ticket R) → IsCoherent t → IsCoherent (step c t)
  unfolding step is_failure is_terminal is_early awaits_block is_finalized keeps_block
  step-IsCoherent (submitting now) t h = ground arith
  step-IsCoherent _ t h = ground arith

  run-IsCoherent : (cs : List (Call R)) (t : Ticket R) → IsCoherent t → IsCoherent (run cs t)
  unfolding run
  run-IsCoherent [] t h = h
  run-IsCoherent (c ∷ cs) t h = run-IsCoherent cs (step c t) (step-IsCoherent c t h)

  -- A handle that was just created, after any sequence of calls: an error is on record exactly in
  -- the failed statuses, a finalized handle has a result, no future is left waiting for an event
  -- that cannot come any more, and a result that a future gave out is the one on record.
  pub IsCoherent-always :
      (i : ℕ) (tx_hash : String) (n : ℕ) (cloid : Option ℕ) (limits : TxTimeouts) (k : Option ℕ)
      (now clock : ℕ) (cs : List (Call R))
      → IsCoherent (run cs (new_ticket {R = R} i tx_hash n cloid limits k now clock))
  IsCoherent-always i tx_hash n cloid limits k now clock cs =
      run-IsCoherent cs (new_ticket i tx_hash n cloid limits k now clock)
        (new-IsCoherent i tx_hash n cloid limits k now clock)
