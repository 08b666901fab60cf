-- ===== src/Pending/Lifecycle.antt =====
-- src/deepx_sdk/_pending_tx.py: terminal statuses, methods that raise, errors and retractions in
-- the life of a handle.
use deepx_python_sdk.Prelude.{
  ◌≡◌, ◌⊎◌, true, false, Option, none, some, List, [], ◌∷◌, returned, raised, arith, refl, ℕ,
}
use deepx_python_sdk.Status.{is_terminal, is_legal}
use deepx_python_sdk.Diagnostics.{TransactionError}
use deepx_python_sdk.Ticket.{Future, absent, waiting, resolved, woken, Ticket}
use deepx_python_sdk.Pending.{Failure, mark_retracted}
use deepx_python_sdk.Pending.Waits.{waits, wait_in_block, wait_finalized}
use deepx_python_sdk.Pending.Invariant.{
  Call, submitting, perform, step, run, IsCoherent, is_failure, is_waiting, is_early, awaits_block,
}

-- a future after an error: whoever waits for it is woken with the error, and one on which nobody
-- waits is left as it was
abbrev pub Woken : {A : Type 0} → TransactionError → Future A → Future A → Type 0
Woken e waiting after = after ≡ woken e
Woken e absent after = after ≡ absent
Woken e (resolved a) after = after ≡ resolved a
Woken e (woken d) after = after ≡ woken d

-- an identifier of an error: its own, or else that of the handle
abbrev pub Filled : {A : Type 0} → Option A → A → Option A → Type 0
Filled none own final = final ≡ some own
Filled (some a) own final = final ≡ some a

-- an error with the identifiers of a handle where it has none
abbrev pub Completed : {R : Type 0} → TransactionError → Ticket R → TransactionError → Type 0
Completed e t final =
    (final.code ≡ e.code)
    × (final.certainty ≡ e.certainty)
    × (final.retryable ≡ e.retryable)
    × Filled e.pending t.identity final.pending
    × Filled e.tx_hash t.tx_hash final.tx_hash
    × Filled e.nonce t.nonce final.nonce

module _ {R : Type 0} where
  step_terminal :
      (c : Call R) (t : Ticket R) → IsCoherent t → is_terminal t.status ≡ true → step c t ≡ t
  unfolding step is_terminal is_failure
  step_terminal (submitting now) t h d = ground arith
  step_terminal _ t h d = ground arith

  -- Once a handle that satisfies the invariant is in a terminal status, no sequence of calls
  -- changes anything of it: not its status, result, error, futures, or queue of updates.
  pub terminal_is_final :
      (cs : List (Call R)) (t : Ticket R)
      → IsCoherent t
      → is_terminal t.status ≡ true
      → run cs t ≡ t
  unfolding run
  terminal_is_final [] t h d = refl
  terminal_is_final (c ∷ cs) t h d = rw (step_terminal c t h d) (terminal_is_final cs t h d)

  -- A call that raises leaves the handle exactly as it was.
  pub raise_unchanged :
      (c : Call R) (t : Ticket R) {e : Failure} → (perform c t).0 ≡ raised e → (perform c t).1 ≡ t
  unfolding perform
  raise_unchanged (submitting now) t h = ground arith
  raise_unchanged _ t h = ground arith

  -- After any call the status is the one before it or one that the table allows after it.
  pub step_legal :
      (c : Call R) (t : Ticket R)
      → ((step c t).status ≡ t.status) ⊎ (is_legal t.status (step c t).status ≡ true)
  unfolding step
  step_legal (submitting now) t = ground arith
  step_legal _ t = ground arith

  -- In a terminal status of a handle that satisfies the invariant no future is left waiting.
  pub terminal_no_waiter :
      (t : Ticket R)
      → IsCoherent t
      → is_terminal t.status ≡ true
      → (is_waiting t.submitted_future ≡ false)
        × (is_waiting t.in_block_future ≡ false)
        × (is_waiting t.finalized_future ≡ false)
  unfolding is_terminal is_early awaits_block
  terminal_no_waiter t h d = ground arith

  -- After a retraction that returns, waiting for the result starts over: no result or block hash is on record and both wait_in_block
  -- and wait_finalized wait.
  pub retracted_waits_again :
      (now : ℕ) (t : Ticket R)
      → IsCoherent t
      → (mark_retracted now t).0 ≡ returned tt
      → let u = (mark_retracted now t).1 in
        (u.result ≡ none)
        × (u.block_hash ≡ none)
        × ((wait_in_block u).0 ≡ waits)
        × ((wait_finalized u).0 ≡ waits)
        × (is_waiting (wait_in_block u).1.in_block_future ≡ true)
  unfolding mark_retracted wait_in_block wait_finalized is_failure is_terminal awaits_block
  retracted_waits_again now t h d = ground arith
