-- ===== src/Witnesses/Handles.antt =====
-- src/deepx_sdk/_pending_tx.py and _tx_diagnostics.py on concrete handles.
use deepx_python_sdk.Prelude.{
  ℕ, ◌≡◌, refl, true, false, none, some, List, [], ◌∷◌, returned, raised,
}
use deepx_python_sdk.Status.{TxStatus, created, retracted, dropped, is_terminal, is_legal}
use deepx_python_sdk.Diagnostics.{TransactionError, has_text, from_node_reason}
use deepx_python_sdk.Ticket.{Ticket, new_ticket, default_timeouts}
use deepx_python_sdk.Pending.{illegal_transition, mark_retracted}
use deepx_python_sdk.Pending.Invariant.{
  Call, accept, succeed, finalize, retract, fail, await_in_block, await_finalized, perform, step,
  run, IsCoherent,
}
use deepx_python_sdk.Pending.Coherence.{IsCoherent-always}
use deepx_python_sdk.Pending.Lifecycle.{terminal_is_final}
use deepx_python_sdk.Pending.History.{IsHistory, IsHistory-always}

abbrev pub fresh : Ticket ℕ
fresh = new_ticket 1 "0xaa" 7 none default_timeouts none 100 100

abbrev in_block_calls : List (Call ℕ)
in_block_calls = accept none 110 ∷ succeed (some 5) "0xb1" "0xaa" 120 ∷ []

abbrev all_calls : List (Call ℕ)
all_calls = accept none 110 ∷ succeed (some 5) "0xb1" "0xaa" 120 ∷ finalize (some "0xb1") 130 ∷ []

abbrev pub accepted_ticket : Ticket ℕ
accepted_ticket = run (accept none 110 ∷ []) fresh

abbrev in_block_ticket : Ticket ℕ
in_block_ticket = run in_block_calls fresh

abbrev finalized_ticket : Ticket ℕ
finalized_ticket = run all_calls fresh

abbrev node_error : TransactionError
node_error = from_node_reason "Payment" (some "0xaa") none (some 7) 3 none none

reason_Payment : has_text "Payment" "Invalid Payment x" ≡ true
unfolding has_text
reason_Payment = refl

reason_other : has_text "Payment" "TimeStale" ≡ false
unfolding has_text
reason_other = refl

finalized_status : finalized_ticket.status ≡ TxStatus.finalized
unfolding run step new_ticket
finalized_status = refl

IsCoherent-always_example :
    IsCoherent (run all_calls (new_ticket 1 "0xaa" 7 none default_timeouts none 100 100))
IsCoherent-always_example =
    IsCoherent-always 1 "0xaa" 7 none default_timeouts none 100 100 all_calls

finalized-IsCoherent : IsCoherent finalized_ticket
unfolding new_ticket
finalized-IsCoherent = IsCoherent-always 1 "0xaa" 7 none default_timeouts none 100 100 all_calls

finalized_is_terminal : is_terminal finalized_ticket.status ≡ true
unfolding is_terminal run step new_ticket
finalized_is_terminal = refl

terminal_is_final_example :
    run (retract 140 ∷ fail node_error 150 ∷ []) finalized_ticket ≡ finalized_ticket
terminal_is_final_example =
    terminal_is_final (retract 140 ∷ fail node_error 150 ∷ []) finalized_ticket finalized-IsCoherent
      finalized_is_terminal

retraction_raises : (perform (retract 105) fresh).0 ≡ raised (illegal_transition created retracted)
unfolding perform new_ticket
retraction_raises = refl

drop_is_legal : is_legal accepted_ticket.status dropped ≡ true
unfolding is_legal run step new_ticket
drop_is_legal = refl

-- two callers wait
abbrev awaited_ticket : Ticket ℕ
awaited_ticket = run (await_in_block ∷ await_finalized ∷ []) accepted_ticket

in_block-IsCoherent : IsCoherent in_block_ticket
unfolding new_ticket
in_block-IsCoherent = IsCoherent-always 1 "0xaa" 7 none default_timeouts none 100 100 in_block_calls

retraction_returns : (mark_retracted 125 in_block_ticket).0 ≡ returned tt
unfolding mark_retracted run step new_ticket
retraction_returns = refl

IsHistory-always_example :
    IsHistory (run all_calls (new_ticket 1 "0xaa" 7 none default_timeouts none 100 100))
IsHistory-always_example = IsHistory-always 1 "0xaa" 7 none default_timeouts none 100 100 all_calls

finalized-IsHistory : IsHistory finalized_ticket
unfolding new_ticket
finalized-IsHistory = IsHistory-always 1 "0xaa" 7 none default_timeouts none 100 100 all_calls
