-- ===== src/Witnesses/Places.antt =====
-- src/deepx_sdk/async_client.py: a client that submits one transaction and sees it to its end.
use deepx_python_sdk.Prelude.{ℕ, ◌+◌, ◌≡◌, ◌↔◌, refl, Bool, true, false, List, [], ◌∷◌, returned}
use deepx_python_sdk.Status.{TxStatus, submitted, in_block_success}
use deepx_python_sdk.Capacity.{Capacity, new_capacity, acquire}
use deepx_python_sdk.Capacity.Release.{submission_done, release_for_status}
use deepx_python_sdk.Capacity.Accounts.{Accounts}
use deepx_python_sdk.Capacity.Backlog.{Fits}
use deepx_python_sdk.Capacity.Backlog.{every}
use deepx_python_sdk.Capacity.Life.{
  Reached, opened, acquires, ends, reports, Reached-Accounts, Reached-Fits,
}

abbrev nonce_of : ℕ → ℕ
nonce_of i = i + 1000

abbrev created_at : ℕ → ℕ
created_at i = i

abbrev empty : Capacity
empty = new_capacity 2 2 3 2 2

abbrev taken : Capacity
taken = (acquire false empty).1

abbrev sent : Capacity
sent = submission_done nonce_of created_at every submitted 7 taken

abbrev included : Capacity
included = release_for_status nonce_of created_at every in_block_success 7 sent

abbrev closed : Capacity
closed = release_for_status nonce_of created_at every TxStatus.finalized 7 included

taken_returns : acquire false empty ≡ (returned tt, taken)
unfolding acquire new_capacity
taken_returns = refl

sent-Reached : Reached nonce_of created_at every 0 sent
unfolding acquire new_capacity deepx_python_sdk.Prelude.get
sent-Reached = ends submitted 7 (acquires false (opened 2 2 3 2 2) taken_returns) refl

included-Reached : Reached nonce_of created_at every 0 included
included-Reached = reports in_block_success 7 sent-Reached

closed-Reached : Reached nonce_of created_at every 0 closed
closed-Reached = reports TxStatus.finalized 7 included-Reached

waits_for_finality : included.finalization_count ≡ 1
unfolding acquire new_capacity submission_done release_for_status deepx_python_sdk.Prelude.get
    deepx_python_sdk.Prelude.put
waits_for_finality = refl

closed_is_empty : closed.reservations ≡ []
unfolding acquire new_capacity submission_done release_for_status deepx_python_sdk.Prelude.get
    deepx_python_sdk.Prelude.put deepx_python_sdk.Prelude.pop
closed_is_empty = refl

Reached-Accounts_example : Accounts 0 included
Reached-Accounts_example = Reached-Accounts included-Reached

Reached-Fits_example : Fits included
Reached-Fits_example = Reached-Fits included-Reached
