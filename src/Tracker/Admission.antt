-- ===== src/Tracker/Admission.antt =====
-- src/deepx_sdk/_async_tracker.py: _admission_reason, and the handler of RPCError in
-- _open_subscription.
use deepx_python_sdk.Prelude.{
  ℕ, ◌≡◌, refl, String, Bool, true, false, Option, none, some, List, [], ◌∷◌, Outcome, returned,
  raised, if◌then◌else◌, ◌⊎◌, inl, inr, arith,
}
use text.Mathlib.Text.{starts_with}
use deepx_python_sdk.Diagnostics.{
  TransactionError, transaction_error, submission, not_submitted, unknown, from_node_reason,
}
use deepx_python_sdk.Status.{invalid}
use deepx_python_sdk.Ticket.{Ticket}
use deepx_python_sdk.Pending.{Failure, failed_with, illegal_transition, mark_invalid, elapsed}
use deepx_python_sdk.Tracker.{Clocks, error_about}

-- message[message.find(marker):], if the marker is in the message
unfoldable pub from_marker : String → String → Option String
from_marker marker String.[] = none
from_marker marker (String.◌∷◌ c s) =
    let later = from_marker marker s in
    if starts_with (String.◌∷◌ c s) marker then some (String.◌∷◌ c s) else later

-- the loop over the markers
unfoldable pub first_marker : List String → String → Option String
unfolding from_marker
first_marker [] message = none
first_marker (marker ∷ markers) message = elim (from_marker marker message) [
  | none ↦ first_marker markers message
  | some reason ↦ some reason
]

-- _admission_reason
unfoldable pub admission_reason : String → Option String
unfolding first_marker
admission_reason message =
    first_marker ("ExceedPoolLimit" ∷ "Payment" ∷ "TimeStale" ∷ "Future" ∷ "BadSigner" ∷ []) message

-- an RPCError: a TransportRequestError with may_have_been_sent, or another
pub data RpcError : Type 0 where
  transport_request_error : Bool → String → RpcError
  rpc_error : String → RpcError

abbrev pub message_of : RpcError → String
message_of (transport_request_error sent message) = message
message_of (rpc_error message) = message

unfoldable pub may_have_been_sent : RpcError → Bool
may_have_been_sent (transport_request_error sent message) = sent
may_have_been_sent (rpc_error message) = true

-- the outcome offers a retry
abbrev pub OffersRetry : Outcome Failure (Unit {0}) → Type 0
OffersRetry (raised (failed_with e)) = e.retryable ≡ true
OffersRetry _ = ⊥

module _ {R : Type 0} where
  -- the error of a submission that may have left, or did not
  unfoldable pub transport_error : Bool → RpcError → Clocks → Ticket R → TransactionError
  unfolding error_about
  transport_error true exc clocks t =
      error_about transaction_error "TRANSPORT_AFTER_SEND" submission unknown
        "Keep this pending handle and reconcile by tx hash/cloid; do not resubmit while the outcome is unknown."
        (some (message_of exc)) t.node_status clocks.monotonic t
  transport_error false exc clocks t =
      record (error_about transaction_error "TRANSPORT_BEFORE_SEND" submission not_submitted
        "It is safe to reconnect and explicitly submit a newly encoded transaction because no bytes were sent."
        (some (message_of exc)) t.node_status clocks.monotonic t) { retryable = true }

  -- after the call of _admission_reason
  unfoldable pub refuse_admission :
      Option String → RpcError → Clocks → Ticket R → Outcome Failure (Unit {0}) × Ticket R
  unfolding transport_error may_have_been_sent
  refuse_admission none exc clocks t =
      (raised (failed_with (transport_error (may_have_been_sent exc) exc clocks t)), t)
  refuse_admission (some reason) exc clocks t =
      mark_invalid
        (from_node_reason reason (some t.tx_hash) t.cloid (some t.nonce)
          (elapsed clocks.monotonic t) (some t.identity) (some "invalid"))
        clocks.now t

  -- the handler of RPCError in _open_subscription
  unfoldable pub refuse_subscription :
      RpcError → Clocks → Ticket R → Outcome Failure (Unit {0}) × Ticket R
  unfolding refuse_admission admission_reason
  refuse_subscription exc clocks t =
      refuse_admission (admission_reason (message_of exc)) exc clocks t

  invalid_outcome :
      (e : TransactionError) (now : ℕ) (t : Ticket R)
      → ((mark_invalid e now t).0 ≡ returned tt)
        ⊎ ((mark_invalid e now t).0 ≡ raised (illegal_transition t.status invalid))
  unfolding mark_invalid
  invalid_outcome e now t = ground arith

  marked_offers_none :
      (e : TransactionError) (now : ℕ) (t : Ticket R) → ¬ OffersRetry (mark_invalid e now t).0
  marked_offers_none e now t h = elim (invalid_outcome e now t) [
    | inl q ↦ rw q at h
    | inr q ↦ rw q at h
  ]

  refused_admission :
      (o : Option String) (exc : RpcError) (clocks : Clocks) (t : Ticket R)
      → OffersRetry (refuse_admission o exc clocks t).0
      → may_have_been_sent exc ≡ false
  unfolding refuse_admission transport_error error_about may_have_been_sent
  refused_admission none (transport_request_error true message) clocks t h = absurd (cc h)
  refused_admission none (transport_request_error false message) clocks t h = refl
  refused_admission none (rpc_error message) clocks t h = absurd (cc h)
  refused_admission (some reason) exc clocks t h = absurd (marked_offers_none _ clocks.now t h)

  -- The handler of a failed subscription offers a retry only for a TransportRequestError that says
  -- that nothing was sent.
  pub retry_only_unsent :
      (exc : RpcError) (clocks : Clocks) (t : Ticket R)
      → OffersRetry (refuse_subscription exc clocks t).0
      → may_have_been_sent exc ≡ false
  unfolding refuse_subscription
  retry_only_unsent exc clocks t h =
      refused_admission (admission_reason (message_of exc)) exc clocks t h
