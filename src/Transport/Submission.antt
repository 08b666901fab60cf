-- ===== src/Transport/Submission.antt =====
-- src/deepx_sdk/_async_transport.py and _async_tracker.py: what a request reports of its own
-- transmission, and the retry that a submission offers after it.
use deepx_python_sdk.Prelude.{
  ℕ, ◌≡◌, refl, String, Bool, true, false, Option, none, some, List, get, member, nat_eq, ap, ◌∙◌,
}
use deepx_python_sdk.Ticket.{Ticket}
use deepx_python_sdk.Tracker.{Clocks}
use deepx_python_sdk.Tracker.Admission.{
  RpcError, transport_request_error, rpc_error, OffersRetry, refuse_subscription, retry_only_unsent,
  may_have_been_sent,
}
use deepx_python_sdk.Transport.{
  RequestFuture, waiting, cancelled, failed, refused, result, Transport, new_transport,
}
use deepx_python_sdk.Transport.Requests.{time_out, fail_requests}
use deepx_python_sdk.Transport.Notes.{get-fail_futures}
use deepx_python_sdk.Transport.Run.{Step, run, failed_not_sent}

-- what `await future` raises
abbrev pub raises : {V E : Type 0} → Option (RequestFuture V E) → String → Option RpcError
raises (some (failed sent)) message = some (transport_request_error sent message)
raises (some (refused e)) message = some (rpc_error message)
raises _ message = none

abbrev unsent : Option RpcError → Bool
unsent none = true
unsent (some exc) = may_have_been_sent exc

module _ {V E : Type 0} where
  fails_as :
      (o : Option (RequestFuture V E)) (message : String) (exc : RpcError)
      → raises o message ≡ some exc
      → may_have_been_sent exc ≡ false
      → o ≡ some (failed false)
  unfolding may_have_been_sent
  fails_as none message exc e f = absurd (cc e)
  fails_as (some waiting) message exc e f = absurd (cc e)
  fails_as (some cancelled) message exc e f = absurd (cc e)
  fails_as (some (result v)) message exc e f = absurd (cc e)
  fails_as (some (refused r)) message exc e f = absurd (cc (ap unsent e ∙ f))
  fails_as (some (failed sent)) message exc e f = ap (λ b. some (failed b)) (ap unsent e ∙ f)

module _ {V E H R : Type 0} (show : V → String) where
  -- After any steps of a new transport: if the failure of a request's future makes the submission
  -- that waits for it offer a retry, the request was never given to the socket.
  pub retry_means_unsent :
      (cs : List (Step V E H)) (auto_reconnect : Bool) (id : ℕ) (message : String) (exc : RpcError)
      (clocks : Clocks) (t : Ticket R)
      → raises (get id (run show cs (new_transport auto_reconnect)).futures) message ≡ some exc
      → OffersRetry (refuse_subscription exc clocks t).0
      → member id (run show cs (new_transport auto_reconnect)).outgoing ≡ false
  retry_means_unsent cs auto_reconnect id message exc clocks t e h =
      failed_not_sent show cs auto_reconnect id (
        fails_as (get id (run show cs (new_transport auto_reconnect)).futures) message exc e
          (retry_only_unsent exc clocks t h))

module _ {V E H : Type 0} where
  -- A request that waits for its answer and whose text may have left: a disconnection fails its
  -- future as possibly sent, and a timeout that comes before the disconnection says so too; but a
  -- timeout of the request right after the disconnection says that nothing was sent.
  pub late_timeout :
      (id : ℕ) (t : Transport V E H)
      → get id t.futures ≡ some waiting
      → member id t.requests ≡ true
      → member id t.request_may_have_been_sent ≡ true
      → (get id (fail_requests t).futures ≡ some (failed true))
        × ((time_out id t).0.may_have_been_sent ≡ true)
        × ((time_out id (fail_requests t)).0.may_have_been_sent ≡ false)
  unfolding fail_requests time_out member
  late_timeout id t w r s = (
    get-fail_futures t.request_may_have_been_sent t.requests t.futures id ∙ rw (r, w, s) refl,
    s,
    refl,
  )
