-- ===== src/Witnesses/Connecting.antt =====
-- src/deepx_sdk/_async_transport.py on a subscription, a lost connection and three endpoints.
use deepx_python_sdk.Prelude.{
  ℕ, ◌≡◌, ◌≤◌, ◌+◌, refl, arith, String, Bool, true, false, none, some, List, [], ◌∷◌, ◌==◌, get,
  put, member, include, nat_eq, string_eq,
}
use deepx_python_sdk.Tracker.Admission.{
  RpcError, transport_request_error, OffersRetry, refuse_subscription,
}
use deepx_python_sdk.Transport.{Transport, new_transport, Intent, waiting, failed, connected}
use deepx_python_sdk.Transport.Requests.{time_out, fail_requests}
use deepx_python_sdk.Transport.Responses.{respond, has_result, early_total, max_early}
use deepx_python_sdk.Transport.Run.{Step, opens, sends, disconnects, adopts, run}
use deepx_python_sdk.Transport.Submission.{raises, retry_means_unsent, late_timeout}
use deepx_python_sdk.Transport.Notifications.{Expects, Awaits, notify_all, arrival_order}
use deepx_python_sdk.Witnesses.Handles.{fresh}
use deepx_python_sdk.Witnesses.Tracking.{clocks}

abbrev name : ℕ → String
name n = "s"

-- two requests are opened, the first is sent, and the connection is lost
abbrev steps : List (Step ℕ ℕ ℕ)
steps = adopts connected ∷ opens none ∷ opens none ∷ sends 1 ∷ disconnects true true ∷ []

abbrev lost : Transport ℕ ℕ ℕ
lost = run name steps (new_transport false)

abbrev unsent_error : RpcError
unsent_error = transport_request_error false "lost"

second_unsent : raises (get 2 lost.futures) "lost" ≡ some unsent_error
unfolding run get put member include
second_unsent = refl

second-OffersRetry : OffersRetry (refuse_subscription unsent_error clocks fresh).0
unfolding refuse_subscription
second-OffersRetry = refl

retry_means_unsent_example : member 2 lost.outgoing ≡ false
retry_means_unsent_example =
    retry_means_unsent name steps false 2 "lost" unsent_error clocks fresh second_unsent
      second-OffersRetry

abbrev sent : Transport ℕ ℕ ℕ
sent = run name (adopts connected ∷ opens none ∷ sends 1 ∷ []) (new_transport false)

sent_waits : get 1 sent.futures ≡ some waiting
unfolding run get put
sent_waits = refl

sent_requested : member 1 sent.requests ≡ true
unfolding run member get put
sent_requested = refl

sent_noted : member 1 sent.request_may_have_been_sent ≡ true
unfolding run member get put include
sent_noted = refl

late_timeout_example :
    (get 1 (fail_requests sent).futures ≡ some (failed true))
    × ((time_out 1 sent).0.may_have_been_sent ≡ true)
    × ((time_out 1 (fail_requests sent)).0.may_have_been_sent ≡ false)
late_timeout_example = late_timeout 1 sent sent_waits sent_requested sent_noted

abbrev third : ℕ → Bool
third n = n == 2

abbrev watch : Intent ℕ
watch = record { handler = 5; subscription_id = none }

abbrev subscribing : Transport ℕ ℕ ℕ
subscribing = run name (adopts connected ∷ opens (some watch) ∷ sends 1 ∷ []) (new_transport false)

subscribing-Awaits : Awaits 1 watch subscribing
unfolding run get member put
subscribing-Awaits = record { requested = refl; waits = refl; intended = refl }

subscribing-Expects : Expects "s" subscribing
unfolding run get member put
subscribing-Expects = record { no_route = refl; no_tombstone = refl; under_way = refl }

none_early : get "s" subscribing.early_notifications ≡ none
unfolding run get put
none_early = refl

early_room : early_total subscribing.early_notifications + 2 ≤ max_early
unfolding run early_total get put
early_room = omega arith

arrival_order_example :
    get "s"
      (notify_all "s"
        (30 ∷ [])
        (respond name 1
          (has_result (some 8))
          (notify_all "s" (10 ∷ 20 ∷ []) subscribing)).1).subscriptions
    ≡ some (record { handler = 5; queue = 10 ∷ 20 ∷ 30 ∷ []; stopping = false })
arrival_order_example =
    arrival_order name 8 1 watch (10 ∷ 20 ∷ []) (30 ∷ []) subscribing subscribing-Awaits
      subscribing-Expects none_early early_room (omega arith)
