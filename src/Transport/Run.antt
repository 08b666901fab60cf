-- ===== src/Transport/Run.antt =====
-- src/deepx_sdk/_async_transport.py: the steps of a transport in any order, as the event loop runs
-- them, and what its requests tell after them.
use deepx_python_sdk.Prelude.{
  ℕ, ◌≡◌, refl, String, Bool, true, false, not, ◌&&◌, Option, none, some, List, [], ◌∷◌, Outcome,
  get, member, nat_eq, string_eq, Bool-cases, inl, inr, if_both, is_some, leb, ltb, length,
}
use deepx_python_sdk.Transport.{
  ConnectionState, result, refused, failed, Route, Intent, Transport, new_transport, is_closed,
}
use deepx_python_sdk.Transport.Requests.{
  is_waiting, open_request, send_request, time_out, finish_request, disconnect, adopt_socket,
  close_transport,
}
use deepx_python_sdk.Transport.Responses.{
  ProtocolError, Response, has_result, has_error, max_active, max_early, early_total, none_pending,
  enqueue, keep_early, deliver, notify, subscribe_route, accept_result, answer_waiting, respond,
  forget_subscription,
}
use deepx_python_sdk.Transport.Sent.{
  IsHonest, send-IsHonest, open-IsHonest, fail-IsHonest, finish-IsHonest, time_out-IsHonest,
  settle-IsHonest,
}

-- what happens to a transport between two awaits
pub data Step (V E H : Type 0) : Type 0 where
  opens : Option (Intent H) → Step V E H
  sends expires finishes : ℕ → Step V E H
  answers : ℕ → Response V E → Step V E H
  notifies : String → V → Step V E H
  forgets : String → Step V E H
  disconnects : (current closes : Bool) → Step V E H
  adopts : ConnectionState → Step V E H
  closes_down : Bool → Step V E H

new-IsHonest :
    (V E H : Type 0) (auto_reconnect : Bool)
    → IsHonest (new_transport {V = V} {E = E} {H = H} auto_reconnect)
unfolding IsHonest get member
new-IsHonest V E H auto_reconnect id = ((refl, refl), λ le. refl)

module _ {V E H : Type 0} (show : V → String) where
  unfoldable pub step : Step V E H → Transport V E H → Transport V E H
  unfolding open_request send_request time_out finish_request respond notify forget_subscription
      disconnect adopt_socket close_transport
  step (opens intent) t = (open_request intent t).1
  step (sends id) t = send_request id t
  step (expires id) t = (time_out id t).1
  step (finishes id) t = finish_request id t
  step (answers id r) t = (respond show id r t).1
  step (notifies id v) t = (notify id v t).1
  step (forgets id) t = forget_subscription id t
  step (disconnects current closes) t = disconnect current closes t
  step (adopts published) t = adopt_socket published t
  step (closes_down closes) t = close_transport closes t

  unfoldable pub run : List (Step V E H) → Transport V E H → Transport V E H
  unfolding step
  run [] t = t
  run (c ∷ cs) t = run cs (step c t)

  deliver-IsHonest :
      (id : String) (v : V) (o : Option (Route V H)) (t : Transport V E H)
      → IsHonest t
      → IsHonest (deliver id v o t).1
  unfolding deliver enqueue keep_early IsHonest
  deliver-IsHonest id v none t h = if_both IsHonest (member id t.unsubscribed) _ _ h (
      if_both IsHonest (none_pending t.subscribe_intents) _ _ h
        (if_both IsHonest (leb max_early (early_total t.early_notifications)) _ _ h h))
  deliver-IsHonest id v (some route) t h =
      if_both {A = Outcome ProtocolError (Unit {0}) × Transport V E H} (λ r. IsHonest r.1)
        (ltb (length route.queue) max_active) _ _ h h

  accept-IsHonest :
      (id : ℕ) (v : Option V) (intent : Option (Intent H)) (t : Transport V E H)
      → is_waiting (get id t.futures) ≡ true
      → IsHonest t
      → IsHonest (accept_result show id v intent t).1
  unfolding accept_result subscribe_route IsHonest
  accept-IsHonest id none none t w h = settle-IsHonest id (result none) t w (λ n u r. tt) h
  accept-IsHonest id none (some intent) t w h = settle-IsHonest id (result none) t w (λ n u r. tt) h
  accept-IsHonest id (some v) none t w h = settle-IsHonest id (result (some v)) t w (λ n u r. tt) h
  accept-IsHonest id (some v) (some intent) t w h =
      if_both {A = Outcome ProtocolError (Unit {0}) × Transport V E H} (λ r. IsHonest r.1)
        (is_some (get (show v) t.subscriptions)) _ _ h
        (settle-IsHonest id (result (some v)) (subscribe_route id intent (show v) t) w (λ n u r. tt)
          h)

  answer-IsHonest :
      (id : ℕ) (r : Response V E) (t : Transport V E H)
      → is_waiting (get id t.futures) ≡ true
      → IsHonest t
      → IsHonest (answer_waiting show id r t).1
  unfolding answer_waiting
  answer-IsHonest id (has_error e) t w h = settle-IsHonest id (refused e) t w (λ n u r. tt) h
  answer-IsHonest id (has_result v) t w h = accept-IsHonest id v (get id t.subscribe_intents) t w h

  respond-IsHonest :
      (id : ℕ) (r : Response V E) (t : Transport V E H)
      → IsHonest t
      → IsHonest (respond show id r t).1
  unfolding respond
  respond-IsHonest id r t h = elim (Bool-cases (member id t.requests)) [
    | inl a ↦ elim (Bool-cases (is_waiting (get id t.futures))) [
      | inl b ↦ rw (a, b) (answer-IsHonest id r t b h)
      | inr b ↦ rw (a, b) h
    ]
    | inr a ↦ rw a h
  ]

  disconnect-IsHonest :
      (current closes : Bool) (t : Transport V E H)
      → IsHonest t
      → IsHonest (disconnect current closes t)
  unfolding disconnect IsHonest
  disconnect-IsHonest current closes t h =
      if_both IsHonest (is_closed t.state) _ _ h
        (if_both IsHonest (not (current && t.has_socket)) _ _ h (fail-IsHonest t h))

  step-IsHonest : (c : Step V E H) (t : Transport V E H) → IsHonest t → IsHonest (step c t)
  unfolding step notify forget_subscription adopt_socket close_transport IsHonest
  step-IsHonest (opens intent) t h = open-IsHonest intent t h
  step-IsHonest (sends id) t h = send-IsHonest id t h
  step-IsHonest (expires id) t h = time_out-IsHonest id t h
  step-IsHonest (finishes id) t h = finish-IsHonest id t h
  step-IsHonest (answers id r) t h = respond-IsHonest id r t h
  step-IsHonest (notifies id v) t h = deliver-IsHonest id v (get id t.subscriptions) t h
  step-IsHonest (forgets id) t h = h
  step-IsHonest (disconnects current closes) t h = disconnect-IsHonest current closes t h
  step-IsHonest (adopts published) t h = if_both IsHonest (is_closed t.state) _ _ h h
  step-IsHonest (closes_down closes) t h = fail-IsHonest t h

  run-IsHonest : (cs : List (Step V E H)) (t : Transport V E H) → IsHonest t → IsHonest (run cs t)
  unfolding run
  run-IsHonest [] t h = h
  run-IsHonest (c ∷ cs) t h = run-IsHonest cs (step c t) (step-IsHonest c t h)

  not_sent :
      (id : ℕ) (t : Transport V E H)
      → IsHonest t
      → get id t.futures ≡ some (failed false)
      → member id t.outgoing ≡ false
  unfolding IsHonest
  not_sent id t h e = (rw e at (h id).0) refl

  -- After any steps of a new transport: a request whose future failed with may_have_been_sent false
  -- was never given to the socket.
  pub failed_not_sent :
      (cs : List (Step V E H)) (auto_reconnect : Bool) (id : ℕ)
      → get id (run cs (new_transport auto_reconnect)).futures ≡ some (failed false)
      → member id (run cs (new_transport auto_reconnect)).outgoing ≡ false
  failed_not_sent cs auto_reconnect id e =
      not_sent id (run cs (new_transport auto_reconnect))
        (run-IsHonest cs _ (new-IsHonest V E H auto_reconnect)) e
