-- ===== src/Transport/Requests.antt =====
-- src/deepx_sdk/_async_transport.py: the life of a request in _request, and _fail_requests.
use deepx_python_sdk.Prelude.{
  ℕ, ◌+◌, String, Bool, true, false, not, ◌&&◌, Option, none, some, List, [], ◌∷◌, Outcome,
  returned, raised, if◌then◌else◌, Dict, get, put, pop, member, include, discard, nat_eq,
}
use deepx_python_sdk.Transport.{
  ConnectionState, disconnected, RequestFuture, waiting, cancelled, failed, Intent, Transport,
  is_live, is_closed,
}

-- what TransportRequestError says
pub record RequestError : Type 0 where
  pub may_have_been_sent : Bool

-- self._subscribe_intents[request_id] = subscribe_intent, if there is one
unfoldable pub add_intent :
    {H : Type 0} → ℕ → Option (Intent H) → Dict ℕ (Intent H) → Dict ℕ (Intent H)
add_intent id none intents = intents
add_intent id (some intent) intents = put id intent intents

-- self._early_notifications.clear() once no subscription is under way
unfoldable pub clear_early :
    {V H : Type 0} → Dict ℕ (Intent H) → Dict String (List V) → Dict String (List V)
clear_early [] early = []
clear_early (i ∷ intents) early = early

module _ {V E : Type 0} where
  abbrev pub is_waiting : Option (RequestFuture V E) → Bool
  is_waiting (some waiting) = true
  is_waiting _ = false

  -- future.cancel()
  unfoldable pub cancel_future : ℕ → Dict ℕ (RequestFuture V E) → Dict ℕ (RequestFuture V E)
  cancel_future id futures =
      if is_waiting (get id futures) then put id cancelled futures else futures

  -- the loop of _fail_requests
  unfoldable pub fail_futures :
      List ℕ → List ℕ → Dict ℕ (RequestFuture V E) → Dict ℕ (RequestFuture V E)
  fail_futures sent [] futures = futures
  fail_futures sent (id ∷ ids) futures =
      fail_futures sent ids
        (if is_waiting (get id futures) then put id (failed (member id sent)) futures else futures)

module _ {V E H : Type 0} where
  -- _request up to the definition of send_and_wait
  unfoldable pub open_request :
      Option (Intent H) → Transport V E H → Outcome RequestError ℕ × Transport V E H
  unfolding is_live add_intent
  open_request intent t =
      if is_live t.state && t.has_socket
      then (
        returned t.next_request_id,
        record t {
          next_request_id = t.next_request_id + 1;
          futures = put t.next_request_id waiting t.futures;
          requests = t.next_request_id ∷ t.requests;
          subscribe_intents = add_intent t.next_request_id intent t.subscribe_intents;
        },
      )
      else (raised (record { may_have_been_sent = false }), t)

  -- send_and_wait under the lock: the text is given to the socket that was there
  unfoldable pub send_request : ℕ → Transport V E H → Transport V E H
  unfolding is_live
  send_request id t =
      if is_waiting (get id t.futures) && is_live t.state
      then record t {
        request_may_have_been_sent = include id t.request_may_have_been_sent;
        outgoing = include id t.outgoing;
      }
      else t

  -- the handler of TimeoutError before the connection is given up: what it raises, and the state
  unfoldable pub time_out : ℕ → Transport V E H → RequestError × Transport V E H
  unfolding cancel_future
  time_out id t = (
    record { may_have_been_sent = member id t.request_may_have_been_sent },
    record t { futures = cancel_future id t.futures },
  )

  -- the finally block of _request
  unfoldable pub finish_request : ℕ → Transport V E H → Transport V E H
  unfolding clear_early
  finish_request id t =
      let intents = pop id t.subscribe_intents in
      record t {
        requests = discard id t.requests;
        subscribe_intents = intents;
        early_notifications = clear_early intents t.early_notifications;
        request_may_have_been_sent = discard id t.request_may_have_been_sent;
      }

  -- _fail_requests
  unfoldable pub fail_requests : Transport V E H → Transport V E H
  unfolding fail_futures
  fail_requests t = record t {
    futures = fail_futures t.request_may_have_been_sent t.requests t.futures;
    requests = [];
    request_may_have_been_sent = [];
  }

  -- _disconnect_cleanup: `current` if the socket is still the one of the transport, `closes` if its
  -- close() returned
  unfoldable pub disconnect : (current closes : Bool) → Transport V E H → Transport V E H
  unfolding fail_requests is_closed
  disconnect current closes t =
      if is_closed t.state
      then t
      else if not (current && t.has_socket)
      then t
      else (let failed_all : Transport V E H = fail_requests t in
          record failed_all {
            state = disconnected;
            has_socket = not closes;
            subscriptions = if t.auto_reconnect then [] else t.subscriptions;
            early_notifications = if t.auto_reconnect then [] else t.early_notifications;
          })

  -- _connect_once, once the socket is open; after close() it raises
  unfoldable pub adopt_socket : ConnectionState → Transport V E H → Transport V E H
  unfolding is_closed
  adopt_socket published t =
      if is_closed t.state then t else record t { state = published; has_socket = true }

  -- _close_cleanup after close
  unfoldable pub close_transport : (closes : Bool) → Transport V E H → Transport V E H
  unfolding fail_requests
  close_transport closes t =
      let failed_all : Transport V E H = fail_requests t in
      record failed_all {
        state = ConnectionState.closed;
        has_socket = t.has_socket && not closes;
        subscriptions = [];
        early_notifications = [];
        unsubscribed = [];
      }
