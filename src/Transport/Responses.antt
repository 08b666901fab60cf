-- ===== src/Transport/Responses.antt =====
-- src/deepx_sdk/_async_transport.py: _dispatch_message and _dispatch_response of a message that
-- _validate_message has passed, and the release of a subscription. `show` stands for `str` of a JSON
-- value. The result null of a request is `none`.
use deepx_python_sdk.Prelude.{
  ℕ, ◌+◌, ◌-◌, String, Bool, true, false, ◌&&◌, Option, none, some, List, [], ◌∷◌, ◌++◌, Outcome,
  returned, raised, if◌then◌else◌, leb, ltb, length, take, drop, Dict, get, put, pop, member,
  discard, nat_eq, string_eq, is_some,
}
use deepx_python_sdk.Transport.Requests.{is_waiting}
use deepx_python_sdk.Transport.{RequestFuture, result, refused, Route, Intent, Transport}

-- _MAX_ACTIVE_SUBSCRIPTION_NOTIFICATIONS, _MAX_EARLY_NOTIFICATIONS, _MAX_UNSUBSCRIBED_TOMBSTONES
abbrev pub max_active : ℕ
max_active = 64

abbrev pub max_early : ℕ
max_early = 32

abbrev pub max_tombstones : ℕ
max_tombstones = 64

-- _ProtocolError
pub data ProtocolError : Type 0 where
  duplicate_subscription queue_overflow : String → ProtocolError

-- exactly one of result and error
pub data Response (V E : Type 0) : Type 0 where
  has_result : Option V → Response V E
  has_error : E → Response V E

module _ {V : Type 0} where
  -- sum(len(items) for items in self._early_notifications.values())
  unfoldable pub early_total : Dict String (List V) → ℕ
  early_total [] = 0
  early_total ((k, vs) ∷ early) = length vs + early_total early

  -- self._early_notifications.setdefault(k, []).append(v)
  unfoldable pub append_early : String → V → Dict String (List V) → Dict String (List V)
  append_early k v [] = (k, v ∷ []) ∷ []
  append_early k v ((j, vs) ∷ early) =
      if string_eq.beq j k then (j, vs ++ (v ∷ [])) ∷ early else (j, vs) ∷ append_early k v early

  abbrev pub early_of : Option (List V) → List V
  early_of none = []
  early_of (some vs) = vs

-- _remember_unsubscribed, with the oldest id first
unfoldable pub remember : String → List String → List String
remember id ids = let all = discard id ids ++ (id ∷ []) in drop (length all - max_tombstones) all

-- not self._subscribe_intents
abbrev pub none_pending : {H : Type 0} → Dict ℕ (Intent H) → Bool
none_pending [] = true
none_pending (i ∷ intents) = false

module _ {V E H : Type 0} where
  -- a notification for the route of its subscription
  unfoldable pub enqueue :
      String → V → Route V H → Transport V E H → Outcome ProtocolError (Unit {0}) × Transport V E H
  enqueue id v route t =
      if ltb (length route.queue) max_active
      then (
        returned tt,
        record t {
          subscriptions = put id (record route { queue = route.queue ++ (v ∷ []) }) t.subscriptions;
        },
      )
      else (raised (queue_overflow id), record t { subscriptions = pop id t.subscriptions })

  -- a notification without a route
  unfoldable pub keep_early : String → V → Transport V E H → Transport V E H
  unfolding append_early early_total
  keep_early id v t =
      if member id t.unsubscribed
      then t
      else if none_pending t.subscribe_intents
      then t
      else if leb max_early (early_total t.early_notifications)
      then t
      else record t { early_notifications = append_early id v t.early_notifications }

  unfoldable pub deliver :
      String
      → V
      → Option (Route V H)
      → Transport V E H
      → Outcome ProtocolError (Unit {0}) × Transport V E H
  unfolding enqueue keep_early
  deliver id v none t = (returned tt, keep_early id v t)
  deliver id v (some route) t = enqueue id v route t

  -- _dispatch_message for a notification of a subscription
  unfoldable pub notify :
      String → V → Transport V E H → Outcome ProtocolError (Unit {0}) × Transport V E H
  unfolding deliver
  notify id v t = deliver id v (get id t.subscriptions) t

  -- the end of _dispatch_response
  unfoldable pub settle : ℕ → RequestFuture V E → Transport V E H → Transport V E H
  settle id f t = record t { futures = put id f t.futures; requests = discard id t.requests }

  -- the registration of a subscription
  unfoldable pub subscribe_route : ℕ → Intent H → String → Transport V E H → Transport V E H
  subscribe_route id intent subscription t = record t {
    subscriptions =
        put subscription
          (record {
            handler = intent.handler;
            queue = take max_active (early_of (get subscription t.early_notifications));
            stopping = false;
          })
          t.subscriptions;
    unsubscribed = discard subscription t.unsubscribed;
    subscribe_intents =
        put id (record intent { subscription_id = some subscription }) t.subscribe_intents;
    early_notifications = pop subscription t.early_notifications;
  }

  -- the result of a request
  unfoldable pub accept_result :
      (V → String)
      → ℕ
      → Option V
      → Option (Intent H)
      → Transport V E H
      → Outcome ProtocolError (Unit {0}) × Transport V E H
  unfolding settle subscribe_route
  accept_result show id (some v) (some intent) t =
      if is_some (get (show v) t.subscriptions)
      then (raised (duplicate_subscription (show v)), t)
      else (returned tt, settle id (result (some v)) (subscribe_route id intent (show v) t))
  accept_result show id v intent t = (returned tt, settle id (result v) t)

  unfoldable pub answer_waiting :
      (V → String)
      → ℕ
      → Response V E
      → Transport V E H
      → Outcome ProtocolError (Unit {0}) × Transport V E H
  unfolding accept_result
  answer_waiting show id (has_error e) t = (returned tt, settle id (refused e) t)
  answer_waiting show id (has_result v) t = accept_result show id v (get id t.subscribe_intents) t

  abbrev pub in_flight : ℕ → Transport V E H → Bool
  in_flight id t = member id t.requests && is_waiting (get id t.futures)

  -- _dispatch_response
  unfoldable pub respond :
      (V → String)
      → ℕ
      → Response V E
      → Transport V E H
      → Outcome ProtocolError (Unit {0}) × Transport V E H
  unfolding answer_waiting
  respond show id r t = if in_flight id t then answer_waiting show id r t else (returned tt, t)

  -- forget_subscription
  unfoldable pub forget_subscription : String → Transport V E H → Transport V E H
  unfolding remember
  forget_subscription id t = record t {
    subscriptions = pop id t.subscriptions;
    early_notifications = pop id t.early_notifications;
    unsubscribed = remember id t.unsubscribed;
  }
