-- ===== src/Transport/Notifications.antt =====
-- src/deepx_sdk/_async_transport.py: the queues of notifications.
use deepx_python_sdk.Prelude.{
  ℕ, zero, suc, ◌+◌, ◌≤◌, ◌≡◌, refl, ap, sym, ◌∙◌, String, true, false, none, some, List, [], ◌∷◌,
  ◌++◌, if◌then◌else◌, leb, ltb, length, length-append, take, Dict, get, put, get-put, member,
  string_eq, nat_eq, arith,
}
use mathlib.Core.List.{append-nil, append_assoc}
use deepx_python_sdk.Tracker.Matches.{beq_self}
use deepx_python_sdk.Transport.{Route, Intent, Transport, waiting, result}
use deepx_python_sdk.Transport.Responses.{
  max_active, max_early, early_total, append_early, early_of, enqueue, none_pending, keep_early,
  deliver, notify, subscribe_route, settle, accept_result, answer_waiting, respond, has_result,
}

module _ {V : Type 0} where
  early_total-append :
      (k : String) (v : V) (early : Dict String (List V))
      → early_total (append_early k v early) ≡ early_total early + 1
  unfolding early_total append_early
  early_total-append k v [] = refl
  early_total-append k v ((j, vs) ∷ early) =
      ground (arith, early_total-append k v early, length-append vs (v ∷ []))

  get-append_early :
      (k j : String) (v : V) (early : Dict String (List V))
      → get j (append_early k v early)
        ≡ (if string_eq.beq k j then some (early_of (get k early) ++ (v ∷ [])) else get j early)
  unfolding append_early get
  get-append_early k j v [] = refl
  get-append_early k j v ((i, vs) ∷ early) = ground (
    arith,
    string_eq.beq_iff k j,
    string_eq.beq_iff i k,
    string_eq.beq_iff i j,
    get-append_early k j v early,
  )

module _ {V E H : Type 0} where
  -- the notifications of a subscription that arrive one after another
  unfoldable pub notify_all : String → List V → Transport V E H → Transport V E H
  unfolding notify
  notify_all id [] t = t
  notify_all id (v ∷ vs) t = notify_all id vs (notify id v t).1

take_all : {A : Type 0} (n : ℕ) (xs : List A) → length xs ≤ n → take n xs ≡ xs
take_all zero [] h = refl
take_all zero (x ∷ xs) h = absurd (omega (arith, h))
take_all (suc n) [] h = refl
take_all (suc n) (x ∷ xs) h = ap (λ ys. x ∷ ys) (take_all n xs (omega (arith, h)))

module _ {V : Type 0} where
  abbrev append_all : String → List V → Dict String (List V) → Dict String (List V)
  append_all id [] early = early
  append_all id (v ∷ vs) early = append_all id vs (append_early id v early)

  get-append_all :
      (id : String) (vs us : List V) (early : Dict String (List V))
      → early_of (get id early) ≡ us
      → early_of (get id (append_all id vs early)) ≡ us ++ vs
  get-append_all id [] us early h = h ∙ sym (append-nil us)
  get-append_all id (v ∷ vs) us early h =
      get-append_all id vs (us ++ (v ∷ [])) (append_early id v early)
        (rw (get-append_early id id v early, beq_self id) (ap (λ xs. xs ++ (v ∷ [])) h))
      ∙ append_assoc us (v ∷ []) vs

module _ {V E H : Type 0} where
  -- While a subscription is under way, a notification for its id is kept.
  pub record Expects (id : String) (t : Transport V E H) : Type 0 where
    pub no_route : get id t.subscriptions ≡ none
    pub no_tombstone : member id t.unsubscribed ≡ false
    pub under_way : none_pending t.subscribe_intents ≡ false

  kept :
      (id : String) (v : V) (t : Transport V E H)
      → Expects id t
      → early_total t.early_notifications + 1 ≤ max_early
      → (notify id v t).1
        ≡ record t { early_notifications = append_early id v t.early_notifications }
  unfolding notify deliver keep_early
  kept id v t e h =
      let room : leb max_early (early_total t.early_notifications) ≡ false = ground (arith, h) in
      rw e.no_route (rw (e.no_tombstone, e.under_way, room) refl)

  all_kept :
      (id : String) (vs : List V) (t : Transport V E H)
      → Expects id t
      → early_total t.early_notifications + length vs ≤ max_early
      → notify_all id vs t
        ≡ record t { early_notifications = append_all id vs t.early_notifications }
  unfolding notify_all
  all_kept id [] t e h = refl
  all_kept id (v ∷ vs) t e h = rw (kept id v t e (omega (arith, h))) (
      all_kept id vs (record t { early_notifications = append_early id v t.early_notifications })
        (record { no_route = e.no_route; no_tombstone = e.no_tombstone; under_way = e.under_way })
        (rw (early_total-append id v t.early_notifications) (omega (arith, h))))

  queued :
      (id : String) (v : V) (route : Route V H) (t : Transport V E H)
      → get id t.subscriptions ≡ some route
      → length route.queue + 1 ≤ max_active
      → (notify id v t).1 ≡ record t {
        subscriptions = put id (record route { queue = route.queue ++ (v ∷ []) }) t.subscriptions;
      }
  unfolding notify deliver enqueue
  queued id v route t e h =
      let room : ltb (length route.queue) max_active ≡ true = ground (arith, h) in
      rw e (rw room refl)

  all_queued :
      (id : String) (vs : List V) (route : Route V H) (t : Transport V E H)
      → get id t.subscriptions ≡ some route
      → length route.queue + length vs ≤ max_active
      → get id (notify_all id vs t).subscriptions
        ≡ some (record route { queue = route.queue ++ vs })
  unfolding notify_all
  all_queued id [] route t e h =
      e ∙ ap (λ q. some (record route { queue = q })) (sym (append-nil route.queue))
  all_queued id (v ∷ vs) route t e h =
      let next : Route V H = record route { queue = route.queue ++ (v ∷ []) } in
      let same : length next.queue ≡ length route.queue + 1 =
        omega (arith, length-append route.queue (v ∷ [])) in
      ap (λ u. get id (notify_all id vs u).subscriptions) (queued id v route t e (omega (arith, h)))
      ∙ all_queued id vs next (record t { subscriptions = put id next t.subscriptions })
          (rw (get-put id id next t.subscriptions, beq_self id) refl) (omega (arith, h, same))
      ∙ ap (λ q. some (record route { queue = q })) (append_assoc route.queue (v ∷ []) vs)

  -- The request of a subscription waits for its response.
  pub record Awaits (request : ℕ) (intent : Intent H) (t : Transport V E H) : Type 0 where
    pub requested : member request t.requests ≡ true
    pub waits : get request t.futures ≡ some waiting
    pub intended : get request t.subscribe_intents ≡ some intent

  registers :
      (show : V → String) (request : ℕ) (intent : Intent H) (v : V) (t : Transport V E H)
      → Awaits request intent t
      → get (show v) t.subscriptions ≡ none
      → (respond show request (has_result (some v)) t).1
        ≡ settle request (result (some v)) (subscribe_route request intent (show v) t)
  unfolding respond answer_waiting accept_result
  registers show request intent v t a n = rw (a.requested, a.waits, a.intended, n) refl

  -- For a subscription whose request waits for its response, and for whose id there is no route, no
  -- tombstone and no notification kept: if notifications `vs` for that id arrive before the response
  -- that brings it and `ws` after that, the route has the handler of the subscription, and its queue
  -- holds `vs` and then `ws`, each in the order of arrival and none lost, while the worker of the
  -- route takes none of them, as long as those kept for all subscriptions are at most 32 and the
  -- queue at most 64.
  pub arrival_order :
      (show : V → String) (v : V) (request : ℕ) (intent : Intent H) (vs ws : List V)
      (t : Transport V E H)
      → Awaits request intent t
      → Expects (show v) t
      → get (show v) t.early_notifications ≡ none
      → early_total t.early_notifications + length vs ≤ max_early
      → length vs + length ws ≤ max_active
      → get
          (show v)
          (notify_all
            (show v)
            ws
            (respond show request (has_result (some v)) (notify_all (show v) vs t)).1).subscriptions
        ≡ some (record { handler = intent.handler; queue = vs ++ ws; stopping = false })
  unfolding subscribe_route settle
  arrival_order show v request intent vs ws t a e n h k =
      let id = show v in
      let early = get-append_all id vs [] t.early_notifications (ap (λ o. early_of o) n) in
      let route : Route V H = record { handler = intent.handler; queue = vs; stopping = false } in
      let full : Transport V E H = record t {
        early_notifications = append_all id vs t.early_notifications;
      } in
      let same =
        registers show request intent v full
          (record { requested = a.requested; waits = a.waits; intended = a.intended }) e.no_route in
      rw (all_kept id vs t e h) (
        ap (λ u. get id (notify_all id ws u).subscriptions) same
        ∙ all_queued id ws route _
            (rw (get-put id id _ t.subscriptions, beq_self id)
              (ap (λ q. some (record { handler = intent.handler; queue = q; stopping = false }))
                (ap (λ q. take max_active q) early ∙ take_all max_active vs (omega (arith, k)))))
            k)
