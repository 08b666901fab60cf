-- ===== src/Rpc/Failover.antt =====
-- src/deepx_sdk/_native_py.py, _evm.py and api.py: which endpoints a request goes to, and what it
-- ends with.
use deepx_python_sdk.Prelude.{
  ℕ, suc, ◌+◌, ◌≤◌, ◌<◌, ◌≡◌, ◌≢◌, ap, refl, inl, inr, ◌⊎◌, String, Bool, true, false, ◌&&◌, Option,
  none, some, List, [], ◌∷◌, ◌++◌, returned, raised, length, Bool-cases, leb→le, str_eq, eq_iff,
  member, string_eq, arith,
}
use deepx_python_sdk.Rpc.Pool.{
  RpcEndpointPool, active, mark_success, note_success, request_endpoints,
}
use deepx_python_sdk.Rpc.Order.{
  member_middle, ordered-member, active-member, mark_success-endpoints, mark_success-active,
}
use deepx_python_sdk.Rpc.Requests.{
  Reply, answered, http_error, unreachable, broken, request_failed, unbound, Run, has_next,
  fails_over, failure, also_sent, settle, try_endpoints, post, is_retryable, one_endpoint,
  rest_moves_on, rest_request,
}

has_next-append :
    (es : List String) (e : String) (more : List String) → has_next (es ++ (e ∷ more)) ≡ true
has_next-append [] e more = refl
has_next-append (x ∷ es) e more = refl

and_true : (a b : Bool) → (a && b) ≡ true → (a ≡ true) × (b ≡ true)
and_true true b h = (refl, h)
and_true false b h = absurd (cc h)

and_false : (a : Bool) → (a && false) ≡ false
and_false true = refl
and_false false = refl

not_eq : {a b : String} → a ≢ b → str_eq a b ≡ false
not_eq {a} {b} h = elim (Bool-cases (str_eq a b)) [
  | inl same ↦ absurd (h ((eq_iff a b).0 same))
  | inr other ↦ other
]

-- An endpoint is the active one afterwards, in a pool of the same endpoints; without a pool there is
-- still none.
abbrev pub IsActive : String → Option RpcEndpointPool → Option RpcEndpointPool → Type 0
IsActive e none after = after ≡ none
IsActive e (some pool) after =
    (p : RpcEndpointPool) × (after ≡ some p) × (active p ≡ some e) × (p.endpoints ≡ pool.endpoints)

note-IsActive :
    (e : String) (pool : RpcEndpointPool)
    → member e pool.endpoints ≡ true
    → IsActive e (some pool) (note_success e (some pool))
unfolding note_success
note-IsActive e pool h =
    (mark_success e pool, refl, mark_success-active e pool h, mark_success-endpoints e pool)

-- the note of an answer, for an endpoint that was asked
asked-IsActive :
    (url e : String) (pool : Option RpcEndpointPool) (before after : List String)
    → request_endpoints url pool ≡ before ++ (e ∷ after)
    → IsActive e pool (note_success e pool)
unfolding request_endpoints
asked-IsActive url e none before after h = unfold note_success in refl
asked-IsActive url e (some pool) before after h =
    note-IsActive e pool (ordered-member e pool (rw h (member_middle e before after)))

module _ {B : Type 0} where
  -- a reply after which another endpoint may be asked: a status of 500 or more, or no connection
  abbrev pub Temporary : Reply B → Type 0
  Temporary (answered b) = ⊥
  Temporary (http_error code) = 500 ≤ code
  Temporary unreachable = Unit
  Temporary broken = ⊥

  -- such replies from every endpoint of a list, from the attempt of a number on
  abbrev pub PassedOver : (ℕ → String → Reply B) → ℕ → List String → Type 0
  PassedOver reply number [] = Unit {0}
  PassedOver reply number (e ∷ es) = Temporary (reply number e) × PassedOver reply (suc number) es

  -- What a run ends with after the reply of an endpoint, when the endpoints of a list are left: an
  -- answer is returned and makes the endpoint active; an error is raised and the pool is unchanged,
  -- and then the error is not temporary or no endpoint is left.
  abbrev pub Closes : Option RpcEndpointPool → String → List String → Reply B → Run B → Type 0
  Closes pool e left (answered b) run = (run.outcome ≡ returned b) × IsActive e pool run.pool
  Closes pool e left (http_error code) run =
      (run.outcome ≡ raised (request_failed (some code)))
      × (run.pool ≡ pool)
      × ((code < 500) ⊎ (left ≡ []))
  Closes pool e left unreachable run =
      (run.outcome ≡ raised (request_failed none)) × (run.pool ≡ pool) × (left ≡ [])
  Closes pool e left broken run = (run.outcome ≡ raised (request_failed none)) × (run.pool ≡ pool)

  Temporary-fails_over : (r : Reply B) → Temporary r → fails_over r ≡ true
  unfolding fails_over
  Temporary-fails_over (answered b) h = absurd h
  Temporary-fails_over (http_error code) h = ground arith
  Temporary-fails_over unreachable h = refl
  Temporary-fails_over broken h = absurd h

  settle-Closes :
      (pool : Option RpcEndpointPool) (e : String) (left : List String) (r : Reply B)
      → IsActive e pool (note_success e pool)
      → (fails_over r && has_next left) ≡ false
      → Closes pool e left r (settle e pool r)
  unfolding settle fails_over failure
  settle-Closes pool e left (answered b) a h = (refl, a)
  settle-Closes pool e [] (http_error code) a h = (refl, refl, inr refl)
  settle-Closes pool e (x ∷ left) (http_error code) a h = (refl, refl, inl (ground arith))
  settle-Closes pool e [] unreachable a h = (refl, refl, refl)
  settle-Closes pool e (x ∷ left) unreachable a h = absurd (cc h)
  settle-Closes pool e left broken a h = (refl, refl)

  fails_over-Temporary : (r : Reply B) → fails_over r ≡ true → Temporary r
  unfolding fails_over
  fails_over-Temporary (answered b) h = absurd (cc h)
  fails_over-Temporary (http_error code) h = leb→le 500 code h
  fails_over-Temporary unreachable h = tt
  fails_over-Temporary broken h = absurd (cc h)

  settle-sent :
      (e : String) (pool : Option RpcEndpointPool) (r : Reply B) → (settle e pool r).sent ≡ e ∷ []
  unfolding settle
  settle-sent e pool (answered b) = refl
  settle-sent e pool (http_error code) = refl
  settle-sent e pool unreachable = refl
  settle-sent e pool broken = refl

  -- The endpoint that ends the loop: the reply is one that is not passed over, or there is no other
  -- endpoint.
  decisive :
      (reply : ℕ → String → Reply B) (pool : Option RpcEndpointPool) (number : ℕ)
      (before : List String) (e : String) (after : List String)
      → PassedOver reply number before
      → (fails_over (reply (number + length before) e) && has_next after) ≡ false
      → let run = try_endpoints fails_over reply pool number (before ++ (e ∷ after)) in
        let last = settle e pool (reply (number + length before) e) in
        (run.outcome ≡ last.outcome) × (run.pool ≡ last.pool) × (run.sent ≡ before ++ last.sent)
  unfolding try_endpoints also_sent
  decisive reply pool number [] e after h k =
      let here : number + 0 ≡ number = omega arith in rw here (rw (rw here at k) (refl, refl, refl))
  decisive reply pool number (x ∷ before) e after (hx, h) k =
      let later : number + suc (length before) ≡ suc number + length before = omega arith in
      let moves = Temporary-fails_over (reply number x) hx in
      let (o, p, s) = decisive reply pool (suc number) before e after h (rw later at k) in
      rw (moves, has_next-append before e after, later) (o, p, ap (λ r. x ∷ r) s)

  -- If the endpoints that a request tries first reply with a status of 500 or more or not at all,
  -- and the next one answers, the request returns that answer, that endpoint is the active one of
  -- the pool afterwards, and the request was sent to these endpoints only.
  pub post_answer :
      (reply : ℕ → String → Reply B) (url : String) (pool : Option RpcEndpointPool)
      (before after : List String) (e : String) (b : B)
      → request_endpoints url pool ≡ before ++ (e ∷ after)
      → PassedOver reply 0 before
      → reply (length before) e ≡ answered b
      → let run = post reply url pool in
        (run.outcome ≡ returned b) × IsActive e pool run.pool × (run.sent ≡ before ++ (e ∷ []))
  unfolding post settle
  post_answer reply url pool before after e b h k r =
      let here : 0 + length before ≡ length before = omega arith in
      let answer : reply (0 + length before) e ≡ answered b = rw here r in
      let (o, q, s) =
        rw answer at (decisive reply pool 0 before e after k (rw (answer, fails_over) refl)) in
      let active_now = asked-IsActive url e pool before after h in rw h (o, rw q active_now, s)

  -- what a run over a list of endpoints comes to: there is none, or one of them is the last that
  -- was asked, after those before it
  abbrev pub Ends :
      Option RpcEndpointPool → (ℕ → String → Reply B) → ℕ → List String → Run B → Type 0
  Ends pool reply number endpoints run =
      ((endpoints ≡ []) × (run.sent ≡ []) × (run.outcome ≡ raised unbound) × (run.pool ≡ pool))
      ⊎ ((before : List String) × (e : String) × (after : List String) × (endpoints
            ≡ before ++ (e ∷ after))
          × (run.sent ≡ before ++ (e ∷ []))
          × PassedOver reply number before
          × Closes pool e after (reply (number + length before) e) run)

  Closes-also_sent :
      (pool : Option RpcEndpointPool) (e x : String) (left : List String) (r : Reply B)
      (run : Run B)
      → Closes pool e left r run
      → Closes pool e left r (also_sent x run)
  unfolding also_sent
  Closes-also_sent pool e x left (answered b) run h = h
  Closes-also_sent pool e x left (http_error code) run h = h
  Closes-also_sent pool e x left unreachable run h = h
  Closes-also_sent pool e x left broken run h = h

  also_sent-Ends :
      (pool : Option RpcEndpointPool) (reply : ℕ → String → Reply B) (number : ℕ) (x : String)
      (es : List String) (run : Run B)
      → Temporary (reply number x)
      → has_next es ≡ true
      → Ends pool reply (suc number) es run
      → Ends pool reply number (x ∷ es) (also_sent x run)
  unfolding also_sent
  also_sent-Ends pool reply number x es run t n (inl (e, k, o, q)) = absurd (cc (rw e at n))
  also_sent-Ends pool reply number x es run t n (inr (before, e, after, split, s, k, c)) =
      let later : number + suc (length before) ≡ suc number + length before = omega arith in
      let closes = Closes-also_sent pool e x after _ run c in
      inr (x ∷ before, e, after, ap (λ r. x ∷ r) split, ap (λ r. x ∷ r) s, (t, k), rw later closes)

  try_endpoints-Ends :
      (reply : ℕ → String → Reply B) (pool : Option RpcEndpointPool) (number : ℕ) (es : List String)
      → ((before : List String) (e : String) (after : List String)
          → es ≡ before ++ (e ∷ after)
          → IsActive e pool (note_success e pool))
      → Ends pool reply number es (try_endpoints fails_over reply pool number es)
  unfolding try_endpoints
  try_endpoints-Ends reply pool number [] act = inl (refl, refl, refl, refl)
  try_endpoints-Ends reply pool number (x ∷ es) act =
      elim (Bool-cases (fails_over (reply number x) && has_next es)) [
        | inl on ↦
            let (fails, more) = and_true (fails_over (reply number x)) (has_next es) on in
            rw on (
              also_sent-Ends pool reply number x es _ (fails_over-Temporary (reply number x) fails)
                more
                (try_endpoints-Ends reply pool (suc number) es
                  (λ before e after h. act (x ∷ before) e after (ap (λ r. x ∷ r) h))))
        | inr off ↦
            let here : number + 0 ≡ number = omega arith in
            let closes = settle-Closes pool x es (reply number x) (act [] x es refl) off in
            rw off (inr ([], x, es, refl, settle-sent x pool (reply number x), tt, rw here closes))
      ]

  -- Whatever the endpoints reply, a JSON-RPC request over at least one endpoint asks those of the pool
  -- (without a pool, the default one) in their order, up to one of them; each before that one
  -- replied with a status of 500 or more or not at all. If that one answers, the answer is
  -- returned and the endpoint is the active one of the pool afterwards. Otherwise the request
  -- raises the error of that reply and leaves the pool as it was, and if the status was 500 or
  -- more or there was no connection, it was the last endpoint.
  pub post-Ends :
      (reply : ℕ → String → Reply B) (url : String) (pool : Option RpcEndpointPool)
      → Ends pool reply 0 (request_endpoints url pool) (post reply url pool)
  unfolding post
  post-Ends reply url pool =
      try_endpoints-Ends reply pool 0 (request_endpoints url pool)
        (λ before e after h. asked-IsActive url e pool before after h)

  -- A REST request by another method than GET, HEAD and OPTIONS is sent once, to the active endpoint,
  -- whatever that endpoint replies: an answer is returned and leaves that endpoint the active one,
  -- an error is raised and leaves the pool as it was.
  pub rest_request_once :
      (reply : ℕ → String → Reply B) (method_upper : String) (pool : RpcEndpointPool) (e : String)
      → method_upper ≢ "GET"
      → method_upper ≢ "HEAD"
      → method_upper ≢ "OPTIONS"
      → active pool ≡ some e
      → let run = rest_request reply method_upper pool in
        (run.sent ≡ e ∷ []) × Closes (some pool) e [] (reply 0 e) run
  unfolding rest_request one_endpoint try_endpoints rest_moves_on is_retryable
  rest_request_once reply method_upper pool e get head options h =
      let closes =
        settle-Closes (some pool) e [] (reply 0 e) (note-IsActive e pool (active-member e pool h))
          (and_false (fails_over (reply 0 e))) in
      rw (not_eq get, not_eq head, not_eq options, h)
        (settle-sent e (some pool) (reply 0 e), closes)
