-- ===== src/Witnesses/Reaching.antt =====
-- src/deepx_sdk/_rpc_transport.py, _native_py.py and api.py over two endpoints, and the gate of
-- _async_encoder.py with two tasks, and an encoding that fails.
use deepx_python_sdk.Prelude.{
  Outcome, raised, none, ◌==◌, if◌then◌else◌, pos, ℕ, zero, suc, ◌≡◌, ◌<◌, ◌≢◌, str_eq, eq_iff,
  refl, String, Bool, true, false, some, [], ◌∷◌, ◌++◌, returned, arith,
}
use deepx_python_sdk.Rpc.{RpcEndpointPool, active, request_endpoints}
use deepx_python_sdk.Rpc.Requests.{Reply, answered, http_error, post, rest_request}
use deepx_python_sdk.Rpc.Failover.{
  IsActive, Closes, Ends, post_answer, post-Ends, rest_request_once,
}
use deepx_python_sdk.Gate.{
  Gate, new_gate, enter, check, may_pass, Steps, done, then_, enters, checks,
}
use deepx_python_sdk.Gate.Exclusion.{Counted, gate-Counted}
use deepx_python_sdk.Gate.Wakeups.{gate_live}
use deepx_python_sdk.Nonce.{Allocator, contains, next}
use deepx_python_sdk.Nonce.Order.{free, perform_all}
use deepx_python_sdk.Nonce.Encoding.{
  EncodeError, not_encoded, resolved_nonce, encode_pallet_call, encode_pallet_call_failure,
}

abbrev pool : RpcEndpointPool
pool = record { endpoints = "a" ∷ "b" ∷ []; active_index = 1 }

-- the active endpoint is down and the other one answers
abbrev reply : ℕ → String → Reply ℕ
reply zero e = http_error 503
reply (suc n) e = answered 7

post_answer_example :
    let run = post reply "http://default" (some pool) in
    (run.outcome ≡ returned 7)
    × IsActive "a" (some pool) run.pool
    × (run.sent ≡ ("b" ∷ []) ++ ("a" ∷ []))
unfolding request_endpoints
post_answer_example =
    post_answer reply "http://default" (some pool) ("b" ∷ []) [] "a" 7 refl (omega arith, tt) refl

post-Ends_example :
    Ends
      (some pool)
      reply
      0
      (request_endpoints "http://default" (some pool))
      (post reply "http://default" (some pool))
post-Ends_example = post-Ends reply "http://default" (some pool)

-- texts that a comparison tells apart
distinct : {a b : String} → str_eq a b ≡ false → a ≢ b
distinct {a} {b} h e = let same : str_eq a b ≡ true = (eq_iff a b).1 e in cc

rest_request_once_example :
    let run = rest_request reply "POST" pool in
    (run.sent ≡ "b" ∷ []) × Closes (some pool) "b" [] (reply 0 "b") run
unfolding active
rest_request_once_example =
    rest_request_once reply "POST" pool "b" (distinct refl) (distinct refl) (distinct refl) refl

-- a task without priority is in the body while one with priority waits
abbrev crowded : Gate
crowded = enter true (check false (enter false new_gate))

crowded_steps : Steps new_gate crowded
unfolding enter new_gate
crowded_steps =
    then_
      (then_ (then_ done (enters false new_gate))
        (checks false (enter false new_gate) (omega arith)))
      (enters true (check false (enter false new_gate)))

gate-Counted_example : Counted crowded
gate-Counted_example = gate-Counted crowded crowded_steps

abbrev waiting : Gate
waiting = enter true (enter false new_gate)

waiting_steps : Steps new_gate waiting
waiting_steps = then_ (then_ done (enters false new_gate)) (enters true (enter false new_gate))

gate_live_example :
    (priority : Bool) × (0 < waiting.awake priority) × (may_pass priority waiting ≡ true)
unfolding enter new_gate
gate_live_example = gate_live waiting waiting_steps refl (omega arith)

-- the third call is cancelled, while another one releases its nonce
abbrev two_reserved : Allocator
two_reserved = record { high_water_mark = some 6; reserved = 6 ∷ 5 ∷ [] }

abbrev cancelled : ℕ → Outcome EncodeError ℕ
cancelled n = raised not_encoded

third :
    resolved_nonce none 3 two_reserved
    ≡ (returned 7, record { high_water_mark = some 7; reserved = 7 ∷ 6 ∷ 5 ∷ [] })
unfolding resolved_nonce next
third = refl

encode_pallet_call_failure_example :
    let (outcome, c) = encode_pallet_call cancelled (free (pos 5) ∷ []) none 3 two_reserved in
    (outcome ≡ raised not_encoded)
    × (contains 7 c.reserved ≡ false)
    × ((k : ℕ)
        → contains k c.reserved ≡ (
            if 7 == k
            then false
            else contains k
                (perform_all
                  (free (pos 5) ∷ [])
                  (record { high_water_mark = some 7; reserved = 7 ∷ 6 ∷ 5 ∷ [] })).reserved))
encode_pallet_call_failure_example =
    encode_pallet_call_failure cancelled (free (pos 5) ∷ []) none 3 7 two_reserved
      (record { high_water_mark = some 7; reserved = 7 ∷ 6 ∷ 5 ∷ [] }) not_encoded third refl
