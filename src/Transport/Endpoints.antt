-- ===== src/Transport/Endpoints.antt =====
-- src/deepx_sdk/_async_transport.py: _normalize_endpoints, _advance_endpoint, the attempts of
-- _connect_available and the delays of _reconnect_loop.
use deepx_python_sdk.Prelude.{
  ℕ, zero, suc, ◌+◌, ◌*◌, ◌%◌, String, Bool, true, false, List, [], ◌∷◌, ◌++◌, Outcome, returned,
  raised, if◌then◌else◌, ltb, leb, member, truthy, string_eq,
}

pub data EndpointError : Type 0 where
  empty_url no_endpoints : EndpointError

-- the loop of _normalize_endpoints over texts that were stripped
unfoldable pub collect_endpoints : List String → List String → Outcome EndpointError (List String)
collect_endpoints [] endpoints = returned endpoints
collect_endpoints (url ∷ urls) endpoints =
    let kept = collect_endpoints urls endpoints in
    let added = collect_endpoints urls (endpoints ++ (url ∷ [])) in
    if truthy url then (if member url endpoints then kept else added) else raised empty_url

abbrev not_empty : List String → Outcome EndpointError (List String)
not_empty [] = raised no_endpoints
not_empty (url ∷ urls) = returned (url ∷ urls)

abbrev then_check : Outcome EndpointError (List String) → Outcome EndpointError (List String)
then_check (raised e) = raised e
then_check (returned endpoints) = not_empty endpoints

-- _normalize_endpoints
unfoldable pub normalize_endpoints : List String → Outcome EndpointError (List String)
unfolding collect_endpoints
normalize_endpoints urls = then_check (collect_endpoints urls [])

-- _advance_endpoint
unfoldable pub advance_endpoint : ℕ → ℕ → ℕ
advance_endpoint count index = if leb count 1 then index else (index + 1) % count

-- the loop of _connect_available: whether an attempt connected, and the endpoint index after it
unfoldable pub connect_available : (attempts : ℕ) → (ℕ → Bool) → ℕ → ℕ → Bool × ℕ
unfolding advance_endpoint
connect_available zero reachable count index = (false, index)
connect_available (suc attempts) reachable count index =
    let rest = connect_available attempts reachable count (advance_endpoint count index) in
    if reachable index then (true, index) else rest

abbrev pub min : ℕ → ℕ → ℕ
min a b = if ltb b a then b else a

-- delay_ms of _reconnect_loop after failed attempts
unfoldable pub delay_after : ℕ → ℕ → ℕ → ℕ
delay_after zero initial_ms max_ms = initial_ms
delay_after (suc failures) initial_ms max_ms =
    min (delay_after failures initial_ms max_ms * 2) max_ms
