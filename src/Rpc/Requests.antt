-- ===== src/Rpc/Requests.antt =====
-- src/deepx_sdk/_native_py.py, _evm.py and api.py: the loops over the endpoints. What an endpoint
-- replies to the attempt of a number is given.
use deepx_python_sdk.Prelude.{
  ℕ, suc, String, Bool, true, false, ◌&&◌, ◌||◌, Option, none, some, List, [], ◌∷◌, ◌++◌, Outcome,
  returned, raised, if◌then◌else◌, str_eq, leb, Text, Bytes, codes, drop, starts_with, from_hex,
}
use deepx_python_sdk.Rpc.Pool.{RpcEndpointPool, active, ordered, request_endpoints, note_success}

-- what urlopen and the reading of its body come to: `answered` is a decoded body, `broken` an
-- exception that is neither of HTTP nor of the connection
pub data Reply (B : Type 0) : Type 0 where
  answered : B → Reply B
  http_error : (code : ℕ) → Reply B
  unreachable broken : Reply B

pub data RpcError : Type 0 where
  request_failed : Option ℕ → RpcError
  error_reply invalid_response bad_hex unbound : RpcError
  unable_to_connect : List String → RpcError

-- how a call ends, the pool after it and the endpoints that it sent a request to
pub record Run (B : Type 0) : Type 0 where
  pub outcome : Outcome RpcError B
  pub pool : Option RpcEndpointPool
  pub sent : List String

abbrev pub has_next : List String → Bool
has_next [] = false
has_next (e ∷ es) = true

module _ {B : Type 0} where
  -- whether _rpc_call and evm_call go on to the next endpoint, if there is one
  unfoldable pub fails_over : Reply B → Bool
  fails_over (answered b) = false
  fails_over (http_error code) = leb 500 code
  fails_over unreachable = true
  fails_over broken = false

  unfoldable pub failure : Reply B → RpcError
  failure (answered b) = unbound
  failure (http_error code) = request_failed (some code)
  failure unreachable = request_failed none
  failure broken = request_failed none

  unfoldable pub also_sent : String → Run B → Run B
  also_sent endpoint run = record run { sent = endpoint ∷ run.sent }

  -- one reply that is not passed over
  unfoldable pub settle : String → Option RpcEndpointPool → Reply B → Run B
  unfolding note_success failure
  settle endpoint pool (answered b) = record {
    outcome = returned b;
    pool = note_success endpoint pool;
    sent = endpoint ∷ [];
  }
  settle endpoint pool reply = record {
    outcome = raised (failure reply);
    pool = pool;
    sent = endpoint ∷ [];
  }

  -- The loop; `moves_on` tells which replies it passes over while endpoints are left, and `number`
  -- is the index of the attempt. Without endpoints the body is an unbound name.
  unfoldable pub try_endpoints :
      (moves_on : Reply B → Bool) (reply : ℕ → String → Reply B) (pool : Option RpcEndpointPool)
      → ℕ
      → List String
      → Run B
  unfolding also_sent settle
  try_endpoints moves_on reply pool number [] = record {
    outcome = raised unbound;
    pool = pool;
    sent = [];
  }
  try_endpoints moves_on reply pool number (e ∷ es) =
      let rest = try_endpoints moves_on reply pool (suc number) es in
      if moves_on (reply number e) && has_next es
      then also_sent e rest
      else settle e pool (reply number e)

  unfoldable pub post : (ℕ → String → Reply B) → String → Option RpcEndpointPool → Run B
  unfolding try_endpoints fails_over request_endpoints
  post reply url pool = try_endpoints fails_over reply pool 0 (request_endpoints url pool)

-- a JSON-RPC body: its error, and its result where it has one
pub record Body (R : Type 0) : Type 0 where
  pub has_error : Bool
  pub result : Option R

module _ {R : Type 0} where
  unfoldable pub result_or_raise : Option R → Outcome RpcError R
  result_or_raise none = raised invalid_response
  result_or_raise (some r) = returned r

  unfoldable pub read_body : Outcome RpcError (Body R) → Outcome RpcError R
  unfolding result_or_raise
  read_body (raised e) = raised e
  read_body (returned body) =
      if body.has_error then raised error_reply else result_or_raise body.result

  unfoldable pub rpc_call : (ℕ → String → Reply (Body R)) → String → Option RpcEndpointPool → Run R
  unfolding post read_body
  rpc_call reply url pool =
      let run = post reply url pool in
      record { outcome = read_body run.outcome; pool = run.pool; sent = run.sent }

-- evm_call reads its result as hexadecimal text; `none` is bytes.fromhex's ValueError
unfoldable pub hex_result : Option Bytes → Outcome RpcError Bytes
hex_result none = raised bad_hex
hex_result (some bs) = returned bs

unfoldable pub decode_result : Outcome RpcError (Option Text) → Outcome RpcError Bytes
unfolding hex_result
decode_result (raised e) = raised e
decode_result (returned none) = raised invalid_response
decode_result (returned (some s)) =
    hex_result (from_hex (if starts_with (codes "0x") s then drop 2 s else s))

unfoldable pub or_null : {R : Type 0} → Option (Option R) → Option R
or_null none = none
or_null (some r) = r

unfoldable pub result_of_body :
    Outcome RpcError (Body (Option Text)) → Outcome RpcError (Option Text)
unfolding or_null
result_of_body (raised e) = raised e
result_of_body (returned body) =
    if body.has_error then raised error_reply else returned (or_null body.result)

unfoldable pub evm_call :
    (ℕ → String → Reply (Body (Option Text))) → String → Option RpcEndpointPool → Run Bytes
unfolding post decode_result result_of_body
evm_call reply url pool =
    let run = post reply url pool in
    record {
      outcome = decode_result (result_of_body run.outcome);
      pool = run.pool;
      sent = run.sent;
    }

-- ApiClient.request: only methods that change nothing go to another endpoint
unfoldable pub is_retryable : String → Bool
is_retryable method_upper =
    str_eq method_upper "GET" || (str_eq method_upper "HEAD" || str_eq method_upper "OPTIONS")

unfoldable pub one_endpoint : Option String → List String
one_endpoint none = []
one_endpoint (some e) = e ∷ []

-- _create_substrate goes on after any exception; its error, from the
-- endpoints that raised
unfoldable pub connect_failed : Option RpcEndpointPool → List String → RpcError
connect_failed pool [] = unbound
connect_failed pool (e ∷ []) = request_failed none
connect_failed none (e ∷ es) = request_failed none
connect_failed (some pool) (e ∷ es) = unable_to_connect (e ∷ es)

module _ {B : Type 0} where
  unfoldable pub rest_moves_on : Bool → Reply B → Bool
  unfolding fails_over
  rest_moves_on retryable reply = retryable && fails_over reply

  unfoldable pub rest_request : (ℕ → String → Reply B) → String → RpcEndpointPool → Run B
  unfolding is_retryable one_endpoint active ordered rest_moves_on try_endpoints
  rest_request reply method_upper pool =
      let retryable = is_retryable method_upper in
      let endpoints = if retryable then ordered pool else one_endpoint (active pool) in
      try_endpoints (rest_moves_on retryable) reply (some pool) 0 endpoints

  -- `failed` are the endpoints that raised so far
  unfoldable pub connect_over :
      (connect : String → Option B) (pool : Option RpcEndpointPool) (failed : List String)
      → List String
      → Run B
  unfolding connect_failed note_success
  connect_over connect pool failed [] = record {
    outcome = raised (connect_failed pool failed);
    pool = pool;
    sent = failed;
  }
  connect_over connect pool failed (e ∷ es) =
      let rest = connect_over connect pool (failed ++ (e ∷ [])) es in
      elim (connect e) [
        | none ↦ rest
        | some b ↦ record {
          outcome = returned b;
          pool = note_success e pool;
          sent = failed ++ (e ∷ []);
        }
      ]

  unfoldable pub create_substrate : (String → Option B) → String → Option RpcEndpointPool → Run B
  unfolding connect_over request_endpoints
  create_substrate connect substrate_ws pool =
      connect_over connect pool [] (request_endpoints substrate_ws pool)
