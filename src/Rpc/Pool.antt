-- ===== src/Rpc/Pool.antt =====
-- src/deepx_sdk/_rpc_transport.py: a pool of endpoints, of which one is active.
use deepx_python_sdk.Prelude.{
  ℕ, zero, suc, String, Option, none, some, List, [], ◌∷◌, ◌++◌, Outcome, returned, raised, take,
  drop, if◌then◌else◌, str_eq,
}

pub record RpcEndpointPool : Type 0 where
  pub endpoints : List String
  pub active_index : ℕ

pub data PoolError : Type 0 where
  empty_pool : PoolError

-- __init__
unfoldable pub new_pool : List String → Outcome PoolError RpcEndpointPool
new_pool [] = raised empty_pool
new_pool (e ∷ es) = returned (record { endpoints = e ∷ es; active_index = 0 })

-- endpoints[i]; `none` stands for IndexError
unfoldable pub item : ℕ → List String → Option String
item i [] = none
item zero (e ∷ es) = some e
item (suc i) (e ∷ es) = item i es

unfoldable pub active : RpcEndpointPool → Option String
unfolding item
active pool = item pool.active_index pool.endpoints

unfoldable pub ordered : RpcEndpointPool → List String
ordered pool = drop pool.active_index pool.endpoints ++ take pool.active_index pool.endpoints

unfoldable pub next_index : Option ℕ → Option ℕ
next_index none = none
next_index (some i) = some (suc i)

-- endpoints.index(endpoint); `none` stands for ValueError
unfoldable pub index_of : String → List String → Option ℕ
unfolding next_index
index_of endpoint [] = none
index_of endpoint (e ∷ es) = if str_eq e endpoint then some 0 else next_index (index_of endpoint es)

unfoldable pub move_to : Option ℕ → RpcEndpointPool → RpcEndpointPool
move_to none pool = pool
move_to (some i) pool = record pool { active_index = i }

unfoldable pub mark_success : String → RpcEndpointPool → RpcEndpointPool
unfolding move_to index_of
mark_success endpoint pool = move_to (index_of endpoint pool.endpoints) pool

-- rpc_request_endpoints and substrate_ws_request_endpoints, from the pool of the current context
unfoldable pub request_endpoints : String → Option RpcEndpointPool → List String
unfolding ordered
request_endpoints default_url none = default_url ∷ []
request_endpoints default_url (some pool) = ordered pool

-- what the loops do after an answer
unfoldable pub note_success : String → Option RpcEndpointPool → Option RpcEndpointPool
unfolding mark_success
note_success endpoint none = none
note_success endpoint (some pool) = some (mark_success endpoint pool)
