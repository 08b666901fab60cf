-- ===== src/Transport.antt =====
-- src/deepx_sdk/_async_transport.py: the state of AsyncRpcTransport. `V` is a JSON value, `E` the
-- error of a response, `H` a handler of notifications. `requests` holds the ids of `_requests`; the
-- future of each request stands in `futures`, also after the transport has let go of it. `outgoing`
-- lists the requests whose text was given to the socket. The methods of the requests, which only
-- texts of errors use, and the tasks are not kept. A subscription's route and the intent that
-- registered it are told apart by their ids.
pub mod Requests
pub mod Responses
pub mod Notes
pub mod Sent
pub mod Run
pub mod Submission
pub mod Endpoints
pub mod Attempts
pub mod Notifications
use deepx_python_sdk.Prelude.{
  ℕ, String, Bool, true, false, Option, none, some, List, [], ◌∷◌, ◌||◌, Dict,
}

pub data ConnectionState : Type 0 where
  disconnected connecting connected reconnecting recovering closed : ConnectionState

-- the outcomes of a request's future; `failed` is TransportRequestError with may_have_been_sent
pub data RequestFuture (V E : Type 0) : Type 0 where
  waiting cancelled : RequestFuture V E
  result : Option V → RequestFuture V E
  refused : E → RequestFuture V E
  failed : Bool → RequestFuture V E

-- _SubscriptionRoute
pub record Route (V H : Type 0) : Type 0 where
  pub handler : H
  pub queue : List V
  pub stopping : Bool

-- _SubscribeIntent
pub record Intent (H : Type 0) : Type 0 where
  pub handler : H
  pub subscription_id : Option String

pub record Transport (V E H : Type 0) : Type 0 where
  pub state : ConnectionState
  pub has_socket : Bool
  pub auto_reconnect : Bool
  pub next_request_id : ℕ
  pub futures : Dict ℕ (RequestFuture V E)
  pub requests : List ℕ
  pub request_may_have_been_sent : List ℕ
  pub outgoing : List ℕ
  pub subscribe_intents : Dict ℕ (Intent H)
  pub subscriptions : Dict String (Route V H)
  pub early_notifications : Dict String (List V)
  pub unsubscribed : List String

abbrev pub new_transport : {V E H : Type 0} → Bool → Transport V E H
new_transport auto_reconnect = record {
  state = disconnected;
  has_socket = false;
  auto_reconnect = auto_reconnect;
  next_request_id = 1;
  futures = [];
  requests = [];
  request_may_have_been_sent = [];
  outgoing = [];
  subscribe_intents = [];
  subscriptions = [];
  early_notifications = [];
  unsubscribed = [];
}

-- self._state in {CONNECTED, RECOVERING}
unfoldable pub is_live : ConnectionState → Bool
is_live connected = true
is_live recovering = true
is_live _ = false

unfoldable pub is_closed : ConnectionState → Bool
is_closed closed = true
is_closed _ = false
