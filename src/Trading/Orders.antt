-- ===== src/Trading/Orders.antt =====
-- src/deepx_sdk/_perp_market.py and _spot_market.py: the parameters of the calls, what is submitted,
-- and the order id that is read from an event.
use deepx_python_sdk.Prelude.{
  String, Bool, Option, none, some, List, [], ◌∷◌, ◌++◌, Outcome, returned, raised, Text, Bytes,
  codes, to_hex, ℤ, pos, negsuc, if◌then◌else◌, ltb, str_eq,
}
use deepx_python_sdk.Abi.{AbiError, is_int, normalize_bytes32}
use deepx_python_sdk.Trading.Json.{Json, obj, Fields, end, field}
use deepx_python_sdk.Trading.Values.{parse_int_value}

pub data TradeError : Type 0 where
  invalid_order_type invalid_post_only invalid_slippage not_exactly_one below_filled : TradeError
  field_missing field_not_int not_submitted : TradeError
  invalid_pair : AbiError → TradeError

pub data TimeInForce : Type 0 where
  gtc ioc : TimeInForce

-- the chain's OrderType
pub data OrderType : Type 0 where
  limit : TimeInForce → OrderType
  market : Option ℤ → OrderType
  stop : OrderType

pub data PostOnly : Type 0 where
  never must_post_only adaptive : PostOnly

pub record PerpPlaceParams : Type 0 where
  pub subaccount : Text
  pub market_id : ℤ
  pub is_long : Bool
  pub size : ℤ
  pub price : ℤ
  pub order_type : OrderType
  pub take_profit : Option ℤ
  pub stop_loss : Option ℤ
  pub reduce_only : Bool
  pub post_only : PostOnly

pub record PerpCancelParams : Type 0 where
  pub subaccount : Text
  pub order_id : ℤ
  pub market_id : ℤ
  pub fast_cancel : Bool

pub record SpotPlaceParams : Type 0 where
  pub subaccount : Text
  pub pair : Text
  pub is_buy : Bool
  pub quote_amount : ℤ
  pub base_amount : ℤ
  pub order_type : OrderType
  pub post_only : PostOnly
  pub reduce_only : Bool

pub record SpotCancelParams : Type 0 where
  pub subaccount : Text
  pub pair : Text
  pub order_id : ℤ
  pub is_buy : Bool
  pub fast_cancel : Bool

pub data Op : Type 0 where
  cancel_perp : PerpCancelParams → Op
  place_perp : PerpPlaceParams → Op
  cancel_spot : SpotCancelParams → Op
  place_spot : SpotPlaceParams → Op

pub data Call : Type 0 where
  one_op : Op → Call
  modify_orders : List Op → Call
  close_perp : (subaccount : Text) (market_id price : ℤ) (slippage : Option ℤ) → Call

-- a call with the event that it waits for, if it waits for one
pub record Submission : Type 0 where
  pub call : Call
  pub event : Option String

-- what the chain answers to a submission that went through
pub record Receipt : Type 0 where
  pub tx_hash : String
  pub fields : Json

-- how a function ends, and what it has submitted
pub record Session (A : Type 0) : Type 0 where
  pub outcome : Outcome TradeError A
  pub submitted : List Submission

infixl 5 ◌>>=◌
abbrev pub ◌>>=◌ :
    {A B : Type 0} → Outcome TradeError A → (A → Outcome TradeError B) → Outcome TradeError B
returned a >>= f = f a
raised e >>= f = raised e

-- _perp_order_type_param
unfoldable pub perp_order_type_param : ℤ → Option ℤ → Outcome TradeError OrderType
unfolding is_int
perp_order_type_param value slippage =
    if is_int 0 value
    then returned (limit gtc)
    else if is_int 1 value
    then returned (market slippage)
    else if is_int 2 value
    then returned stop
    else if is_int 3 value
    then returned (limit ioc)
    else raised invalid_order_type

-- _post_only_param
unfoldable pub post_only_param : ℤ → Outcome TradeError PostOnly
unfolding is_int
post_only_param value =
    if is_int 0 value
    then returned never
    else if is_int 1 value
    then returned must_post_only
    else if is_int 2 value
    then returned adaptive
    else raised invalid_post_only

-- _spot_slippage_bps
unfoldable pub spot_slippage_bps : ℤ → Outcome TradeError ℤ
spot_slippage_bps (pos n) = if ltb 10000 n then raised invalid_slippage else returned (pos n)
spot_slippage_bps (negsuc n) = raised invalid_slippage

unfoldable pub market_with : Outcome TradeError ℤ → Outcome TradeError OrderType
market_with (raised e) = raised e
market_with (returned n) = returned (market (some n))

unfoldable pub spot_market_type : Option ℤ → Outcome TradeError OrderType
unfolding market_with spot_slippage_bps
spot_market_type none = returned (market none)
spot_market_type (some n) = market_with (spot_slippage_bps n)

-- _spot_order_type_param
unfoldable pub spot_order_type_param : ℤ → Option ℤ → Outcome TradeError OrderType
unfolding is_int spot_market_type
spot_order_type_param value slippage =
    if is_int 0 value
    then returned (limit gtc)
    else if is_int 1 value
    then spot_market_type slippage
    else if is_int 3 value
    then returned (limit ioc)
    else raised invalid_order_type

unfoldable pub pair_text : Outcome AbiError Bytes → Outcome TradeError Text
pair_text (returned bs) = returned (codes "0x" ++ to_hex bs)
pair_text (raised e) = raised (invalid_pair e)

-- "0x" + normalize_bytes32(pair).hex()
unfoldable pub pair_param : Text → Outcome TradeError Text
unfolding pair_text
pair_param pair = pair_text (normalize_bytes32 pair)

-- fields[key], where it is present
unfoldable pub get_field : String → Fields → Option Json
get_field key end = none
get_field key (field k v fs) = if str_eq k key then some v else get_field key fs

unfoldable pub int_field : Option Json → Outcome TradeError ℤ
int_field none = raised field_missing
int_field (some v) = elim (parse_int_value v) [ none ↦ raised field_not_int | some n ↦ returned n ]

-- _parse_int_field of _perp_market.py
unfoldable pub parse_int_field : Json → String → Outcome TradeError ℤ
unfolding int_field get_field
parse_int_field (obj fs) key = int_field (get_field key fs)
parse_int_field fields key = raised field_missing

-- order["id"], where `order` is a dict that has it
unfoldable pub order_dict_id : Option Json → Option Json
unfolding get_field
order_dict_id (some (obj fs)) = get_field "id" fs
order_dict_id other = none

unfoldable pub or_found : Option Json → Option Json → Option Json
or_found (some v) other = some v
or_found none other = other

-- _parse_int_field of _spot_market.py for the key order_id
unfoldable pub parse_order_id : Json → Outcome TradeError ℤ
unfolding int_field get_field order_dict_id or_found
parse_order_id (obj fs) = int_field (
    or_found (get_field "order_id" fs)
      (or_found (order_dict_id (get_field "order" fs)) (get_field "id" fs)))
parse_order_id fields = raised field_missing

-- a submission, with what is read from its receipt
module _ (submit : Submission → Outcome TradeError Receipt) where
  unfoldable pub send : {A : Type 0} → Submission → (Receipt → Outcome TradeError A) → Session A
  send s read = record { outcome = submit s >>= read; submitted = s ∷ [] }

unfoldable pub refuse : {A : Type 0} → TradeError → Session A
refuse e = record { outcome = raised e; submitted = [] }

-- a session that starts with the arguments of its call
unfoldable pub prepared : {A B : Type 0} → Outcome TradeError A → (A → Session B) → Session B
unfolding refuse
prepared (raised e) run = refuse e
prepared (returned a) run = run a
