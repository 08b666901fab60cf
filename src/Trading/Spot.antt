-- ===== src/Trading/Spot.antt =====
-- src/deepx_sdk/_spot_market.py: placing, cancelling and modifying an order.
use deepx_python_sdk.Prelude.{
  String, Bool, true, false, Option, none, some, [], ◌∷◌, Outcome, returned, Text, ℤ, if◌then◌else◌,
}
use deepx_python_sdk.Abi.{normalize_address}
use deepx_python_sdk.Trading.Orders.{
  TradeError, OrderType, limit, market, gtc, ioc, PostOnly, never, SpotPlaceParams,
  SpotCancelParams, cancel_spot, place_spot, one_op, modify_orders, Submission, Receipt, Session,
  ◌>>=◌, spot_order_type_param, spot_slippage_bps, market_with, post_only_param, pair_param,
  parse_order_id, send, prepared,
}
use deepx_python_sdk.Trading.Perp.{ModifyOrderResult}

-- the arguments that every order on the spot market has
pub record SpotOrder : Type 0 where
  pub subaccount : Text
  pub pair : Text
  pub is_buy : Bool
  pub quote_amount : ℤ
  pub base_amount : ℤ
  pub reduce_only : Bool

-- _spot_place_params
unfoldable pub spot_place_params :
    SpotOrder → OrderType → PostOnly → Outcome TradeError SpotPlaceParams
unfolding pair_param
spot_place_params o order_type post_only = do
  pair ← pair_param o.pair
  returned (record {
    subaccount = normalize_address o.subaccount;
    pair = pair;
    is_buy = o.is_buy;
    quote_amount = o.quote_amount;
    base_amount = o.base_amount;
    order_type = order_type;
    post_only = post_only;
    reduce_only = o.reduce_only;
  })

-- _spot_cancel_params
unfoldable pub spot_cancel_params : SpotOrder → ℤ → Bool → Outcome TradeError SpotCancelParams
unfolding pair_param
spot_cancel_params o order_id fast_cancel = do
  pair ← pair_param o.pair
  returned (record {
    subaccount = normalize_address o.subaccount;
    pair = pair;
    order_id = order_id;
    is_buy = o.is_buy;
    fast_cancel = fast_cancel;
  })

unfoldable pub event_name : Bool → String
event_name true = "StateOrderBuy"
event_name false = "StateOrderSell"

-- the parameters of both operations of a modification
unfoldable pub modify_params :
    SpotOrder
    → ℤ
    → ℤ
    → Option ℤ
    → ℤ
    → Bool
    → Outcome TradeError (SpotCancelParams × SpotPlaceParams)
unfolding spot_cancel_params spot_place_params spot_order_type_param post_only_param
modify_params o order_id order_type slippage post_only fast_cancel = do
  cancel ← spot_cancel_params o order_id fast_cancel
  type_ ← spot_order_type_param order_type slippage
  when ← post_only_param post_only
  place ← spot_place_params o type_ when
  returned (cancel, place)

module _ (submit : Submission → Outcome TradeError Receipt) where
  unfoldable pub submit_spot_order : SpotPlaceParams → Bool → Session ℤ
  unfolding send event_name parse_order_id
  submit_spot_order params is_buy =
      send submit (record { call = one_op (place_spot params); event = some (event_name is_buy) })
        λ receipt. parse_order_id receipt.fields

  unfoldable pub place_spot_order :
      SpotOrder → Outcome TradeError OrderType → Outcome TradeError PostOnly → Session ℤ
  unfolding prepared submit_spot_order spot_place_params
  place_spot_order o order_type post_only =
      prepared (order_type >>= λ t. post_only >>= λ p. spot_place_params o t p)
        λ params. submit_spot_order params o.is_buy

  -- subaccount_place_order_buy_b and subaccount_place_order_sell_b
  unfoldable pub subaccount_place_order : SpotOrder → ℤ → Session ℤ
  unfolding place_spot_order post_only_param
  subaccount_place_order o post_only =
      place_spot_order o (returned (limit gtc)) (post_only_param post_only)

  -- subaccount_place_order_buy_ioc_b and subaccount_place_order_sell_ioc_b
  unfoldable pub subaccount_place_order_ioc : SpotOrder → Session ℤ
  unfolding place_spot_order
  subaccount_place_order_ioc o = place_spot_order o (returned (limit ioc)) (returned never)

  -- subaccount_place_market_order_*_without_price
  unfoldable pub subaccount_place_market_order_without_price : SpotOrder → Session ℤ
  unfolding place_spot_order
  subaccount_place_market_order_without_price o =
      place_spot_order o (returned (market none)) (returned never)

  -- subaccount_place_market_order_*_with_price
  unfoldable pub subaccount_place_market_order_with_price : SpotOrder → ℤ → Session ℤ
  unfolding place_spot_order market_with spot_slippage_bps
  subaccount_place_market_order_with_price o slippage =
      place_spot_order o (market_with (spot_slippage_bps slippage)) (returned never)

  -- _submit_spot_cancel
  unfoldable pub submit_spot_cancel : SpotOrder → ℤ → Bool → Session ℤ
  unfolding prepared send spot_cancel_params parse_order_id
  submit_spot_cancel o order_id fast_cancel =
      prepared (spot_cancel_params o order_id fast_cancel) λ params.
        let call = one_op (cancel_spot params) in
        if fast_cancel
        then send submit (record { call = call; event = none }) (λ receipt. returned order_id)
        else send submit (record { call = call; event = some "OrderCancelled" })
            (λ receipt. parse_order_id receipt.fields)

  unfoldable pub modify_spot_order :
      SpotOrder → ℤ → ℤ → Option ℤ → ℤ → Bool → Session ModifyOrderResult
  unfolding prepared send event_name modify_params parse_order_id
  modify_spot_order o order_id order_type slippage post_only fast_cancel =
      prepared (modify_params o order_id order_type slippage post_only fast_cancel) λ params.
        send submit
          (record {
            call = modify_orders (cancel_spot params.0 ∷ place_spot params.1 ∷ []);
            event = some (event_name o.is_buy);
          })
          λ receipt. parse_order_id receipt.fields >>= λ new_order_id.
            returned (record { order_id = new_order_id; canceled_order_id = order_id })
