-- ===== src/Trading/Perp.antt =====
-- src/deepx_sdk/_perp_market.py: placing, cancelling and modifying an order, and closing a position.
use deepx_python_sdk.Prelude.{
  Bool, true, false, Option, none, some, [], ◌∷◌, Outcome, returned, Text, ℤ, pos, negsuc, suc, ◌+◌,
  ◌-◌, if◌then◌else◌, leb,
}
use deepx_python_sdk.Abi.{normalize_address, is_int}
use deepx_python_sdk.Trading.Orders.{
  TradeError, not_exactly_one, below_filled, PerpPlaceParams, PerpCancelParams, cancel_perp,
  place_perp, one_op, modify_orders, close_perp, Submission, Receipt, Session, ◌>>=◌,
  perp_order_type_param, post_only_param, parse_int_field, send, refuse, prepared,
}

-- the arguments of an order that place_perp_order and modify_perp_order share
pub record PerpOrder : Type 0 where
  pub subaccount : Text
  pub market_id : ℤ
  pub is_long : Bool
  pub price : ℤ
  pub order_type : ℤ
  pub slippage : Option ℤ
  pub take_profit : Option ℤ
  pub stop_loss : Option ℤ
  pub reduce_only : Bool
  pub post_only : ℤ

-- _perp_place_params
unfoldable pub perp_place_params : PerpOrder → ℤ → Outcome TradeError PerpPlaceParams
unfolding perp_order_type_param post_only_param
perp_place_params o size = do
  order_type ← perp_order_type_param o.order_type o.slippage
  post_only ← post_only_param o.post_only
  returned (record {
    subaccount = normalize_address o.subaccount;
    market_id = o.market_id;
    is_long = o.is_long;
    size = size;
    price = o.price;
    order_type = order_type;
    take_profit = o.take_profit;
    stop_loss = o.stop_loss;
    reduce_only = o.reduce_only;
    post_only = post_only;
  })

-- _perp_cancel_params
unfoldable pub perp_cancel_params : Text → ℤ → ℤ → Bool → PerpCancelParams
perp_cancel_params subaccount market_id order_id fast_cancel = record {
  subaccount = normalize_address subaccount;
  order_id = order_id;
  market_id = market_id;
  fast_cancel = fast_cancel;
}

-- a - b
abbrev pub minus : ℤ → ℤ → ℤ
minus (pos a) (pos b) = if leb b a then pos (a - b) else negsuc (b - a - 1)
minus (pos a) (negsuc b) = pos (a + suc b)
minus (negsuc a) (pos b) = negsuc (a + b)
minus (negsuc a) (negsuc b) = if leb a b then pos (b - a) else negsuc (a - b - 1)

-- the results: the id of the new order, and for a modification the id of the cancelled one
pub record ModifyOrderResult : Type 0 where
  pub order_id : ℤ
  pub canceled_order_id : ℤ

unfoldable pub cancelled_only : ℤ → Session ℤ → Session ModifyOrderResult
cancelled_only order_id run = record {
  outcome = run.outcome >>= λ cancelled.
      returned (record { order_id = cancelled; canceled_order_id = order_id });
  submitted = run.submitted;
}

unfoldable pub is_negative : ℤ → Bool
is_negative (pos n) = false
is_negative (negsuc n) = true

module _ (submit : Submission → Outcome TradeError Receipt) where
  unfoldable pub read_order_id : Receipt → Outcome TradeError ℤ
  read_order_id receipt = parse_int_field receipt.fields "order_id"

  unfoldable pub place_perp_order : PerpOrder → ℤ → Session ℤ
  unfolding perp_place_params send prepared read_order_id
  place_perp_order o size = prepared (perp_place_params o size) λ params.
      send submit (record { call = one_op (place_perp params); event = some "OrderPlaced" })
        read_order_id

  -- place_perp_order_limit, place_perp_order_ioc and place_perp_order_market
  unfoldable pub place_perp_order_limit : PerpOrder → ℤ → Session ℤ
  unfolding place_perp_order
  place_perp_order_limit o size =
      place_perp_order (record o { order_type = pos 0; slippage = none }) size

  unfoldable pub place_perp_order_ioc : PerpOrder → ℤ → Session ℤ
  unfolding place_perp_order
  place_perp_order_ioc o size =
      place_perp_order (record o { order_type = pos 3; slippage = none }) size

  unfoldable pub place_perp_order_market : PerpOrder → ℤ → Session ℤ
  unfolding place_perp_order
  place_perp_order_market o size =
      place_perp_order
        (record o {
          price = pos 0;
          order_type = pos 1;
          take_profit = none;
          stop_loss = none;
          post_only = pos 0;
        })
        size

  -- With fast_cancel the event is not waited for and the id that was asked for is returned.
  unfoldable pub cancel_perp_order : Text → ℤ → ℤ → Bool → Session ℤ
  unfolding perp_cancel_params send read_order_id
  cancel_perp_order subaccount market_id order_id fast_cancel =
      let call =
        one_op (cancel_perp (perp_cancel_params subaccount market_id order_id fast_cancel)) in
      if fast_cancel
      then send submit (record { call = call; event = none }) (λ receipt. returned order_id)
      else send submit (record { call = call; event = some "OrderCancelled" }) read_order_id

  -- the two operations of one extrinsic
  unfoldable pub replace_perp_order : PerpOrder → ℤ → ℤ → Bool → Session ModifyOrderResult
  unfolding perp_place_params perp_cancel_params send prepared read_order_id
  replace_perp_order o size order_id fast_cancel = prepared (perp_place_params o size) λ params.
      send submit
        (record {
          call = modify_orders (
              cancel_perp (perp_cancel_params o.subaccount o.market_id order_id fast_cancel)
              ∷ place_perp params
              ∷ []);
          event = some "OrderPlaced";
        })
        λ receipt. read_order_id receipt >>= λ new_order_id.
          returned (record { order_id = new_order_id; canceled_order_id = order_id })

  -- the size that is left of a total of which a part is filled
  unfoldable pub modify_to : PerpOrder → ℤ → ℤ → Bool → Session ModifyOrderResult
  unfolding is_negative is_int refuse cancelled_only cancel_perp_order replace_perp_order
  modify_to o size order_id fast_cancel =
      if is_negative size
      then refuse below_filled
      else if is_int 0 size
      then cancelled_only order_id (cancel_perp_order o.subaccount o.market_id order_id fast_cancel)
      else replace_perp_order o size order_id fast_cancel

  -- `filled` is what order_info reads as size_filled, or the error that it raises
  unfoldable pub modify_perp_order :
      (filled : Outcome TradeError ℤ)
      → PerpOrder
      → (size new_total_quantity : Option ℤ) → ℤ
      → Bool
      → Session ModifyOrderResult
  unfolding modify_to replace_perp_order refuse prepared
  modify_perp_order filled o none none order_id fast_cancel = refuse not_exactly_one
  modify_perp_order filled o (some size) (some total) order_id fast_cancel = refuse not_exactly_one
  modify_perp_order filled o (some size) none order_id fast_cancel =
      replace_perp_order o size order_id fast_cancel
  modify_perp_order filled o none (some total) order_id fast_cancel =
      prepared filled λ f. modify_to o (minus total f) order_id fast_cancel

  -- _close_position_inner
  unfoldable pub close_position : Text → ℤ → ℤ → Option ℤ → Session ℤ
  unfolding send read_order_id
  close_position subaccount market_id price slippage =
      send submit
        (record {
          call = close_perp (normalize_address subaccount) market_id price slippage;
          event = some "OrderPlaced";
        })
        read_order_id

  unfoldable pub close_position_market : Text → ℤ → Option ℤ → Session ℤ
  unfolding close_position
  close_position_market subaccount market_id slippage =
      close_position subaccount market_id (pos 0) slippage
