-- ===== src/Abi/CallData.antt =====
-- src/deepx_sdk/_abi.py: what a call of a contract is, by the contract ABI: the selector of the
-- function's name with the types of its parameters, and the encoding of its arguments by these types.
use deepx_python_sdk.Prelude.{
  ◌≡◌, refl, List, ◌++◌, map, Outcome, returned, take, Text, Bytes, inl, inr, Outcome-cases,
}
use deepx_python_sdk.Abi.{AbiError, Value, ◌>>=◌, normalize_bytes32, encode_call}
use deepx_python_sdk.Abi.Contracts.{
  encode_perp_place_order, encode_perp_cancel_order, encode_perp_close_position,
  encode_perp_set_profit_and_loss_point, encode_spot_place_order_sell_b,
  encode_spot_place_order_buy_b, encode_spot_place_market_order_sell_b_without_price,
  encode_spot_place_market_order_sell_b_with_price,
  encode_spot_place_market_order_buy_b_without_price,
  encode_spot_place_market_order_buy_b_with_price, encode_spot_cancel_order_sell_b,
  encode_spot_cancel_order_buy_b,
}
use deepx_python_sdk.Abi.Requests.{
  Param, type_name, argument, signature_of, Request, declared, perp_place_order, perp_cancel_order,
  perp_close_position, perp_set_profit_and_loss_point, spot_place_order_sell_b,
  spot_place_order_buy_b, spot_place_market_order_sell_b_without_price,
  spot_place_market_order_sell_b_with_price, spot_place_market_order_buy_b_without_price,
  spot_place_market_order_buy_b_with_price, spot_cancel_order_sell_b, spot_cancel_order_buy_b,
}

module _ (keccak : Text → Bytes)
    (abi_encode : List Text → List Value → Outcome AbiError Bytes) where
  pub call_data : Text → List Param → Outcome AbiError Bytes
  unfolding signature_of argument type_name
  call_data name ps = abi_encode (map type_name ps) (map argument ps) >>= λ encoded.
      returned (take 4 (keccak (signature_of name ps)) ++ encoded)

  pub encode : Request → Outcome AbiError Bytes
  encode
        (perp_place_order subaccount market_id is_long size price order_type leverage take_profit
          stop_loss reduce_only post_only) =
      encode_perp_place_order keccak abi_encode subaccount market_id is_long size price order_type
        leverage take_profit stop_loss reduce_only post_only
  encode (perp_cancel_order subaccount market_id order_id) =
      encode_perp_cancel_order keccak abi_encode subaccount market_id order_id
  encode (perp_close_position subaccount market_id price slippage) =
      encode_perp_close_position keccak abi_encode subaccount market_id price slippage
  encode (perp_set_profit_and_loss_point subaccount market_id take_profit_point stop_loss_point) =
      encode_perp_set_profit_and_loss_point keccak abi_encode subaccount market_id take_profit_point
        stop_loss_point
  encode (spot_place_order_sell_b subaccount pair quote_amount base_amount post_only reduce_only) =
      encode_spot_place_order_sell_b keccak abi_encode subaccount pair quote_amount base_amount
        post_only reduce_only
  encode (spot_place_order_buy_b subaccount pair quote_amount base_amount post_only reduce_only) =
      encode_spot_place_order_buy_b keccak abi_encode subaccount pair quote_amount base_amount
        post_only reduce_only
  encode
        (spot_place_market_order_sell_b_without_price subaccount pair quote_amount base_amount
          auto_cancel reduce_only) =
      encode_spot_place_market_order_sell_b_without_price keccak abi_encode subaccount pair
        quote_amount base_amount auto_cancel reduce_only
  encode
        (spot_place_market_order_sell_b_with_price subaccount pair quote_amount base_amount slippage
          auto_cancel reduce_only) =
      encode_spot_place_market_order_sell_b_with_price keccak abi_encode subaccount pair
        quote_amount base_amount slippage auto_cancel reduce_only
  encode
        (spot_place_market_order_buy_b_without_price subaccount pair quote_amount base_amount
          auto_cancel reduce_only) =
      encode_spot_place_market_order_buy_b_without_price keccak abi_encode subaccount pair
        quote_amount base_amount auto_cancel reduce_only
  encode
        (spot_place_market_order_buy_b_with_price subaccount pair quote_amount base_amount slippage
          auto_cancel reduce_only) =
      encode_spot_place_market_order_buy_b_with_price keccak abi_encode subaccount pair quote_amount
        base_amount slippage auto_cancel reduce_only
  encode (spot_cancel_order_sell_b subaccount pair order_id) =
      encode_spot_cancel_order_sell_b keccak abi_encode subaccount pair order_id
  encode (spot_cancel_order_buy_b subaccount pair order_id) =
      encode_spot_cancel_order_buy_b keccak abi_encode subaccount pair order_id

  -- Each function of the module that encodes a fixed function of a contract (all but the two that
  -- select one) gives the call data of the contract ABI: the selector is that of the function's name
  -- with exactly the types by which the arguments are encoded, every argument has its type, and an
  -- error of the pair is raised.
  pub encode_lem : (r : Request) → encode r ≡ (declared r >>= λ f. call_data f.0 f.1)
  unfolding encode declared call_data encode_perp_place_order encode_perp_cancel_order
      encode_perp_close_position encode_perp_set_profit_and_loss_point
      encode_spot_place_order_sell_b encode_spot_place_order_buy_b
      encode_spot_place_market_order_sell_b_without_price
      encode_spot_place_market_order_sell_b_with_price
      encode_spot_place_market_order_buy_b_without_price
      encode_spot_place_market_order_buy_b_with_price encode_spot_cancel_order_sell_b
      encode_spot_cancel_order_buy_b encode_call
  encode_lem
        (perp_place_order subaccount market_id is_long size price order_type leverage take_profit
          stop_loss reduce_only post_only) =
      refl
  encode_lem (perp_cancel_order subaccount market_id order_id) = refl
  encode_lem (perp_close_position subaccount market_id price slippage) = refl
  encode_lem
        (perp_set_profit_and_loss_point subaccount market_id take_profit_point stop_loss_point) =
      refl
  encode_lem
        (spot_place_order_sell_b subaccount pair quote_amount base_amount post_only reduce_only) =
      elim (Outcome-cases (normalize_bytes32 pair)) [
        | inl (bs, e) ↦ rw e refl
        | inr (e, h) ↦ rw h refl
      ]
  encode_lem
        (spot_place_order_buy_b subaccount pair quote_amount base_amount post_only reduce_only) =
      elim (Outcome-cases (normalize_bytes32 pair)) [
        | inl (bs, e) ↦ rw e refl
        | inr (e, h) ↦ rw h refl
      ]
  encode_lem
        (spot_place_market_order_sell_b_without_price subaccount pair quote_amount base_amount
          auto_cancel reduce_only) =
      elim (Outcome-cases (normalize_bytes32 pair)) [
        | inl (bs, e) ↦ rw e refl
        | inr (e, h) ↦ rw h refl
      ]
  encode_lem
        (spot_place_market_order_sell_b_with_price subaccount pair quote_amount base_amount slippage
          auto_cancel reduce_only) =
      elim (Outcome-cases (normalize_bytes32 pair)) [
        | inl (bs, e) ↦ rw e refl
        | inr (e, h) ↦ rw h refl
      ]
  encode_lem
        (spot_place_market_order_buy_b_without_price subaccount pair quote_amount base_amount
          auto_cancel reduce_only) =
      elim (Outcome-cases (normalize_bytes32 pair)) [
        | inl (bs, e) ↦ rw e refl
        | inr (e, h) ↦ rw h refl
      ]
  encode_lem
        (spot_place_market_order_buy_b_with_price subaccount pair quote_amount base_amount slippage
          auto_cancel reduce_only) =
      elim (Outcome-cases (normalize_bytes32 pair)) [
        | inl (bs, e) ↦ rw e refl
        | inr (e, h) ↦ rw h refl
      ]
  encode_lem (spot_cancel_order_sell_b subaccount pair order_id) =
      elim (Outcome-cases (normalize_bytes32 pair)) [
        | inl (bs, e) ↦ rw e refl
        | inr (e, h) ↦ rw h refl
      ]
  encode_lem (spot_cancel_order_buy_b subaccount pair order_id) =
      elim (Outcome-cases (normalize_bytes32 pair)) [
        | inl (bs, e) ↦ rw e refl
        | inr (e, h) ↦ rw h refl
      ]
