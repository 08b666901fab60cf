-- ===== src/Abi/Contracts.antt =====
-- src/deepx_sdk/_abi.py: the call of each function of the perp and spot contracts.
use deepx_python_sdk.Prelude.{Bool, Option, List, [], ◌∷◌, Outcome, Text, Bytes, codes, ℤ}
use deepx_python_sdk.Abi.{
  AbiError, Value, text, number, flag, raw, ◌>>=◌, or_zero, normalize_address, normalize_bytes32,
  encode_call,
}

module _ (keccak : Text → Bytes)
    (abi_encode : List Text → List Value → Outcome AbiError Bytes) where
  unfoldable pub encode_perp_place_order :
      (subaccount : Text) (market_id : ℤ) (is_long : Bool) (size price order_type leverage : ℤ)
      (take_profit stop_loss : Option ℤ) (reduce_only : Bool) (post_only : ℤ)
      → Outcome AbiError Bytes
  encode_perp_place_order subaccount market_id is_long size price order_type leverage take_profit
        stop_loss reduce_only post_only =
      encode_call keccak abi_encode
        (codes
          "placePerpOrder(address,uint16,bool,uint128,uint128,uint8,uint8,uint128,uint128,bool,uint8)")
        (codes "address"
          ∷ codes "uint16"
          ∷ codes "bool"
          ∷ codes "uint128"
          ∷ codes "uint128"
          ∷ codes "uint8"
          ∷ codes "uint8"
          ∷ codes "uint128"
          ∷ codes "uint128"
          ∷ codes "bool"
          ∷ codes "uint8"
          ∷ [])
        (text (normalize_address subaccount)
          ∷ number market_id
          ∷ flag is_long
          ∷ number size
          ∷ number price
          ∷ number order_type
          ∷ number leverage
          ∷ number (or_zero take_profit)
          ∷ number (or_zero stop_loss)
          ∷ flag reduce_only
          ∷ number post_only
          ∷ [])

  unfoldable pub encode_perp_cancel_order :
      (subaccount : Text) (market_id order_id : ℤ) → Outcome AbiError Bytes
  encode_perp_cancel_order subaccount market_id order_id =
      encode_call keccak abi_encode (codes "cancelOrder(address,uint16,uint32)")
        (codes "address" ∷ codes "uint16" ∷ codes "uint32" ∷ [])
        (text (normalize_address subaccount) ∷ number market_id ∷ number order_id ∷ [])

  unfoldable pub encode_perp_close_position :
      (subaccount : Text) (market_id price : ℤ) (slippage : Option ℤ) → Outcome AbiError Bytes
  encode_perp_close_position subaccount market_id price slippage =
      encode_call keccak abi_encode (codes "closePosition(address,uint16,uint128,uint64)")
        (codes "address" ∷ codes "uint16" ∷ codes "uint128" ∷ codes "uint64" ∷ [])
        (text (normalize_address subaccount)
          ∷ number market_id
          ∷ number price
          ∷ number (or_zero slippage)
          ∷ [])

  unfoldable pub encode_perp_set_profit_and_loss_point :
      (subaccount : Text) (market_id : ℤ) (take_profit_point stop_loss_point : Option ℤ)
      → Outcome AbiError Bytes
  encode_perp_set_profit_and_loss_point subaccount market_id take_profit_point stop_loss_point =
      encode_call keccak abi_encode (codes "setProfitAndLossPoint(address,uint16,uint128,uint128)")
        (codes "address" ∷ codes "uint16" ∷ codes "uint128" ∷ codes "uint128" ∷ [])
        (text (normalize_address subaccount)
          ∷ number market_id
          ∷ number (or_zero take_profit_point)
          ∷ number (or_zero stop_loss_point)
          ∷ [])

  unfoldable pub encode_spot_place_order_sell_b :
      (subaccount pair : Text) (quote_amount base_amount post_only : ℤ) (reduce_only : Bool)
      → Outcome AbiError Bytes
  encode_spot_place_order_sell_b subaccount pair quote_amount base_amount post_only reduce_only =
      normalize_bytes32 pair >>= λ pair_bytes.
      encode_call keccak abi_encode
        (codes "subaccountPlaceOrderSellB(address,bytes32,uint256,uint256,uint8,bool)")
        (codes "address"
          ∷ codes "bytes32"
          ∷ codes "uint256"
          ∷ codes "uint256"
          ∷ codes "uint8"
          ∷ codes "bool"
          ∷ [])
        (text (normalize_address subaccount)
          ∷ raw pair_bytes
          ∷ number quote_amount
          ∷ number base_amount
          ∷ number post_only
          ∷ flag reduce_only
          ∷ [])

  unfoldable pub encode_spot_place_order_buy_b :
      (subaccount pair : Text) (quote_amount base_amount post_only : ℤ) (reduce_only : Bool)
      → Outcome AbiError Bytes
  encode_spot_place_order_buy_b subaccount pair quote_amount base_amount post_only reduce_only =
      normalize_bytes32 pair >>= λ pair_bytes.
      encode_call keccak abi_encode
        (codes "subaccountPlaceOrderBuyB(address,bytes32,uint256,uint256,uint8,bool)")
        (codes "address"
          ∷ codes "bytes32"
          ∷ codes "uint256"
          ∷ codes "uint256"
          ∷ codes "uint8"
          ∷ codes "bool"
          ∷ [])
        (text (normalize_address subaccount)
          ∷ raw pair_bytes
          ∷ number quote_amount
          ∷ number base_amount
          ∷ number post_only
          ∷ flag reduce_only
          ∷ [])

  unfoldable pub encode_spot_place_market_order_sell_b_without_price :
      (subaccount pair : Text) (quote_amount base_amount : ℤ) (auto_cancel reduce_only : Bool)
      → Outcome AbiError Bytes
  encode_spot_place_market_order_sell_b_without_price subaccount pair quote_amount base_amount
        auto_cancel reduce_only =
      normalize_bytes32 pair >>= λ pair_bytes.
      encode_call keccak abi_encode
        (codes
          "subaccountPlaceMarketOrderSellBWithoutPrice(address,bytes32,uint256,uint256,bool,bool)")
        (codes "address"
          ∷ codes "bytes32"
          ∷ codes "uint256"
          ∷ codes "uint256"
          ∷ codes "bool"
          ∷ codes "bool"
          ∷ [])
        (text (normalize_address subaccount)
          ∷ raw pair_bytes
          ∷ number quote_amount
          ∷ number base_amount
          ∷ flag auto_cancel
          ∷ flag reduce_only
          ∷ [])

  unfoldable pub encode_spot_place_market_order_sell_b_with_price :
      (subaccount pair : Text) (quote_amount base_amount slippage : ℤ)
      (auto_cancel reduce_only : Bool)
      → Outcome AbiError Bytes
  encode_spot_place_market_order_sell_b_with_price subaccount pair quote_amount base_amount slippage
        auto_cancel reduce_only =
      normalize_bytes32 pair >>= λ pair_bytes.
      encode_call keccak abi_encode
        (codes
          "subaccountPlaceMarketOrderSellBWithPrice(address,bytes32,uint256,uint256,uint8,bool,bool)")
        (codes "address"
          ∷ codes "bytes32"
          ∷ codes "uint256"
          ∷ codes "uint256"
          ∷ codes "uint8"
          ∷ codes "bool"
          ∷ codes "bool"
          ∷ [])
        (text (normalize_address subaccount)
          ∷ raw pair_bytes
          ∷ number quote_amount
          ∷ number base_amount
          ∷ number slippage
          ∷ flag auto_cancel
          ∷ flag reduce_only
          ∷ [])

  unfoldable pub encode_spot_place_market_order_buy_b_without_price :
      (subaccount pair : Text) (quote_amount base_amount : ℤ) (auto_cancel reduce_only : Bool)
      → Outcome AbiError Bytes
  encode_spot_place_market_order_buy_b_without_price subaccount pair quote_amount base_amount
        auto_cancel reduce_only =
      normalize_bytes32 pair >>= λ pair_bytes.
      encode_call keccak abi_encode
        (codes
          "subaccountPlaceMarketOrderBuyBWithoutPrice(address,bytes32,uint256,uint256,bool,bool)")
        (codes "address"
          ∷ codes "bytes32"
          ∷ codes "uint256"
          ∷ codes "uint256"
          ∷ codes "bool"
          ∷ codes "bool"
          ∷ [])
        (text (normalize_address subaccount)
          ∷ raw pair_bytes
          ∷ number quote_amount
          ∷ number base_amount
          ∷ flag auto_cancel
          ∷ flag reduce_only
          ∷ [])

  unfoldable pub encode_spot_place_market_order_buy_b_with_price :
      (subaccount pair : Text) (quote_amount base_amount slippage : ℤ)
      (auto_cancel reduce_only : Bool)
      → Outcome AbiError Bytes
  encode_spot_place_market_order_buy_b_with_price subaccount pair quote_amount base_amount slippage
        auto_cancel reduce_only =
      normalize_bytes32 pair >>= λ pair_bytes.
      encode_call keccak abi_encode
        (codes
          "subaccountPlaceMarketOrderBuyBWithPrice(address,bytes32,uint256,uint256,uint8,bool,bool)")
        (codes "address"
          ∷ codes "bytes32"
          ∷ codes "uint256"
          ∷ codes "uint256"
          ∷ codes "uint8"
          ∷ codes "bool"
          ∷ codes "bool"
          ∷ [])
        (text (normalize_address subaccount)
          ∷ raw pair_bytes
          ∷ number quote_amount
          ∷ number base_amount
          ∷ number slippage
          ∷ flag auto_cancel
          ∷ flag reduce_only
          ∷ [])

  unfoldable pub encode_spot_cancel_order_sell_b :
      (subaccount pair : Text) (order_id : ℤ) → Outcome AbiError Bytes
  encode_spot_cancel_order_sell_b subaccount pair order_id =
      normalize_bytes32 pair >>= λ pair_bytes.
      encode_call keccak abi_encode (codes "subaccountCancelOrderSellB(address,bytes32,uint256)")
        (codes "address" ∷ codes "bytes32" ∷ codes "uint256" ∷ [])
        (text (normalize_address subaccount) ∷ raw pair_bytes ∷ number order_id ∷ [])

  unfoldable pub encode_spot_cancel_order_buy_b :
      (subaccount pair : Text) (order_id : ℤ) → Outcome AbiError Bytes
  encode_spot_cancel_order_buy_b subaccount pair order_id = normalize_bytes32 pair >>= λ pair_bytes.
      encode_call keccak abi_encode (codes "subaccountCancelOrderBuyB(address,bytes32,uint256)")
        (codes "address" ∷ codes "bytes32" ∷ codes "uint256" ∷ [])
        (text (normalize_address subaccount) ∷ raw pair_bytes ∷ number order_id ∷ [])
