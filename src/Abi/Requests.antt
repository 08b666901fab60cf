-- ===== src/Abi/Requests.antt =====
-- src/deepx_sdk/_abi.py: the functions of the module as requests, with the function of the contract
-- that each of them declares and the types of its parameters.
use deepx_python_sdk.Prelude.{
  Bool, Option, List, [], ◌∷◌, ◌++◌, map, Outcome, returned, Text, Bytes, codes, ℤ,
}
use deepx_python_sdk.Abi.{
  AbiError, Value, text, number, flag, raw, ◌>>=◌, or_zero, normalize_address, normalize_bytes32,
}

pub data Width : Type 0 where
  w8 w16 w32 w64 w128 w256 : Width

uint_name : Width → Text
uint_name w8 = codes "uint8"
uint_name w16 = codes "uint16"
uint_name w32 = codes "uint32"
uint_name w64 = codes "uint64"
uint_name w128 = codes "uint128"
uint_name w256 = codes "uint256"

-- a parameter of a contract's function with its argument
pub data Param : Type 0 where
  address : Text → Param
  uint : Width → ℤ → Param
  bool : Bool → Param
  bytes32 : Bytes → Param

unfoldable pub type_name : Param → Text
unfolding uint_name
type_name (address a) = codes "address"
type_name (uint w n) = uint_name w
type_name (bool b) = codes "bool"
type_name (bytes32 bs) = codes "bytes32"

unfoldable pub argument : Param → Value
argument (address a) = text a
argument (uint w n) = number n
argument (bool b) = flag b
argument (bytes32 bs) = raw bs

commas : List Text → Text
commas [] = []
commas (t ∷ []) = t
commas (t ∷ u ∷ ts) = t ++ (codes "," ++ commas (u ∷ ts))

unfoldable pub signature_of : Text → List Param → Text
unfolding type_name commas
signature_of name ps = name ++ (codes "(" ++ (commas (map type_name ps) ++ codes ")"))

-- the functions of the module, with their arguments
pub data Request : Type 0 where
  perp_place_order :
      (subaccount : Text) (market_id : ℤ) (is_long : Bool) (size price order_type leverage : ℤ)
      (take_profit stop_loss : Option ℤ) (reduce_only : Bool) (post_only : ℤ)
      → Request
  perp_cancel_order : (subaccount : Text) (market_id order_id : ℤ) → Request
  perp_close_position : (subaccount : Text) (market_id price : ℤ) (slippage : Option ℤ) → Request
  perp_set_profit_and_loss_point :
      (subaccount : Text) (market_id : ℤ) (take_profit_point stop_loss_point : Option ℤ) → Request
  spot_place_order_sell_b :
      (subaccount pair : Text) (quote_amount base_amount post_only : ℤ) (reduce_only : Bool)
      → Request
  spot_place_order_buy_b :
      (subaccount pair : Text) (quote_amount base_amount post_only : ℤ) (reduce_only : Bool)
      → Request
  spot_place_market_order_sell_b_without_price :
      (subaccount pair : Text) (quote_amount base_amount : ℤ) (auto_cancel reduce_only : Bool)
      → Request
  spot_place_market_order_sell_b_with_price :
      (subaccount pair : Text) (quote_amount base_amount slippage : ℤ)
      (auto_cancel reduce_only : Bool)
      → Request
  spot_place_market_order_buy_b_without_price :
      (subaccount pair : Text) (quote_amount base_amount : ℤ) (auto_cancel reduce_only : Bool)
      → Request
  spot_place_market_order_buy_b_with_price :
      (subaccount pair : Text) (quote_amount base_amount slippage : ℤ)
      (auto_cancel reduce_only : Bool)
      → Request
  spot_cancel_order_sell_b : (subaccount pair : Text) (order_id : ℤ) → Request
  spot_cancel_order_buy_b : (subaccount pair : Text) (order_id : ℤ) → Request

-- the function of a contract that a request calls, with the types that it declares
unfoldable pub declared : Request → Outcome AbiError (Text × List Param)
declared
      (perp_place_order subaccount market_id is_long size price order_type leverage take_profit
        stop_loss reduce_only post_only) =
    returned (
      codes "placePerpOrder",
      address (normalize_address subaccount)
          ∷ uint w16 market_id
          ∷ bool is_long
          ∷ uint w128 size
          ∷ uint w128 price
          ∷ uint w8 order_type
          ∷ uint w8 leverage
          ∷ uint w128 (or_zero take_profit)
          ∷ uint w128 (or_zero stop_loss)
          ∷ bool reduce_only
          ∷ uint w8 post_only
          ∷ [],
    )
declared (perp_cancel_order subaccount market_id order_id) = returned (
  codes "cancelOrder",
  address (normalize_address subaccount) ∷ uint w16 market_id ∷ uint w32 order_id ∷ [],
)
declared (perp_close_position subaccount market_id price slippage) = returned (
  codes "closePosition",
  address (normalize_address subaccount)
      ∷ uint w16 market_id
      ∷ uint w128 price
      ∷ uint w64 (or_zero slippage)
      ∷ [],
)
declared (perp_set_profit_and_loss_point subaccount market_id take_profit_point stop_loss_point) =
    returned (
      codes "setProfitAndLossPoint",
      address (normalize_address subaccount)
          ∷ uint w16 market_id
          ∷ uint w128 (or_zero take_profit_point)
          ∷ uint w128 (or_zero stop_loss_point)
          ∷ [],
    )
declared (spot_place_order_sell_b subaccount pair quote_amount base_amount post_only reduce_only) =
    normalize_bytes32 pair >>= λ pair_bytes. returned (
      codes "subaccountPlaceOrderSellB",
      address (normalize_address subaccount)
          ∷ bytes32 pair_bytes
          ∷ uint w256 quote_amount
          ∷ uint w256 base_amount
          ∷ uint w8 post_only
          ∷ bool reduce_only
          ∷ [],
    )
declared (spot_place_order_buy_b subaccount pair quote_amount base_amount post_only reduce_only) =
    normalize_bytes32 pair >>= λ pair_bytes. returned (
      codes "subaccountPlaceOrderBuyB",
      address (normalize_address subaccount)
          ∷ bytes32 pair_bytes
          ∷ uint w256 quote_amount
          ∷ uint w256 base_amount
          ∷ uint w8 post_only
          ∷ bool reduce_only
          ∷ [],
    )
declared
      (spot_place_market_order_sell_b_without_price subaccount pair quote_amount base_amount
        auto_cancel reduce_only) =
    normalize_bytes32 pair >>= λ pair_bytes. returned (
      codes "subaccountPlaceMarketOrderSellBWithoutPrice",
      address (normalize_address subaccount)
          ∷ bytes32 pair_bytes
          ∷ uint w256 quote_amount
          ∷ uint w256 base_amount
          ∷ bool auto_cancel
          ∷ bool reduce_only
          ∷ [],
    )
declared
      (spot_place_market_order_sell_b_with_price subaccount pair quote_amount base_amount slippage
        auto_cancel reduce_only) =
    normalize_bytes32 pair >>= λ pair_bytes. returned (
      codes "subaccountPlaceMarketOrderSellBWithPrice",
      address (normalize_address subaccount)
          ∷ bytes32 pair_bytes
          ∷ uint w256 quote_amount
          ∷ uint w256 base_amount
          ∷ uint w8 slippage
          ∷ bool auto_cancel
          ∷ bool reduce_only
          ∷ [],
    )
declared
      (spot_place_market_order_buy_b_without_price subaccount pair quote_amount base_amount
        auto_cancel reduce_only) =
    normalize_bytes32 pair >>= λ pair_bytes. returned (
      codes "subaccountPlaceMarketOrderBuyBWithoutPrice",
      address (normalize_address subaccount)
          ∷ bytes32 pair_bytes
          ∷ uint w256 quote_amount
          ∷ uint w256 base_amount
          ∷ bool auto_cancel
          ∷ bool reduce_only
          ∷ [],
    )
declared
      (spot_place_market_order_buy_b_with_price subaccount pair quote_amount base_amount slippage
        auto_cancel reduce_only) =
    normalize_bytes32 pair >>= λ pair_bytes. returned (
      codes "subaccountPlaceMarketOrderBuyBWithPrice",
      address (normalize_address subaccount)
          ∷ bytes32 pair_bytes
          ∷ uint w256 quote_amount
          ∷ uint w256 base_amount
          ∷ uint w8 slippage
          ∷ bool auto_cancel
          ∷ bool reduce_only
          ∷ [],
    )
declared (spot_cancel_order_sell_b subaccount pair order_id) =
    normalize_bytes32 pair >>= λ pair_bytes. returned (
      codes "subaccountCancelOrderSellB",
      address (normalize_address subaccount) ∷ bytes32 pair_bytes ∷ uint w256 order_id ∷ [],
    )
declared (spot_cancel_order_buy_b subaccount pair order_id) =
    normalize_bytes32 pair >>= λ pair_bytes. returned (
      codes "subaccountCancelOrderBuyB",
      address (normalize_address subaccount) ∷ bytes32 pair_bytes ∷ uint w256 order_id ∷ [],
    )
