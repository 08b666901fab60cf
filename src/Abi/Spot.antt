-- ===== src/Abi/Spot.antt =====
-- src/deepx_sdk/_abi.py: the call of the spot contract that an order or its cancellation selects.
use deepx_python_sdk.Prelude.{
  Bool, Option, none, some, List, [], ◌∷◌, Outcome, raised, if◌then◌else◌, Text, Bytes, codes, ℤ,
}
use deepx_python_sdk.Abi.{
  AbiError, bad_order_type, Value, text, number, flag, raw, ◌>>=◌, is_int, normalize_address,
  normalize_bytes32, encode_call,
}

module _ (keccak : Text → Bytes)
    (abi_encode : List Text → List Value → Outcome AbiError Bytes) where
  unfoldable pub spot_limit_order :
      (subaccount : Text) (pair_bytes : Bytes) (is_buy : Bool)
      (quote_amount base_amount post_only : ℤ) (reduce_only : Bool)
      → Outcome AbiError Bytes
  spot_limit_order subaccount pair_bytes is_buy quote_amount base_amount post_only reduce_only =
      encode_call keccak abi_encode
        (if is_buy
          then codes "subaccountPlaceOrderBuyB(address,bytes32,uint256,uint256,uint8,bool)"
          else codes "subaccountPlaceOrderSellB(address,bytes32,uint256,uint256,uint8,bool)")
        (codes "address"
          ∷ codes "bytes32"
          ∷ codes "uint256"
          ∷ codes "uint256"
          ∷ codes "uint8"
          ∷ codes "bool"
          ∷ [])
        (text subaccount
          ∷ raw pair_bytes
          ∷ number quote_amount
          ∷ number base_amount
          ∷ number post_only
          ∷ flag reduce_only
          ∷ [])

  unfoldable pub spot_market_order :
      (subaccount : Text) (pair_bytes : Bytes) (is_buy : Bool) (quote_amount base_amount : ℤ)
      (reduce_only : Bool) (auto_cancel : Bool) (slippage : Option ℤ)
      → Outcome AbiError Bytes
  spot_market_order subaccount pair_bytes is_buy quote_amount base_amount reduce_only auto_cancel
        none =
      encode_call keccak abi_encode
        (if is_buy
          then codes
              "subaccountPlaceMarketOrderBuyBWithoutPrice(address,bytes32,uint256,uint256,bool,bool)"
          else codes
              "subaccountPlaceMarketOrderSellBWithoutPrice(address,bytes32,uint256,uint256,bool,bool)")
        (codes "address"
          ∷ codes "bytes32"
          ∷ codes "uint256"
          ∷ codes "uint256"
          ∷ codes "bool"
          ∷ codes "bool"
          ∷ [])
        (text subaccount
          ∷ raw pair_bytes
          ∷ number quote_amount
          ∷ number base_amount
          ∷ flag auto_cancel
          ∷ flag reduce_only
          ∷ [])
  spot_market_order subaccount pair_bytes is_buy quote_amount base_amount reduce_only auto_cancel
        (some slippage) =
      encode_call keccak abi_encode
        (if is_buy
          then codes
              "subaccountPlaceMarketOrderBuyBWithPrice(address,bytes32,uint256,uint256,uint8,bool,bool)"
          else codes
              "subaccountPlaceMarketOrderSellBWithPrice(address,bytes32,uint256,uint256,uint8,bool,bool)")
        (codes "address"
          ∷ codes "bytes32"
          ∷ codes "uint256"
          ∷ codes "uint256"
          ∷ codes "uint8"
          ∷ codes "bool"
          ∷ codes "bool"
          ∷ [])
        (text subaccount
          ∷ raw pair_bytes
          ∷ number quote_amount
          ∷ number base_amount
          ∷ number slippage
          ∷ flag auto_cancel
          ∷ flag reduce_only
          ∷ [])

  unfoldable pub encode_spot_place_order :
      (subaccount pair : Text) (is_buy : Bool) (quote_amount base_amount order_type post_only : ℤ)
      (reduce_only : Bool) (slippage : Option ℤ) (auto_cancel : Bool)
      → Outcome AbiError Bytes
  unfolding spot_limit_order spot_market_order is_int
  encode_spot_place_order subaccount pair is_buy quote_amount base_amount order_type post_only
        reduce_only slippage auto_cancel =
      normalize_bytes32 pair >>= λ pair_bytes.
      if is_int 0 order_type
      then spot_limit_order (normalize_address subaccount) pair_bytes is_buy quote_amount
          base_amount post_only reduce_only
      else if is_int 1 order_type
      then spot_market_order (normalize_address subaccount) pair_bytes is_buy quote_amount
          base_amount reduce_only auto_cancel slippage
      else raised bad_order_type

  unfoldable pub encode_spot_cancel_order :
      (subaccount pair : Text) (order_id : ℤ) (is_buy : Bool) → Outcome AbiError Bytes
  encode_spot_cancel_order subaccount pair order_id is_buy =
      normalize_bytes32 pair >>= λ pair_bytes.
      encode_call keccak abi_encode
        (if is_buy
          then codes "subaccountCancelOrderBuyB(address,bytes32,uint256)"
          else codes "subaccountCancelOrderSellB(address,bytes32,uint256)")
        (codes "address" ∷ codes "bytes32" ∷ codes "uint256" ∷ [])
        (text (normalize_address subaccount) ∷ raw pair_bytes ∷ number order_id ∷ [])
