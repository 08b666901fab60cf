-- ===== src/Registry/PerpMarket.antt =====
-- src/deepx_sdk/_error_codes.py: the rows of _CHAIN_ENTRIES for the pallet PerpMarket.
use deepx_python_sdk.Prelude.{List, [], ◌∷◌}
use deepx_python_sdk.Registry.Entry.{ChainErrorCode, entry}

abbrev pub perp_market_entries : List ChainErrorCode
perp_market_entries =
    entry "22_0" "MarketNotFound" "PerpMarket" "Perpetual market does not exist."
    ∷ entry "22_1" "InvalidMarketId" "PerpMarket" "Market ID is invalid or not registered."
    ∷ entry "22_3" "NotAuthorized" "PerpMarket"
        "Caller is not authorized (not a market admin or deployer)."
    ∷ entry "22_4" "TooManyActiveOrders" "PerpMarket"
        "User has reached the maximum number of active orders in this market."
    ∷ entry "22_5" "ZeroOrderSize" "PerpMarket" "Order size is zero."
    ∷ entry "22_6" "InvalidLeverage" "PerpMarket"
        "Leverage is invalid or exceeds the market allowed range."
    ∷ entry "22_8" "UserAccountNotFound" "PerpMarket" "Subaccount not found."
    ∷ entry "22_9" "MaxPriceLimited" "PerpMarket"
        "Order price is above the maximum allowed (relative to mark or oracle price)."
    ∷ entry "22_10" "MinPriceLimited" "PerpMarket"
        "Order price is below the minimum allowed (relative to mark or oracle price)."
    ∷ entry "22_11" "MaxSlippageLimited" "PerpMarket"
        "Market order slippage exceeds the maximum allowed slippage."
    ∷ entry "22_13" "OrderNotFound" "PerpMarket" "Perpetual order does not exist."
    ∷ entry "22_14" "PerpPositionNotFound" "PerpMarket" "Perpetual position does not exist."
    ∷ entry "22_25" "InvalidOrderType" "PerpMarket" "Unsupported perpetual order type."
    ∷ entry "22_30" "InvalidAccountStatus" "PerpMarket"
        "Account status does not allow this operation (liquidating, frozen, or closed)."
    ∷ entry "22_31" "InvalidTakeProfit" "PerpMarket"
        "Take-profit price is invalid (incorrect direction or price)."
    ∷ entry "22_32" "InvalidStopLoss" "PerpMarket"
        "Stop-loss price is invalid (incorrect direction or price)."
    ∷ entry "22_35" "IsClosingNow" "PerpMarket"
        "Market or account is in a closing flow; new operations are not accepted."
    ∷ entry "22_36" "PausedPlaceOrder" "PerpMarket" "Order placement is paused for this market."
    ∷ entry "22_39" "MinimumPerpOrderSize" "PerpMarket"
        "Order size is below the market minimum order size."
    ∷ entry "22_40" "InvalidPerpTickSize" "PerpMarket"
        "Price does not comply with the market tick size."
    ∷ entry "22_41" "InvalidPerpStepSize" "PerpMarket"
        "Quantity does not comply with the market step size."
    ∷ entry "22_42" "InvalidReduceOnlySize" "PerpMarket"
        "Reduce-Only order size exceeds the closable position size."
    ∷ entry "22_43" "InvalidReduceOnlyDirection" "PerpMarket"
        "Reduce-Only order direction matches the existing position."
    ∷ entry "22_44" "MarketQueueErrForPostOnlyOrder" "PerpMarket"
        "Post-Only order would immediately match a market order and was rejected."
    ∷ entry "22_45" "LimitQueueErrForPostOnlyOrder" "PerpMarket"
        "Post-Only order would immediately match a limit order and was rejected."
    ∷ entry "22_46" "SubaccountNotInit" "PerpMarket" "Subaccount not initialized."
    ∷ entry "22_48" "PerpOrderMarginExceed" "PerpMarket"
        "Required margin for the perpetual order exceeds available account margin."
    ∷ entry "22_49" "MeetMMReq" "PerpMarket"
        "Account still meets maintenance margin requirements and is not eligible for liquidation."
    ∷ entry "22_50" "InvalidBaseAssetAmountForLiquidator" "PerpMarket"
        "Invalid base asset amount specified by the liquidator."
    ∷ entry "22_51" "BaseAmountForMarginShortageErr" "PerpMarket"
        "Failed to compute base asset amount from margin shortage."
    ∷ entry "22_52" "InvalidPctFreeable" "PerpMarket" "Invalid releasable margin percentage."
    ∷ entry "22_53" "LiquidatorInsufficientCollateral" "PerpMarket"
        "Liquidator collateral is insufficient to complete liquidation."
    ∷ entry "22_54" "PruneBaseAmountFailed" "PerpMarket"
        "Failed to prune or adjust base asset amount."
    ∷ entry "22_55" "CheckLiquidationLimitPriceFailed" "PerpMarket"
        "Liquidation limit price check failed."
    ∷ entry "22_56" "MarginFreedMathError" "PerpMarket" "Releasable margin computation failed."
    ∷ entry "22_57" "MarginShortageMathError" "PerpMarket" "Margin shortage computation failed."
    ∷ entry "22_58" "EmptyLiquidityBucket" "PerpMarket"
        "No liquidity bucket found during liquidation."
    ∷ entry "22_59" "InvalidOrderStatus" "PerpMarket"
        "Order status does not allow this operation (e.g. filled or cancelled)."
    ∷ entry "22_60" "InvalidDelegate" "PerpMarket"
        "Delegate is not authorized to operate on behalf of this subaccount."
    ∷ entry "22_61" "InvalidPerpNotional" "PerpMarket"
        "Order notional value is below the market minimum notional."
    ∷ entry "22_62" "InvalidClosingPrice" "PerpMarket"
        "Closing price is invalid or outside the allowed range."
    ∷ entry "22_63" "AlreadyClosing" "PerpMarket" "Position is already in a closing flow."
    ∷ entry "22_65" "InvalidBankruptPrice" "PerpMarket" "Computed bankruptcy price is invalid."
    ∷ entry "22_66" "PruneBankruptFailed" "PerpMarket"
        "Failed to prune asset amount during bankruptcy."
    ∷ entry "22_67" "EmptyAdlRanked" "PerpMarket"
        "ADL ranking list is empty; no counterparty can be selected."
    ∷ entry "22_68" "InvalidLimitPriceSpec" "PerpMarket"
        "Invalid limit order price (deviation from mark or oracle price is too large)."
    ∷ entry "22_69" "ExceedMaxPerpPositions" "PerpMarket"
        "Subaccount has reached the maximum number of perpetual positions."
    ∷ entry "22_70" "LeverageCapExceeded" "PerpMarket"
        "Leverage exceeds the allowed cap for this market or account."
    ∷ entry "22_71" "InvalidLiquidationFillAmount" "PerpMarket" "Invalid liquidation fill amount."
    ∷ entry "22_72" "IncompatibleOrderFlags" "PerpMarket"
        "Incompatible order flags (e.g. Post-Only with IOC)."
    ∷ entry "22_73" "UnsupportedTimeInForce" "PerpMarket" "Unsupported time-in-force (TIF) type."
    ∷ entry "22_74" "PlacePerpExceedSystemOrderId" "PerpMarket"
        "System order id range is exhausted for this subaccount."
    ∷ entry "22_75" "PlacePerpExceedClientOrderId" "PerpMarket"
        "Client order id (cloid) is outside the allowed range [2^31, 2^32-1]."
    ∷ entry "22_76" "PerpDuplicateClientOrderId" "PerpMarket"
        "This client order id (cloid) was already used by the subaccount."
    ∷ []
