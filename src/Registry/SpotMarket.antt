-- ===== src/Registry/SpotMarket.antt =====
-- src/deepx_sdk/_error_codes.py: the rows of _CHAIN_ENTRIES for the pallet SpotMarket.
use deepx_python_sdk.Prelude.{List, [], ◌∷◌}
use deepx_python_sdk.Registry.Entry.{ChainErrorCode, entry}

abbrev pub spot_market_entries : List ChainErrorCode
spot_market_entries =
    entry "20_0" "SpotMarketNotInit" "SpotMarket" "Spot market not initialized."
    ∷ entry "20_1" "SpotMarketAlreadyInit" "SpotMarket"
        "Spot market for this trading pair already exists."
    ∷ entry "20_2" "InvalidAmount" "SpotMarket"
        "Order size or transfer amount is invalid (zero or invalid precision)."
    ∷ entry "20_4" "IncorrectOrderMaker" "SpotMarket"
        "Order maker address does not match on-chain records."
    ∷ entry "20_5" "OrderAlreadyInactive" "SpotMarket"
        "Order is already inactive (filled, cancelled, or expired)."
    ∷ entry "20_6" "InvalidBuyOrderId" "SpotMarket" "Buy order ID does not exist."
    ∷ entry "20_7" "InvalidSellOrderId" "SpotMarket" "Sell order ID does not exist."
    ∷ entry "20_8" "PricesNotMatch" "SpotMarket" "Buy and sell order prices do not match."
    ∷ entry "20_9" "InvalidSlippage" "SpotMarket" "Slippage parameter is outside the allowed range."
    ∷ entry "20_10" "InvalidPrice" "SpotMarket"
        "Order price is invalid (zero, invalid tick size, or outside price limits)."
    ∷ entry "20_11" "ExceedMaxPendingOrders" "SpotMarket"
        "User has reached the maximum number of pending orders in this market."
    ∷ entry "20_12" "SubaccountNotInit" "SpotMarket" "Subaccount not initialized."
    ∷ entry "20_13" "InvalidSubaccountOwner" "SpotMarket"
        "Caller is not the subaccount owner or an authorized delegate."
    ∷ entry "20_17" "InsufficientBalance" "SpotMarket"
        "Insufficient available balance to place order or transfer funds."
    ∷ entry "20_20" "ExceedMaxActiveSpotOrders" "SpotMarket"
        "User has reached the maximum number of active spot orders."
    ∷ entry "20_23" "MinimumSpotOrderSize" "SpotMarket"
        "Order size is below the market minimum order size."
    ∷ entry "20_24" "InvalidSpotTickSize" "SpotMarket"
        "Price does not comply with the market tick size."
    ∷ entry "20_25" "InvalidSpotStepSize" "SpotMarket"
        "Quantity does not comply with the market step size."
    ∷ entry "20_26" "SpotOrderMarginExceed" "SpotMarket"
        "Required margin for the spot order exceeds available account margin."
    ∷ entry "20_27" "MarketQueueErrForPostOnlyOrder" "SpotMarket"
        "Post-Only order would immediately match a market order and was rejected."
    ∷ entry "20_28" "LimitQueueErrForPostOnlyOrder" "SpotMarket"
        "Post-Only order would immediately match a limit order and was rejected."
    ∷ entry "20_29" "ReduceOnlyCheckFailed" "SpotMarket" "Reduce-Only order validation failed."
    ∷ entry "20_30" "GetBorrowLiabilityValueFailed" "SpotMarket"
        "Failed to fetch borrow liability value."
    ∷ entry "20_32" "MathDivFailed" "SpotMarket" "Division failed (division by zero or overflow)."
    ∷ entry "20_33" "InvalidAccountStatus" "SpotMarket"
        "Account status does not allow spot trading (e.g. liquidating or frozen)."
    ∷ entry "20_34" "InvalidSpotNotional" "SpotMarket"
        "Order notional value is below the market minimum notional."
    ∷ entry "20_35" "MinPriceLimited" "SpotMarket" "Order price is below the minimum allowed price."
    ∷ entry "20_36" "MaxPriceLimited" "SpotMarket" "Order price is above the maximum allowed price."
    ∷ entry "20_37" "InvalidLimitPriceSpec" "SpotMarket"
        "Invalid limit order price (deviation from oracle or mark price is too large)."
    ∷ entry "20_38" "InvalidMaxDeviation" "SpotMarket"
        "Configured maximum price deviation is invalid."
    ∷ entry "20_39" "ExceedMaxSpotAssetTypes" "SpotMarket"
        "Subaccount has reached the maximum number of spot asset types."
    ∷ entry "20_40" "InvalidSpotOrderType" "SpotMarket" "Unsupported spot order type."
    ∷ entry "20_43" "PlaceSpotExceedClientOrderId" "SpotMarket"
        "Client order id (cloid) is outside the allowed range [2^31, 2^32-1]."
    ∷ entry "20_44" "PlaceSpotExceedSystemOrderId" "SpotMarket"
        "System order id range is exhausted for this subaccount."
    ∷ entry "20_45" "SpotDuplicateClientOrderId" "SpotMarket"
        "This client order id (cloid) was already used by the subaccount."
    ∷ entry "20_46" "InvalidSpotFeeRate" "SpotMarket" "Spot fee rate is outside the allowed range."
    ∷ []
