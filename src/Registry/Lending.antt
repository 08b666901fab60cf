-- ===== src/Registry/Lending.antt =====
-- src/deepx_sdk/_error_codes.py: the rows of _CHAIN_ENTRIES for the pallet Lending.
use deepx_python_sdk.Prelude.{List, [], ◌∷◌}
use deepx_python_sdk.Registry.Entry.{ChainErrorCode, entry}

abbrev pub lending_entries : List ChainErrorCode
lending_entries =
    entry "24_0" "MarketAlreadyExists" "Lending" "Lending market already exists."
    ∷ entry "24_1" "AssetPoolAlreadyExists" "Lending"
        "Asset pool already exists in this lending market."
    ∷ entry "24_2" "NoPosition" "Lending" "User has no position in this lending market."
    ∷ entry "24_3" "InvalidAccountId" "Lending" "Invalid account ID."
    ∷ entry "24_4" "InvalidAsset" "Lending" "Asset is not supported by the lending market."
    ∷ entry "24_5" "InvalidAssetPool" "Lending" "Asset pool does not exist."
    ∷ entry "24_6" "NoDeposit" "Lending" "User has no deposit record."
    ∷ entry "24_8" "InsufficientBalance" "Lending"
        "Account balance is insufficient to deposit, borrow, or repay."
    ∷ entry "24_10" "InterestError" "Lending" "Interest calculation failed."
    ∷ entry "24_11" "InsufficientLiquidity" "Lending"
        "Asset pool liquidity is insufficient for borrowing or withdrawal."
    ∷ entry "24_12" "HealthFactorTooLow" "Lending"
        "Health factor would fall below the safe threshold after this operation."
    ∷ entry "24_13" "NoBorrow" "Lending" "User has no borrow record."
    ∷ entry "24_15" "NothingToRepay" "Lending" "No borrow amount to repay."
    ∷ entry "24_16" "WithdrawTooMuch" "Lending"
        "Withdrawal amount exceeds the withdrawable deposit."
    ∷ entry "24_18" "DepositAlreadyExists" "Lending" "Deposit record for this asset already exists."
    ∷ entry "24_20" "TooMuchBorrow" "Lending"
        "Borrow amount exceeds pool limit or borrowable capacity."
    ∷ entry "24_21" "CorruptedSnapshot" "Lending" "Deposit/borrow snapshot data is corrupted."
    ∷ entry "24_22" "BorrowAlreadyExists" "Lending" "Borrow record for this asset already exists."
    ∷ entry "24_23" "InsufficientDeposit" "Lending" "Deposit amount is insufficient."
    ∷ entry "24_24" "SubaccountNotInit" "Lending" "Subaccount not initialized."
    ∷ entry "24_25" "FetchPriceFailed" "Lending" "Failed to fetch asset oracle price."
    ∷ entry "24_26" "InsufficientHealth" "Lending"
        "Account health is insufficient to complete this operation."
    ∷ entry "24_28" "InsufficientTokenToWithdraw" "Lending"
        "Insufficient withdrawable token amount."
    ∷ entry "24_30" "InsufficientWithdraw" "Lending" "Insufficient withdrawable balance."
    ∷ entry "24_31" "UnexpectErrorAtBorrow" "Lending" "Unexpected internal error during borrow."
    ∷ entry "24_32" "UnexpectErrorAtWithdraw" "Lending"
        "Unexpected internal error during withdrawal."
    ∷ entry "24_33" "InvalidLiabilityTransferAmountForLiquidator" "Lending"
        "Invalid liability transfer amount for the liquidator."
    ∷ entry "24_34" "UserLiabilityAssetNotFound" "Lending"
        "Liquidated user has no corresponding liability asset."
    ∷ entry "24_35" "UserDepositAssetNotFound" "Lending"
        "Liquidated user has no corresponding deposit or collateral asset."
    ∷ entry "24_36" "LiquidatorDepositAssetNotFound" "Lending"
        "Liquidator has no deposit record to receive transferred assets."
    ∷ entry "24_37" "GetMarginCalculationFailed" "Lending" "Failed to compute account margin."
    ∷ entry "24_38" "MeetMMReq" "Lending"
        "Account still meets maintenance margin requirements and is not eligible for liquidation."
    ∷ entry "24_39" "MarginShortageMathError" "Lending" "Margin shortage computation failed."
    ∷ entry "24_40" "MarginFreedMathError" "Lending" "Releasable margin computation failed."
    ∷ entry "24_42" "CalculateLiabilityTransferAmountCoverShortageFailed" "Lending"
        "Failed to compute liability transfer amount to cover margin shortage."
    ∷ entry "24_43" "CalculateLiabilityTransferAmountBaseOnAssetAmountFailed" "Lending"
        "Failed to compute liability transfer amount from asset amount."
    ∷ entry "24_44" "CalculateAssetTransferAmountBaseOnLiabilityTransferValueFailed" "Lending"
        "Failed to compute asset transfer amount from liability transfer value."
    ∷ entry "24_45" "InvalidLiabilityTransferAmount" "Lending"
        "Invalid liability transfer amount (zero or out of range)."
    ∷ entry "24_46" "InvalidAssetTransferAmount" "Lending"
        "Invalid asset transfer amount (zero or out of range)."
    ∷ entry "24_47" "InsufficientAssetAmountForLiquidator" "Lending"
        "Liquidator asset amount is insufficient to complete liquidation."
    ∷ entry "24_48" "LiquidatorInsufficientCollateral" "Lending"
        "Liquidator collateral is insufficient."
    ∷ entry "24_49" "GetLiabilityAssetsReturnNone" "Lending" "User liability asset list is empty."
    ∷ entry "24_50" "CheckLimitPriceFailed" "Lending" "Liquidation limit price check failed."
    ∷ entry "24_51" "ExceedSupplyCap" "Lending" "Deposit would exceed the asset pool supply cap."
    ∷ entry "24_52" "ExceedBorrowCap" "Lending" "Borrow would exceed the asset pool borrow cap."
    ∷ entry "24_53" "InsufficientProtocolReserve" "Lending"
        "Protocol reserve is insufficient to complete the operation."
    ∷ entry "24_54" "ExceedMaxSpotAssetTypes" "Lending"
        "Subaccount has reached the maximum number of spot asset types."
    ∷ entry "24_55" "NoNonQuoteSpotDeposit" "Lending"
        "User has no non-quote spot deposit to use as collateral."
    ∷ entry "24_56" "NoSpotMarketForAsset" "Lending" "No spot market exists for this asset."
    ∷ entry "24_57" "InvalidQuotePaymentForIfTakeover" "Lending"
        "Invalid quote asset payment amount for Insurance Fund takeover."
    ∷ []
