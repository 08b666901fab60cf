-- ===== src/Registry/Subaccount.antt =====
-- src/deepx_sdk/_error_codes.py: the rows of _CHAIN_ENTRIES for the pallet Subaccount.
use deepx_python_sdk.Prelude.{List, [], ◌∷◌}
use deepx_python_sdk.Registry.Entry.{ChainErrorCode, entry}

abbrev pub subaccount_entries : List ChainErrorCode
subaccount_entries =
    entry "19_0" "SubaccountNotInit" "Subaccount" "Subaccount not initialized."
    ∷ entry "19_1" "InvalidDelegateAccount" "Subaccount"
        "Delegate account is invalid or not authorized for this subaccount."
    ∷ entry "19_2" "ExceedMaxDelegateNum" "Subaccount"
        "Subaccount has reached the maximum number of delegate accounts."
    ∷ entry "19_3" "OCTAccountNotInit" "Subaccount"
        "OCT (One Click Trading) account not initialized."
    ∷ entry "19_4" "OCTAccountExist" "Subaccount" "OCT account already exists."
    ∷ entry "19_5" "MaxOCTAccounts" "Subaccount"
        "User has reached the maximum number of OCT accounts."
    ∷ entry "19_6" "InvalidSubaccountOwner" "Subaccount"
        "Caller is not the owner or an authorized delegate of this subaccount."
    ∷ entry "19_7" "ChangeSpotMarginTradeFailedForOpenOrders" "Subaccount"
        "Cannot switch spot margin trading mode while open spot orders exist."
    ∷ entry "19_8" "DeleteSubaccountCheckFailed" "Subaccount"
        "Cannot delete subaccount: open positions, orders, or non-zero balances remain."
    ∷ entry "19_9" "DuplicateSubaccountName" "Subaccount"
        "Subaccount name is already in use by this account."
    ∷ entry "19_10" "InvalidAccountId" "Subaccount" "Invalid account ID."
    ∷ entry "19_13" "InvalidSubaccountStatus" "Subaccount"
        "Subaccount status does not allow this operation (e.g. frozen, liquidating, or closed)."
    ∷ entry "19_14" "GetMarginCalculationFailed" "Subaccount" "Failed to compute account margin."
    ∷ entry "19_15" "MeetMMReq" "Subaccount"
        "Account still meets maintenance margin requirements and is not eligible for liquidation or bankruptcy."
    ∷ entry "19_16" "MarginShortageMathError" "Subaccount" "Margin shortage computation failed."
    ∷ entry "19_17" "MarginFreedMathError" "Subaccount" "Releasable margin computation failed."
    ∷ entry "19_18" "EmptyLiquidityBucket" "Subaccount"
        "No liquidity bucket found during liquidation."
    ∷ entry "19_19" "InvalidEvmCallType" "Subaccount"
        "Batch operation contains an unsupported EVM call type."
    ∷ entry "19_20" "TokenTransferFailed" "Subaccount"
        "ERC20 token transfer within the subaccount failed."
    ∷ entry "19_21" "SwapFailed" "Subaccount" "Token swap within the subaccount failed."
    ∷ entry "19_22" "ADLNotReady" "Subaccount" "Auto-deleveraging (ADL) conditions are not yet met."
    ∷ entry "19_25" "BankruptNotReady" "Subaccount" "Bankruptcy conditions are not yet met."
    ∷ entry "19_26" "InvalidIfManager" "Subaccount" "Invalid Insurance Fund manager address."
    ∷ entry "19_27" "InvalidIfAddress" "Subaccount" "Invalid Insurance Fund address."
    ∷ entry "19_28" "InvalidBankrupt" "Subaccount" "Invalid bankruptcy request."
    ∷ entry "19_29" "OpenOrdersExist" "Subaccount" "Subaccount has open orders."
    ∷ entry "19_30" "InvalidMaxSpotAssetTypes" "Subaccount"
        "Configured maximum spot asset type limit is invalid."
    ∷ entry "19_31" "InvalidMaxPerpPositions" "Subaccount"
        "Configured maximum perpetual positions limit is invalid."
    ∷ entry "19_32" "BatchOpsExceedLimit" "Subaccount"
        "modify_orders requires exactly 2 operations (cancel + place)."
    ∷ entry "19_33" "InvalidModifyOps" "Subaccount"
        "modify_orders expects [cancel, place] for the same subaccount."
    ∷ entry "19_34" "DelegateExpiry" "Subaccount" "Delegate valid_until is in the past."
    ∷ entry "19_35" "ExceedMaxSubaccountNum" "Subaccount"
        "Wallet already has the maximum number of subaccounts."
    ∷ entry "19_36" "ExceedMaxDelegatorNum" "Subaccount"
        "Delegate account already bound to the maximum number of wallets."
    ∷ entry "19_37" "DelegateAccountNotInit" "Subaccount"
        "Delegate account does not exist for this wallet."
    ∷ entry "19_38" "InvalidNextOrderId" "Subaccount"
        "restore_subaccount_info requires next_order_id >= 1."
    ∷ entry "19_39" "SubaccountAlreadyInit" "Subaccount"
        "restore_subaccount_info target subaccount already exists."
    ∷ entry "19_40" "InvalidDelegateMode" "Subaccount"
        "Delegate mode is disabled on-chain (only PlaceOrCancelOrder/Disable are usable)."
    ∷ []
