-- ===== src/Registry/InsuranceVault.antt =====
-- src/deepx_sdk/_error_codes.py: the rows of _CHAIN_ENTRIES for the pallet InsuranceVault.
use deepx_python_sdk.Prelude.{List, [], ◌∷◌}
use deepx_python_sdk.Registry.Entry.{ChainErrorCode, entry}

abbrev pub insurance_vault_entries : List ChainErrorCode
insurance_vault_entries =
    entry "23_0" "ZeroAmount" "InsuranceVault" "Stake/unstake amount is zero."
    ∷ entry "23_2" "NoStake" "InsuranceVault" "User has no stake record in this market."
    ∷ entry "23_3" "UnstakeExceedsStake" "InsuranceVault"
        "Unstake amount exceeds the staked amount."
    ∷ entry "23_4" "CooldownNotPassed" "InsuranceVault" "Stake cooldown period has not ended."
    ∷ entry "23_5" "NoReward" "InsuranceVault" "No claimable rewards."
    ∷ entry "23_6" "NoPoolStake" "InsuranceVault" "The reward pool has no staked funds."
    ∷ entry "23_7" "NoClearingAccount" "InsuranceVault" "No clearing account has been configured."
    ∷ entry "23_8" "NotClearingAccount" "InsuranceVault"
        "Caller is not an authorized clearing account."
    ∷ entry "23_9" "CheckedMulIntFailed" "InsuranceVault" "Reward share computation overflow."
    ∷ entry "23_10" "InvalidMarket" "InsuranceVault" "Market ID is not in the insurance vault."
    ∷ entry "23_11" "VaultSubaccountNotInit" "InsuranceVault"
        "Insurance vault subaccount not initialized."
    ∷ []
