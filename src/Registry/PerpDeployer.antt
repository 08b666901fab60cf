-- ===== src/Registry/PerpDeployer.antt =====
-- src/deepx_sdk/_error_codes.py: the rows of _CHAIN_ENTRIES for the pallet PerpDeployer.
use deepx_python_sdk.Prelude.{List, [], ◌∷◌}
use deepx_python_sdk.Registry.Entry.{ChainErrorCode, entry}

abbrev pub perp_deployer_entries : List ChainErrorCode
perp_deployer_entries =
    entry "26_0" "AlreadyDeployer" "PerpDeployer"
      "This account is already registered as a deployer."
    ∷ entry "26_1" "NotDeployer" "PerpDeployer" "This account is not a registered deployer."
    ∷ entry "26_2" "InsufficientStake" "PerpDeployer"
        "Stake amount is below the minimum required to become a deployer."
    ∷ entry "26_3" "HasActiveMarkets" "PerpDeployer"
        "Deployer still has active markets attached; cannot request unstake."
    ∷ entry "26_4" "UnstakeNotMatured" "PerpDeployer"
        "Unstake lock period has not ended; cannot finalize."
    ∷ entry "26_5" "TooManyMarkets" "PerpDeployer"
        "Deployer has reached the maximum number of deployable markets."
    ∷ entry "26_6" "MarketAlreadyAttached" "PerpDeployer"
        "Market is already attached to another deployer."
    ∷ entry "26_7" "InvalidAccountId" "PerpDeployer" "Invalid account ID."
    ∷ entry "26_8" "StakeAssetInfoNotInit" "PerpDeployer"
        "Stake asset configuration not initialized."
    ∷ []
