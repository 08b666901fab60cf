-- ===== src/Registry/Oracle.antt =====
-- src/deepx_sdk/_error_codes.py: the rows of _CHAIN_ENTRIES for the pallet Oracle.
use deepx_python_sdk.Prelude.{List, [], ◌∷◌}
use deepx_python_sdk.Registry.Entry.{ChainErrorCode, entry}

abbrev pub oracle_entries : List ChainErrorCode
oracle_entries =
    entry "21_4" "NodeNotWhitelisted" "Oracle" "Node submitting prices is not on the whitelist."
    ∷ entry "21_5" "TooManySymbols" "Oracle" "Maximum number of supported symbols has been reached."
    ∷ entry "21_6" "SymbolTooLong" "Oracle" "Symbol exceeds the maximum allowed length."
    ∷ entry "21_7" "SymbolAlreadyExists" "Oracle" "Symbol already exists."
    ∷ []
