-- ===== src/Registry/Entry.antt =====
-- src/deepx_sdk/_error_codes.py: one entry of the registry of chain errors.
use deepx_python_sdk.Prelude.{String}

pub record ChainErrorCode : Type 0 where
  pub code : String
  pub name : String
  pub msg : String
  pub pallet : String
  pub category : String

abbrev pub on_chain : String
on_chain = "ON_CHAIN"

-- a row of _CHAIN_ENTRIES with the category that _build_chain_registry gives it
abbrev pub entry : String → String → String → String → ChainErrorCode
entry code name pallet msg = record {
  code = code;
  name = name;
  msg = msg;
  pallet = pallet;
  category = on_chain;
}
