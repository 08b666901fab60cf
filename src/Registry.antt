-- ===== src/Registry.antt =====
-- src/deepx_sdk/_error_codes.py and _errors.py: the registry of chain errors, and the ChainError
-- that is built from a code. The rows of the table are in the modules named for their pallets.
pub mod Entry
pub mod Subaccount
pub mod SpotMarket
pub mod Oracle
pub mod PerpMarket
pub mod InsuranceVault
pub mod Lending
pub mod PerpDeployer
pub mod Laws
use deepx_python_sdk.Prelude.{
  ℕ, zero, suc, ◌+◌, ◌*◌, ◌-◌, ◌/◌, ◌%◌, String, Bool, true, false, ◌&&◌, Option, none, some, List,
  [], ◌∷◌, ◌++◌, if◌then◌else◌, leb, ◌==◌, str_eq, Dict, get, put, string_eq,
}
use Prim.Native.Char.{Char, code as code_point}
use Entry.{ChainErrorCode}
use Subaccount.{subaccount_entries}
use SpotMarket.{spot_market_entries}
use Oracle.{oracle_entries}
use PerpMarket.{perp_market_entries}
use InsuranceVault.{insurance_vault_entries}
use Lending.{lending_entries}
use PerpDeployer.{perp_deployer_entries}

-- _CHAIN_ENTRIES
abbrev pub chain_entries : List ChainErrorCode
chain_entries =
    subaccount_entries
    ++ (spot_market_entries
        ++ (oracle_entries
            ++ (perp_market_entries
                ++ (insurance_vault_entries ++ (lending_entries ++ (perp_deployer_entries))))))

-- the loop of _build_chain_registry
unfoldable pub build : List ChainErrorCode → Dict String ChainErrorCode → Dict String ChainErrorCode
build [] registry = registry
build (e ∷ es) registry = build es (put e.code e registry)

-- lookup_chain_error: CHAIN_ERROR_CODES.get(code)
unfoldable pub lookup_chain_error : String → Option ChainErrorCode
unfolding build get put
lookup_chain_error code = get code (build chain_entries [])

-- PALLET_NAMES
unfoldable pub pallet_name : ℕ → Option String
pallet_name index =
    if index == 19
    then some "Subaccount"
    else if index == 20
    then some "SpotMarket"
    else if index == 21
    then some "Oracle"
    else if index == 22
    then some "PerpMarket"
    else if index == 23
    then some "InsuranceVault"
    else if index == 24
    then some "Lending"
    else if index == 26
    then some "PerpDeployer"
    else none

-- int() of a run of ASCII digits that ends at "_", as `int(code.split("_", 1)[0])` reads it; any
-- other text is `none`
unfoldable pub read_index : String → ℕ → Option ℕ
read_index String.[] n = none
read_index (String.◌∷◌ c s) n =
    let digit : ℕ = code_point c in
    let further = read_index s (n * 10 + (digit - 48)) in
    if digit == 95 then some n else if leb 48 digit && leb digit 57 then further else none

-- ChainErrorCode.pallet_index
unfoldable pub pallet_index : ChainErrorCode → Option ℕ
unfolding read_index
pallet_index e = read_index e.code 0

pub record ChainError : Type 0 where
  pub code : String
  pub name : String
  pub pallet : String
  pub message : String

-- the ChainError for a code and what the registry has for it
abbrev pub from_hit : String → String → Option ChainErrorCode → ChainError
from_hit code message none = record { code = code; name = ""; pallet = ""; message = message }
from_hit code message (some e) = record {
  code = code;
  name = e.name;
  pallet = e.pallet;
  message = message;
}

-- parse_chain_error_code of a string, its last branch
unfoldable pub parse_chain_error_text : String → String → ChainError
parse_chain_error_text code message = from_hit code message (lookup_chain_error code)
