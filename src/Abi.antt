-- ===== src/Abi.antt =====
-- src/deepx_sdk/_abi.py: the calls of the precompiled contracts. keccak and abi_encode are those of
-- eth_utils and eth_abi.
pub mod Requests
pub mod CallData
pub mod Contracts
pub mod Pairs
pub mod Spot
use deepx_python_sdk.Prelude.{
  ℕ, zero, suc, ◌≡◌, Bool, true, false, Option, none, some, List, [], ◌∷◌, ◌++◌, Outcome, returned,
  raised, if◌then◌else◌, ◌==◌, take, drop, length, Text, Bytes, codes, strip, starts_with, from_hex,
  ℤ, pos, negsuc,
}

-- `refused` is an error of eth_abi
pub data AbiError : Type 0 where
  bad_pair bad_hex bad_order_type refused : AbiError

-- what stands in the list `args`
pub data Value : Type 0 where
  text : Text → Value
  number : ℤ → Value
  flag : Bool → Value
  raw : Bytes → Value

infixl 5 ◌>>=◌
abbrev pub ◌>>=◌ :
    {A B : Type 0} → Outcome AbiError A → (A → Outcome AbiError B) → Outcome AbiError B
returned a >>= f = f a
raised e >>= f = raised e

-- x or 0
unfoldable pub or_zero : Option ℤ → ℤ
or_zero none = pos 0
or_zero (some n) = n

unfoldable pub is_int : ℕ → ℤ → Bool
is_int k (pos n) = n == k
is_int k (negsuc n) = false

unfoldable pub normalize_address : Text → Text
normalize_address addr =
    let stripped = strip addr in
    if starts_with (codes "0x") stripped then stripped else codes "0x" ++ stripped

unfoldable pub hex_or_raise : Option Bytes → Outcome AbiError Bytes
hex_or_raise none = raised bad_hex
hex_or_raise (some bs) = returned bs

unfoldable pub bytes32_of : Text → Outcome AbiError Bytes
unfolding hex_or_raise
bytes32_of s = if length s == 64 then hex_or_raise (from_hex s) else raised bad_pair

unfoldable pub normalize_bytes32 : Text → Outcome AbiError Bytes
unfolding bytes32_of
normalize_bytes32 value =
    let stripped = strip value in
    bytes32_of (if starts_with (codes "0x") stripped then drop 2 stripped else stripped)

module _ (keccak : Text → Bytes)
    (abi_encode : List Text → List Value → Outcome AbiError Bytes) where
  unfoldable pub encode_call : Text → List Text → List Value → Outcome AbiError Bytes
  encode_call signature types args = do
    let selector = take 4 (keccak signature)
    encoded ← abi_encode types args
    returned (selector ++ encoded)
