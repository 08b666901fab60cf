-- ===== src/Abi/Pairs.antt =====
-- src/deepx_sdk/_abi.py: what normalize_bytes32 and normalize_address accept, and which function of
-- the contract an order on the spot market selects.
use deepx_python_sdk.Prelude.{
  ◌≤◌, ◌≡◌, refl, inl, inr, Bool, true, false, Option, none, some, List, [], ◌∷◌, ◌++◌, Outcome,
  returned, raised, Bool-cases, if◌then◌else◌, arith, length, All, drop, Text, Bytes, codes, strip,
  starts_with, from_hex, to_hex, to_digit, ℤ, IsByte, from_hex-to_hex, length-to_hex, to_hex-IsDark,
  strip_dark, is_space, from_hex_bounds, ◌==◌,
}
use deepx_python_sdk.Abi.{
  AbiError, bad_order_type, Value, ◌>>=◌, normalize_bytes32, bytes32_of, hex_or_raise, is_int,
}
use deepx_python_sdk.Abi.Contracts.{
  encode_spot_place_order_sell_b, encode_spot_place_order_buy_b,
  encode_spot_place_market_order_sell_b_without_price,
  encode_spot_place_market_order_sell_b_with_price,
  encode_spot_place_market_order_buy_b_without_price,
  encode_spot_place_market_order_buy_b_with_price,
}
use deepx_python_sdk.Abi.Spot.{
  spot_limit_order, spot_market_order, encode_spot_place_order, encode_spot_cancel_order,
}
use deepx_python_sdk.Abi.Contracts.{encode_spot_cancel_order_sell_b, encode_spot_cancel_order_buy_b}

digits_of_pair : (bs : Bytes) → length bs ≡ 32 → length (to_hex bs) ≡ 64
digits_of_pair bs h = omega (arith, length-to_hex bs)

read_pair : (bs : Bytes) → length bs ≡ 32 → All IsByte bs → bytes32_of (to_hex bs) ≡ returned bs
unfolding bytes32_of
read_pair bs h k = rw (digits_of_pair bs h, from_hex-to_hex bs k, hex_or_raise) refl

no_prefix : (bs : Bytes) → All IsByte bs → starts_with (codes "0x") (to_hex bs) ≡ false
unfolding starts_with to_hex to_digit
no_prefix [] h = refl
no_prefix (b ∷ bs) h = ground arith

-- The 32 bytes of a pair are read back from their hexadecimal print, with the prefix 0x and without.
pub normalize_bytes32-to_hex :
    (bs : Bytes)
    → length bs ≡ 32
    → All IsByte bs
    → (normalize_bytes32 (codes "0x" ++ to_hex bs) ≡ returned bs)
      × (normalize_bytes32 (to_hex bs) ≡ returned bs)
unfolding normalize_bytes32 starts_with is_space
normalize_bytes32-to_hex bs h k = (
  rw (strip_dark (codes "0x" ++ to_hex bs) (refl, (refl, to_hex-IsDark bs k))) (read_pair bs h k),
  rw (strip_dark (to_hex bs) (to_hex-IsDark bs k)) (rw (no_prefix bs k) (read_pair bs h k)),
)

hex_or_raise_inv : (o : Option Bytes) (bs : Bytes) → hex_or_raise o ≡ returned bs → o ≡ some bs
unfolding hex_or_raise
hex_or_raise_inv none bs e = absurd (cc e)
hex_or_raise_inv (some b) bs e = cc

bytes32_bounds :
    (s : Text) (bs : Bytes) → bytes32_of s ≡ returned bs → (length bs ≤ 32) × All IsByte bs
unfolding bytes32_of
bytes32_bounds s bs e = elim (Bool-cases (length s == 64)) [
  | inl g ↦
      let (n, k) = from_hex_bounds s bs (hex_or_raise_inv (from_hex s) bs (rw g at e)) in
      (ground arith, k)
  | inr g ↦ absurd (cc (rw g at e))
]

-- A text is accepted as a pair only if at most 32 bytes come out of it, each below 256.
pub normalize_bytes32_bounds :
    (value : Text) (bs : Bytes)
    → normalize_bytes32 value ≡ returned bs
    → (length bs ≤ 32) × All IsByte bs
unfolding normalize_bytes32
normalize_bytes32_bounds value bs e =
    bytes32_bounds
      (if starts_with (codes "0x") (strip value) then drop 2 (strip value) else strip value) bs e

module _ (keccak : Text → Bytes)
    (abi_encode : List Text → List Value → Outcome AbiError Bytes) where
  -- the function that an order of a type asks for
  pub selected :
      (subaccount pair : Text) (is_buy : Bool) (quote_amount base_amount order_type post_only : ℤ)
      (reduce_only : Bool) (slippage : Option ℤ) (auto_cancel : Bool)
      → Outcome AbiError Bytes
  selected subaccount pair is_buy quote_amount base_amount order_type post_only reduce_only slippage
        auto_cancel =
      if is_int 0 order_type
      then limit is_buy
      else if is_int 1 order_type
      then market is_buy slippage
      else (normalize_bytes32 pair >>= λ _. raised bad_order_type)
    where
      limit : Bool → Outcome AbiError Bytes
      limit true =
          encode_spot_place_order_buy_b keccak abi_encode subaccount pair quote_amount base_amount
            post_only reduce_only
      limit false =
          encode_spot_place_order_sell_b keccak abi_encode subaccount pair quote_amount base_amount
            post_only reduce_only

      market : Bool → Option ℤ → Outcome AbiError Bytes
      market true none =
          encode_spot_place_market_order_buy_b_without_price keccak abi_encode subaccount pair
            quote_amount base_amount auto_cancel reduce_only
      market false none =
          encode_spot_place_market_order_sell_b_without_price keccak abi_encode subaccount pair
            quote_amount base_amount auto_cancel reduce_only
      market true (some s) =
          encode_spot_place_market_order_buy_b_with_price keccak abi_encode subaccount pair
            quote_amount base_amount s auto_cancel reduce_only
      market false (some s) =
          encode_spot_place_market_order_sell_b_with_price keccak abi_encode subaccount pair
            quote_amount base_amount s auto_cancel reduce_only

  -- An order on the spot market is encoded as the function that its type, its side and its slippage
  -- select: a limit order for type 0, a market order for type 1 with a price exactly when a slippage
  -- is given; any other type raises, after the pair has been read.
  pub encode_spot_place_order_lem :
      (subaccount pair : Text) (is_buy : Bool) (quote_amount base_amount order_type post_only : ℤ)
      (reduce_only : Bool) (slippage : Option ℤ) (auto_cancel : Bool)
      → encode_spot_place_order keccak abi_encode subaccount pair is_buy quote_amount base_amount
          order_type post_only reduce_only slippage auto_cancel
        ≡ selected subaccount pair is_buy quote_amount base_amount order_type post_only reduce_only
            slippage auto_cancel
  unfolding encode_spot_place_order spot_limit_order spot_market_order selected
      encode_spot_place_order_sell_b encode_spot_place_order_buy_b
      encode_spot_place_market_order_sell_b_without_price
      encode_spot_place_market_order_sell_b_with_price
      encode_spot_place_market_order_buy_b_without_price
      encode_spot_place_market_order_buy_b_with_price
  encode_spot_place_order_lem subaccount pair is_buy quote_amount base_amount order_type post_only
        reduce_only slippage auto_cancel =
      ground arith

  -- A cancellation on the spot market is encoded as the function of its side.
  pub encode_spot_cancel_order_lem :
      (subaccount pair : Text) (order_id : ℤ) (is_buy : Bool)
      → encode_spot_cancel_order keccak abi_encode subaccount pair order_id is_buy ≡ (
          if is_buy
          then encode_spot_cancel_order_buy_b keccak abi_encode subaccount pair order_id
          else encode_spot_cancel_order_sell_b keccak abi_encode subaccount pair order_id)
  unfolding encode_spot_cancel_order encode_spot_cancel_order_buy_b encode_spot_cancel_order_sell_b
  encode_spot_cancel_order_lem subaccount pair order_id true = refl
  encode_spot_cancel_order_lem subaccount pair order_id false = refl
