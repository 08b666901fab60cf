-- ===== src/Witnesses/Encoding.antt =====
-- src/deepx_sdk/_abi.py and units.py on concrete arguments. The hash and the encoder of the runs
-- take the first bytes of a text and count the arguments.
use deepx_python_sdk.Prelude.{
  ℕ, ◌≡◌, ◌↔◌, ◌<◌, ◌^◌, refl, Bool, true, false, some, none, List, [], ◌∷◌, ◌++◌, returned, raised,
  Outcome, Text, Bytes, codes, to_hex, length, pos, negsuc, ℤ, arith,
}
use deepx_python_sdk.Abi.{AbiError, Value, ◌>>=◌, normalize_bytes32}
use deepx_python_sdk.Abi.Requests.{perp_cancel_order, declared}
use deepx_python_sdk.Abi.CallData.{encode, call_data, encode_lem}
use deepx_python_sdk.Abi.Spot.{encode_spot_place_order}
use deepx_python_sdk.Abi.Pairs.{selected, encode_spot_place_order_lem, normalize_bytes32-to_hex}
use deepx_python_sdk.Units.{Decimal, finite, to_base_unit, from_base_unit, too_precise}
use deepx_python_sdk.Units as Units
use deepx_python_sdk.Units.Exact.{IsAmount, to_base_unit_exact, to_base_unit-from_base_unit}

abbrev keccak : Text → Bytes
keccak t = t

abbrev abi_encode : List Text → List Value → Outcome AbiError Bytes
abi_encode types args = returned (length types ∷ length args ∷ [])

encode_lem_example :
    encode keccak abi_encode (perp_cancel_order (codes "0xab") (pos 3) (pos 77)) ≡ (
      declared (perp_cancel_order (codes "0xab") (pos 3) (pos 77)) >>= λ f.
      call_data keccak abi_encode f.0 f.1)
encode_lem_example =
    encode_lem keccak abi_encode (perp_cancel_order (codes "0xab") (pos 3) (pos 77))

abbrev pair_bytes : Bytes
pair_bytes =
    1 ∷ 2 ∷ 3 ∷ 4 ∷ 5 ∷ 6 ∷ 7 ∷ 8 ∷ 9 ∷ 10 ∷ 11 ∷ 12 ∷ 13 ∷ 14 ∷ 15 ∷ 16 ∷ 17 ∷ 18 ∷ 19 ∷ 20 ∷ 21
    ∷ 22 ∷ 23 ∷ 24 ∷ 25 ∷ 26 ∷ 27 ∷ 28 ∷ 29 ∷ 30 ∷ 31 ∷ 255 ∷ []

normalize_bytes32-to_hex_example :
    (normalize_bytes32 (codes "0x" ++ to_hex pair_bytes) ≡ returned pair_bytes)
    × (normalize_bytes32 (to_hex pair_bytes) ≡ returned pair_bytes)
normalize_bytes32-to_hex_example = normalize_bytes32-to_hex pair_bytes refl (omega arith)

encode_spot_place_order_lem_example :
    encode_spot_place_order keccak abi_encode
      (codes "ab")
      (to_hex pair_bytes)
      true
      (pos 5)
      (pos 6)
      (pos 1)
      (pos 0)
      false
      (some (pos 9))
      true
    ≡ selected keccak abi_encode
        (codes "ab")
        (to_hex pair_bytes)
        true
        (pos 5)
        (pos 6)
        (pos 1)
        (pos 0)
        false
        (some (pos 9))
        true
encode_spot_place_order_lem_example =
    encode_spot_place_order_lem keccak abi_encode (codes "ab") (to_hex pair_bytes) true (pos 5)
      (pos 6) (pos 1) (pos 0) false (some (pos 9)) true

-- 1.25 in units of six decimals
abbrev amount : Decimal
amount = record { negative = false; coefficient = 125; exponent = negsuc 1 }

to_base_unit_exact_example :
    (to_base_unit (finite amount) (pos 6) ≡ returned (pos 1250000))
    ↔ IsAmount amount 6 (pos 1250000)
to_base_unit_exact_example = to_base_unit_exact amount 6 (pos 1250000)

converted : to_base_unit (finite amount) (pos 6) ≡ returned (pos 1250000)
unfolding to_base_unit
converted = refl

refused : to_base_unit (finite amount) (pos 1) ≡ raised too_precise
unfolding to_base_unit
refused = refl

to_base_unit-from_base_unit_example :
    (Units.◌>>=◌ (from_base_unit (negsuc 1200) (pos 3)) λ d. to_base_unit (finite d) (pos 3))
    ≡ returned (negsuc 1200)
to_base_unit-from_base_unit_example = to_base_unit-from_base_unit (negsuc 1200) 3

abbrev thirty_bytes : Bytes
thirty_bytes =
    2 ∷ 3 ∷ 4 ∷ 5 ∷ 6 ∷ 7 ∷ 8 ∷ 9 ∷ 10 ∷ 11 ∷ 12 ∷ 13 ∷ 14 ∷ 15 ∷ 16 ∷ 17 ∷ 18 ∷ 19 ∷ 20 ∷ 21 ∷ 22
    ∷ 23 ∷ 24 ∷ 25 ∷ 26 ∷ 27 ∷ 28 ∷ 29 ∷ 30 ∷ 31 ∷ []

-- 64 characters, two of them spaces, are accepted and give 31 bytes.
short_pair : normalize_bytes32 (codes "01  " ++ to_hex thirty_bytes) ≡ returned (1 ∷ thirty_bytes)
unfolding normalize_bytes32 deepx_python_sdk.Prelude.starts_with deepx_python_sdk.Prelude.strip
    deepx_python_sdk.Prelude.from_hex to_hex
short_pair = refl
