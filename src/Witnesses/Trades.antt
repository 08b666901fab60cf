-- ===== src/Witnesses/Trades.antt =====
-- src/deepx_sdk/_perp_market.py and _spot_market.py on concrete orders, over a chain that accepts
-- every call with the order id 9.
use deepx_python_sdk.Prelude.{
  ℕ, ◌≡◌, ◌<◌, ◌-◌, ◌^◌, ◌⊎◌, refl, true, false, none, some, returned, raised, Outcome, codes, [],
  All, pos, arith,
}
use deepx_python_sdk.Trading.Json.{arr, int, obj, field, end}
use deepx_python_sdk.Trading.Values.{parse_int_value}
use deepx_python_sdk.Trading.Limbs.{limb_items, u256_limbs, parse_int_value-u256_limbs}
use deepx_python_sdk.Trading.Orders.{
  TradeError, below_filled, invalid_slippage, Submission, Receipt, refuse,
}
use deepx_python_sdk.Trading.Perp.{PerpOrder, modify_perp_order}
use deepx_python_sdk.Trading.Spot.{SpotOrder, subaccount_place_market_order_with_price}
use deepx_python_sdk.Trading.Modify.{CancelsOnly, Replaces, modify_to_total}
use deepx_python_sdk.Trading.Slippage.{SentWithin, submitted_by, places_with, slippage_bound}

abbrev accept : Submission → Outcome TradeError Receipt
accept s = returned (record { tx_hash = "0x1"; fields = obj (field "order_id" (int (pos 9)) end) })

abbrev long : PerpOrder
long = record {
  subaccount = codes "0xab";
  market_id = pos 3;
  is_long = true;
  price = pos 100;
  order_type = pos 0;
  slippage = none;
  take_profit = none;
  stop_loss = none;
  reduce_only = false;
  post_only = pos 0;
}

modify_to_total_example :
    let run =
      modify_perp_order accept (returned (pos 4)) long none (some (pos 10)) (pos 77) false in
    ((10 < 4) × (run ≡ record { outcome = raised below_filled; submitted = [] }))
    ⊎ ((◌≡◌ {A = ℕ} 10 4) × CancelsOnly long (pos 77) false run)
    ⊎ ((4 < 10) × Replaces long (pos (10 - 4)) (pos 77) false run)
modify_to_total_example = modify_to_total accept long 10 4 (pos 77) false

-- a run that goes through
modified :
    (modify_perp_order accept (returned (pos 4)) long none (some (pos 10)) (pos 77) false).outcome
    ≡ returned (record { order_id = pos 9; canceled_order_id = pos 77 })
unfolding modify_perp_order deepx_python_sdk.Trading.Orders.parse_int_field parse_int_value
modified = refl

abbrev buy : SpotOrder
buy = record {
  subaccount = codes "0xab";
  pair = codes "0102030405060708090a0b0c0d0e0f101112131415161718191a1b1c1d1e1f20";
  is_buy = true;
  quote_amount = pos 5;
  base_amount = pos 6;
  reduce_only = false;
}

slippage_bound_example : All SentWithin (submitted_by accept (places_with buy (pos 10000)))
slippage_bound_example = slippage_bound accept (places_with buy (pos 10000))

too_much :
    (subaccount_place_market_order_with_price accept buy (pos 10001)).outcome
    ≡ raised invalid_slippage
unfolding subaccount_place_market_order_with_price
too_much = refl

parse_int_value-u256_limbs_example :
    parse_int_value (arr (limb_items (u256_limbs (2 ^ 200)))) ≡ some (pos (2 ^ 200))
parse_int_value-u256_limbs_example = parse_int_value-u256_limbs (2 ^ 200) (omega arith)
