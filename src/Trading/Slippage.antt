-- ===== src/Trading/Slippage.antt =====
-- src/deepx_sdk/_spot_market.py: the slippage of the market orders that are submitted.
use deepx_python_sdk.Prelude.{
  ◌≤◌, ◌≡◌, ap, sym, ◌∙◌, inl, inr, Bool, true, false, Option, none, some, List, Outcome, returned,
  raised, Outcome-cases, Bool-cases, ℤ, pos, negsuc, if◌then◌else◌, arith, ltb, All, if_both,
}
use mathlib.Core.Path.{subst}
use deepx_python_sdk.Abi.{is_int}
use deepx_python_sdk.Trading.Orders.{
  TradeError, invalid_order_type, OrderType, limit, market, stop, gtc, ioc, PostOnly, never,
  SpotPlaceParams, SpotCancelParams, Op, cancel_spot, place_spot, Call, one_op, modify_orders,
  close_perp, Submission, Receipt, post_only_param, spot_slippage_bps, market_with,
  spot_market_type, spot_order_type_param, pair_param, parse_order_id, send, refuse, prepared,
}
use deepx_python_sdk.Trading.Spot.{
  SpotOrder, spot_place_params, spot_cancel_params, modify_params, submit_spot_order,
  place_spot_order, subaccount_place_order, subaccount_place_order_ioc,
  subaccount_place_market_order_without_price, subaccount_place_market_order_with_price,
  submit_spot_cancel, modify_spot_order,
}
use deepx_python_sdk.Trading.Modify.{returned_inv}

-- a market order on the spot market has no slippage or one of at most 10000
abbrev pub WithinBounds : OrderType → Type 0
WithinBounds (limit t) = Unit {0}
WithinBounds stop = Unit {0}
WithinBounds (market none) = Unit {0}
WithinBounds (market (some (pos n))) = n ≤ 10000
WithinBounds (market (some (negsuc n))) = ⊥

-- a call that the spot market is sent
abbrev pub OpWithin : Op → Type 0
OpWithin (place_spot p) = WithinBounds p.order_type
OpWithin op = Unit {0}

abbrev pub CallWithin : Call → Type 0
CallWithin (one_op op) = OpWithin op
CallWithin (modify_orders ops) = All OpWithin ops
CallWithin (close_perp subaccount market_id price slippage) = Unit {0}

abbrev pub SentWithin : Submission → Type 0
SentWithin s = CallWithin s.call

-- a result of an order type is within the bounds, if it is one
abbrev TypeWithin : Outcome TradeError OrderType → Type 0
TypeWithin (returned t) = WithinBounds t
TypeWithin (raised e) = Unit {0}

slippage_within : (n : ℤ) → TypeWithin (market_with (spot_slippage_bps n))
unfolding market_with spot_slippage_bps
slippage_within (pos n) = elim (Bool-cases (ltb 10000 n)) [
  | inl e ↦ rw e tt
  | inr e ↦ rw e (ground (arith, e))
]
slippage_within (negsuc n) = tt

market_type_within : (slippage : Option ℤ) → TypeWithin (spot_market_type slippage)
unfolding spot_market_type
market_type_within none = tt
market_type_within (some n) = slippage_within n

order_type_within :
    (value : ℤ) (slippage : Option ℤ) → TypeWithin (spot_order_type_param value slippage)
unfolding spot_order_type_param spot_market_type
order_type_within value slippage =
    let others = if is_int 3 value then returned (limit ioc) else raised invalid_order_type in
    if_both TypeWithin (is_int 0 value) (returned (limit gtc))
      (if is_int 1 value then spot_market_type slippage else others) tt
      (if_both TypeWithin (is_int 1 value) (spot_market_type slippage) others
        (market_type_within slippage)
        (if_both TypeWithin (is_int 3 value) (returned (limit ioc)) (raised invalid_order_type) tt
          tt))

placed_type :
    (o : SpotOrder) (t : OrderType) (w : PostOnly) (p : SpotPlaceParams)
    → spot_place_params o t w ≡ returned p
    → p.order_type ≡ t
unfolding spot_place_params
placed_type o t w p h = elim (Outcome-cases (pair_param o.pair)) [
  | inl (pair, e) ↦ sym (ap (λ (x : SpotPlaceParams). x.order_type) (returned_inv (rw e at h)))
  | inr (err, e) ↦ absurd (cc (rw e at h))
]

modified_type :
    (o : SpotOrder) (order_id order_type : ℤ) (slippage : Option ℤ) (post_only : ℤ)
    (fast_cancel : Bool) (ps : SpotCancelParams × SpotPlaceParams)
    → modify_params o order_id order_type slippage post_only fast_cancel ≡ returned ps
    → WithinBounds ps.1.order_type
unfolding modify_params
modified_type o order_id order_type slippage post_only fast_cancel ps h =
    elim (Outcome-cases (spot_cancel_params o order_id fast_cancel)) [
      | inr (err, c) ↦ absurd (cc (rw c at h))
      | inl (cp, c) ↦ elim (Outcome-cases (spot_order_type_param order_type slippage)) [
        | inr (err, t) ↦ absurd (cc (rw (c, t) at h))
        | inl (ot, t) ↦ elim (Outcome-cases (post_only_param post_only)) [
          | inr (err, w) ↦ absurd (cc (rw (c, t, w) at h))
          | inl (pw, w) ↦ elim (Outcome-cases (spot_place_params o ot pw)) [
            | inr (err, p) ↦ absurd (cc (rw (c, t, w, p) at h))
            | inl (pp, p) ↦
                let same : pp ≡ ps.1 =
                  ap (λ (x : SpotCancelParams × SpotPlaceParams). x.1)
                    (returned_inv (rw (c, t, w, p) at h)) in
                let kind : ps.1.order_type ≡ ot =
                  sym (ap (λ (x : SpotPlaceParams). x.order_type) same)
                  ∙ placed_type o ot pw pp p in
                subst WithinBounds (sym kind) (rw t at (order_type_within order_type slippage))
          ]
        ]
      ]
    ]

-- the functions of the module that submit a call
pub data SpotRequest : Type 0 where
  places : SpotOrder → (post_only : ℤ) → SpotRequest
  places_ioc places_market : SpotOrder → SpotRequest
  places_with : SpotOrder → (slippage : ℤ) → SpotRequest
  cancels : SpotOrder → (order_id : ℤ) (fast_cancel : Bool) → SpotRequest
  modifies :
      SpotOrder
      → (order_id order_type : ℤ) (slippage : Option ℤ) (post_only : ℤ) (fast_cancel : Bool)
      → SpotRequest

module _ (submit : Submission → Outcome TradeError Receipt) where
  place_within :
      (o : SpotOrder) (t : Outcome TradeError OrderType) (w : Outcome TradeError PostOnly)
      → TypeWithin t
      → All SentWithin (place_spot_order submit o t w).submitted
  unfolding place_spot_order prepared submit_spot_order send refuse
  place_within o (raised e) w h = tt
  place_within o (returned t) (raised e) h = tt
  place_within o (returned t) (returned w) h = elim (Outcome-cases (spot_place_params o t w)) [
    | inl (p, e) ↦ rw e (subst WithinBounds (sym (placed_type o t w p e)) h, tt)
    | inr (err, e) ↦ rw e tt
  ]

  pub submitted_by : SpotRequest → List Submission
  submitted_by (places o post_only) = (subaccount_place_order submit o post_only).submitted
  submitted_by (places_ioc o) = (subaccount_place_order_ioc submit o).submitted
  submitted_by (places_market o) = (subaccount_place_market_order_without_price submit o).submitted
  submitted_by (places_with o slippage) =
      (subaccount_place_market_order_with_price submit o slippage).submitted
  submitted_by (cancels o order_id fast_cancel) =
      (submit_spot_cancel submit o order_id fast_cancel).submitted
  submitted_by (modifies o order_id order_type slippage post_only fast_cancel) =
      (modify_spot_order submit o order_id order_type slippage post_only fast_cancel).submitted

  cancel_within :
      (o : SpotOrder) (order_id : ℤ) (fast_cancel : Bool)
      → All SentWithin (submit_spot_cancel submit o order_id fast_cancel).submitted
  unfolding submit_spot_cancel prepared send refuse
  cancel_within o order_id fast_cancel =
      elim (Outcome-cases (spot_cancel_params o order_id fast_cancel)) [
        | inr (err, e) ↦ rw e tt
        | inl (c, e) ↦ rw e (cancelled c fast_cancel)
      ]
    where
      cancelled :
          (c : SpotCancelParams) (fast : Bool)
          → All SentWithin
              (if fast
                then send submit {A = ℤ}
                    (record { call = one_op (cancel_spot c); event = none })
                    (λ receipt. returned order_id)
                else send submit
                    (record { call = one_op (cancel_spot c); event = some "OrderCancelled" })
                    (λ receipt. parse_order_id receipt.fields)).submitted
      cancelled c true = (tt, tt)
      cancelled c false = (tt, tt)

  modify_within :
      (o : SpotOrder) (order_id order_type : ℤ) (slippage : Option ℤ) (post_only : ℤ)
      (fast_cancel : Bool)
      → All SentWithin
          (modify_spot_order submit o order_id order_type slippage post_only fast_cancel).submitted
  unfolding modify_spot_order prepared send refuse
  modify_within o order_id order_type slippage post_only fast_cancel =
      elim (Outcome-cases (modify_params o order_id order_type slippage post_only fast_cancel)) [
        | inr (err, e) ↦ rw e tt
        | inl (ps, e) ↦ rw e (
          (tt, (modified_type o order_id order_type slippage post_only fast_cancel ps e, tt)),
          tt,
        )
      ]

  -- Whatever its arguments and the answer of the chain, a function of the spot market submits no
  -- market order with a slippage that is negative or above 10000.
  pub slippage_bound : (r : SpotRequest) → All SentWithin (submitted_by r)
  unfolding submitted_by subaccount_place_order subaccount_place_order_ioc
      subaccount_place_market_order_without_price subaccount_place_market_order_with_price
  slippage_bound (places o post_only) =
      place_within o (returned (limit gtc)) (post_only_param post_only) tt
  slippage_bound (places_ioc o) = place_within o (returned (limit ioc)) (returned never) tt
  slippage_bound (places_market o) = place_within o (returned (market none)) (returned never) tt
  slippage_bound (places_with o slippage) =
      place_within o (market_with (spot_slippage_bps slippage)) (returned never)
        (slippage_within slippage)
  slippage_bound (cancels o order_id fast_cancel) = cancel_within o order_id fast_cancel
  slippage_bound (modifies o order_id order_type slippage post_only fast_cancel) =
      modify_within o order_id order_type slippage post_only fast_cancel
