-- ===== src/Trading/Modify.antt =====
-- src/deepx_sdk/_perp_market.py: what a modification submits.
use deepx_python_sdk.Prelude.{
  ℕ, zero, suc, ◌-◌, ◌<◌, ◌≡◌, ap, refl, sym, inl, inr, ◌⊎◌, Bool, true, false, Option, none, some,
  [], ◌∷◌, Outcome, returned, Outcome-cases, Bool-cases, ℤ, pos, arith, leb, ◌==◌, leb→le, is_none,
  raised, if◌then◌else◌,
}
use deepx_python_sdk.Abi.{is_int}
use deepx_python_sdk.Trading.Orders.{
  TradeError, not_exactly_one, below_filled, PerpPlaceParams, PerpCancelParams, cancel_perp,
  place_perp, one_op, modify_orders, Submission, Receipt, Session, perp_order_type_param,
  post_only_param, send, refuse, prepared,
}
use deepx_python_sdk.Trading.Perp.{
  PerpOrder, perp_place_params, perp_cancel_params, cancelled_only, cancel_perp_order,
  replace_perp_order, is_negative, modify_to, modify_perp_order,
}

-- A run has submitted exactly one call, which only cancels the order of a number.
abbrev pub CancelsOnly : {A : Type 0} → PerpOrder → ℤ → Bool → Session A → Type 0
CancelsOnly o order_id fast_cancel run =
    (c : PerpCancelParams) × (c.order_id ≡ order_id)
    × (c.market_id ≡ o.market_id)
    × (c.fast_cancel ≡ fast_cancel)
    × (run.submitted
        ≡ record {
          call = one_op (cancel_perp c);
          event = if fast_cancel then none else some "OrderCancelled";
        }
          ∷ [])

-- A run has submitted exactly one call, which cancels the order of a number and places one of a
-- size; or the order type or the post-only flag was refused, and the run has submitted nothing.
abbrev pub Replaces : {A : Type 0} → PerpOrder → ℤ → ℤ → Bool → Session A → Type 0
Replaces o size order_id fast_cancel run =
    ((c : PerpCancelParams) × (p : PerpPlaceParams) × (c.order_id ≡ order_id)
      × (c.market_id ≡ o.market_id)
      × (c.fast_cancel ≡ fast_cancel)
      × (p.is_long ≡ o.is_long)
      × (p.price ≡ o.price)
      × (p.size ≡ size)
      × (run.submitted
          ≡ record {
            call = modify_orders (cancel_perp c ∷ place_perp p ∷ []);
            event = some "OrderPlaced";
          }
            ∷ []))
    ⊎ ((e : TradeError) × ((perp_order_type_param o.order_type o.slippage ≡ raised e)
          ⊎ (post_only_param o.post_only ≡ raised e))
        × (run ≡ record { outcome = raised e; submitted = [] }))

pub returned_inv :
    {A : Type 0} {a b : A} → ◌≡◌ {A = Outcome TradeError A} (returned a) (returned b) → a ≡ b
returned_inv h = cc

raised_inv :
    {A : Type 0} {e f : TradeError} → ◌≡◌ {A = Outcome TradeError A} (raised e) (raised f) → e ≡ f
raised_inv h = cc

placed_size :
    (o : PerpOrder) (size : ℤ) (p : PerpPlaceParams)
    → perp_place_params o size ≡ returned p
    → (p.is_long ≡ o.is_long) × (p.price ≡ o.price) × (p.size ≡ size)
unfolding perp_place_params
placed_size o size p h = elim (Outcome-cases (perp_order_type_param o.order_type o.slippage)) [
  | inl (t, e) ↦ elim (Outcome-cases (post_only_param o.post_only)) [
    | inl (w, k) ↦
        let same = sym (returned_inv (rw (e, k) at h)) in
        (
          ap (λ (x : PerpPlaceParams). x.is_long) same,
          ap (λ (x : PerpPlaceParams). x.price) same,
          ap (λ (x : PerpPlaceParams). x.size) same,
        )
    | inr (err, k) ↦ absurd (cc (rw (e, k) at h))
  ]
  | inr (err, e) ↦ absurd (cc (rw e at h))
]

place-raised :
    (o : PerpOrder) (size : ℤ) (err : TradeError)
    → perp_place_params o size ≡ raised err
    → (perp_order_type_param o.order_type o.slippage ≡ raised err)
      ⊎ (post_only_param o.post_only ≡ raised err)
unfolding perp_place_params
place-raised o size err h = elim (Outcome-cases (perp_order_type_param o.order_type o.slippage)) [
  | inl (t, e) ↦ elim (Outcome-cases (post_only_param o.post_only)) [
    | inl (w, k) ↦ absurd (cc (rw (e, k) at h))
    | inr (other, k) ↦ inr (rw k (ap raised (raised_inv (rw (e, k) at h))))
  ]
  | inr (other, e) ↦ inl (rw e (ap raised (raised_inv (rw e at h))))
]

module _ (submit : Submission → Outcome TradeError Receipt) where
  replace-Replaces :
      (o : PerpOrder) (size order_id : ℤ) (fast_cancel : Bool)
      → Replaces o size order_id fast_cancel (replace_perp_order submit o size order_id fast_cancel)
  unfolding replace_perp_order prepared send refuse perp_cancel_params
  replace-Replaces o size order_id fast_cancel = elim (Outcome-cases (perp_place_params o size)) [
    | inl (p, e) ↦
        let c = perp_cancel_params o.subaccount o.market_id order_id fast_cancel in
        let (side, price, left) = placed_size o size p e in
        rw e (inl (c, p, refl, refl, refl, side, price, left, refl))
    | inr (err, e) ↦ let why = place-raised o size err e in rw e (inr (err, why, refl))
  ]

  cancel-CancelsOnly :
      (o : PerpOrder) (order_id : ℤ) (fast_cancel : Bool)
      → CancelsOnly o order_id fast_cancel (
          cancelled_only order_id
            (cancel_perp_order submit o.subaccount o.market_id order_id fast_cancel))
  unfolding cancelled_only cancel_perp_order send perp_cancel_params
  cancel-CancelsOnly o order_id true =
      (perp_cancel_params o.subaccount o.market_id order_id true, refl, refl, refl, refl)
  cancel-CancelsOnly o order_id false =
      (perp_cancel_params o.subaccount o.market_id order_id false, refl, refl, refl, refl)

  left_over :
      (o : PerpOrder) (n : ℕ) (order_id : ℤ) (fast_cancel : Bool)
      → let run = modify_to submit o (pos n) order_id fast_cancel in
        ((n ≡ 0) × CancelsOnly o order_id fast_cancel run)
        ⊎ ((0 < n) × Replaces o (pos n) order_id fast_cancel run)
  unfolding modify_to is_negative is_int
  left_over o zero order_id fast_cancel = inl (refl, cancel-CancelsOnly o order_id fast_cancel)
  left_over o (suc n) order_id fast_cancel =
      let e : (suc n == 0) ≡ false = ground arith in
      inr (omega arith, rw e (replace-Replaces o (pos (suc n)) order_id fast_cancel))

  -- A modification to a total of which a part is filled, in three cases. A total below that part is
  -- refused and nothing is submitted. A total equal to that part submits exactly one call, which only
  -- cancels the order. A total above that part submits exactly one call, which cancels the order and
  -- places one on the same side, at the same price and of exactly the size that is left; or it
  -- submits nothing and raises, if the order type or the post-only flag is refused.
  pub modify_to_total :
      (o : PerpOrder) (total filled : ℕ) (order_id : ℤ) (fast_cancel : Bool)
      → let run =
          modify_perp_order submit
            (returned (pos filled))
            o
            none
            (some (pos total))
            order_id
            fast_cancel in
        ((total < filled) × (run ≡ record { outcome = raised below_filled; submitted = [] }))
        ⊎ ((total ≡ filled) × CancelsOnly o order_id fast_cancel run)
        ⊎ ((filled < total) × Replaces o (pos (total - filled)) order_id fast_cancel run)
  unfolding modify_perp_order modify_to prepared is_negative is_int refuse
  modify_to_total o total filled order_id fast_cancel = elim (Bool-cases (leb filled total)) [
    | inl e ↦
        let enough = leb→le filled total e in
        elim (left_over o (total - filled) order_id fast_cancel) [
          | inl (none_left, h) ↦ inr (inl (omega (arith, enough, none_left), rw e h))
          | inr (some_left, h) ↦ inr (inr (omega (arith, enough, some_left), rw e h))
        ]
    | inr e ↦ inl (ground (arith, e), rw e refl)
  ]

  -- A modification is refused and nothing is submitted unless exactly one of size and
  -- new_total_quantity is given.
  pub modify_exactly_one :
      (filled : Outcome TradeError ℤ) (o : PerpOrder) (size total : Option ℤ) (order_id : ℤ)
      (fast_cancel : Bool)
      → is_none size ≡ is_none total
      → modify_perp_order submit filled o size total order_id fast_cancel ≡ refuse not_exactly_one
  unfolding modify_perp_order
  modify_exactly_one filled o none none order_id fast_cancel h = refl
  modify_exactly_one filled o (some size) (some total) order_id fast_cancel h = refl
  modify_exactly_one filled o none (some total) order_id fast_cancel h = absurd (cc h)
  modify_exactly_one filled o (some size) none order_id fast_cancel h = absurd (cc h)
