-- ===== src/Capacity/Accounts.antt =====
-- src/deepx_sdk/async_client.py: the counts against the reservations, before and after each
-- operation.
use deepx_python_sdk.Prelude.{
  Option, ℕ, suc, ◌+◌, ◌-◌, ◌≡◌, refl, Bool, true, false, none, some, List, [], ◌∷◌, Dict, get,
  nat_eq, arith, if_both, take, Bool-cases, Option-cases, inl, inr, get-put,
}
use deepx_python_sdk.Status.{TxStatus, reconciliation_required}
use deepx_python_sdk.Capacity.{
  Reservation, new_reservation, Capacity, register_pending, release_outbound, release_tracked,
  release_pool, release_ref, is_admission, awaits_finality, change_admission, change_pool,
  change_finalization,
}
use deepx_python_sdk.Capacity.Release.{
  holds_any, store, drop_reservation, drop_if_empty, adjust, settle, reconcile, reconcile_all,
  acted_on, reconcile_marked, enforce_finalization_limit, candidates, sorted, starts_finality,
  release_for_status, submission_done, submission_refused,
}
use deepx_python_sdk.Capacity.Counting.{
  flag, count, IsUnique, count-put, count-put_new, count-get, count-pop, IsUnique-put, IsUnique-pop,
}

-- the invariant, with `pending` submissions that have acquired places and not ended
pub record Accounts (pending : ℕ) (s : Capacity) : Type 0 where
  pub tracked : s.tracked_count ≡ count (λ r. r.admission) s.reservations + pending
  pub pool : s.pool_count ≡ count (λ r. r.pool) s.reservations + pending
  pub outbound : s.outbound_count ≡ count (λ r. r.outbound) s.reservations + pending
  pub finalization : s.finalization_count ≡ count (λ r. r.finalization) s.reservations
  pub unique : IsUnique s.reservations

-- what the counts are beside the places that the reservation holds, over the reservations `d`
record Holds (a p o f : ℕ) (d : Dict ℕ Reservation) (x : Reservation × Capacity) : Type 0 where
  tracked : x.1.tracked_count ≡ a + flag x.0.admission
  pool : x.1.pool_count ≡ p + flag x.0.pool
  outbound : x.1.outbound_count ≡ o + flag x.0.outbound
  finalization : x.1.finalization_count ≡ f + flag x.0.finalization
  same : x.1.reservations ≡ d

module _ {a p o f : ℕ} {d : Dict ℕ Reservation} where
  admission-Holds :
      (w : Bool) (x : Reservation × Capacity)
      → Holds a p o f d x
      → Holds a p o f d (change_admission w x)
  unfolding change_admission
  admission-Holds true (r, s) c = ground arith
  admission-Holds false (r, s) c = ground arith

  pool-Holds :
      (w : Bool) (n : ℕ) (x : Reservation × Capacity)
      → Holds a p o f d x
      → Holds a p o f d (change_pool w n x)
  unfolding change_pool
  pool-Holds true n (r, s) c = ground arith
  pool-Holds false n (r, s) c = ground arith

  finalization-Holds :
      (w : Bool) (x : Reservation × Capacity)
      → Holds a p o f d x
      → Holds a p o f d (change_finalization w x)
  unfolding change_finalization
  finalization-Holds true (r, s) c = ground arith
  finalization-Holds false (r, s) c = ground arith

  outbound-Holds :
      (x : Reservation × Capacity) → Holds a p o f d x → Holds a p o f d (release_outbound x)
  unfolding release_outbound
  outbound-Holds (r, s) c = ground arith

  tracked-Holds :
      (x : Reservation × Capacity) → Holds a p o f d x → Holds a p o f d (release_tracked x)
  unfolding release_tracked
  tracked-Holds (r, s) c = ground arith

  release_pool-Holds :
      (n : ℕ) (x : Reservation × Capacity) → Holds a p o f d x → Holds a p o f d (release_pool n x)
  unfolding release_pool
  release_pool-Holds n (r, s) c = ground arith

  adjust-Holds :
      (status : TxStatus) (n : ℕ) (x : Reservation × Capacity)
      → Holds a p o f d x
      → Holds a p o f d (adjust status n x)
  unfolding adjust
  adjust-Holds status n x c =
      finalization-Holds (awaits_finality status) _
        (pool-Holds (is_admission status) n _ (admission-Holds (is_admission status) x c))

-- what the accounts are without one reservation
record Without (u : ℕ) (r : Reservation) (d : Dict ℕ Reservation) (a p o f : ℕ) : Type 0 where
  tracked : count (λ q. q.admission) d + u ≡ a + flag r.admission
  pool : count (λ q. q.pool) d + u ≡ p + flag r.pool
  outbound : count (λ q. q.outbound) d + u ≡ o + flag r.outbound
  finalization : count (λ q. q.finalization) d ≡ f + flag r.finalization

store-Accounts :
    (u i : ℕ) (r : Reservation) (d : Dict ℕ Reservation) (a p o f : ℕ) (x : Reservation × Capacity)
    → get i d ≡ some r
    → IsUnique d
    → Without u r d a p o f
    → Holds a p o f d x
    → Accounts u (store i x)
unfolding store
store-Accounts u i r d a p o f (q, s) g un w h =
    let same : s.reservations ≡ d = h.same in
    record {
      tracked =
          rw same (omega (arith, h.tracked, w.tracked, count-put (λ z. z.admission) i q r d g));
      pool = rw same (omega (arith, h.pool, w.pool, count-put (λ z. z.pool) i q r d g));
      outbound =
          rw same (omega (arith, h.outbound, w.outbound, count-put (λ z. z.outbound) i q r d g));
      finalization = rw same (
          omega (arith, h.finalization, w.finalization, count-put (λ z. z.finalization) i q r d g));
      unique = rw same (IsUnique-put i q d un);
    }

-- a change of a reservation that is on record, by steps that keep `Holds`
change-Accounts :
    (u i : ℕ) (r : Reservation) (s : Capacity)
    (change : Reservation × Capacity → Reservation × Capacity)
    → ((a p o f : ℕ) (d : Dict ℕ Reservation) (x : Reservation × Capacity)
        → Holds a p o f d x
        → Holds a p o f d (change x))
    → get i s.reservations ≡ some r
    → Accounts u s
    → Accounts u (store i (change (r, s)))
change-Accounts u i r s change keeps g h =
    let ct = count-get (λ z. z.admission) i r s.reservations g in
    let cp = count-get (λ z. z.pool) i r s.reservations g in
    let co = count-get (λ z. z.outbound) i r s.reservations g in
    let cf = count-get (λ z. z.finalization) i r s.reservations g in
    let start : Holds (s.tracked_count - flag r.admission) (s.pool_count - flag r.pool)
        (s.outbound_count - flag r.outbound) (s.finalization_count - flag r.finalization)
        s.reservations (r, s) =
      record {
        tracked = omega (arith, h.tracked, ct);
        pool = omega (arith, h.pool, cp);
        outbound = omega (arith, h.outbound, co);
        finalization = omega (arith, h.finalization, cf);
        same = refl;
      } in
    store-Accounts u i r s.reservations _ _ _ _ (change (r, s)) g h.unique
      (record {
        tracked = omega (arith, h.tracked, ct);
        pool = omega (arith, h.pool, cp);
        outbound = omega (arith, h.outbound, co);
        finalization = omega (arith, h.finalization, cf);
      })
      (keeps _ _ _ _ _ (r, s) start)

drop-Accounts :
    (u i : ℕ) (r : Reservation) (s : Capacity)
    → get i s.reservations ≡ some r
    → holds_any r ≡ false
    → Accounts u s
    → Accounts u (drop_reservation i s)
unfolding drop_reservation holds_any
drop-Accounts u i r s e n h =
    let ct = count-pop (λ z. z.admission) i r s.reservations h.unique e in
    let cp = count-pop (λ z. z.pool) i r s.reservations h.unique e in
    let co = count-pop (λ z. z.outbound) i r s.reservations h.unique e in
    let cf = count-pop (λ z. z.finalization) i r s.reservations h.unique e in
    let un = IsUnique-pop i s.reservations h.unique in ground arith

drop_if_empty-Accounts : (u i : ℕ) (s : Capacity) → Accounts u s → Accounts u (drop_if_empty i s)
unfolding drop_if_empty
drop_if_empty-Accounts u i s h = elim (Option-cases (get i s.reservations)) [
  | inl e ↦ rw (e, drop_if_empty) h
  | inr (r, e) ↦ elim (Bool-cases (holds_any r)) [
    | inl t ↦ rw (e, drop_if_empty) (rw t h)
    | inr n ↦ rw (e, drop_if_empty) (rw n (drop-Accounts u i r s e n h))
  ]
]

module _ (nonce_of created_at : ℕ → ℕ) where
  pub settle-Accounts :
      (u : ℕ) (status : TxStatus) (i : ℕ) (s : Capacity)
      → Accounts u s
      → Accounts u (settle nonce_of created_at status i s)
  unfolding settle
  settle-Accounts u status i s h = elim (Option-cases (get i s.reservations)) [
    | inl e ↦ rw (e, settle) h
    | inr (r, e) ↦
        rw (e, settle)
          (change-Accounts u i r s (adjust status (nonce_of i))
            (λ a p o f d x. adjust-Holds status (nonce_of i) x) e h)
  ]

  reconcile_all-Accounts :
      (u : ℕ) (is : List ℕ) (s : Capacity)
      → Accounts u s
      → Accounts u (reconcile_all nonce_of created_at is s)
  unfolding reconcile_all reconcile
  reconcile_all-Accounts u [] s h = h
  reconcile_all-Accounts u (i ∷ is) s h =
      reconcile_all-Accounts u is _
        (drop_if_empty-Accounts u i _ (settle-Accounts u reconciliation_required i s h))

  marked-Accounts :
      (mark : Option (ℕ → Bool)) (u : ℕ) (is : List ℕ) (s : Capacity)
      → Accounts u s
      → Accounts u (reconcile_marked nonce_of created_at mark is s)
  unfolding reconcile_marked
  marked-Accounts none u is s h = h
  marked-Accounts (some acts) u is s h = reconcile_all-Accounts u (acted_on acts is) s h

  enforce-Accounts :
      (mark : Option (ℕ → Bool)) (u : ℕ) (s : Capacity)
      → Accounts u s
      → Accounts u (enforce_finalization_limit nonce_of created_at mark s)
  unfolding enforce_finalization_limit
  enforce-Accounts mark u s h =
      marked-Accounts mark u
        (take (s.finalization_count - s.max_finalization)
          (sorted nonce_of created_at (candidates s.reservations)))
        s h

  pub release_for_status-Accounts :
      (mark : Option (ℕ → Bool)) (u : ℕ) (status : TxStatus) (i : ℕ) (s : Capacity)
      → Accounts u s
      → Accounts u (release_for_status nonce_of created_at mark status i s)
  unfolding release_for_status
  release_for_status-Accounts mark u status i s h =
      let settled = settle-Accounts u status i s h in
      if_both (Accounts u) (starts_finality status (get i s.reservations)) _ _
        (drop_if_empty-Accounts u i _
          (enforce-Accounts mark u (settle nonce_of created_at status i s) settled))
        (drop_if_empty-Accounts u i _ settled)

  register-Accounts :
      (u i : ℕ) (s : Capacity)
      → get i s.reservations ≡ none
      → Accounts (suc u) s
      → Accounts u (register_pending i (nonce_of i) s)
  unfolding register_pending
  register-Accounts u i s e h =
      let ct = count-put_new (λ z. z.admission) i new_reservation s.reservations e in
      let cp = count-put_new (λ z. z.pool) i new_reservation s.reservations e in
      let co = count-put_new (λ z. z.outbound) i new_reservation s.reservations e in
      let cf = count-put_new (λ z. z.finalization) i new_reservation s.reservations e in
      record {
        tracked = omega (arith, h.tracked, ct);
        pool = omega (arith, h.pool, cp);
        outbound = omega (arith, h.outbound, co);
        finalization = omega (arith, h.finalization, cf);
        unique = IsUnique-put i new_reservation s.reservations h.unique;
      }

  pub registered_lem :
      (i : ℕ) (s : Capacity)
      → get i (register_pending i (nonce_of i) s).reservations ≡ some new_reservation
  unfolding register_pending
  registered_lem i s = ground (arith, get-put i i new_reservation s.reservations)

  -- a handle that was not known takes over what its submission acquired
  pub sent-Accounts :
      (u i : ℕ) (s : Capacity)
      → get i s.reservations ≡ none
      → Accounts (suc u) s
      → Accounts u (store i (release_outbound (new_reservation, register_pending i (nonce_of i) s)))
  sent-Accounts u i s e h =
      change-Accounts u i new_reservation (register_pending i (nonce_of i) s) release_outbound
        (λ a p o f d x. outbound-Holds x) (registered_lem i s) (register-Accounts u i s e h)

  pub done-Accounts :
      (mark : Option (ℕ → Bool)) (u : ℕ) (status : TxStatus) (i : ℕ) (s : Capacity)
      → get i s.reservations ≡ none
      → Accounts (suc u) s
      → Accounts u (submission_done nonce_of created_at mark status i s)
  unfolding submission_done
  done-Accounts mark u status i s e h =
      rw (registered_lem i s, submission_done)
        (release_for_status-Accounts mark u status i
          (store i (release_outbound (new_reservation, register_pending i (nonce_of i) s)))
          (sent-Accounts u i s e h))

  abbrev refuse : ℕ → Reservation × Capacity → Reservation × Capacity
  refuse n x = release_tracked (release_pool n (release_outbound x))

  refuse_lem :
      (n i : ℕ) (s : Capacity)
      → get i (store i (refuse n (new_reservation, s))).reservations
        ≡ some (record { admission = false; pool = false; outbound = false; finalization = false })
  unfolding store release_outbound release_pool release_ref release_tracked
  refuse_lem n i s = ground (
    arith,
    get-put i i (record { admission = false; pool = false; outbound = false; finalization = false })
        s.reservations,
  )

  refused_kept :
      (u i : ℕ) (s : Capacity)
      → get i s.reservations ≡ none
      → Accounts (suc u) s
      → Accounts u (
          drop_reservation i
            (store i (refuse (nonce_of i) (new_reservation, register_pending i (nonce_of i) s))))
  unfolding holds_any
  refused_kept u i s e h =
      drop-Accounts u i _ _ (refuse_lem (nonce_of i) i (register_pending i (nonce_of i) s)) refl (
        change-Accounts u i new_reservation (register_pending i (nonce_of i) s)
          (refuse (nonce_of i))
          (λ a p o f d x c.
            tracked-Holds _ (release_pool-Holds (nonce_of i) _ (outbound-Holds x c)))
          (registered_lem i s) (register-Accounts u i s e h))

  pub refused-Accounts :
      (u i : ℕ) (s : Capacity)
      → get i s.reservations ≡ none
      → Accounts (suc u) s
      → Accounts u (submission_refused nonce_of created_at i s)
  unfolding submission_refused
  refused-Accounts u i s e h = rw (registered_lem i s, submission_refused) (refused_kept u i s e h)
