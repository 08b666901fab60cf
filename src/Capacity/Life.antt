-- ===== src/Capacity/Life.antt =====
-- src/deepx_sdk/async_client.py: the accounts of a client over its whole life.
use deepx_python_sdk.Prelude.{
  ℕ, suc, ◌≡◌, ◌↔◌, refl, Bool, Option, none, [], returned, arith, get, nat_eq,
}
use deepx_python_sdk.Status.{TxStatus}
use deepx_python_sdk.Capacity.{
  new_reservation, Capacity, new_capacity, acquire, release_unbound, has_capacity, limits,
  register_pending, release_outbound, release_pool, release_ref, release_tracked,
}
use deepx_python_sdk.Capacity.Release.{
  release_for_status, submission_done, submission_refused, store, drop_reservation,
}
use deepx_python_sdk.Capacity.Backlog.{every, Fits, release-Fits}
use deepx_python_sdk.Capacity.Counting.{count, IsUnique}
use deepx_python_sdk.Capacity.Accounts.{
  Accounts, release_for_status-Accounts, done-Accounts, refused-Accounts, registered_lem,
  sent-Accounts,
}

-- The states of a client, with the number of submissions that have acquired places and not ended.
-- A submission ends with a handle that is not on record, with an error that comes with such a
-- handle, or with an error without a handle; in between the handles report their statuses.
pub data Reached (nonce_of created_at : ℕ → ℕ) (mark : Option (ℕ → Bool))
    : ℕ → Capacity → Type 0 where
  opened : (t p q o f : ℕ) → Reached nonce_of created_at mark 0 (new_capacity t p q o f)
  acquires :
      {u : ℕ} {s c : Capacity} (priority : Bool)
      → Reached nonce_of created_at mark u s
      → acquire priority s ≡ (returned tt, c)
      → Reached nonce_of created_at mark (suc u) c
  ends :
      {u : ℕ} {s : Capacity} (status : TxStatus) (i : ℕ)
      → Reached nonce_of created_at mark (suc u) s
      → get i s.reservations ≡ none
      → Reached nonce_of created_at mark u (submission_done nonce_of created_at mark status i s)
  refused :
      {u : ℕ} {s : Capacity} (i : ℕ)
      → Reached nonce_of created_at mark (suc u) s
      → get i s.reservations ≡ none
      → Reached nonce_of created_at mark u (submission_refused nonce_of created_at i s)
  breaks :
      {u : ℕ} {s : Capacity}
      → Reached nonce_of created_at mark (suc u) s
      → Reached nonce_of created_at mark u (release_unbound s)
  reports :
      {u : ℕ} {s : Capacity} (status : TxStatus) (i : ℕ)
      → Reached nonce_of created_at mark u s
      → Reached nonce_of created_at mark u (release_for_status nonce_of created_at mark status i s)

opened-Accounts : (t p q o f : ℕ) → Accounts 0 (new_capacity t p q o f)
unfolding new_capacity count IsUnique
opened-Accounts t p q o f = record {
  tracked = refl;
  pool = refl;
  outbound = refl;
  finalization = refl;
  unique = tt;
}

acquire-Accounts :
    (u : ℕ) (priority : Bool) (s : Capacity) {c : Capacity}
    → acquire priority s ≡ (returned tt, c)
    → Accounts u s
    → Accounts (suc u) c
unfolding acquire
acquire-Accounts u priority s e h = ground arith

unbound-Accounts : (u : ℕ) (s : Capacity) → Accounts (suc u) s → Accounts u (release_unbound s)
unfolding release_unbound
unbound-Accounts u s h = ground arith

-- In every state that a client reaches, the tracked, pool and outbound counts are the numbers of
-- reservations that hold such a place, together with the submissions under way, and the
-- finalization count is the number of reservations that wait for finality: no place is lost or
-- given back twice.
pub Reached-Accounts :
    {nonce_of created_at : ℕ → ℕ} {mark : Option (ℕ → Bool)} {u : ℕ} {s : Capacity}
    → Reached nonce_of created_at mark u s
    → Accounts u s
Reached-Accounts (opened t p q o f) = opened-Accounts t p q o f
Reached-Accounts (acquires {u} {s} priority r e) =
    acquire-Accounts u priority s e (Reached-Accounts r)
Reached-Accounts {nonce_of} {created_at} {mark} (ends {u} {s} status i r e) =
    done-Accounts nonce_of created_at mark u status i s e (Reached-Accounts r)
Reached-Accounts {nonce_of} {created_at} (refused {u} {s} i r e) =
    refused-Accounts nonce_of created_at u i s e (Reached-Accounts r)
Reached-Accounts (breaks {u} {s} r) = unbound-Accounts u s (Reached-Accounts r)
Reached-Accounts {nonce_of} {created_at} {mark} (reports {u} {s} status i r) =
    release_for_status-Accounts nonce_of created_at mark u status i s (Reached-Accounts r)

done-Fits :
    (nonce_of created_at : ℕ → ℕ) (u : ℕ) (status : TxStatus) (i : ℕ) (s : Capacity)
    → get i s.reservations ≡ none
    → Accounts (suc u) s
    → Fits s
    → Fits (submission_done nonce_of created_at every status i s)
unfolding submission_done
done-Fits nonce_of created_at u status i s e h fits =
    rw (registered_lem nonce_of created_at i s, submission_done)
      (release-Fits nonce_of created_at u status i
        (store i (release_outbound (new_reservation, register_pending i (nonce_of i) s)))
        (sent-Accounts nonce_of created_at u i s e h)
        (unfold store release_outbound register_pending in fits))

refused-Fits :
    (nonce_of created_at : ℕ → ℕ) (i : ℕ) (s : Capacity)
    → Fits s
    → Fits (submission_refused nonce_of created_at i s)
unfolding submission_refused register_pending store drop_reservation release_tracked release_pool
    release_ref release_outbound
refused-Fits nonce_of created_at i s fits = ground arith

acquire-Fits :
    (priority : Bool) (s : Capacity) {c : Capacity}
    → acquire priority s ≡ (returned tt, c)
    → Fits s
    → Fits c
unfolding acquire
acquire-Fits priority s e fits = ground arith

unbound-Fits : (s : Capacity) → Fits s → Fits (release_unbound s)
unfolding release_unbound
unbound-Fits s fits = fits

-- In every state that a client reaches whose tracker acts on the handles given to it, at most the
-- configured number of handles wait for finality.
pub Reached-Fits :
    {nonce_of created_at : ℕ → ℕ} {u : ℕ} {s : Capacity}
    → Reached nonce_of created_at every u s
    → Fits s
Reached-Fits (opened t p q o f) = unfold new_capacity in omega arith
Reached-Fits (acquires {u} {s} priority r e) = acquire-Fits priority s e (Reached-Fits r)
Reached-Fits {nonce_of} {created_at} (ends {u} {s} status i r e) =
    done-Fits nonce_of created_at u status i s e (Reached-Accounts r) (Reached-Fits r)
Reached-Fits {nonce_of} {created_at} (refused {u} {s} i r e) =
    refused-Fits nonce_of created_at i s (Reached-Fits r)
Reached-Fits (breaks {u} {s} r) = unbound-Fits s (Reached-Fits r)
Reached-Fits {nonce_of} {created_at} (reports {u} {s} status i r) =
    release-Fits nonce_of created_at u status i s (Reached-Accounts r) (Reached-Fits r)

-- When no submission is under way and no reservation is left, all four counts are back at 0.
pub no_leak :
    {nonce_of created_at : ℕ → ℕ} {mark : Option (ℕ → Bool)} (s : Capacity)
    → Reached nonce_of created_at mark 0 s
    → s.reservations ≡ []
    → (s.tracked_count ≡ 0)
      × (s.pool_count ≡ 0)
      × (s.outbound_count ≡ 0)
      × (s.finalization_count ≡ 0)
unfolding count
no_leak s r e =
    let h = Reached-Accounts r in
    let t = rw e at h.tracked in
    let p = rw e at h.pool in
    let o = rw e at h.outbound in let f = rw e at h.finalization in (t, p, o, f)

-- Acquiring places returns exactly when no capacity is limiting: an error of backpressure always
-- names at least one limit.
pub acquire_exact :
    (priority : Bool) (s : Capacity)
    → ((acquire priority s).0 ≡ returned tt) ↔ (limits priority s ≡ [])
unfolding acquire has_capacity limits
acquire_exact priority s = (λ h. ground arith, λ h. ground arith)
