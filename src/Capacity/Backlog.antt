-- ===== src/Capacity/Backlog.antt =====
-- src/deepx_sdk/async_client.py: the limit on handles that wait for finality.
use deepx_python_sdk.Prelude.{
  ap, ℕ, zero, suc, ◌+◌, ◌-◌, ◌≤◌, ◌≡◌, refl, Bool, true, false, Option, none, some, List, [], ◌∷◌,
  if◌then◌else◌, Dict, get, nat_eq, All, length, take, arith, leb, ==_iff, Bool-cases, inl, inr,
  ◌∙◌, sym,
}
use deepx_python_sdk.Status.{TxStatus, reconciliation_required}
use deepx_python_sdk.Capacity.{
  Reservation, Capacity, release_ref, release_pool, release_tracked, awaits_finality, is_admission,
  change_admission, change_pool, change_finalization,
}
use deepx_python_sdk.Capacity.Release.{
  store, drop_reservation, drop_if_empty, adjust, settle, reconcile, reconcile_all, candidates,
  acted_on, reconcile_marked, insert, sorted, enforce_finalization_limit, starts_finality,
  release_for_status,
}
use deepx_python_sdk.Capacity.Counting.{flag, count, IsUnique}
use deepx_python_sdk.Capacity.Accounts.{Accounts, settle-Accounts}

-- the reservation of `i` waits for finality
abbrev waits_in : Option Reservation → Bool
waits_in none = false
waits_in (some r) = r.finalization

abbrev Waiting : Dict ℕ Reservation → ℕ → Type 0
Waiting d i = waits_in (get i d) ≡ true

-- the handles that wait for finality are within their limit
abbrev pub Fits : Capacity → Type 0
Fits s = s.finalization_count ≤ s.max_finalization

-- looking below a first entry whose key does not occur there
Waiting-below :
    (j : ℕ) (r : Reservation) (d : Dict ℕ Reservation) (is : List ℕ)
    → get j d ≡ none
    → All (Waiting d) is
    → All (Waiting ((j, r) ∷ d)) is
unfolding get
Waiting-below j r d [] n h = tt
Waiting-below j r d (i ∷ is) n h = ground (arith, ==_iff j i, Waiting-below j r d is n h.1)

if_keeps :
    (P : ℕ → Type 0) (b : Bool) (j : ℕ) (is : List ℕ)
    → (b ≡ true → P j)
    → All P is
    → All P (if b then j ∷ is else is)
if_keeps P true j is p h = (p refl, h)
if_keeps P false j is p h = h

candidates-Waiting : (d : Dict ℕ Reservation) → IsUnique d → All (Waiting d) (candidates d)
unfolding candidates IsUnique get
candidates-Waiting [] u = tt
candidates-Waiting ((j, r) ∷ d) u =
    if_keeps (Waiting ((j, r) ∷ d)) r.finalization j (candidates d)
      (λ e. ground (arith, ==_iff j j))
      (Waiting-below j r d (candidates d) u.0 (candidates-Waiting d u.1))

length-candidates : (d : Dict ℕ Reservation) → length (candidates d) ≡ count (λ r. r.finalization) d
unfolding candidates count
length-candidates [] = refl
length-candidates ((j, r) ∷ d) = ground (arith, length-candidates d)

-- the tracker of a client acts on every handle that is given to it
abbrev pub every : Option (ℕ → Bool)
every = some (λ i. true)

module _ (nonce_of created_at : ℕ → ℕ) where
  insert_keeps :
      (P : ℕ → Type 0) (i : ℕ) (js : List ℕ)
      → P i
      → All P js
      → All P (insert nonce_of created_at i js)
  unfolding insert
  insert_keeps P i [] p h = (p, tt)
  insert_keeps P i (j ∷ js) p h = elim (Bool-cases (leb (created_at i) (created_at j))) [
    | inl e ↦ rw e (p, h)
    | inr e ↦ rw e (h.0, insert_keeps P i js p h.1)
  ]

  sorted_keeps : (P : ℕ → Type 0) (is : List ℕ) → All P is → All P (sorted nonce_of created_at is)
  unfolding sorted
  sorted_keeps P [] h = tt
  sorted_keeps P (i ∷ is) h = insert_keeps P i _ h.0 (sorted_keeps P is h.1)

  length-insert : (i : ℕ) (js : List ℕ) → length (insert nonce_of created_at i js) ≡ suc (length js)
  unfolding insert
  length-insert i [] = refl
  length-insert i (j ∷ js) = ground (arith, length-insert i js)

  length-sorted : (is : List ℕ) → length (sorted nonce_of created_at is) ≡ length is
  unfolding sorted
  length-sorted [] = refl
  length-sorted (i ∷ is) =
      ground (arith, length-insert i (sorted nonce_of created_at is), length-sorted is)

  -- how a status changes the number of handles that wait for finality
  settle_count :
      (status : TxStatus) (i : ℕ) (s : Capacity)
      → (settle nonce_of created_at status i s).finalization_count
        ≤ s.finalization_count + flag (starts_finality status (get i s.reservations))
  unfolding settle store adjust awaits_finality is_admission change_admission change_pool
      change_finalization release_tracked release_pool release_ref
  settle_count status i s = ground arith

  settle_limit :
      (status : TxStatus) (i : ℕ) (s : Capacity)
      → (settle nonce_of created_at status i s).max_finalization ≡ s.max_finalization
  unfolding settle store adjust change_admission change_pool change_finalization release_tracked
      release_pool release_ref
  settle_limit status i s = ground arith

  drop_count :
      (i : ℕ) (s : Capacity) → (drop_if_empty i s).finalization_count ≡ s.finalization_count
  unfolding drop_if_empty drop_reservation
  drop_count i s = ground arith

  drop_limit : (i : ℕ) (s : Capacity) → (drop_if_empty i s).max_finalization ≡ s.max_finalization
  unfolding drop_if_empty drop_reservation
  drop_limit i s = ground arith

  reconcile_count :
      (i : ℕ) (s : Capacity)
      → Waiting s.reservations i
      → (reconcile nonce_of created_at i s).finalization_count ≡ s.finalization_count - 1
  unfolding reconcile settle store adjust awaits_finality is_admission change_admission change_pool
      change_finalization release_tracked release_pool release_ref
  reconcile_count i s w =
      ground (arith, drop_count i (settle nonce_of created_at reconciliation_required i s))

  reconcile_limit :
      (i : ℕ) (s : Capacity)
      → (reconcile nonce_of created_at i s).max_finalization ≡ s.max_finalization
  unfolding reconcile
  reconcile_limit i s =
      drop_limit i (settle nonce_of created_at reconciliation_required i s)
      ∙ settle_limit reconciliation_required i s

  reconcile_all_limit :
      (is : List ℕ) (s : Capacity)
      → (reconcile_all nonce_of created_at is s).max_finalization ≡ s.max_finalization
  unfolding reconcile_all
  reconcile_all_limit [] s = refl
  reconcile_all_limit (i ∷ is) s =
      reconcile_all_limit is (reconcile nonce_of created_at i s) ∙ reconcile_limit i s

  marked_limit :
      (mark : Option (ℕ → Bool)) (is : List ℕ) (s : Capacity)
      → (reconcile_marked nonce_of created_at mark is s).max_finalization ≡ s.max_finalization
  unfolding reconcile_marked
  marked_limit none is s = refl
  marked_limit (some acts) is s = reconcile_all_limit (acted_on acts is) s

  enforce_limit :
      (mark : Option (ℕ → Bool)) (s : Capacity)
      → (enforce_finalization_limit nonce_of created_at mark s).max_finalization
        ≡ s.max_finalization
  unfolding enforce_finalization_limit
  enforce_limit mark s =
      marked_limit mark
        (take (s.finalization_count - s.max_finalization)
          (sorted nonce_of created_at (candidates s.reservations)))
        s

  all_acted_on : (is : List ℕ) → acted_on (λ i. true) is ≡ is
  unfolding acted_on
  all_acted_on [] = refl
  all_acted_on (i ∷ is) = ap (λ r. i ∷ r) (all_acted_on is)

  one_reconciled :
      (k : ℕ) (is : List ℕ) (s : Capacity)
      → k ≤ 1
      → k ≤ length is
      → All (Waiting s.reservations) is
      → (reconcile_all nonce_of created_at (take k is) s).finalization_count
        ≡ s.finalization_count - k
  unfolding reconcile_all
  one_reconciled zero is s a b h = omega arith
  one_reconciled (suc zero) [] s a b h = omega arith
  one_reconciled (suc zero) (i ∷ is) s a b h = reconcile_count i s h.0
  one_reconciled (suc (suc k)) is s a b h = omega arith

  enforce_fits :
      (u : ℕ) (s : Capacity)
      → Accounts u s
      → s.finalization_count ≤ s.max_finalization + 1
      → (enforce_finalization_limit nonce_of created_at every s).finalization_count
        ≤ s.max_finalization
  unfolding enforce_finalization_limit reconcile_marked
  enforce_fits u s h fits =
      let waiting = candidates s.reservations in
      let all_wait =
        sorted_keeps (Waiting s.reservations) waiting
          (candidates-Waiting s.reservations h.unique) in
      let all_there : length (sorted nonce_of created_at waiting) ≡ s.finalization_count =
        length-sorted waiting ∙ length-candidates s.reservations ∙ sym h.finalization in
      let gone =
        one_reconciled (s.finalization_count - s.max_finalization)
          (sorted nonce_of created_at waiting) s (omega (arith, fits)) (omega (arith, all_there))
          all_wait in
      rw
        (all_acted_on
          (take (s.finalization_count - s.max_finalization) (sorted nonce_of created_at waiting)))
        (omega (arith, gone, fits))

  pub release-Fits :
      (u : ℕ) (status : TxStatus) (i : ℕ) (s : Capacity)
      → Accounts u s
      → Fits s
      → Fits (release_for_status nonce_of created_at every status i s)
  unfolding release_for_status
  release-Fits u status i s h fits =
      let after : Capacity = settle nonce_of created_at status i s in
      let kept : Accounts u after = settle-Accounts nonce_of created_at u status i s h in
      let grown = settle_count status i s in
      let limit = settle_limit status i s in
      elim (Bool-cases (starts_finality status (get i s.reservations))) [
        | inl e ↦
            let first : after.finalization_count ≤ after.max_finalization + 1 =
              omega (arith, rw e at grown, limit, fits) in
            let enforced : Capacity = enforce_finalization_limit nonce_of created_at every after in
            rw e (
              omega (
                arith,
                enforce_fits u after kept first,
                enforce_limit every after,
                drop_count i enforced,
                drop_limit i enforced,
              ))
        | inr e ↦
            rw e (omega (arith, rw e at grown, limit, fits, drop_count i after, drop_limit i after))
      ]
