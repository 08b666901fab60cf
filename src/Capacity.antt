-- ===== src/Capacity.antt =====
-- src/deepx_sdk/async_client.py: the counts that limit submission, and the reservations that stand
-- for them. A handle is known by its identity, and each call passes the nonce of its handle. A
-- count that Python would take below zero stays at 0. `nonce_calls` lists the calls on the nonce
-- allocator. Where the tracker acts on a handle that `_enforce_finalization_limit` gives it, it answers by a
-- reconciliation, whose status callback releases the reservation: that release is modelled in
-- place of the call. On which handles it acts is a parameter.

pub mod Release
pub mod Counting
pub mod Accounts
pub mod Life
pub mod Backlog
use deepx_python_sdk.Prelude.{
  ℕ, ◌+◌, ◌-◌, max, Bool, true, false, ◌&&◌, ◌||◌, Option, none, some, List, [], ◌∷◌, ◌++◌, ltb,
  leb, if◌then◌else◌, length, take, Outcome, returned, raised, Dict, get, put, pop, nat_eq,
}
use deepx_python_sdk.Status.{
  TxStatus, created, submitted, retracted, in_block_success, reconciliation_required,
}

-- _CapacityReservation
pub record Reservation : Type 0 where
  pub admission : Bool
  pub pool : Bool
  pub outbound : Bool
  pub finalization : Bool

abbrev pub new_reservation : Reservation
new_reservation = record { admission = true; pool = true; outbound = true; finalization = false }

pub data NonceCall : Type 0 where
  ensures releases : ℕ → NonceCall

pub data Limit : Type 0 where
  tracked_limit pool_limit priority_pool outbound_limit : Limit

pub record Capacity : Type 0 where
  pub max_tracked : ℕ
  pub max_pool : ℕ
  pub priority_pool_limit : ℕ
  pub max_outbound : ℕ
  pub max_finalization : ℕ
  pub tracked_count : ℕ
  pub pool_count : ℕ
  pub outbound_count : ℕ
  pub finalization_count : ℕ
  pub peak_tracked_count : ℕ
  pub peak_pool_count : ℕ
  pub reservations : Dict ℕ Reservation
  pub nonce_pool_refs : Dict ℕ ℕ
  pub nonce_calls : List NonceCall

-- the counts of a new client
unfoldable pub new_capacity :
    (max_tracked max_pool priority_pool_limit max_outbound max_finalization : ℕ) → Capacity
new_capacity max_tracked max_pool priority_pool_limit max_outbound max_finalization = record {
  max_tracked = max_tracked;
  max_pool = max_pool;
  priority_pool_limit = priority_pool_limit;
  max_outbound = max_outbound;
  max_finalization = max_finalization;
  tracked_count = 0;
  pool_count = 0;
  outbound_count = 0;
  finalization_count = 0;
  peak_tracked_count = 0;
  peak_pool_count = 0;
  reservations = [];
  nonce_pool_refs = [];
  nonce_calls = [];
}

-- the pool limit that a submission is held to
abbrev pub pool_limit_for : Bool → Capacity → ℕ
pool_limit_for priority s = if priority then s.priority_pool_limit else s.max_pool

-- _has_normal_capacity and _has_priority_capacity
unfoldable pub has_capacity : Bool → Capacity → Bool
has_capacity priority s =
    ltb s.tracked_count s.max_tracked
    && ltb s.pool_count (pool_limit_for priority s)
    && ltb s.outbound_count s.max_outbound

-- the list `limits` of _acquire_capacity
unfoldable pub limits : Bool → Capacity → List Limit
limits priority s =
    (if leb s.max_tracked s.tracked_count then tracked_limit ∷ [] else [])
    ++ ((if leb (pool_limit_for priority s) s.pool_count
          then (if priority then priority_pool else pool_limit) ∷ []
          else [])
        ++ (if leb s.max_outbound s.outbound_count then outbound_limit ∷ [] else []))

-- _acquire_capacity of a connected client; `raised` carries the limiting capacities of
-- ClientBackpressure
unfoldable pub acquire : Bool → Capacity → Outcome (List Limit) (Unit {0}) × Capacity
unfolding has_capacity limits
acquire priority s =
    if has_capacity priority s
    then (
      returned tt,
      record s {
        tracked_count = s.tracked_count + 1;
        pool_count = s.pool_count + 1;
        outbound_count = s.outbound_count + 1;
        peak_tracked_count = max s.peak_tracked_count (s.tracked_count + 1);
        peak_pool_count = max s.peak_pool_count (s.pool_count + 1);
      },
    )
    else (raised (limits priority s), s)

-- _release_unbound_capacity
unfoldable pub release_unbound : Capacity → Capacity
release_unbound s = record s {
  tracked_count = s.tracked_count - 1;
  pool_count = s.pool_count - 1;
  outbound_count = s.outbound_count - 1;
}

-- d.get(k, 0)
abbrev pub count_or_zero : Option ℕ → ℕ
count_or_zero none = 0
count_or_zero (some n) = n

-- _register_pending, which also adds the status callback
unfoldable pub register_pending : ℕ → ℕ → Capacity → Capacity
register_pending identity nonce s = record s {
  reservations = put identity new_reservation s.reservations;
  nonce_pool_refs = put nonce (count_or_zero (get nonce s.nonce_pool_refs) + 1) s.nonce_pool_refs;
}

-- _release_outbound
unfoldable pub release_outbound : Reservation × Capacity → Reservation × Capacity
release_outbound (r, s) =
    if r.outbound
    then (record r { outbound = false }, record s { outbound_count = s.outbound_count - 1 })
    else (r, s)

-- _release_tracked
unfoldable pub release_tracked : Reservation × Capacity → Reservation × Capacity
release_tracked (r, s) =
    if r.admission
    then (record r { admission = false }, record s { tracked_count = s.tracked_count - 1 })
    else (r, s)

-- the reference count of the nonce in _release_pool
unfoldable pub release_ref : ℕ → Capacity → Capacity
release_ref nonce s =
    if leb (count_or_zero (get nonce s.nonce_pool_refs)) 1
    then record s {
      nonce_pool_refs = pop nonce s.nonce_pool_refs;
      nonce_calls = s.nonce_calls ++ (releases nonce ∷ []);
    }
    else record s {
      nonce_pool_refs =
          put nonce (count_or_zero (get nonce s.nonce_pool_refs) - 1) s.nonce_pool_refs;
    }

-- _release_pool
unfoldable pub release_pool : ℕ → Reservation × Capacity → Reservation × Capacity
unfolding release_ref
release_pool nonce (r, s) =
    if r.pool
    then (record r { pool = false }, release_ref nonce (record s { pool_count = s.pool_count - 1 }))
    else (r, s)

-- _ADMISSION_STATUSES, which _POOL_STATUSES equals
unfoldable pub is_admission : TxStatus → Bool
is_admission created = true
is_admission TxStatus.submitting = true
is_admission submitted = true
is_admission retracted = true
is_admission _ = false

-- status is IN_BLOCK_SUCCESS
unfoldable pub awaits_finality : TxStatus → Bool
awaits_finality in_block_success = true
awaits_finality _ = false

-- _release_for_status on `admission`
unfoldable pub change_admission : Bool → Reservation × Capacity → Reservation × Capacity
unfolding release_tracked
change_admission false x = release_tracked x
change_admission true (r, s) = if r.admission then (r, s) else (
  record r { admission = true },
  record s {
    tracked_count = s.tracked_count + 1;
    peak_tracked_count = max s.peak_tracked_count (s.tracked_count + 1);
  },
)

-- _release_for_status on `pool`
unfoldable pub change_pool : Bool → ℕ → Reservation × Capacity → Reservation × Capacity
unfolding release_pool
change_pool false nonce x = release_pool nonce x
change_pool true nonce (r, s) = if r.pool then (r, s) else (
  record r { pool = true },
  record s {
    pool_count = s.pool_count + 1;
    peak_pool_count = max s.peak_pool_count (s.pool_count + 1);
    nonce_pool_refs = put nonce (count_or_zero (get nonce s.nonce_pool_refs) + 1) s.nonce_pool_refs;
    nonce_calls = s.nonce_calls ++ (ensures nonce ∷ []);
  },
)

-- _release_for_status on `finalization`
unfoldable pub change_finalization : Bool → Reservation × Capacity → Reservation × Capacity
change_finalization true (r, s) = if r.finalization then (r, s) else (
  record r { finalization = true },
  record s { finalization_count = s.finalization_count + 1 },
)
change_finalization false (r, s) =
    if r.finalization
    then (
      record r { finalization = false },
      record s { finalization_count = s.finalization_count - 1 },
    )
    else (r, s)
