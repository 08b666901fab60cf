-- ===== src/Capacity/Release.antt =====
-- src/deepx_sdk/async_client.py: `_release_for_status`, the limit on handles that wait for finality,
-- and the ends of `_submit`. `nonce_of` and `created_at` are the attributes of the handles.
use deepx_python_sdk.Prelude.{
  ℕ, ◌-◌, Bool, false, not, ◌&&◌, ◌||◌, Option, none, some, List, [], ◌∷◌, leb, if◌then◌else◌, take,
  Dict, get, put, pop, nat_eq,
}
use deepx_python_sdk.Status.{TxStatus, reconciliation_required}
use deepx_python_sdk.Capacity.{
  Reservation, Capacity, register_pending, release_outbound, release_tracked, release_pool,
  is_admission, awaits_finality, change_admission, change_pool, change_finalization,
}

-- any of the four
unfoldable pub holds_any : Reservation → Bool
holds_any r = r.admission || r.pool || r.outbound || r.finalization

-- the reservation object as it is after the changes made to it
unfoldable pub store : ℕ → Reservation × Capacity → Capacity
store identity (r, s) = record s { reservations = put identity r s.reservations }

unfoldable pub drop_reservation : ℕ → Capacity → Capacity
drop_reservation identity s = record s { reservations = pop identity s.reservations }

-- `if not any(…): self._reservations.pop(pending, None)`
unfoldable pub drop_if_empty : ℕ → Capacity → Capacity
unfolding holds_any drop_reservation
drop_if_empty identity s = elim (get identity s.reservations) [
  | none ↦ s
  | some r ↦ if holds_any r then s else drop_reservation identity s
]

-- the three changes for a status
unfoldable pub adjust : TxStatus → ℕ → Reservation × Capacity → Reservation × Capacity
unfolding is_admission awaits_finality change_admission change_pool change_finalization
adjust status nonce x =
    change_finalization (awaits_finality status)
      (change_pool (is_admission status) nonce (change_admission (is_admission status) x))

-- the handles that wait for finality, in the order of the reservations
unfoldable pub candidates : Dict ℕ Reservation → List ℕ
candidates [] = []
candidates ((i, r) ∷ d) = let rest = candidates d in if r.finalization then i ∷ rest else rest

-- the status starts a wait for finality that the reservation does not hold yet
abbrev pub starts_finality : TxStatus → Option Reservation → Bool
starts_finality status none = false
starts_finality status (some r) = awaits_finality status && not r.finalization

unfoldable pub acted_on : (ℕ → Bool) → List ℕ → List ℕ
acted_on acts [] = []
acted_on acts (i ∷ is) = let rest = acted_on acts is in if acts i then i ∷ rest else rest

module _ (nonce_of created_at : ℕ → ℕ) where
  -- _release_for_status up to the limit on finalization
  unfoldable pub settle : TxStatus → ℕ → Capacity → Capacity
  unfolding store adjust
  settle status identity s = elim (get identity s.reservations) [
    | none ↦ s
    | some r ↦ store identity (adjust status (nonce_of identity) (r, s))
  ]

  -- what the reconciliation of a handle comes to
  unfoldable pub reconcile : ℕ → Capacity → Capacity
  unfolding settle drop_if_empty
  reconcile identity s = drop_if_empty identity (settle reconciliation_required identity s)

  unfoldable pub reconcile_all : List ℕ → Capacity → Capacity
  unfolding reconcile
  reconcile_all [] s = s
  reconcile_all (i ∷ is) s = reconcile_all is (reconcile i s)

  -- sorted(…, key=created_at), which is stable
  unfoldable pub insert : ℕ → List ℕ → List ℕ
  insert i [] = i ∷ []
  insert i (j ∷ js) =
      let rest = insert i js in if leb (created_at i) (created_at j) then i ∷ j ∷ js else j ∷ rest

  unfoldable pub sorted : List ℕ → List ℕ
  unfolding insert
  sorted [] = []
  sorted (i ∷ is) = insert i (sorted is)

  -- the calls of `mark` on some handles: it does nothing for a handle that it does not act on
  unfoldable pub reconcile_marked : Option (ℕ → Bool) → List ℕ → Capacity → Capacity
  unfolding reconcile_all acted_on
  reconcile_marked none is s = s
  reconcile_marked (some acts) is s = reconcile_all (acted_on acts is) s

  -- `mark` is mark_reconciliation_required of the tracker, by the handles that it acts on: it is
  -- `none` without components or if it cannot be called
  module _ (mark : Option (ℕ → Bool)) where
    -- _enforce_finalization_limit
    unfoldable pub enforce_finalization_limit : Capacity → Capacity
    unfolding reconcile_marked candidates sorted
    enforce_finalization_limit s =
        reconcile_marked mark
          (take (s.finalization_count - s.max_finalization) (sorted (candidates s.reservations))) s

    -- _release_for_status
    unfoldable pub release_for_status : TxStatus → ℕ → Capacity → Capacity
    unfolding settle enforce_finalization_limit drop_if_empty awaits_finality
    release_for_status status identity s =
        let settled : Capacity = settle status identity s in
        if starts_finality status (get identity s.reservations)
        then drop_if_empty identity (enforce_finalization_limit settled)
        else drop_if_empty identity settled

    -- the end of _submit: the handle takes over what was acquired; also for an error that comes with
    -- a handle and leaves the outcome open
    unfoldable pub submission_done : TxStatus → ℕ → Capacity → Capacity
    unfolding register_pending release_outbound store release_for_status
    submission_done status identity s =
        let registered : Capacity = register_pending identity (nonce_of identity) s in
        elim (get identity registered.reservations) [
          | none ↦ registered
          | some r ↦
              release_for_status status identity (store identity (release_outbound (r, registered)))
        ]

  -- the end of _submit for an error that comes with a handle and says NOT_SUBMITTED
  unfoldable pub submission_refused : ℕ → Capacity → Capacity
  unfolding register_pending release_outbound release_pool release_tracked store drop_reservation
  submission_refused identity s =
      let registered : Capacity = register_pending identity (nonce_of identity) s in
      elim (get identity registered.reservations) [
        | none ↦ registered
        | some r ↦ drop_reservation identity (
            store identity (
              release_tracked
                (release_pool (nonce_of identity) (release_outbound (r, registered)))))
      ]
