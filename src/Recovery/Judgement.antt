-- ===== src/Recovery/Judgement.antt =====
-- src/deepx_sdk/_async_recovery.py: when a stale transaction is classified as not included.
use deepx_python_sdk.Prelude.{
  ◌≡◌, refl, ap, String, Bool, true, false, Option, none, some, List, inl, inr, ◌⊎◌, arith,
}
use deepx_python_sdk.Status.{not_included}
use deepx_python_sdk.Ticket.{Ticket}
use deepx_python_sdk.Pending.{mark_reconciliation_required}
use deepx_python_sdk.Tracker.{Tracked, Clocks}
use deepx_python_sdk.Tracker.Reconcile.{Gap, require_reconciliation, note_gap, is_open}
use deepx_python_sdk.Recovery.Diagnose.{
  Scan, Trouble, PoolAnswer, unavailable, malformed, extrinsics, pool_contains,
  mark_pool_action_required, settle_by_pool, classify_at, classify_stale, record_pool,
}
use text.Mathlib.TextEquality.{eq_iff}
use deepx_python_sdk.Prelude.{str_eq}

module _ {R : Type 0} where
  -- a reconciliation does not make a transaction not included
  reconcile_status :
      (g : Gap) (clocks : Clocks) (t : Ticket R)
      → (require_reconciliation g clocks t).1.status ≡ not_included
      → t.status ≡ not_included
  unfolding require_reconciliation mark_reconciliation_required note_gap is_open
  reconcile_status g clocks t h = ground arith

  required_status :
      (result : String) (e : Trouble) (pool_endpoint : String) (s : Scan) (clocks : Clocks)
      (t : Ticket R)
      → (mark_pool_action_required result e pool_endpoint s clocks t).1.status ≡ not_included
      → t.status ≡ not_included
  unfolding mark_pool_action_required record_pool
  required_status result e pool_endpoint s clocks t h = reconcile_status _ clocks _ h

  -- what a classification as not included rests on
  abbrev pub RulesOut : (String → String) → PoolAnswer → String → Option String → Tracked R → Type 0
  RulesOut digest answer pool_endpoint submission_endpoint x =
      (submission_endpoint ≡ some pool_endpoint)
      × (items : List (Option String)) × (answer ≡ extrinsics items)
      × (pool_contains digest x.data_hex x.pending.tx_hash items ≡ false)

  settle_status :
      (b : Bool) (pool_endpoint : String) (s : Scan) (clocks : Clocks) (t : Ticket R)
      → (settle_by_pool b pool_endpoint s clocks t).1.status ≡ not_included
      → (t.status ≡ not_included) ⊎ (b ≡ false)
  unfolding settle_by_pool record_pool
  settle_status true pool_endpoint s clocks t h = inl h
  settle_status false pool_endpoint s clocks t h = inr refl

  classify_at_status :
      (digest : String → String) (answer : PoolAnswer) (same : Bool) (pool_endpoint : String)
      (s : Scan) (clocks : Clocks) (x : Tracked R)
      → (classify_at digest answer same pool_endpoint s clocks x).1.status ≡ not_included
      → (x.pending.status ≡ not_included)
        ⊎ ((same ≡ true)
            × (items : List (Option String)) × (answer ≡ extrinsics items)
            × (pool_contains digest x.data_hex x.pending.tx_hash items ≡ false))
  unfolding classify_at
  classify_at_status digest (unavailable cause) same p s clocks x h =
      inl (required_status _ _ p s clocks x.pending h)
  classify_at_status digest malformed false p s clocks x h =
      inl (required_status _ _ p s clocks x.pending h)
  classify_at_status digest (extrinsics items) false p s clocks x h =
      inl (required_status _ _ p s clocks x.pending h)
  classify_at_status digest malformed true p s clocks x h =
      inl (required_status _ _ p s clocks x.pending h)
  classify_at_status digest (extrinsics items) true p s clocks x h =
      elim (settle_status (pool_contains digest x.data_hex x.pending.tx_hash items) p s clocks
        x.pending h) [ inl e ↦ inl e | inr e ↦ inr (refl, items, refl, e) ]

  known_endpoint :
      (digest : String → String) (answer : PoolAnswer) (known p : String) (s : Scan)
      (clocks : Clocks) (x : Tracked R)
      → (classify_at digest answer (str_eq known p) p s clocks x).1.status ≡ not_included
      → (x.pending.status ≡ not_included) ⊎ RulesOut digest answer p (some known) x
  known_endpoint digest answer known p s clocks x h =
      elim (classify_at_status digest answer (str_eq known p) p s clocks x h) [
        | inl e ↦ inl e
        | inr (e, items, q, out) ↦ inr (ap some ((eq_iff known p).0 e), items, q, out)
      ]

  -- A stale transaction that was not classified as not included before is so classified only if the
  -- pool that answered is the one of the node that took the submission, its answer is a list, and
  -- neither the extrinsic nor its hash is in that list.
  pub not_included_means :
      (digest : String → String) (answer : PoolAnswer) (pool_endpoint : String) (s : Scan)
      (clocks : Clocks) (submission_endpoint : Option String) (x : Tracked R)
      → (classify_stale digest answer pool_endpoint s clocks submission_endpoint x).1.status
        ≡ not_included
      → (x.pending.status ≡ not_included)
        ⊎ RulesOut digest answer pool_endpoint submission_endpoint x
  unfolding classify_stale
  not_included_means digest (unavailable cause) p s clocks o x h =
      elim (classify_at_status digest (unavailable cause) true p s clocks x h) [
        | inl e ↦ inl e
        | inr (e, items, q, out) ↦ absurd (cc q)
      ]
  not_included_means digest malformed p s clocks none x h =
      inl (required_status _ _ p s clocks x.pending h)
  not_included_means digest (extrinsics items) p s clocks none x h =
      inl (required_status _ _ p s clocks x.pending h)
  not_included_means digest malformed p s clocks (some known) x h =
      known_endpoint digest malformed known p s clocks x h
  not_included_means digest (extrinsics items) p s clocks (some known) x h =
      known_endpoint digest (extrinsics items) known p s clocks x h
