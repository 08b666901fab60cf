-- ===== src/Tracker/Calls.antt =====
-- src/deepx_sdk/_async_tracker.py: a tracked transaction under any sequence of notifications, block
-- resolutions, finalizations and reconciliations.
use deepx_python_sdk.Prelude.{ℕ, ◌≡◌, String, false, Option, List, [], ◌∷◌, Outcome}
use deepx_python_sdk.Ticket.{Ticket}
use deepx_python_sdk.Pending.Waits.{safe_to_retry}
use deepx_python_sdk.Pending.Invariant.{IsCoherent}
use deepx_python_sdk.Tracker.{Tracked, Clocks}
use deepx_python_sdk.Tracker.Status.{JsonValue, handle_status}
use deepx_python_sdk.Tracker.Events.{Event, Place, apply_block}
use deepx_python_sdk.Tracker.Reconcile.{Gap, finalize_ancestor, require_reconciliation}
use deepx_python_sdk.Tracker.Safety.{
  IsTracked, handle_status-IsTracked, block-IsTracked, finalize-IsTracked, reconcile-IsTracked,
}

pub data TrackerCall (A : Type 0) : Type 0 where
  notify : String → Option (List (String × JsonValue)) → Clocks → TrackerCall A
  resolve_at : Place → Option (List (Event A)) → Clocks → TrackerCall A
  finalize_at : String → ℕ → TrackerCall A
  reconcile : Gap → Clocks → TrackerCall A

module _ {R A : Type 0} (chain_error : A → Option String)
    (decode : Option A → Ticket R → Outcome String (Option R)) where
  -- a call of the tracker; the state after it, whether or not it raised
  unfoldable pub perform : TrackerCall A → Tracked R → Tracked R
  unfolding handle_status apply_block finalize_ancestor require_reconciliation
  perform (notify endpoint u clocks) x = (handle_status endpoint u clocks x).tracked
  perform (resolve_at p es clocks) x = record x {
    pending = (apply_block chain_error decode p es clocks x).1;
  }
  perform (finalize_at block now) x = record x {
    pending = (finalize_ancestor block now x.pending).1;
  }
  perform (reconcile g clocks) x = record x {
    pending = (require_reconciliation g clocks x.pending).1;
  }

  unfoldable pub perform_all : List (TrackerCall A) → Tracked R → Tracked R
  perform_all [] x = x
  perform_all (c ∷ cs) x = perform_all cs (perform c x)

  perform-IsTracked :
      (c : TrackerCall A) (x : Tracked R) → IsTracked x.pending → IsTracked (perform c x).pending
  unfolding perform
  perform-IsTracked (notify endpoint u clocks) x h = handle_status-IsTracked endpoint u clocks x h
  perform-IsTracked (resolve_at p es clocks) x h =
      block-IsTracked chain_error decode p es clocks x h
  perform-IsTracked (finalize_at block now) x h = finalize-IsTracked block now x.pending h
  perform-IsTracked (reconcile g clocks) x h = reconcile-IsTracked g clocks x.pending h

  all-IsTracked :
      (cs : List (TrackerCall A)) (x : Tracked R)
      → IsTracked x.pending
      → IsTracked (perform_all cs x).pending
  unfolding perform_all
  all-IsTracked [] x h = h
  all-IsTracked (c ∷ cs) x h = all-IsTracked cs (perform c x) (perform-IsTracked c x h)

  -- Whatever the node sends and the blocks hold, in any order, a handle that is coherent and does
  -- not offer a retry stays coherent and never says that it is safe to retry.
  pub never_offers_retry :
      (cs : List (TrackerCall A)) (x : Tracked R)
      → IsCoherent x.pending
      → safe_to_retry x.pending ≡ false
      → IsCoherent (perform_all cs x).pending × (safe_to_retry (perform_all cs x).pending ≡ false)
  never_offers_retry cs x h n =
      let after : IsTracked (perform_all cs x).pending =
        all-IsTracked cs x (record { coherent = h; no_retry = n }) in
      (after.coherent, after.no_retry)
