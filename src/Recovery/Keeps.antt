-- ===== src/Recovery/Keeps.antt =====
-- src/deepx_sdk/_async_recovery.py: what holds of every transaction of the tracker throughout a
-- recovery scan.
use deepx_python_sdk.Prelude.{
  ℕ, refl, String, Bool, true, false, Option, none, some, List, [], ◌∷◌, Outcome, Dict, get, put,
  string_eq, ltb, if_both, Outcome-cases, inl, inr,
}
use deepx_python_sdk.Ticket.{Ticket}
use deepx_python_sdk.Pending.{mark_not_included, elapsed}
use deepx_python_sdk.Pending.Invariant.{not_include, step}
use deepx_python_sdk.Tracker.{Tracked, Clocks, error_about}
use deepx_python_sdk.Tracker.Events.{Event, Place}
use deepx_python_sdk.Tracker.Blocks.{Store, note_applied, apply_to, apply_matches}
use deepx_python_sdk.Tracker.Once.{first_match, apply_matches-returned, apply_matches-raised}
use deepx_python_sdk.Tracker.Safety.{
  IsTracked, AfterTracked, step-IsTracked, note-IsTracked, reconcile-IsTracked, block-IsTracked,
}
use deepx_python_sdk.Recovery.{Visit}
use deepx_python_sdk.Recovery.Walk.{Task, unasked, asked, fetched, ended, advance}
use deepx_python_sdk.Recovery.Batches.{Steps, here, then_part}
use deepx_python_sdk.Recovery.Diagnose.{
  Scan, Trouble, PoolAnswer, unavailable, malformed, extrinsics, note_incomplete, record_complete,
  record_incomplete, require_for_best_scan, require_for_best_gap, record_pool,
  mark_pool_action_required, not_included_error, settle_by_pool, classify_at, classify_stale,
}
use deepx_python_sdk.Prelude.{str_eq}

module _ {S M : Type 0} (visit : Visit S M) (P : S → Type 0)
    (keep_ask : (number : ℕ) (s : S) → P s → P (visit.ask number s).1)
    (keep_fetch : (hash : String) (s : S) → P s → P (visit.fetch hash s).1)
    (keep_settle : (hash : String) (m : M) (s : S) → P s → P (visit.settle hash m s).1) where
  part_keeps : (number : ℕ) (task : Task M) (s : S) → P s → P (advance visit number task s).1
  unfolding advance
  part_keeps number unasked s h = keep_ask number s h
  part_keeps number (asked hash) s h = keep_fetch hash s h
  part_keeps number (fetched hash m) s h = keep_settle hash m s h
  part_keeps number (ended o) s h = h

  -- what every part of a visit keeps, parts of visits in any order keep
  pub Steps_keep : {s t : S} → Steps visit s t → P s → P t
  Steps_keep here h = h
  Steps_keep (then_part k number task) h = part_keeps number task _ (Steps_keep k h)

module _ {R : Type 0} where
  -- every transaction is tracked
  unfoldable pub AllTracked : Dict String (Tracked R) → Type 0
  AllTracked [] = Unit
  AllTracked ((h, x) ∷ rest) = IsTracked x.pending × AllTracked rest

  abbrev pub MaybeTracked : Option (Tracked R) → Type 0
  MaybeTracked none = Unit
  MaybeTracked (some x) = IsTracked x.pending

  put-AllTracked :
      (h : String) (x : Tracked R) (d : Dict String (Tracked R))
      → IsTracked x.pending
      → AllTracked d
      → AllTracked (put h x d)
  unfolding AllTracked put
  put-AllTracked h x [] k a = (k, a)
  put-AllTracked h x ((j, y) ∷ d) k (b, a) =
      if_both AllTracked (string_eq.beq j h) ((j, x) ∷ d) ((j, y) ∷ put h x d) (k, a)
        (b, put-AllTracked h x d k a)

  get-IsTracked : (h : String) (d : Dict String (Tracked R)) → AllTracked d → MaybeTracked (get h d)
  unfolding AllTracked get
  get-IsTracked h [] a = tt
  get-IsTracked h ((j, y) ∷ d) (b, a) =
      if_both MaybeTracked (string_eq.beq j h) (some y) (get h d) b (get-IsTracked h d a)

  abbrev pub StoreTracked : Store R → Type 0
  StoreTracked s = AllTracked s.transactions

  module _ {A : Type 0} (chain_error : A → Option String)
      (decode : Option A → Ticket R → Outcome String (Option R)) where
    apply_to-Tracked :
        (p : Place) (events : Option (List (Event A))) (clocks : Clocks) (h : String)
        (o : Option (Tracked R)) (s : Store R)
        → MaybeTracked o
        → AllTracked s.transactions
        → AllTracked (apply_to chain_error decode p events clocks h o s).1.transactions
    unfolding apply_to
    apply_to-Tracked p events clocks h none s k a = a
    apply_to-Tracked p events clocks h (some x) s k a =
        put-AllTracked h _ s.transactions (block-IsTracked chain_error decode p events clocks x k) a

    pub matches-Tracked :
        (b : String) (events : Option (List (Event A))) (clocks : Clocks)
        (matches : List (String × ℕ)) (s : Store R)
        → AllTracked s.transactions
        → AllTracked (apply_matches chain_error decode b events clocks matches s).1.transactions
    matches-Tracked b events clocks [] s a = unfold apply_matches in a
    matches-Tracked b events clocks ((g, i) ∷ rest) s a =
        let first : AllTracked
            (first_match chain_error decode b events clocks g i s).1.transactions =
          apply_to-Tracked (record { block_hash = b; extrinsic_index = i }) events clocks g
            (get g (note_applied b g s).transactions) (note_applied b g s)
            (unfold note_applied in get-IsTracked g s.transactions a) (unfold note_applied in a) in
        elim (Outcome-cases (first_match chain_error decode b events clocks g i s).0) [
          | inl (u, e) ↦
              rw (apply_matches-returned chain_error decode b events clocks g i rest s e) (
                matches-Tracked b events clocks rest
                  (first_match chain_error decode b events clocks g i s).1 first)
          | inr (f, e) ↦
              rw (apply_matches-raised chain_error decode b events clocks g i rest s e) first
        ]

  -- each of the recovery's writes
  not_included-Tracked :
      (clocks : Clocks) (t u : Ticket R)
      → IsTracked u
      → IsTracked (mark_not_included (not_included_error clocks t) clocks.now u).1
  unfolding step not_included_error error_about
  not_included-Tracked clocks t u h =
      step-IsTracked (not_include (not_included_error clocks t) clocks.now) u refl h

  pub incomplete-Tracked :
      (stale_ms : ℕ) (s : Scan) (e : Trouble) (clocks : Clocks) (t : Ticket R)
      → IsTracked t
      → IsTracked (record_incomplete stale_ms s e clocks t).1
  unfolding record_incomplete note_incomplete
  incomplete-Tracked stale_ms s e clocks t h =
      let noted : IsTracked (note_incomplete s e t) = note-IsTracked t.node_status _ t h in
      if_both AfterTracked (ltb (elapsed clocks.monotonic (note_incomplete s e t)) stale_ms) _ _
        noted (reconcile-IsTracked _ clocks _ noted)

  pub complete-Tracked : (s : Scan) (t : Ticket R) → IsTracked t → IsTracked (record_complete s t)
  unfolding record_complete
  complete-Tracked s t h = note-IsTracked t.node_status _ t h

  pub best_scan-Tracked :
      (s : Scan) (cause : String) (clocks : Clocks) (t : Ticket R)
      → IsTracked t
      → IsTracked (require_for_best_scan s cause clocks t).1
  unfolding require_for_best_scan
  best_scan-Tracked s cause clocks t h =
      reconcile-IsTracked _ clocks _ (note-IsTracked t.node_status _ t h)

  pub best_gap-Tracked :
      (start stop : ℕ) (o : Option ℕ) (endpoint : String) (clocks : Clocks) (t : Ticket R)
      → IsTracked t
      → IsTracked (require_for_best_gap start stop o endpoint clocks t).1
  unfolding require_for_best_gap
  best_gap-Tracked start stop o endpoint clocks t h = reconcile-IsTracked _ clocks t h

  required-Tracked :
      (result : String) (e : Trouble) (p : String) (s : Scan) (clocks : Clocks) (t : Ticket R)
      → IsTracked t
      → IsTracked (mark_pool_action_required result e p s clocks t).1
  unfolding mark_pool_action_required record_pool
  required-Tracked result e p s clocks t h =
      reconcile-IsTracked _ clocks _ (note-IsTracked t.node_status _ t h)

  settle-Tracked :
      (b : Bool) (p : String) (s : Scan) (clocks : Clocks) (t : Ticket R)
      → IsTracked t
      → IsTracked (settle_by_pool b p s clocks t).1
  unfolding settle_by_pool record_pool
  settle-Tracked true p s clocks t h = note-IsTracked t.node_status _ t h
  settle-Tracked false p s clocks t h =
      not_included-Tracked clocks (record_pool "absent" p s t) _
        (note-IsTracked t.node_status _ t h)

  classify_at-Tracked :
      (digest : String → String) (answer : PoolAnswer) (same : Bool) (p : String) (s : Scan)
      (clocks : Clocks) (x : Tracked R)
      → IsTracked x.pending
      → IsTracked (classify_at digest answer same p s clocks x).1
  unfolding classify_at
  classify_at-Tracked digest (unavailable cause) same p s clocks x h =
      required-Tracked _ _ p s clocks x.pending h
  classify_at-Tracked digest malformed false p s clocks x h =
      required-Tracked _ _ p s clocks x.pending h
  classify_at-Tracked digest (extrinsics items) false p s clocks x h =
      required-Tracked _ _ p s clocks x.pending h
  classify_at-Tracked digest malformed true p s clocks x h =
      required-Tracked _ _ p s clocks x.pending h
  classify_at-Tracked digest (extrinsics items) true p s clocks x h =
      settle-Tracked _ p s clocks x.pending h

  pub classify-Tracked :
      (digest : String → String) (answer : PoolAnswer) (p : String) (s : Scan) (clocks : Clocks)
      (o : Option String) (x : Tracked R)
      → IsTracked x.pending
      → IsTracked (classify_stale digest answer p s clocks o x).1
  unfolding classify_stale
  classify-Tracked digest (unavailable cause) p s clocks o x h =
      classify_at-Tracked digest (unavailable cause) true p s clocks x h
  classify-Tracked digest malformed p s clocks none x h =
      required-Tracked _ _ p s clocks x.pending h
  classify-Tracked digest (extrinsics items) p s clocks none x h =
      required-Tracked _ _ p s clocks x.pending h
  classify-Tracked digest malformed p s clocks (some k) x h =
      classify_at-Tracked digest malformed (str_eq k p) p s clocks x h
  classify-Tracked digest (extrinsics items) p s clocks (some k) x h =
      classify_at-Tracked digest (extrinsics items) (str_eq k p) p s clocks x h
