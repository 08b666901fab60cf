-- ===== src/Recovery/Iteration.antt =====
-- src/deepx_sdk/_async_recovery.py: what an iteration of _drain_finalized_scans comes to.
use deepx_python_sdk.Prelude.{
  ℕ, zero, suc, ◌≤◌, ◌<◌, ◌≡◌, refl, ap, ◌∙◌, String, false, Option, none, some, List, [], ◌∷◌,
  Outcome, returned, raised, leb, str_eq, arith, if_both, take, drop,
}
use deepx_python_sdk.Ticket.{Ticket}
use deepx_python_sdk.Tracker.{Clocks}
use deepx_python_sdk.Tracker.Blocks.{Store}
use deepx_python_sdk.Tracker.Safety.{
  IsTracked, AfterTracked, note-IsTracked, reconcile-IsTracked, finalize-IsTracked,
}
use deepx_python_sdk.Recovery.{RecoveryConfig, Cursor}
use deepx_python_sdk.Recovery.Diagnose.{require_for_mismatch}
use deepx_python_sdk.Recovery.Keeps.{AllTracked}
use deepx_python_sdk.Recovery.Scan.{Answers, Result, and_do}
use deepx_python_sdk.Recovery.Safety.{
  scan-AllTracked, each_where-Tracked, and_do-Tracked, ResultTracked,
}
use deepx_python_sdk.Recovery.Finality.{
  Inspected, fails, not_yet, at_number, settle_canonical, settle_inspected, settle_block,
  settle_batch, settle_batches, reconcile_finalized, inspect_block, error_of, first_of, then_do,
}
use deepx_python_sdk.Recovery.Drain.{
  batch_target, next_target, pending_target, reach_finalized, drain_to, drain_target,
  drain_finalized,
}

module _ {R : Type 0} where
  inspected-Tracked :
      (fn : ℕ) (fh endpoint : String) (clocks : Clocks) (r : Inspected) (block : String)
      (t : Ticket R)
      → IsTracked t
      → IsTracked (settle_inspected fn fh endpoint clocks r block t).1
  unfolding settle_inspected settle_canonical require_for_mismatch
  inspected-Tracked fn fh endpoint clocks (fails cause) block t h =
      note-IsTracked t.node_status _ t h
  inspected-Tracked fn fh endpoint clocks not_yet block t h = h
  inspected-Tracked fn fh endpoint clocks (at_number n canonical) block t h =
      if_both AfterTracked (str_eq canonical block) _ _ (finalize-IsTracked fh clocks.now t h)
        (reconcile-IsTracked _ clocks t h)

  then_do-Tracked :
      (r : Outcome String (Unit {0}) × Store R) (f : Store R → Outcome String (Unit {0}) × Store R)
      → AllTracked r.1.transactions
      → ((s : Store R) → AllTracked s.transactions → AllTracked (f s).1.transactions)
      → AllTracked (then_do r f).1.transactions
  unfolding then_do
  then_do-Tracked (returned u, s) f h k = k s h
  then_do-Tracked (raised e, s) f h k = h

  module _ (header_number : String → Outcome String (Option ℕ))
      (hash_at : ℕ → Outcome String String) (fn : ℕ) (fh endpoint : String) (clocks : Clocks) where
    block-Tracked :
        (block : String) (s : Store R)
        → AllTracked s.transactions
        → AllTracked
            (settle_block header_number hash_at fn fh endpoint clocks block s).1.transactions
    unfolding settle_block
    block-Tracked block s a =
        each_where-Tracked _ _ s.transactions
          (λ x h.
            inspected-Tracked fn fh endpoint clocks (inspect_block header_number hash_at fn block)
              block x.pending h)
          a

    batch-Tracked :
        (blocks : List String) (first : Option String) (s : Store R)
        → AllTracked s.transactions
        → AllTracked
            (settle_batch header_number hash_at fn fh endpoint clocks blocks first s).1.transactions
    unfolding settle_batch
    batch-Tracked [] none s a = a
    batch-Tracked [] (some cause) s a = a
    batch-Tracked (block ∷ blocks) first s a =
        then_do-Tracked (settle_block header_number hash_at fn fh endpoint clocks block s) _
          (block-Tracked block s a)
          (λ u b.
            batch-Tracked blocks
              (first_of first (error_of (inspect_block header_number hash_at fn block))) u b)

    batches-Tracked :
        (rounds c : ℕ) (blocks : List String) (s : Store R)
        → AllTracked s.transactions
        → AllTracked
            (settle_batches header_number hash_at fn fh endpoint clocks rounds c blocks
              s).1.transactions
    unfolding settle_batches
    batches-Tracked zero c blocks s a = a
    batches-Tracked (suc rounds) c blocks s a =
        then_do-Tracked
          (settle_batch header_number hash_at fn fh endpoint clocks (take c blocks) none s) _
          (batch-Tracked (take c blocks) none s a)
          (λ u b. batches-Tracked rounds c (drop c blocks) u b)

target-above :
    (config : RecoveryConfig) (target previous : ℕ)
    → 0 < config.scan_concurrency
    → previous < target
    → previous < batch_target config target previous
unfolding batch_target
target-above config target previous k below = ground (arith, k, below)

target-within :
    (config : RecoveryConfig) (target previous : ℕ)
    → previous < target
    → batch_target config target previous ≤ target
unfolding batch_target
target-within config target previous below = ground (arith, below)

next-due :
    (config : RecoveryConfig) (target previous : ℕ)
    → previous < target
    → next_target config target (some previous) ≡ some (batch_target config target previous)
unfolding next_target
next-due config target previous below =
    let e : leb target previous ≡ false = ground (arith, below) in rw e refl

module _ {R A : Type 0} (chain_error : A → Option String)
    (decode : Option A → Ticket R → Outcome String (Option R)) (digest : String → String)
    (config : RecoveryConfig) (answers : Answers A) (clocks : Clocks)
    (header_number : String → Outcome String (Option ℕ)) where
  reach-Tracked :
      (target : ℕ) (hash : String) (c : Cursor) (s : Store R)
      → AllTracked s.transactions
      → ResultTracked (
          reach_finalized chain_error decode digest config answers clocks header_number target hash
            c s)
  unfolding reach_finalized reconcile_finalized
  reach-Tracked target hash c s a =
      batches-Tracked header_number answers.hash_at target hash answers.scan_endpoint clocks _
        config.scan_concurrency _ s a

  to-Tracked :
      (target : ℕ) (o : Outcome String String) (c : Cursor) (s : Store R)
      → AllTracked s.transactions
      → ResultTracked
          (drain_to chain_error decode digest config answers clocks header_number target o c s)
  unfolding drain_to
  to-Tracked target (raised e) c s a = a
  to-Tracked target (returned hash) c s a =
      and_do-Tracked _ _
        (scan-AllTracked chain_error decode digest config answers clocks target c s a)
        (λ d u b. reach-Tracked target hash d u b)

  target-Tracked :
      (o : Option ℕ) (c : Cursor) (s : Store R)
      → AllTracked s.transactions
      → ResultTracked
          (drain_target chain_error decode digest config answers clocks header_number o c s)
  unfolding drain_target
  target-Tracked none c s a = a
  target-Tracked (some target) c s a = to-Tracked target (answers.hash_at target) c s a

  -- An iteration of _drain_finalized_scans, whatever the endpoints answer and whether it returns or
  -- raises, leaves every transaction of the tracker with what is promised of a handle after
  -- submission, if every transaction had it before.
  pub drain-AllTracked :
      (c : Cursor) (s : Store R)
      → AllTracked s.transactions
      → AllTracked
          (drain_finalized chain_error decode digest config answers clocks header_number c
            s).2.transactions
  unfolding drain_finalized
  drain-AllTracked c s a =
      target-Tracked (pending_target config c.pending_finalized_number c.last_finalized_number) c s
        a

  reached :
      (target : ℕ) (hash : String) (r : Result R)
      → (and_do r (
          reach_finalized chain_error decode digest config answers clocks header_number target
            hash)).0
        ≡ returned tt
      → (and_do r (
          reach_finalized chain_error decode digest config answers clocks header_number target
            hash)).1.last_finalized_number
        ≡ some target
  unfolding and_do reach_finalized
  reached target hash (returned u, c, s) h = refl
  reached target hash (raised e, c, s) h = absurd (cc h)

  to-reached :
      (target : ℕ) (o : Outcome String String) (c : Cursor) (s : Store R)
      → (drain_to chain_error decode digest config answers clocks header_number target o c s).0
        ≡ returned tt
      → (drain_to chain_error decode digest config answers clocks header_number target o c
          s).1.last_finalized_number
        ≡ some target
  unfolding drain_to
  to-reached target (raised e) c s h = absurd (cc h)
  to-reached target (returned hash) c s h = reached target hash _ h

  target-reached :
      (o : Option ℕ) (n : ℕ) (c : Cursor) (s : Store R)
      → o ≡ some n
      → (drain_target chain_error decode digest config answers clocks header_number o c s).0
        ≡ returned tt
      → (drain_target chain_error decode digest config answers clocks header_number o c
          s).1.last_finalized_number
        ≡ some n
  unfolding drain_target
  target-reached none n c s e h = absurd (cc e)
  target-reached (some m) n c s e h = to-reached m (answers.hash_at m) c s h ∙ e

  -- An iteration of _drain_finalized_scans that returns, while a head above the finalized one is
  -- announced, moves the finalized head up, and not beyond the head that is announced.
  pub drain_progress :
      (previous target : ℕ) (c : Cursor) (s : Store R)
      → 0 < config.scan_concurrency
      → c.last_finalized_number ≡ some previous
      → c.pending_finalized_number ≡ some target
      → previous < target
      → (drain_finalized chain_error decode digest config answers clocks header_number c s).0
        ≡ returned tt
      → (n : ℕ) × (previous < n)
        × (n ≤ target)
        × ((drain_finalized chain_error decode digest config answers clocks header_number c
              s).1.last_finalized_number
            ≡ some n)
  unfolding drain_finalized
  drain_progress previous target c s k p q below h =
      let n = batch_target config target previous in
      let due : pending_target config c.pending_finalized_number c.last_finalized_number ≡ some n =
        ap (λ o. pending_target config o c.last_finalized_number) q
        ∙ (ap (λ o. next_target config target o) p ∙ next-due config target previous below) in
      (
        n,
        target-above config target previous k below,
        target-within config target previous below,
        target-reached _ n c s due h,
      )
