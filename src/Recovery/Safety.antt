-- ===== src/Recovery/Safety.antt =====
-- src/deepx_sdk/_async_recovery.py: a scan over the finalized blocks and the transactions of the
-- tracker.
use deepx_python_sdk.Prelude.{
  ℕ, ◌+◌, ◌-◌, String, Bool, Option, none, some, List, [], ◌∷◌, Outcome, returned, raised, Dict,
  member, string_eq, ltb, leb, if_both, Outcome-cases, inl, inr, not,
}
use deepx_python_sdk.Ticket.{Ticket}
use deepx_python_sdk.Pending.{Failure}
use deepx_python_sdk.Tracker.{Tracked, Clocks}
use deepx_python_sdk.Tracker.Blocks.{Store, Block, prepare_recovery_block, index_block}
use deepx_python_sdk.Tracker.Safety.{IsTracked, AfterTracked}
use deepx_python_sdk.Recovery.{RecoveryConfig, Cursor}
use deepx_python_sdk.Recovery.Walk.{Last, End, complete, stopped, walk}
use deepx_python_sdk.Recovery.Batches.{Steps}
use deepx_python_sdk.Recovery.Coverage.{walk-Steps}
use deepx_python_sdk.Recovery.Diagnose.{Scan, Trouble, require_for_best_scan}
use deepx_python_sdk.Recovery.Keeps.{
  AllTracked, Steps_keep, matches-Tracked, incomplete-Tracked, complete-Tracked, best_scan-Tracked,
  best_gap-Tracked, classify-Tracked,
}
use deepx_python_sdk.Recovery.Scan.{
  Answers, Result, and_do, has_pending, each_where, on_active, stale_hashes, classify_listed, only,
  Fetched, prepare_hashed, index_fetched, apply_fetched, resolve_block_number, move_to, move_scan,
  fast_forward, end_best, scan_best_chain, catch_up_from, catch_up, classify_all, after_catch_up,
  classify_stale_pending, record_incomplete_scan, record_complete_scan, end_finalized, scan_from,
  scan_after, scan_finalized_chain,
}

-- every transaction is tracked after a call
abbrev pub ResultTracked : {R : Type 0} → Result R → Type 0
ResultTracked r = AllTracked r.2.transactions

-- a write that keeps a tracked transaction so
abbrev KeepsTracked : {R : Type 0} → (Tracked R → Outcome Failure (Unit {0}) × Ticket R) → Type 0
KeepsTracked {R} f = (x : Tracked R) → IsTracked x.pending → IsTracked (f x).1

pub and_do-Tracked :
    {R : Type 0} (r : Result R) (f : Cursor → Store R → Result R)
    → ResultTracked r
    → ((c : Cursor) (s : Store R) → AllTracked s.transactions → ResultTracked (f c s))
    → ResultTracked (and_do r f)
unfolding and_do
and_do-Tracked (returned u, c, s) f h k = k c s h
and_do-Tracked (raised e, c, s) f h k = h

module _ {R : Type 0} where
  pub each_where-Tracked :
      (who : String → Tracked R → Bool) (f : Tracked R → Outcome Failure (Unit {0}) × Ticket R)
      (d : Dict String (Tracked R))
      → KeepsTracked f
      → AllTracked d
      → AllTracked (each_where who f d).1
  unfolding each_where AllTracked
  each_where-Tracked who f [] k a = tt
  each_where-Tracked who f ((h, x) ∷ rest) k (b, a) = elim (Outcome-cases (f x).0) [
    | inl (u, e) ↦ rw e (
        if_both {A = Outcome Failure (Unit {0}) × Dict String (Tracked R)} (λ r. AllTracked r.1)
          (who h x) _ _ (k x b, each_where-Tracked who f rest k a)
          (b, each_where-Tracked who f rest k a))
    | inr (u, e) ↦ rw e (
        if_both {A = Outcome Failure (Unit {0}) × Dict String (Tracked R)} (λ r. AllTracked r.1)
          (who h x) _ _ (k x b, a) (b, each_where-Tracked who f rest k a))
  ]

  only-Tracked :
      (test : Ticket R → Bool) (f : Tracked R → Outcome Failure (Unit {0}) × Ticket R)
      → KeepsTracked f
      → KeepsTracked (only test f)
  unfolding only
  only-Tracked test f k x h =
      if_both AfterTracked (test x.pending) (f x) (returned tt, x.pending) (k x h) h

module _ {R A : Type 0} (chain_error : A → Option String)
    (decode : Option A → Ticket R → Outcome String (Option R)) (digest : String → String)
    (config : RecoveryConfig) (answers : Answers A) (clocks : Clocks) where
  hashed-Tracked :
      (o : Outcome String String) (s : Store R)
      → AllTracked s.transactions
      → AllTracked
          (prepare_hashed chain_error decode digest config answers clocks o s).1.transactions
  unfolding prepare_hashed prepare_recovery_block
  hashed-Tracked (returned hash) s a = a
  hashed-Tracked (raised e) s a = a

  indexed-Tracked :
      (hash : String) (o : Outcome String (Block A)) (s : Store R)
      → AllTracked s.transactions
      → AllTracked
          (index_fetched chain_error decode digest config answers clocks hash o s).1.transactions
  unfolding index_fetched index_block
  indexed-Tracked hash (raised e) s a = a
  indexed-Tracked hash (returned b) s a = a

  applied-Tracked :
      (hash : String) (f : Fetched A) (s : Store R)
      → AllTracked s.transactions
      → AllTracked
          (apply_fetched chain_error decode digest config answers clocks hash f s).1.transactions
  unfolding apply_fetched
  applied-Tracked hash f s a = matches-Tracked chain_error decode hash f.events clocks _ s a

  Steps-Tracked :
      {s t : Store R}
      → Steps (resolve_block_number chain_error decode digest config answers clocks) s t
      → AllTracked s.transactions
      → AllTracked t.transactions
  unfolding resolve_block_number
  Steps-Tracked h a =
      Steps_keep (resolve_block_number chain_error decode digest config answers clocks)
        (λ u. AllTracked u.transactions) (λ number s b. hashed-Tracked (answers.hash_at number) s b)
        (λ hash s b. indexed-Tracked hash (answers.block_at hash) s b)
        (λ hash f s b. applied-Tracked hash f s b) h a

  walk-Tracked :
      (orders : ℕ → List ℕ) (rounds start stop : ℕ) (s : Store R)
      → AllTracked s.transactions
      → AllTracked
          (walk
            (resolve_block_number chain_error decode digest config answers clocks)
            orders
            rounds
            config.scan_concurrency
            start
            stop
            none
            s).2.transactions
  walk-Tracked orders rounds start stop s a =
      Steps-Tracked (walk-Steps _ orders rounds config.scan_concurrency start stop none s) a

  forward-Tracked :
      (stop : ℕ) (o : Outcome String String) (c : Cursor) (s : Store R)
      → AllTracked s.transactions
      → ResultTracked (move_to stop o c s)
  unfolding move_to
  forward-Tracked stop (returned hash) c s a = a
  forward-Tracked stop (raised e) c s a = a

  end_best-Tracked :
      (w : End × Last × Store R) (c : Cursor)
      → AllTracked w.2.transactions
      → ResultTracked (end_best chain_error decode digest config answers clocks w c)
  unfolding end_best
  end_best-Tracked (complete, last, s) c a = a
  end_best-Tracked (stopped number cause, last, s) c a = a

  active-Tracked :
      (f : Tracked R → Outcome Failure (Unit {0}) × Ticket R) (c : Cursor) (s : Store R)
      → KeepsTracked f
      → AllTracked s.transactions
      → ResultTracked (on_active f c s)
  active-Tracked f c s k a = each_where-Tracked _ f s.transactions k a

  best-Tracked :
      (start stop : ℕ) (c : Cursor) (s : Store R)
      → AllTracked s.transactions
      → ResultTracked
          (scan_best_chain chain_error decode digest config answers clocks start stop c s)
  unfolding scan_best_chain fast_forward
  best-Tracked start stop c s a =
      if_both {A = Result R} ResultTracked (not (has_pending s.transactions)) _ _
        (forward-Tracked stop (answers.hash_at stop) c s a)
        (if_both {A = Result R} ResultTracked (ltb config.max_blocks (stop + 1 - start)) _ _
          (and_do-Tracked _ _
            (active-Tracked _ c s
              (only-Tracked _ _
                (λ x h. best_gap-Tracked start stop _ answers.scan_endpoint clocks x.pending h))
              a)
            (λ d t b. forward-Tracked stop (answers.hash_at stop) d t b))
          (end_best-Tracked _ c
            (walk-Tracked answers.best_orders (stop + 1 - start) start stop s a)))

  catch_up_from-Tracked :
      (o : Option ℕ) (hash : String) (number : ℕ) (c : Cursor) (s : Store R)
      → AllTracked s.transactions
      → ResultTracked
          (catch_up_from chain_error decode digest config answers clocks o hash number c s)
  unfolding catch_up_from
  catch_up_from-Tracked none hash number c s a = a
  catch_up_from-Tracked (some previous) hash number c s a =
      if_both {A = Result R} ResultTracked (ltb previous number) _ _
        (and_do-Tracked _ _ (best-Tracked (previous + 1) number c s a) (λ d t b. b)) a

  catch_up-Tracked :
      (head : Outcome String (String × ℕ)) (c : Cursor) (s : Store R)
      → AllTracked s.transactions
      → ResultTracked (catch_up chain_error decode digest config answers clocks head c s)
  unfolding catch_up
  catch_up-Tracked (raised e) c s a = a
  catch_up-Tracked (returned (hash, number)) c s a =
      catch_up_from-Tracked c.last_best_number hash number c s a

  after-Tracked :
      (stale : List String) (scan : Scan) (r : Result R)
      → ResultTracked r
      → ResultTracked (after_catch_up chain_error decode digest config answers clocks stale scan r)
  unfolding after_catch_up classify_all
  after-Tracked stale scan (returned u, c, s) a =
      active-Tracked _ c s
        (only-Tracked _ _ (λ x h.
          classify-Tracked digest answers.pool answers.pool_endpoint scan clocks
            x.pending.recovery.submission_endpoint x h))
        a
  after-Tracked stale scan (raised cause, c, s) a =
      each_where-Tracked (λ h x. member h stale)
        (λ x. require_for_best_scan scan cause clocks x.pending) s.transactions
        (λ x h. best_scan-Tracked scan cause clocks x.pending h) a

  listed-Tracked :
      (stale : List String) (scan : Scan) (c : Cursor) (s : Store R)
      → AllTracked s.transactions
      → ResultTracked
          (classify_listed chain_error decode digest config answers clocks stale scan c s)
  unfolding classify_listed
  listed-Tracked [] scan c s a = a
  listed-Tracked (h ∷ hs) scan c s a =
      after-Tracked (h ∷ hs) scan
        (catch_up chain_error decode digest config answers clocks answers.best_head c s)
        (catch_up-Tracked answers.best_head c s a)

  stale-Tracked :
      (scan : Scan) (c : Cursor) (s : Store R)
      → AllTracked s.transactions
      → ResultTracked
          (classify_stale_pending chain_error decode digest config answers clocks scan c s)
  unfolding classify_stale_pending
  stale-Tracked scan c s a =
      listed-Tracked (stale_hashes config.stale_ms clocks s.transactions) scan c s a

  incomplete_scan-Tracked :
      (scan : Scan) (e : Trouble) (c : Cursor) (s : Store R)
      → AllTracked s.transactions
      → ResultTracked
          (record_incomplete_scan chain_error decode digest config answers clocks scan e c s)
  unfolding record_incomplete_scan
  incomplete_scan-Tracked scan e c s a =
      active-Tracked _ c s (λ x h. incomplete-Tracked config.stale_ms scan e clocks x.pending h) a

  end_finalized-Tracked :
      (start stop : ℕ) (w : End × Last × Store R) (c : Cursor)
      → AllTracked w.2.transactions
      → ResultTracked (end_finalized chain_error decode digest config answers clocks start stop w c)
  unfolding end_finalized record_complete_scan
  end_finalized-Tracked start stop (stopped number cause, last, s) c a =
      incomplete_scan-Tracked _ _ (move_scan last c) s a
  end_finalized-Tracked start stop (complete, last, s) c a =
      and_do-Tracked _ _
        (active-Tracked _ (move_scan last c) s (λ x h. complete-Tracked _ x.pending h) a)
        (λ d t b. stale-Tracked _ d t b)

  after_scan-Tracked :
      (o : Option ℕ) (stop : ℕ) (c : Cursor) (s : Store R)
      → AllTracked s.transactions
      → ResultTracked (scan_after chain_error decode digest config answers clocks o stop c s)
  unfolding scan_after scan_from
  after_scan-Tracked none stop c s a = a
  after_scan-Tracked (some previous) stop c s a =
      if_both {A = Result R} ResultTracked (leb stop previous) _ _ a (
        if_both {A = Result R} ResultTracked (not (has_pending s.transactions)) _ _ a (
          if_both {A = Result R} ResultTracked (ltb config.max_blocks (stop - previous)) _ _
            (incomplete_scan-Tracked _ _ c s a)
            (end_finalized-Tracked (previous + 1) stop _ c
              (walk-Tracked answers.finalized_orders (stop - previous) (previous + 1) stop s a))))

  -- A scan over the finalized blocks, whatever the endpoints answer and whether it returns or
  -- raises, leaves every transaction of the tracker with what is promised of a handle after
  -- submission, if every transaction had it before.
  pub scan-AllTracked :
      (stop : ℕ) (c : Cursor) (s : Store R)
      → AllTracked s.transactions
      → AllTracked
          (scan_finalized_chain chain_error decode digest config answers clocks stop c
            s).2.transactions
  unfolding scan_finalized_chain
  scan-AllTracked stop c s a = after_scan-Tracked c.last_finalized_scan_number stop c s a
