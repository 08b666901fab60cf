-- ===== src/Recovery/Scan.antt =====
-- src/deepx_sdk/_async_recovery.py: _resolve_block_number, _scan_best_chain, _scan_finalized_chain
-- and _classify_stale_pending over the transactions of the tracker. `Answers` is what the RPC
-- endpoints answer during a call, and in which order: for the walks over the best and over the
-- finalized blocks, the numbers of the visits to which a reply arrives, by the first number of the
-- batch (a visit that still waits after these goes on when those before it have ended). A reply is
-- that to one wait of a visit, an exception is named by its type. A call has one reading of the
-- clocks. The cancellation of a scan is not modelled.
use deepx_python_sdk.Prelude.{
  ℕ, ◌+◌, ◌-◌, String, Bool, true, false, not, ◌&&◌, Option, none, some, List, [], ◌∷◌, Outcome,
  returned, raised, ltb, leb, if◌then◌else◌, Dict, member, string_eq,
}
use deepx_python_sdk.Status.{is_terminal}
use deepx_python_sdk.Ticket.{Ticket}
use deepx_python_sdk.Pending.{Failure, elapsed}
use deepx_python_sdk.Tracker.{Tracked, Clocks}
use deepx_python_sdk.Tracker.Blocks.{
  Store, Block, awaits_inclusion, prepare_recovery_block, index_block, remaining, apply_matches,
}
use deepx_python_sdk.Tracker.Events.{Event}
use deepx_python_sdk.Recovery.{RecoveryConfig, Cursor, Visit}
use deepx_python_sdk.Recovery.Walk.{Last, End, complete, stopped, walk}
use deepx_python_sdk.Recovery.Diagnose.{
  Scan, Trouble, PoolAnswer, record_complete, record_incomplete, require_for_best_scan,
  require_for_best_gap, classify_stale,
}

pub record Answers (A : Type 0) : Type 0 where
  pub hash_at : ℕ → Outcome String String
  pub best_orders : ℕ → List ℕ
  pub finalized_orders : ℕ → List ℕ
  pub block_at : String → Outcome String (Block A)
  pub best_head : Outcome String (String × ℕ)
  pub pool : PoolAnswer
  pub scan_endpoint : String
  pub pool_endpoint : String

-- what resolve_block keeps of a block while it waits for the events
pub record Fetched (A : Type 0) : Type 0 where
  pub matches : List (String × ℕ)
  pub events : Option (List (Event A))

-- a call on the recovery: whether it raised, and the cursor and the transactions after it
abbrev pub Result : Type 0 → Type 0
Result R = Outcome String (Unit {0}) × Cursor × Store R

abbrev pub named : Outcome Failure (Unit {0}) → Outcome String (Unit {0})
named (returned u) = returned u
named (raised e) = raised "RuntimeError"

-- the best head moves to `stop` without a walk
unfoldable pub move_to : {R : Type 0} → ℕ → Outcome String String → Cursor → Store R → Result R
move_to stop (returned hash) c s =
    (returned tt, record c { last_best_number = some stop; last_best_hash = some hash }, s)
move_to stop (raised e) c s = (raised e, record c { last_best_number = some stop }, s)

-- the best head after the results of a walk
unfoldable pub move_best : Last → Cursor → Cursor
move_best none c = c
move_best (some (number, hash)) c = record c {
  last_best_number = some number;
  last_best_hash = some hash;
}

-- the scan position after the results of a walk
unfoldable pub move_scan : Last → Cursor → Cursor
move_scan none c = c
move_scan (some (number, hash)) c = record c { last_finalized_scan_number = some number }

-- goes on if the call before returned
unfoldable pub and_do : {R : Type 0} → Result R → (Cursor → Store R → Result R) → Result R
and_do (returned u, c, s) f = f c s
and_do (raised e, c, s) f = (raised e, c, s)

module _ {R : Type 0} where
  -- self._tracker.pending_transactions is not empty
  unfoldable pub has_pending : Dict String (Tracked R) → Bool
  has_pending [] = false
  has_pending ((h, x) ∷ rest) = if is_terminal x.pending.status then has_pending rest else true

  -- a loop over some of the transactions, which an exception ends
  unfoldable pub each_where :
      (String → Tracked R → Bool)
      → (Tracked R → Outcome Failure (Unit {0}) × Ticket R)
      → Dict String (Tracked R)
      → Outcome Failure (Unit {0}) × Dict String (Tracked R)
  each_where who f [] = (returned tt, [])
  each_where who f ((h, x) ∷ rest) =
      let (os, after) = each_where who f rest in
      let (o, t) = f x in
      if who h x
      then elim o [
        | returned u ↦ (os, (h, record x { pending = t }) ∷ after)
        | raised e ↦ (raised e, (h, record x { pending = t }) ∷ rest)
      ]
      else (os, (h, x) ∷ after)

  -- a loop over the active transactions
  abbrev pub on_active :
      (Tracked R → Outcome Failure (Unit {0}) × Ticket R) → Cursor → Store R → Result R
  on_active f c s =
      let (o, after) = each_where (λ h x. not (is_terminal x.pending.status)) f s.transactions in
      (named o, c, record s { transactions = after })

  -- a loop over a list of transactions that was made before
  abbrev pub on_listed :
      List String
      → (Tracked R → Outcome Failure (Unit {0}) × Ticket R)
      → Cursor
      → Store R
      → Result R
  on_listed hs f c s =
      let (o, after) = each_where (λ h x. member h hs) f s.transactions in
      (named o, c, record s { transactions = after })

  -- a loop body that acts on some transactions only
  unfoldable pub only :
      (Ticket R → Bool)
      → (Tracked R → Outcome Failure (Unit {0}) × Ticket R)
      → Tracked R
      → Outcome Failure (Unit {0}) × Ticket R
  only test f x = if test x.pending then f x else (returned tt, x.pending)

  -- the test of the list `stale`
  unfoldable pub is_stale : ℕ → Clocks → Ticket R → Bool
  unfolding awaits_inclusion
  is_stale stale_ms clocks t =
      awaits_inclusion t.status && leb stale_ms (elapsed clocks.monotonic t)

  -- the test of the list `overdue`
  unfoldable pub is_overdue : Clocks → Ticket R → Bool
  is_overdue clocks t = leb t.timeouts.inclusion_ms (elapsed clocks.monotonic t)

  -- the list `stale`
  unfoldable pub stale_hashes : ℕ → Clocks → Dict String (Tracked R) → List String
  unfolding is_stale
  stale_hashes stale_ms clocks [] = []
  stale_hashes stale_ms clocks ((h, x) ∷ rest) =
      let hs = stale_hashes stale_ms clocks rest in
      if is_stale stale_ms clocks x.pending then h ∷ hs else hs

  module _ {A : Type 0} (chain_error : A → Option String)
      (decode : Option A → Ticket R → Outcome String (Option R)) (digest : String → String)
      (config : RecoveryConfig) (answers : Answers A) (clocks : Clocks) where
    -- the hash of the block has arrived
    unfoldable pub prepare_hashed :
        Outcome String String → Store R → Outcome String String × Store R
    unfolding prepare_recovery_block
    prepare_hashed (raised e) s = (raised e, s)
    prepare_hashed (returned hash) s = (returned hash, prepare_recovery_block hash s)

    -- the block has arrived
    unfoldable pub index_fetched :
        String → Outcome String (Block A) → Store R → Outcome String (Fetched A) × Store R
    unfolding index_block
    index_fetched hash (raised e) s = (raised e, s)
    index_fetched hash (returned b) s =
        let (matches, indexed) = index_block hash b s in
        (returned (record { matches = matches; events = b.events }), indexed)

    -- the events have arrived, or were not needed
    unfoldable pub apply_fetched : String → Fetched A → Store R → Outcome String String × Store R
    unfolding apply_matches remaining
    apply_fetched hash f s =
        let (o, after) =
          apply_matches chain_error decode hash f.events clocks
            (remaining hash f.events f.matches s) s in
        (elim o [ returned u ↦ returned hash | raised e ↦ raised "RuntimeError" ], after)

    -- _resolve_block_number
    unfoldable pub resolve_block_number : Visit (Store R) (Fetched A)
    resolve_block_number = record {
      ask = λ number s. prepare_hashed (answers.hash_at number) s;
      fetch = λ hash s. index_fetched hash (answers.block_at hash) s;
      settle = λ hash f s. apply_fetched hash f s;
    }

    unfoldable pub fast_forward : ℕ → Cursor → Store R → Result R
    unfolding move_to
    fast_forward stop c s = move_to stop (answers.hash_at stop) c s

    -- what follows the walk towards the best head
    unfoldable pub end_best : End × Last × Store R → Cursor → Result R
    unfolding move_best
    end_best (complete, last, s) c = (returned tt, move_best last c, s)
    end_best (stopped number cause, last, s) c = (raised cause, move_best last c, s)

    -- _scan_best_chain
    unfoldable pub scan_best_chain : (start stop : ℕ) → Cursor → Store R → Result R
    unfolding fast_forward end_best resolve_block_number
    scan_best_chain start stop c s =
        if not (has_pending s.transactions)
        then fast_forward stop c s
        else if ltb config.max_blocks (stop + 1 - start)
        then and_do
            (on_active
              (only (is_overdue clocks) (λ x.
                require_for_best_gap start stop c.last_finalized_number answers.scan_endpoint clocks
                  x.pending))
              c s)
            (fast_forward stop)
        else end_best
            (walk resolve_block_number answers.best_orders (stop + 1 - start)
              config.scan_concurrency start stop none s)
            c

    -- the walk of _classify_stale_pending from the best head before, if there was one
    unfoldable pub catch_up_from : Option ℕ → String → ℕ → Cursor → Store R → Result R
    unfolding scan_best_chain
    catch_up_from none hash number c s = (returned tt, c, s)
    catch_up_from (some previous) hash number c s =
        if ltb previous number
        then and_do (scan_best_chain (previous + 1) number c s) (λ d u.
          (returned tt, record d { last_best_number = some number; last_best_hash = some hash }, u))
        else (returned tt, c, s)

    -- _read_best_head and that walk
    unfoldable pub catch_up : Outcome String (String × ℕ) → Cursor → Store R → Result R
    unfolding catch_up_from
    catch_up (raised e) c s = (raised e, c, s)
    catch_up (returned (hash, number)) c s = catch_up_from c.last_best_number hash number c s

    -- the pool is asked and every stale transaction is classified
    unfoldable pub classify_all : Scan → Cursor → Store R → Result R
    classify_all scan c s =
        on_active
          (only (is_stale config.stale_ms clocks) (λ x.
            classify_stale digest answers.pool answers.pool_endpoint scan clocks
              x.pending.recovery.submission_endpoint x))
          c s

    -- what follows the walk to the best head, and the handler of an exception in it, for the list
    -- `stale` that was made before the walk
    unfoldable pub after_catch_up : List String → Scan → Result R → Result R
    unfolding classify_all
    after_catch_up stale scan (returned u, c, s) = classify_all scan c s
    after_catch_up stale scan (raised cause, c, s) =
        on_listed stale (λ x. require_for_best_scan scan cause clocks x.pending) c s

    unfoldable pub classify_listed : List String → Scan → Cursor → Store R → Result R
    unfolding catch_up after_catch_up
    classify_listed [] scan c s = (returned tt, c, s)
    classify_listed (h ∷ hs) scan c s =
        after_catch_up (h ∷ hs) scan (catch_up answers.best_head c s)

    -- _classify_stale_pending
    unfoldable pub classify_stale_pending : Scan → Cursor → Store R → Result R
    unfolding classify_listed stale_hashes
    classify_stale_pending scan c s =
        classify_listed (stale_hashes config.stale_ms clocks s.transactions) scan c s

    -- _record_incomplete_finalized_scan
    unfoldable pub record_incomplete_scan : Scan → Trouble → Cursor → Store R → Result R
    record_incomplete_scan scan e c s =
        on_active (λ x. record_incomplete config.stale_ms scan e clocks x.pending) c s

    -- _record_complete_finalized_scan
    unfoldable pub record_complete_scan : Scan → Cursor → Store R → Result R
    record_complete_scan scan c s =
        on_active (λ x. (returned tt, record_complete scan x.pending)) c s

    -- what follows the walk over the finalized blocks
    unfoldable pub end_finalized : (start stop : ℕ) → End × Last × Store R → Cursor → Result R
    unfolding move_scan record_incomplete_scan record_complete_scan classify_stale_pending
    end_finalized start stop (stopped number cause, last, s) c =
        record_incomplete_scan
          (record {
            start = number;
            stop = stop;
            finalized_head = stop;
            endpoint = answers.scan_endpoint;
          })
          (record { reason_code = "FINALIZED_SCAN_RPC_ERROR"; cause = some cause })
          (move_scan last c) s
    end_finalized start stop (complete, last, s) c =
        let scan : Scan = record {
          start = start;
          stop = stop;
          finalized_head = stop;
          endpoint = answers.scan_endpoint;
        } in
        and_do (record_complete_scan scan (move_scan last c) s) (classify_stale_pending scan)

    -- the walk of _scan_finalized_chain from the block after `previous`
    unfoldable pub scan_from : (previous stop : ℕ) → Cursor → Store R → Result R
    unfolding end_finalized record_incomplete_scan resolve_block_number
    scan_from previous stop c s =
        if not (has_pending s.transactions)
        then (returned tt, record c { last_finalized_scan_number = some stop }, s)
        else if ltb config.max_blocks (stop - previous)
        then record_incomplete_scan
            (record {
              start = previous + 1;
              stop = stop;
              finalized_head = stop;
              endpoint = answers.scan_endpoint;
            })
            (record { reason_code = "FINALIZED_SCAN_GAP"; cause = none }) c s
        else end_finalized (previous + 1) stop
            (walk resolve_block_number answers.finalized_orders (stop - previous)
              config.scan_concurrency (previous + 1) stop none s)
            c

    -- _scan_finalized_chain after the block that was scanned before
    unfoldable pub scan_after : Option ℕ → ℕ → Cursor → Store R → Result R
    unfolding scan_from
    scan_after none stop c s = (returned tt, record c { last_finalized_scan_number = some stop }, s)
    scan_after (some previous) stop c s =
        if leb stop previous then (returned tt, c, s) else scan_from previous stop c s

    -- _scan_finalized_chain
    unfoldable pub scan_finalized_chain : ℕ → Cursor → Store R → Result R
    unfolding scan_after
    scan_finalized_chain stop c s = scan_after c.last_finalized_scan_number stop c s
