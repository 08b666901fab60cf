-- ===== src/Recovery/Drain.antt =====
-- src/deepx_sdk/_async_recovery.py: the heads that the subscriptions announce, and one iteration of
-- _drain_best_scans and _drain_finalized_scans under the lock.
use deepx_python_sdk.Prelude.{
  ℕ, ◌+◌, ◌-◌, String, Option, none, some, Outcome, returned, raised, ltb, leb, if◌then◌else◌,
}
use deepx_python_sdk.Ticket.{Ticket}
use deepx_python_sdk.Tracker.{Clocks}
use deepx_python_sdk.Tracker.Blocks.{Store}
use deepx_python_sdk.Recovery.{RecoveryConfig, Cursor}
use deepx_python_sdk.Recovery.Walk.{min}
use deepx_python_sdk.Recovery.Scan.{
  Answers, Result, and_do, fast_forward, scan_best_chain, scan_finalized_chain,
}
use deepx_python_sdk.Recovery.Finality.{reconcile_finalized}

-- max(pending or number, number)
abbrev announced : Option ℕ → ℕ → ℕ
announced none number = number
announced (some pending) number = if ltb number pending then pending else number

-- _handle_new_head, for the result of _head_number
unfoldable pub handle_new_head : Option ℕ → Cursor → Cursor
handle_new_head none c = c
handle_new_head (some number) c = record c {
  pending_best_number = some (announced c.pending_best_number number);
}

-- _handle_finalized_head, for the result of _head_number
unfoldable pub handle_finalized_head : Option ℕ → Cursor → Cursor
handle_finalized_head none c = c
handle_finalized_head (some number) c = record c {
  pending_finalized_number = some (announced c.pending_finalized_number number);
}

-- the target of an iteration: within the range, one batch after `previous`
unfoldable pub batch_target : RecoveryConfig → (target previous : ℕ) → ℕ
batch_target config target previous =
    if ltb config.max_blocks (target - previous)
    then target
    else min target (previous + config.scan_concurrency)

-- the target of an iteration from a head that may not be known
unfoldable pub next_target : RecoveryConfig → (target : ℕ) → Option ℕ → Option ℕ
unfolding batch_target
next_target config target none = some target
next_target config target (some previous) =
    if leb target previous then none else some (batch_target config target previous)

abbrev pub pending_target : RecoveryConfig → Option ℕ → Option ℕ → Option ℕ
pending_target config none previous = none
pending_target config (some target) previous = next_target config target previous

module _ {R A : Type 0} (chain_error : A → Option String)
    (decode : Option A → Ticket R → Outcome String (Option R)) (digest : String → String)
    (config : RecoveryConfig) (answers : Answers A) (clocks : Clocks)
    (header_number : String → Outcome String (Option ℕ)) where
  -- the end of an iteration: the finalized head moves, and the included transactions are reconciled
  unfoldable pub reach_finalized : ℕ → String → Cursor → Store R → Result R
  unfolding reconcile_finalized
  reach_finalized target hash c s =
      let (o, after) =
        reconcile_finalized header_number answers.hash_at target hash answers.scan_endpoint clocks
          config.scan_concurrency s in
      (o, record c { last_finalized_hash = some hash; last_finalized_number = some target }, after)

  -- the iteration for a target whose hash was asked for
  unfoldable pub drain_to : ℕ → Outcome String String → Cursor → Store R → Result R
  unfolding reach_finalized scan_finalized_chain
  drain_to target (raised e) c s = (raised e, c, s)
  drain_to target (returned hash) c s =
      and_do (scan_finalized_chain chain_error decode digest config answers clocks target c s)
        (reach_finalized target hash)

  unfoldable pub drain_target : Option ℕ → Cursor → Store R → Result R
  unfolding drain_to
  drain_target none c s = (returned tt, c, s)
  drain_target (some target) c s = drain_to target (answers.hash_at target) c s

  -- an iteration of _drain_finalized_scans
  unfoldable pub drain_finalized : Cursor → Store R → Result R
  unfolding drain_target next_target
  drain_finalized c s =
      drain_target (pending_target config c.pending_finalized_number c.last_finalized_number) c s

  -- the iteration of _drain_best_scans for a target
  unfoldable pub best_from : Option ℕ → ℕ → Cursor → Store R → Result R
  unfolding fast_forward scan_best_chain batch_target
  best_from none target c s =
      fast_forward chain_error decode digest config answers clocks target c s
  best_from (some previous) target c s =
      if leb target previous
      then (returned tt, c, s)
      else scan_best_chain chain_error decode digest config answers clocks (previous + 1)
          (batch_target config target previous) c s

  -- an iteration of _drain_best_scans
  unfoldable pub drain_best : Cursor → Store R → Result R
  unfolding best_from
  drain_best c s = elim c.pending_best_number [
    | none ↦ (returned tt, c, s)
    | some target ↦ best_from c.last_best_number target c s
  ]
