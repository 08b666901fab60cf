-- ===== src/Witnesses/Recovering.antt =====
-- src/deepx_sdk/_async_recovery.py and _async_tracker.py on a transaction in the third block after
-- the scan position.
use deepx_python_sdk.Prelude.{
  ◌<◌, ◌≤◌, str_eq, ℕ, ◌+◌, ◌-◌, ◌<◌, ◌≤◌, ◌≡◌, ◌⊎◌, refl, arith, String, Bool, false, Option, none,
  some, List, [], ◌∷◌, Outcome, returned, raised, if◌then◌else◌, ◌==◌,
}
use deepx_python_sdk.Status.{TxStatus, not_included, finalized}
use deepx_python_sdk.Ticket.{Ticket, new_ticket}
use deepx_python_sdk.Pending.Invariant.{accept, succeed, step, run}
use deepx_python_sdk.Tracker.{Tracked}
use deepx_python_sdk.Tracker.Blocks.{Store, Block, resolve_block}
use deepx_python_sdk.Tracker.Events.{
  apply_block, filter_events_for_extrinsic, failed_attrs, note_place,
}
use deepx_python_sdk.Tracker.Verdict.{judge}
use deepx_python_sdk.Tracker.Early.{Refused, submitting_verdict}
use deepx_python_sdk.Tracker.Once.{resolve_block_once}
use deepx_python_sdk.Recovery.{default_config, new_cursor, Cursor, Visit}
use deepx_python_sdk.Recovery.Walk.{walk}
use deepx_python_sdk.Recovery.Diagnose.{Scan, extrinsics, classify_stale}
use deepx_python_sdk.Recovery.Judgement.{RulesOut, not_included_means}
use deepx_python_sdk.Recovery.Scan.{Answers, has_pending}
use deepx_python_sdk.Recovery.Keeps.{AllTracked}
use deepx_python_sdk.Recovery.Drain.{drain_finalized}
use deepx_python_sdk.Recovery.Iteration.{drain-AllTracked, drain_progress}
use deepx_python_sdk.Recovery.Finality.{settle_inspected, inspect_block}
use deepx_python_sdk.Recovery.Canonical.{IsCanonical, finalized_is_canonical}
use deepx_python_sdk.Witnesses.Handles.{fresh, accepted_ticket}
use deepx_python_sdk.Witnesses.Tracking.{
  tracked_of, clocks, place, placed, foreign, no_chain_error, decoder, fresh-IsCoherent,
  fresh_no_retry,
}

-- the replies to a batch that begins at a number arrive in turns
abbrev replies : ℕ → List ℕ
replies n = (n + 1) ∷ n ∷ (n + 1) ∷ n ∷ []

abbrev visit : Visit ℕ ℕ
visit = record {
  ask = λ number s. if number == 6 then (raised "RPCError", s) else (returned "0xb", s + number);
  fetch = λ hash s. (returned s, s + 1);
  settle = λ hash m s. (returned hash, s + m);
}

abbrev block : Block ℕ
block = record {
  extrinsic_indexes = ("0xcc", 1) ∷ ("0xaa", 2) ∷ [];
  events = some (foreign ∷ placed ∷ []);
}

abbrev store : Store ℕ
store = record {
  transactions = ("0xaa", tracked_of fresh) ∷ [];
  block_transactions = ("0xb1", "0xaa" ∷ []) ∷ [];
  applied_block_transactions = [];
}

abbrev accepted_store : Store ℕ
accepted_store = record store { transactions = ("0xaa", tracked_of accepted_ticket) ∷ [] }

accepted_store_resolves :
    (resolve_block no_chain_error decoder "0xb1" block clocks accepted_store).0 ≡ returned tt
unfolding resolve_block run step new_ticket deepx_python_sdk.Prelude.get
    deepx_python_sdk.Prelude.member
accepted_store_resolves = refl

resolve_block_once_example :
    let after = (resolve_block no_chain_error decoder "0xb1" block clocks accepted_store).1 in
    let (o, again) =
      resolve_block no_chain_error decoder "0xb1" (record block { events = none }) clocks after in
    (o ≡ returned tt) × (again.transactions ≡ after.transactions)
resolve_block_once_example =
    resolve_block_once no_chain_error decoder "0xb1" block none clocks clocks accepted_store
      accepted_store_resolves

abbrev submitting : Tracked ℕ
submitting = tracked_of (record fresh { status = TxStatus.submitting })

submitting_verdict_example :
    let scoped = filter_events_for_extrinsic 2 (foreign ∷ placed ∷ []) in
    Refused
      (judge
        (λ a. decoder a (note_place place submitting.pending))
        submitting.expected_event
        scoped
        (failed_attrs scoped))
      (apply_block no_chain_error decoder place (some (foreign ∷ placed ∷ [])) clocks submitting)
submitting_verdict_example =
    submitting_verdict no_chain_error decoder place (foreign ∷ placed ∷ []) clocks submitting refl

abbrev scan : Scan
scan = record { start = 1; stop = 9; finalized_head = 9; endpoint = "wss://a" }

abbrev digest : String → String
digest item = "0xdd"

missing_is_marked :
    (classify_stale digest
      (extrinsics (some "0xff" ∷ []))
      "wss://a"
      scan
      clocks
      (some "wss://a")
      (tracked_of accepted_ticket)).1.status
    ≡ not_included
unfolding classify_stale run step new_ticket
missing_is_marked = refl

not_included_means_example :
    (accepted_ticket.status ≡ not_included)
    ⊎ RulesOut digest
        (extrinsics (some "0xff" ∷ []))
        "wss://a"
        (some "wss://a")
        (tracked_of accepted_ticket)
not_included_means_example =
    not_included_means digest (extrinsics (some "0xff" ∷ [])) "wss://a" scan clocks (some "wss://a")
      (tracked_of accepted_ticket) missing_is_marked

abbrev hashes : ℕ → Outcome String String
hashes number =
    if number == 6
    then raised "RPCError"
    else (if number == 4 then returned "0xb1" else returned "0xb0")

abbrev blocks : String → Outcome String (Block ℕ)
blocks hash = returned block

abbrev answers : Answers ℕ
answers = record {
  hash_at = hashes;
  best_orders = replies;
  finalized_orders = replies;
  block_at = blocks;
  best_head = raised "RPCError";
  pool = extrinsics [];
  scan_endpoint = "wss://a";
  pool_endpoint = "wss://a";
}

abbrev cursor : Cursor
cursor = record new_cursor { last_finalized_scan_number = some 2 }

store-AllTracked : AllTracked store.transactions
unfolding AllTracked
store-AllTracked = (record { coherent = fresh-IsCoherent; no_retry = fresh_no_retry }, tt)

abbrev numbers : String → Outcome String (Option ℕ)
numbers hash = if str_eq hash "0xb1" then returned (some 4) else returned none

abbrev behind : Cursor
behind = record cursor { last_finalized_number = some 2; pending_finalized_number = some 7 }

drain-AllTracked_example :
    AllTracked
      (drain_finalized no_chain_error decoder digest default_config answers clocks numbers behind
        store).2.transactions
drain-AllTracked_example =
    drain-AllTracked no_chain_error decoder digest default_config answers clocks numbers behind
      store store-AllTracked

drain_returns :
    (drain_finalized no_chain_error decoder digest default_config answers clocks numbers behind
      accepted_store).0
    ≡ returned tt
unfolding drain_finalized run step new_ticket deepx_python_sdk.Recovery.Scan.and_do has_pending walk
    deepx_python_sdk.Prelude.get deepx_python_sdk.Prelude.put deepx_python_sdk.Prelude.include
    deepx_python_sdk.Recovery.Scan.each_where deepx_python_sdk.Recovery.Diagnose.record_incomplete
    deepx_python_sdk.Recovery.Scan.prepare_hashed deepx_python_sdk.Recovery.Scan.index_fetched
    deepx_python_sdk.Recovery.Scan.apply_fetched
drain_returns = refl

drain_progress_example :
    (n : ℕ) × (2 < n)
    × (n ≤ 7)
    × ((drain_finalized no_chain_error decoder digest default_config answers clocks numbers behind
          accepted_store).1.last_finalized_number
        ≡ some n)
drain_progress_example =
    drain_progress no_chain_error decoder digest default_config answers clocks numbers 2 7 behind
      accepted_store (omega arith) refl refl (omega arith) drain_returns

abbrev included : Ticket ℕ
included = run (accept none 110 ∷ succeed (some 5) "0xb1" "0xaa" 120 ∷ []) fresh

included_is_finalized :
    (settle_inspected 7 "0xb7" "wss://a" clocks
      (inspect_block numbers hashes 7 "0xb1")
      "0xb1"
      included).1.status
    ≡ finalized
unfolding settle_inspected inspect_block run step new_ticket
    deepx_python_sdk.Tracker.Reconcile.finalize_ancestor
included_is_finalized = refl

finalized_is_canonical_example : (included.status ≡ finalized) ⊎ IsCanonical numbers hashes 7 "0xb1"
finalized_is_canonical_example =
    finalized_is_canonical numbers hashes 7 "0xb7" "wss://a" clocks "0xb1" included
      included_is_finalized
