-- ===== src/Tracker/Blocks.antt =====
-- src/deepx_sdk/_async_tracker.py: resolve_block over all the transactions of the tracker, with the
-- candidates and the applied transactions that it keeps for each block, and
-- prepare_recovery_block. A transaction is active as long as its status is not terminal. The tasks
-- that fetch a block once, and the pruning of old blocks, are not kept: `Block` is what they fetch.
-- A set is a list in the order of iteration.
use deepx_python_sdk.Prelude.{
  ℕ, String, Bool, true, false, Option, none, some, List, [], ◌∷◌, Outcome, returned, raised,
  if◌then◌else◌, Dict, get, put, member, include, string_eq,
}
use deepx_python_sdk.Status.{TxStatus, submitted, retracted}
use deepx_python_sdk.Ticket.{Ticket}
use deepx_python_sdk.Pending.{Failure}
use deepx_python_sdk.Tracker.{Tracked, Clocks}
use deepx_python_sdk.Tracker.Events.{Event, Place, apply_block}

pub record Store (R : Type 0) : Type 0 where
  pub transactions : Dict String (Tracked R)
  pub block_transactions : Dict String (List String)
  pub applied_block_transactions : Dict String (List String)

-- a fetched block: the index of each extrinsic by its hash, and the events, if they can be fetched
pub record Block (A : Type 0) : Type 0 where
  pub extrinsic_indexes : Dict String ℕ
  pub events : Option (List (Event A))

abbrev pub or_empty : Option (List String) → List String
or_empty none = []
or_empty (some hs) = hs

-- the statuses that prepare_recovery_block looks for
unfoldable pub awaits_inclusion : TxStatus → Bool
awaits_inclusion TxStatus.submitting = true
awaits_inclusion submitted = true
awaits_inclusion retracted = true
awaits_inclusion _ = false

-- the list `matches`
unfoldable pub find_matches : Dict String ℕ → List String → List String → List (String × ℕ)
find_matches indexes applied [] = []
find_matches indexes applied (h ∷ hs) =
    let rest = find_matches indexes applied hs in
    if member h applied then rest else elim (get h indexes) [ none ↦ rest | some i ↦ (h, i) ∷ rest ]

-- applied.add of the candidates that the block does not hold
unfoldable pub add_absent : Dict String ℕ → List String → List String → List String
add_absent indexes [] applied = applied
add_absent indexes (h ∷ hs) applied = elim (get h indexes) [
  | none ↦ add_absent indexes hs (include h applied)
  | some i ↦ add_absent indexes hs applied
]

-- the matches that were not applied while the events were awaited
unfoldable pub not_applied : List String → List (String × ℕ) → List (String × ℕ)
not_applied applied [] = []
not_applied applied ((h, i) ∷ rest) =
    let left = not_applied applied rest in if member h applied then left else (h, i) ∷ left

module _ {R : Type 0} where
  -- candidates.add for the active transactions
  unfoldable pub add_active : Dict String (Tracked R) → List String → List String
  unfolding awaits_inclusion
  add_active [] candidates = candidates
  add_active ((h, x) ∷ rest) candidates =
      add_active rest
        (if awaits_inclusion x.pending.status then include h candidates else candidates)

  unfoldable pub prepare_recovery_block : String → Store R → Store R
  unfolding add_active
  prepare_recovery_block block_hash s = record s {
    block_transactions =
        put block_hash (add_active s.transactions (or_empty (get block_hash s.block_transactions)))
          s.block_transactions;
  }

  -- applied.add(tx_hash)
  unfoldable pub note_applied : String → String → Store R → Store R
  note_applied block_hash h s = record s {
    applied_block_transactions =
        put block_hash (include h (or_empty (get block_hash s.applied_block_transactions)))
          s.applied_block_transactions;
  }

  -- the part of resolve_block between its two waits: the list `matches`, and the candidates that the
  -- block does not hold
  unfoldable pub index_block :
      {A : Type 0} → String → Block A → Store R → List (String × ℕ) × Store R
  unfolding find_matches add_absent
  index_block block_hash b s =
      let candidates = or_empty (get block_hash s.block_transactions) in
      let applied = or_empty (get block_hash s.applied_block_transactions) in
      (
        find_matches b.extrinsic_indexes applied candidates,
        record s {
          applied_block_transactions =
              put block_hash (add_absent b.extrinsic_indexes candidates applied)
                s.applied_block_transactions;
        },
      )

  -- the test of the second loop of resolve_block, which a failure to fetch the events leaves out
  unfoldable pub remaining :
      {A : Type 0}
      → String
      → Option (List (Event A))
      → List (String × ℕ)
      → Store R
      → List (String × ℕ)
  unfolding not_applied
  remaining block_hash none matches s = matches
  remaining block_hash (some events) matches s =
      not_applied (or_empty (get block_hash s.applied_block_transactions)) matches

  module _ {A : Type 0} (chain_error : A → Option String)
      (decode : Option A → Ticket R → Outcome String (Option R)) where
    -- the transaction as apply_block leaves it
    unfoldable pub apply_to :
        Place
        → Option (List (Event A))
        → Clocks
        → String
        → Option (Tracked R)
        → Store R
        → Outcome Failure (Unit {0}) × Store R
    unfolding apply_block
    apply_to p events clocks h none s = (returned tt, s)
    apply_to p events clocks h (some x) s =
        let (o, t) = apply_block chain_error decode p events clocks x in
        (o, record s { transactions = put h (record x { pending = t }) s.transactions })

    -- the two loops over `matches`: an exception ends them
    unfoldable pub apply_matches :
        String
        → Option (List (Event A))
        → Clocks
        → List (String × ℕ)
        → Store R
        → Outcome Failure (Unit {0}) × Store R
    unfolding apply_to note_applied
    apply_matches block_hash events clocks [] s = (returned tt, s)
    apply_matches block_hash events clocks ((h, i) ∷ rest) s =
        let noted : Store R = note_applied block_hash h s in
        let (o, after) =
          apply_to (record { block_hash = block_hash; extrinsic_index = i }) events clocks h
            (get h s.transactions) noted in
        elim o [
          | returned u ↦ apply_matches block_hash events clocks rest after
          | raised e ↦ (raised e, after)
        ]

    -- resolve_block
    unfoldable pub resolve_block :
        String → Block A → Clocks → Store R → Outcome Failure (Unit {0}) × Store R
    unfolding apply_matches index_block
    resolve_block block_hash b clocks s =
        let (matches, indexed) = index_block block_hash b s in
        apply_matches block_hash b.events clocks matches indexed
