-- ===== src/Recovery/Finality.antt =====
-- src/deepx_sdk/_async_recovery.py: _reconcile_finalized, which compares the blocks of the included
-- transactions with the finalized chain. The blocks are inspected in batches; an error of one is
-- noted on its transactions and raised at the end of its batch. `header_number` and `hash_at` are
-- what the scan endpoint answers.
use deepx_python_sdk.Prelude.{
  ℕ, zero, suc, String, Bool, false, ◌&&◌, Option, none, some, List, [], ◌∷◌, Outcome, returned,
  raised, ltb, str_eq, if◌then◌else◌, take, drop, length, ◌++◌, member, string_eq, Dict,
}
use deepx_python_sdk.Ticket.{Ticket, add_rpc_error}
use deepx_python_sdk.Pending.{Failure}
use deepx_python_sdk.Tracker.{Tracked, Clocks}
use deepx_python_sdk.Tracker.Blocks.{Store}
use deepx_python_sdk.Tracker.Reconcile.{is_in_block, finalize_ancestor}
use deepx_python_sdk.Recovery.Diagnose.{require_for_mismatch}
use deepx_python_sdk.Recovery.Scan.{each_where, named}

-- pending.block_hash == block_hash
abbrev pub is_at : String → Option String → Bool
is_at block none = false
is_at block (some b) = str_eq b block

-- by_block.setdefault(block_hash, [])
abbrev add_block : Option String → List String → List String
add_block none blocks = blocks
add_block (some b) blocks = if member b blocks then blocks else blocks ++ (b ∷ [])

-- the results of inspect_block: an exception, a block that has no number or is not finalized yet, or
-- its number and the hash of the chain at that number
pub data Inspected : Type 0 where
  fails : String → Inspected
  not_yet : Inspected
  at_number : ℕ → String → Inspected

abbrev pub at_hash : ℕ → Outcome String String → Inspected
at_hash number (returned hash) = at_number number hash
at_hash number (raised cause) = fails cause

unfoldable pub inspect_number :
    (ℕ → Outcome String String) → ℕ → Outcome String (Option ℕ) → Inspected
inspect_number hash_at finalized_number (raised cause) = fails cause
inspect_number hash_at finalized_number (returned none) = not_yet
inspect_number hash_at finalized_number (returned (some number)) =
    if ltb finalized_number number then not_yet else at_hash number (hash_at number)

-- inspect_block
unfoldable pub inspect_block :
    (String → Outcome String (Option ℕ)) → (ℕ → Outcome String String) → ℕ → String → Inspected
unfolding inspect_number
inspect_block header_number hash_at finalized_number block =
    inspect_number hash_at finalized_number (header_number block)

-- the exception of a result, and first_error
abbrev pub error_of : Inspected → Option String
error_of (fails cause) = some cause
error_of not_yet = none
error_of (at_number number hash) = none

abbrev pub first_of : Option String → Option String → Option String
first_of (some a) b = some a
first_of none b = b

module _ {R : Type 0} where
  -- goes on if the call before returned
  unfoldable pub then_do :
      Outcome String (Unit {0}) × Store R
      → (Store R → Outcome String (Unit {0}) × Store R)
      → Outcome String (Unit {0}) × Store R
  then_do (returned u, s) f = f s
  then_do (raised e, s) f = (raised e, s)

  -- the keys of by_block after those in `blocks`
  unfoldable pub included_blocks : Dict String (Tracked R) → List String → List String
  unfolding is_in_block
  included_blocks [] blocks = blocks
  included_blocks ((h, x) ∷ rest) blocks =
      included_blocks rest
        (if is_in_block x.pending.status then add_block x.pending.block_hash blocks else blocks)

  -- what the loop does to a transaction in `block`, once the canonical hash is known
  unfoldable pub settle_canonical :
      (finalized_number : ℕ)
      → (finalized_hash endpoint : String) → Clocks
      → (included : ℕ) → (canonical block : String) → Ticket R
      → Outcome Failure (Unit {0}) × Ticket R
  settle_canonical finalized_number finalized_hash endpoint clocks included canonical block t =
      if str_eq canonical block
      then finalize_ancestor finalized_hash clocks.now t
      else require_for_mismatch included finalized_number endpoint clocks t

  -- what the loop does to a transaction in `block`, for the result of inspect_block
  unfoldable pub settle_inspected :
      (finalized_number : ℕ)
      → (finalized_hash endpoint : String) → Clocks
      → Inspected
      → (block : String) → Ticket R
      → Outcome Failure (Unit {0}) × Ticket R
  unfolding settle_canonical
  settle_inspected finalized_number finalized_hash endpoint clocks (fails cause) block t = (
    returned tt,
    record t { recovery = add_rpc_error "chain_getHeader/chain_getBlockHash" cause t.recovery },
  )
  settle_inspected finalized_number finalized_hash endpoint clocks not_yet block t =
      (returned tt, t)
  settle_inspected finalized_number finalized_hash endpoint clocks (at_number included canonical)
        block t =
      settle_canonical finalized_number finalized_hash endpoint clocks included canonical block t

  module _ (header_number : String → Outcome String (Option ℕ))
      (hash_at : ℕ → Outcome String String) (finalized_number : ℕ)
      (finalized_hash endpoint : String) (clocks : Clocks) where
    -- the loop over by_block[block_hash]
    unfoldable pub settle_block : String → Store R → Outcome String (Unit {0}) × Store R
    unfolding settle_inspected inspect_block is_in_block
    settle_block block s =
        let (o, after) =
          each_where (λ h x. is_in_block x.pending.status && is_at block x.pending.block_hash)
            (λ x.
              settle_inspected finalized_number finalized_hash endpoint clocks
                (inspect_block header_number hash_at finalized_number block) block x.pending)
            s.transactions in
        (named o, record s { transactions = after })

    -- the loop over a batch and its results, with the first error so far
    unfoldable pub settle_batch :
        List String → Option String → Store R → Outcome String (Unit {0}) × Store R
    unfolding settle_block then_do
    settle_batch [] none s = (returned tt, s)
    settle_batch [] (some cause) s = (raised cause, s)
    settle_batch (block ∷ blocks) first s = then_do (settle_block block s) (
        settle_batch blocks
          (first_of first (error_of (inspect_block header_number hash_at finalized_number block))))

    -- the loop over the batches, with rounds to spare
    unfoldable pub settle_batches :
        (rounds concurrency : ℕ) → List String → Store R → Outcome String (Unit {0}) × Store R
    unfolding settle_batch then_do
    settle_batches zero concurrency blocks s = (returned tt, s)
    settle_batches (suc rounds) concurrency blocks s =
        then_do (settle_batch (take concurrency blocks) none s)
          (settle_batches rounds concurrency (drop concurrency blocks))

    -- _reconcile_finalized
    unfoldable pub reconcile_finalized : ℕ → Store R → Outcome String (Unit {0}) × Store R
    unfolding settle_batches included_blocks
    reconcile_finalized concurrency s =
        let blocks = included_blocks s.transactions [] in
        settle_batches (length blocks) concurrency blocks s
