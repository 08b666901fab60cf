-- ===== src/Recovery/Progress.antt =====
-- src/deepx_sdk/_async_recovery.py: the scan position over the finalized blocks.
use deepx_python_sdk.Prelude.{
  ℕ, ◌+◌, ◌-◌, ◌≤◌, ◌≡◌, String, Option, none, some, Outcome, raised, ◌⊎◌,
}
use deepx_python_sdk.Ticket.{Ticket}
use deepx_python_sdk.Tracker.{Clocks}
use deepx_python_sdk.Tracker.Blocks.{Store}
use deepx_python_sdk.Recovery.{RecoveryConfig}
use deepx_python_sdk.Recovery.Walk.{Last, ended}
use deepx_python_sdk.Recovery.Batches.{Course}
use deepx_python_sdk.Recovery.Coverage.{Reads}
use deepx_python_sdk.Recovery.Diagnose.{Scan}
use deepx_python_sdk.Recovery.Scan.{Answers, Result, resolve_block_number}

-- a call that leaves the scan position where it was
abbrev Stays : {R : Type 0} → Option ℕ → Result R → Type 0
Stays p r = r.1.last_finalized_scan_number ≡ p

module _ {R A : Type 0} (chain_error : A → Option String)
    (decode : Option A → Ticket R → Outcome String (Option R)) (digest : String → String)
    (config : RecoveryConfig) (answers : Answers A) (clocks : Clocks) where
  -- where a scan from `previous` to `stop` has come to: `u` is the tracker when its walk over the
  -- blocks ends
  abbrev pub Advances : ℕ → ℕ → Store R → Option ℕ → Type 0
  Advances previous stop s scanned =
      let visit = resolve_block_number chain_error decode digest config answers clocks in
      (n : ℕ) × (last : Last) × (u : Store R) × (n ≤ stop - previous)
      × (scanned ≡ some (previous + n))
      × Reads visit n (previous + 1) none s last u
      × ((n ≡ stop - previous)
          ⊎ ((cause : String) × Course visit (previous + 1 + n) s (ended (raised cause)) u))
