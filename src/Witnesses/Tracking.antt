-- ===== src/Witnesses/Tracking.antt =====
-- src/deepx_sdk/_async_tracker.py on a concrete transaction, its notifications and its block.
use deepx_python_sdk.Prelude.{
  ℕ, ◌≡◌, ◌↔◌, refl, String, true, false, Option, none, some, List, [], ◌∷◌, Outcome, returned,
  raised,
}
use deepx_python_sdk.Status.{TxStatus, in_block_success}
use deepx_python_sdk.Ticket.{Ticket, new_ticket, default_timeouts}
use deepx_python_sdk.Pending.Waits.{safe_to_retry}
use deepx_python_sdk.Pending.Invariant.{IsCoherent, run}
use deepx_python_sdk.Pending.Coherence.{IsCoherent-always}
use deepx_python_sdk.Tracker.{Tracked, Clocks}
use deepx_python_sdk.Tracker.Status.{text, NodeStatus, classify, handle_status}
use deepx_python_sdk.Tracker.Events.{Event, Place, note_place, apply_block}
use deepx_python_sdk.Tracker.Calls.{
  TrackerCall, notify, resolve_at, finalize_at, perform_all, never_offers_retry,
}
use deepx_python_sdk.Tracker.News.{reports_outcome, retraction_exact}
use deepx_python_sdk.Tracker.Firsts.{First}
use deepx_python_sdk.Tracker.Verdict.{block_verdict, Reached, weigh}
use deepx_python_sdk.Witnesses.Handles.{fresh, accepted_ticket}

abbrev pub tracked_of : Ticket ℕ → Tracked ℕ
tracked_of t = record {
  data_hex = "0x00";
  pending = t;
  expected_event = record { pallet = "SpotMarket"; event = "OrderPlaced" };
  submit_started_ns = 0;
  accepted_ns = none;
  in_block_received_ns = none;
  in_block_completed_ns = none;
  subscription_id = none;
}

abbrev pub clocks : Clocks
clocks = record { now = 200; monotonic = 200; counter = 9 }

abbrev pub place : Place
place = record { block_hash = "0xb1"; extrinsic_index = 2 }

abbrev pub placed : Event ℕ
placed = record {
  extrinsic_idx = some 2;
  module_id = "SpotMarket";
  event_id = "OrderPlaced";
  attributes = some 42;
}

abbrev pub foreign : Event ℕ
foreign = record {
  extrinsic_idx = some 3;
  module_id = "System";
  event_id = "ExtrinsicFailed";
  attributes = some 1;
}

abbrev pub no_chain_error : ℕ → Option String
no_chain_error a = none

abbrev pub decoder : Option ℕ → Ticket ℕ → Outcome String (Option ℕ)
decoder none t = raised "KeyError"
decoder (some a) t = returned (some a)

abbrev inclusion_calls : List (TrackerCall ℕ)
inclusion_calls =
    notify "wss://a" (some (("ready", text "") ∷ [])) clocks
    ∷ resolve_at place (some (foreign ∷ placed ∷ [])) clocks
    ∷ finalize_at "0xb1" 210
    ∷ []

inclusion_run :
    (perform_all no_chain_error decoder inclusion_calls (tracked_of fresh)).pending.status
    ≡ TxStatus.finalized
unfolding perform_all deepx_python_sdk.Tracker.Calls.perform
    deepx_python_sdk.Pending.mark_in_block_success deepx_python_sdk.Pending.mark_submitted
    new_ticket deepx_python_sdk.Pending.mark_finalized
inclusion_run = refl

pub fresh-IsCoherent : IsCoherent fresh
unfolding new_ticket run
fresh-IsCoherent = IsCoherent-always 1 "0xaa" 7 none default_timeouts none 100 100 []

pub fresh_no_retry : safe_to_retry fresh ≡ false
unfolding safe_to_retry new_ticket
fresh_no_retry = refl

never_offers_retry_example :
    IsCoherent (perform_all no_chain_error decoder inclusion_calls (tracked_of fresh)).pending
    × (safe_to_retry (perform_all no_chain_error decoder inclusion_calls (tracked_of fresh)).pending
        ≡ false)
never_offers_retry_example =
    never_offers_retry no_chain_error decoder inclusion_calls (tracked_of fresh) fresh-IsCoherent
      fresh_no_retry

block_verdict_example :
    let events = foreign ∷ placed ∷ [] in
    let (o, t) =
      apply_block no_chain_error decoder place (some events) clocks (tracked_of accepted_ticket) in
    (dispatch : Option (Event ℕ)) × (found : Option (Event ℕ)) × First 2 "System" "ExtrinsicFailed"
      events dispatch
    × First 2
        (tracked_of accepted_ticket).expected_event.pallet
        (tracked_of accepted_ticket).expected_event.event
        events
        found
    × (o ≡ returned tt)
    × Reached (weigh (λ a. decoder a (note_place place accepted_ticket)) dispatch found) t
unfolding run deepx_python_sdk.Pending.Invariant.step new_ticket
block_verdict_example =
    block_verdict no_chain_error decoder place (foreign ∷ placed ∷ []) clocks
      (tracked_of accepted_ticket) refl

abbrev done : Tracked ℕ
done = tracked_of (record accepted_ticket { status = in_block_success; result = some 42 })

timeout_reports :
    reports_outcome
      (handle_status "wss://a"
        (some (("finalityTimeout", text "") ∷ []))
        clocks
        done).tracked.pending.status
    ≡ true
unfolding handle_status reports_outcome
timeout_reports = refl

retracted_word : classify "retracted" ≡ NodeStatus.retracted
unfolding classify
retracted_word = refl

retraction_exact_example :
    ((handle_status "wss://a"
        (some (("retracted", text "0xb1") ∷ []))
        clocks
        (tracked_of accepted_ticket)).outcome
      ≡ returned tt)
    ↔ (accepted_ticket.status ≡ in_block_success)
retraction_exact_example =
    retraction_exact "wss://a" "retracted" (text "0xb1") clocks (tracked_of accepted_ticket)
      retracted_word
