-- ===== src/Tracker/Status.antt =====
-- src/deepx_sdk/_async_tracker.py: `_handle_status`, the answer to a notification of the node. The
-- update is Python's dict: its entries, each value a text or something else. Statuses are compared
-- as lower-case ASCII.
use deepx_python_sdk.Prelude.{
  ℕ, ◌+◌, String, Bool, true, false, ◌&&◌, Option, none, some, List, [], ◌∷◌, Outcome, returned,
  leb, if◌then◌else◌, ◌==◌,
}
use Prim.Native.Char.{code}
use deepx_python_sdk.Status.{TxStatus, created}
use deepx_python_sdk.Diagnostics.{
  from_node_reason, transaction_dropped, transaction_usurped, submission, unknown, replaced,
}
use deepx_python_sdk.Ticket.{Ticket}
use deepx_python_sdk.Pending.{
  Failure, mark_submitted, mark_invalid, mark_dropped, mark_usurped, mark_retracted, elapsed,
}
use deepx_python_sdk.Tracker.{
  Tracked, Effect, note_block, spawn_resolve, spawn_finalize, Reaction, Clocks, error_about,
  record_submission_endpoint, record_acceptance, record_inclusion,
}

pub data JsonValue : Type 0 where
  text : String → JsonValue
  other : JsonValue

pub data NodeStatus : Type 0 where
  pooled in_block finalized finality_timeout invalid dropped usurped retracted unknown_status :
      NodeStatus

-- the code point of the lower-case form of an ASCII letter
abbrev pub lower_code : ℕ → ℕ
lower_code c = if leb 65 c && leb c 90 then c + 32 else c

-- node_status.lower() == word, for a lower-case `word`
unfoldable pub lower_is : String → String → Bool
lower_is String.[] String.[] = true
lower_is (String.◌∷◌ c s) (String.◌∷◌ d t) = lower_code (code c) == code d && lower_is s t
lower_is _ _ = false

-- the tests on `normalized`, in their order
unfoldable pub classify : String → NodeStatus
unfolding lower_is
classify s =
    if lower_is s "future"
    then pooled
    else if lower_is s "ready"
    then pooled
    else if lower_is s "broadcast"
    then pooled
    else if lower_is s "inblock"
    then in_block
    else if lower_is s "finalized"
    then finalized
    else if lower_is s "finalitytimeout"
    then finality_timeout
    else if lower_is s "invalid"
    then invalid
    else if lower_is s "dropped"
    then dropped
    else if lower_is s "usurped"
    then usurped
    else if lower_is s "retracted"
    then retracted
    else unknown_status

-- value if isinstance(value, str) else fallback
abbrev pub text_or : JsonValue → String → String
text_or (text s) fallback = s
text_or other fallback = fallback

abbrev pub text_of : JsonValue → Option String
text_of (text s) = some s
text_of other = none

-- status in {CREATED, SUBMITTING}
unfoldable pub before_acceptance : TxStatus → Bool
before_acceptance created = true
before_acceptance TxStatus.submitting = true
before_acceptance _ = false

module _ {R : Type 0} where
  abbrev pub quiet : Tracked R → Reaction R
  quiet x = record { outcome = returned tt; tracked = x; effects = [] }

  -- a mark as the last thing that a branch does
  abbrev pub marked : Tracked R → Outcome Failure (Unit {0}) × Ticket R → Reaction R
  marked x (o, t) = record { outcome = o; tracked = record x { pending = t }; effects = [] }

  -- mark_submitted before acceptance, and otherwise only the node's word
  unfoldable pub accept_or_note : String → ℕ → Ticket R → Ticket R
  unfolding before_acceptance
  accept_or_note node_status now t =
      if before_acceptance t.status
      then (mark_submitted (some node_status) now t).1
      else record t { node_status = some node_status }

  -- what the branches "inblock" and "finalized" have in common
  unfoldable pub included : String → String → String → Effect → Clocks → Tracked R → Reaction R
  unfolding record_submission_endpoint record_acceptance record_inclusion accept_or_note
  included endpoint node_status block task clocks x =
      let y = record_acceptance clocks.counter x in
      let t =
        accept_or_note node_status clocks.now (record_submission_endpoint endpoint x.pending) in
      record {
        outcome = returned tt;
        tracked = record_inclusion clocks.counter (record y { pending = t });
        effects = note_block block x.pending.tx_hash ∷ task ∷ [];
      }

  -- one notification, past the test that it is a dict with one entry
  unfoldable pub handle_entry :
      String → String → JsonValue → NodeStatus → Clocks → Tracked R → Reaction R
  unfolding included record_submission_endpoint record_acceptance
  handle_entry endpoint node_status value pooled clocks x =
      let y = record_acceptance clocks.counter x in
      marked y (
        mark_submitted (some node_status) clocks.now
          (record_submission_endpoint endpoint x.pending))
  handle_entry endpoint node_status (text block) in_block clocks x =
      included endpoint node_status block (spawn_resolve block) clocks x
  handle_entry endpoint node_status (text block) finalized clocks x =
      included endpoint node_status block (spawn_finalize block) clocks x
  handle_entry endpoint node_status value finality_timeout clocks x =
      quiet (record x { pending = record x.pending { node_status = some node_status } })
  handle_entry endpoint node_status value invalid clocks x = marked x (
      mark_invalid
        (from_node_reason (text_or value "invalid") (some x.pending.tx_hash) x.pending.cloid
          (some x.pending.nonce) (elapsed clocks.monotonic x.pending) (some x.pending.identity)
          (some node_status))
        clocks.now x.pending)
  handle_entry endpoint node_status value dropped clocks x = marked x (
      mark_dropped
        (error_about transaction_dropped "TRANSACTION_DROPPED" submission unknown
          "Reconcile by tx hash/cloid before rebuilding or retrying." none (some node_status)
          clocks.monotonic x.pending)
        clocks.now x.pending)
  handle_entry endpoint node_status value usurped clocks x = marked x (
      mark_usurped
        (error_about transaction_usurped "TRANSACTION_USURPED" submission replaced
          "Track the replacement transaction; do not retry the old transaction." (text_of value)
          (some node_status) clocks.monotonic x.pending)
        clocks.now x.pending)
  handle_entry endpoint node_status value retracted clocks x =
      marked x (mark_retracted clocks.now (record x.pending { node_status = some node_status }))
  handle_entry endpoint node_status value _ clocks x = quiet x

  -- _handle_status; `none` is an update that is no dict
  unfoldable pub handle_status :
      String → Option (List (String × JsonValue)) → Clocks → Tracked R → Reaction R
  unfolding classify handle_entry
  handle_status endpoint (some ((node_status, value) ∷ [])) clocks x =
      handle_entry endpoint node_status value (classify node_status) clocks x
  handle_status endpoint _ clocks x = quiet x
