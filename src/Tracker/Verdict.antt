-- ===== src/Tracker/Verdict.antt =====
-- src/deepx_sdk/_async_tracker.py: the outcome that `resolve_block` gives an accepted transaction,
-- and which of the block's events it rests on.
use deepx_python_sdk.Prelude.{
  ℕ, ◌≡◌, refl, inl, inr, String, false, Option, Option-cases, is_some, if◌then◌else◌, none, some,
  List, [], ◌∷◌, ◌++◌, Outcome, returned, raised, arith,
}
use deepx_python_sdk.Status.{submitted, in_block_success, in_block_failed, reconciliation_required}
use deepx_python_sdk.Diagnostics.{TransactionError}
use deepx_python_sdk.Ticket.{Ticket}
use deepx_python_sdk.Pending.{
  Failure, mark_in_block_success, mark_in_block_failed, mark_reconciliation_required,
}
use deepx_python_sdk.Tracker.{Tracked, Clocks, ExpectedEvent}
use deepx_python_sdk.Tracker.Firsts.{First, first_matching-First, attributes_of, failed_attrs-first}
use deepx_python_sdk.Tracker.Events.{
  Event, is_idx, Place, note_place, filter_events_for_extrinsic, failed_attrs, first_matching,
  mark_included_unresolved, apply_decoded, apply_match, apply_failed, apply_block,
}

-- how a transaction went, as its block tells
pub data Verdict (R : Type 0) : Type 0 where
  success : Option R → Verdict R
  failure : Verdict R
  unresolved : Verdict R

-- the verdict on the events of one transaction: the dispatch error comes first, then the expected
-- event and the caller's decoder
abbrev pub judged : {R : Type 0} → Outcome String (Option R) → Verdict R
judged (returned r) = success r
judged (raised e) = unresolved

abbrev pub judge_match :
    {R A : Type 0} → (Option A → Outcome String (Option R)) → Option (Event A) → Verdict R
judge_match decode none = unresolved
judge_match decode (some e) = judged (decode e.attributes)

abbrev pub judge :
    {R A : Type 0}
    → (Option A → Outcome String (Option R))
    → ExpectedEvent
    → List (Event A)
    → Option A
    → Verdict R
judge decode expected scoped (some attrs) = failure
judge decode expected scoped none =
    judge_match decode (first_matching expected.pallet expected.event scoped)

-- the verdict on the first ExtrinsicFailed and the first expected event of a transaction
abbrev pub weigh :
    {R A : Type 0}
    → (Option A → Outcome String (Option R))
    → Option (Event A)
    → Option (Event A)
    → Verdict R
weigh decode none found = judge_match decode found
weigh decode (some e) found = if is_some e.attributes then failure else judge_match decode found

judge-weigh :
    {R A : Type 0} (decode : Option A → Outcome String (Option R)) (expected : ExpectedEvent)
    (es : List (Event A)) (dispatch : Option (Event A))
    → judge decode expected es (attributes_of dispatch)
      ≡ weigh decode dispatch (first_matching expected.pallet expected.event es)
unfolding attributes_of
judge-weigh decode expected es none = refl
judge-weigh decode expected es (some e) = elim (Option-cases e.attributes) [
  | inl absent ↦ rw absent refl
  | inr (a, present) ↦ rw present refl
]

-- what a handle looks like after its verdict
abbrev pub Reached : {R : Type 0} → Verdict R → Ticket R → Type 0
Reached (success r) t = (t.status ≡ in_block_success) × (t.result ≡ r)
Reached failure t = t.status ≡ in_block_failed
Reached unresolved t = t.status ≡ reconciliation_required

abbrev Settled : {R : Type 0} → Verdict R → Outcome Failure (Unit {0}) × Ticket R → Type 0
Settled v (o, t) = (o ≡ returned tt) × Reached v t

module _ {R : Type 0} where
  success-Settled :
      (r : Option R) (b x : String) (now : ℕ) (t : Ticket R)
      → t.status ≡ submitted
      → Settled (success r) (mark_in_block_success r b x now t)
  unfolding mark_in_block_success
  success-Settled r b x now t h = ground arith

  failure-Settled :
      (e : TransactionError) (now : ℕ) (t : Ticket R)
      → t.status ≡ submitted
      → Settled failure (mark_in_block_failed e now t)
  unfolding mark_in_block_failed
  failure-Settled e now t h = ground arith

  reconciliation-Settled :
      (e : TransactionError) (now : ℕ) (t : Ticket R)
      → t.status ≡ submitted
      → Settled unresolved (mark_reconciliation_required e now t)
  unfolding mark_reconciliation_required
  reconciliation-Settled e now t h = ground arith

  unresolved-Settled :
      (p : Place) (reason cause : String) (clocks : Clocks) (t : Ticket R)
      → t.status ≡ submitted
      → Settled unresolved (mark_included_unresolved p reason cause clocks t)
  unfolding mark_included_unresolved note_place
  unresolved-Settled p reason cause clocks t h = reconciliation-Settled _ clocks.now _ h

  module _ {A : Type 0} (chain_error : A → Option String)
      (decode : Option A → Ticket R → Outcome String (Option R)) where
    decoded-Settled :
        (p : Place) (o : Outcome String (Option R)) (clocks : Clocks) (t : Ticket R)
        → t.status ≡ submitted
        → Settled (judged o) (apply_decoded chain_error decode p o clocks t)
    unfolding apply_decoded
    decoded-Settled p (returned r) clocks t h = success-Settled r _ _ _ t h
    decoded-Settled p (raised e) clocks t h = unresolved-Settled p _ e clocks t h

    match-Settled :
        (p : Place) (o : Option (Event A)) (clocks : Clocks) (t : Ticket R)
        → t.status ≡ submitted
        → Settled (judge_match (λ a. decode a t) o) (apply_match chain_error decode p o clocks t)
    unfolding apply_match
    match-Settled p none clocks t h = unresolved-Settled p _ _ clocks t h
    match-Settled p (some e) clocks t h = decoded-Settled p (decode e.attributes t) clocks t h

    failed-Settled :
        (p : Place) (expected : ExpectedEvent) (es : List (Event A)) (o : Option A)
        (clocks : Clocks) (t : Ticket R)
        → t.status ≡ submitted
        → Settled
            (judge (λ a. decode a t) expected es o)
            (apply_failed chain_error decode p expected es o clocks t)
    unfolding apply_failed
    failed-Settled p expected es none clocks t h = match-Settled p _ clocks t h
    failed-Settled p expected es (some a) clocks t h = failure-Settled _ _ t h

    scoped_verdict :
        (p : Place) (es : List (Event A)) (clocks : Clocks) (x : Tracked R)
        → x.pending.status ≡ submitted
        → let scoped = filter_events_for_extrinsic p.extrinsic_index es in
          Settled
            (judge
              (λ a. decode a (note_place p x.pending))
              x.expected_event
              scoped
              (failed_attrs scoped))
            (apply_block chain_error decode p (some es) clocks x)
    unfolding apply_block note_place
    scoped_verdict p es clocks x h =
        failed-Settled p x.expected_event _ _ clocks (note_place p x.pending) h

    -- For an accepted transaction that is found in a block whose events were fetched, the
    -- resolution returns. Of all the events of the block that name the transaction's extrinsic, it
    -- rests on the first System.ExtrinsicFailed and on the first event that the caller expects: an
    -- ExtrinsicFailed with attributes makes the handle failed; otherwise the expected event with a
    -- result that decodes makes it succeed with that result; in all other cases the handle asks
    -- for reconciliation.
    pub block_verdict :
        (p : Place) (es : List (Event A)) (clocks : Clocks) (x : Tracked R)
        → x.pending.status ≡ submitted
        → let (o, t) = apply_block chain_error decode p (some es) clocks x in
          (dispatch : Option (Event A)) × (found : Option (Event A)) × First p.extrinsic_index
            "System" "ExtrinsicFailed" es dispatch
          × First p.extrinsic_index x.expected_event.pallet x.expected_event.event es found
          × (o ≡ returned tt)
          × Reached (weigh (λ a. decode a (note_place p x.pending)) dispatch found) t
    block_verdict p es clocks x h =
        let scoped = filter_events_for_extrinsic p.extrinsic_index es in
        let dispatch = first_matching "System" "ExtrinsicFailed" scoped in
        let expected = x.expected_event in
        let found = first_matching expected.pallet expected.event scoped in
        let (returns, reached) = scoped_verdict p es clocks x h in
        (
          dispatch,
          found,
          first_matching-First p.extrinsic_index "System" "ExtrinsicFailed" es,
          first_matching-First p.extrinsic_index expected.pallet expected.event es,
          returns,
          rw (failed_attrs-first scoped, judge-weigh) at reached,
        )

    filter_skips :
        (i : ℕ) (es fs : List (Event A)) (e : Event A)
        → is_idx e.extrinsic_idx i ≡ false
        → filter_events_for_extrinsic i (es ++ (e ∷ fs)) ≡ filter_events_for_extrinsic i (es ++ fs)
    unfolding filter_events_for_extrinsic
    filter_skips i [] fs e h = rw h refl
    filter_skips i (d ∷ es) fs e h = rw (filter_skips i es fs e h) refl

    -- An event of another extrinsic, wherever it stands in the block, has no influence on what
    -- the resolution does to a transaction.
    pub foreign_event_ignored :
        (p : Place) (es fs : List (Event A)) (e : Event A) (clocks : Clocks) (x : Tracked R)
        → is_idx e.extrinsic_idx p.extrinsic_index ≡ false
        → apply_block chain_error decode p (some (es ++ (e ∷ fs))) clocks x
          ≡ apply_block chain_error decode p (some (es ++ fs)) clocks x
    unfolding apply_block
    foreign_event_ignored p es fs e clocks x h = rw (filter_skips p.extrinsic_index es fs e h) refl
