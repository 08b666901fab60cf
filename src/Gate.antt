-- ===== src/Gate.antt =====
-- src/deepx_sdk/_async_encoder.py: _PriorityGate, which lets one task at a time use the runtime and
-- lets tasks with priority pass the others. No task holds the lock of the condition across an await,
-- so what stands between two awaits is one step.
pub mod Exclusion
pub mod Wakeups
use deepx_python_sdk.Prelude.{
  ℕ, zero, suc, ◌+◌, ◌-◌, ◌<◌, ◌≡◌, Bool, true, false, not, ◌&&◌, ◌||◌, if◌then◌else◌, ltb, ◌==◌,
}

-- The fields of the gate, and the tasks in `slot`: those asleep on the condition, those that are to
-- read the predicate (on entry or after a notification), and those in the body.
pub record Gate : Type 0 where
  pub busy : Bool
  pub priority_waiters : ℕ
  pub asleep : Bool → ℕ
  pub awake : Bool → ℕ
  pub inside : ℕ

abbrev pub only : Bool → ℕ → Bool → ℕ
only true n true = n
only true n false = 0
only false n true = 0
only false n false = n

abbrev pub none_of : Bool → ℕ
none_of b = 0

unfoldable pub new_gate : Gate
new_gate = record {
  busy = false;
  priority_waiters = 0;
  asleep = none_of;
  awake = none_of;
  inside = 0;
}

abbrev pub more : Bool → (Bool → ℕ) → Bool → ℕ
more p f b = f b + only p 1 b

abbrev pub less : Bool → (Bool → ℕ) → Bool → ℕ
less p f b = f b - only p 1 b

-- condition.notify_all()
unfoldable pub notify_all : Gate → Gate
notify_all g = record g { asleep = none_of; awake = λ b. g.awake b + g.asleep b }

unfoldable pub count_priority : Bool → Gate → Gate
count_priority priority g =
    if priority then record g { priority_waiters = g.priority_waiters + 1 } else g

-- `finally: if priority: ...`
unfoldable pub uncount_priority : Bool → Gate → Gate
unfolding notify_all
uncount_priority priority g =
    if priority then notify_all (record g { priority_waiters = g.priority_waiters - 1 }) else g

-- a call of `slot` up to the first reading of the predicate
unfoldable pub enter : Bool → Gate → Gate
unfolding count_priority
enter priority g =
    let g' = count_priority priority g in record g' { awake = more priority g'.awake }

unfoldable pub may_pass : Bool → Gate → Bool
may_pass priority g = not g.busy && (priority || (g.priority_waiters == 0))

unfoldable pub pass : Bool → Gate → Gate
unfolding uncount_priority
pass priority g =
    uncount_priority priority
      (record g { busy = true; inside = g.inside + 1; awake = less priority g.awake })

unfoldable pub sleep : Bool → Gate → Gate
sleep priority g = record g { awake = less priority g.awake; asleep = more priority g.asleep }

-- wait_for reads the predicate
unfoldable pub check : Bool → Gate → Gate
unfolding may_pass pass sleep
check priority g = if may_pass priority g then pass priority g else sleep priority g

-- a task is cancelled in wait_for
unfoldable pub cancel_awake : Bool → Gate → Gate
unfolding uncount_priority
cancel_awake priority g = uncount_priority priority (record g { awake = less priority g.awake })

unfoldable pub cancel_asleep : Bool → Gate → Gate
unfolding uncount_priority
cancel_asleep priority g = uncount_priority priority (record g { asleep = less priority g.asleep })

-- the end of the body
unfoldable pub leave : Gate → Gate
unfolding notify_all
leave g = notify_all (record g { busy = false; inside = g.inside - 1 })

pub data Step : Gate → Gate → Type 0 where
  enters : (priority : Bool) (g : Gate) → Step g (enter priority g)
  checks : (priority : Bool) (g : Gate) → 0 < g.awake priority → Step g (check priority g)
  gives_up : (priority : Bool) (g : Gate) → 0 < g.awake priority → Step g (cancel_awake priority g)
  is_cancelled :
      (priority : Bool) (g : Gate) → 0 < g.asleep priority → Step g (cancel_asleep priority g)
  leaves : (g : Gate) → 0 < g.inside → Step g (leave g)

pub data Steps : Gate → Gate → Type 0 where
  done : {g : Gate} → Steps g g
  then_ : {g h k : Gate} → Steps g h → Step h k → Steps g k
