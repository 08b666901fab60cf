-- ===== src/Gate/Exclusion.antt =====
-- src/deepx_sdk/_async_encoder.py, _PriorityGate: at most one task is in the body, and the count of
-- waiting tasks with priority is exact.
use deepx_python_sdk.Prelude.{◌+◌, ◌<◌, ◌≡◌, Bool, true, false, if◌then◌else◌, arith}
use deepx_python_sdk.Gate.{
  Gate, new_gate, notify_all, count_priority, uncount_priority, enter, may_pass, pass, sleep, check,
  cancel_awake, cancel_asleep, leave, Step, enters, checks, gives_up, is_cancelled, leaves, Steps,
  done, then_,
}

pub record Counted (g : Gate) : Type 0 where
  pub waiting : g.priority_waiters ≡ g.awake true + g.asleep true
  pub single : g.inside ≡ (if g.busy then 1 else 0)

enter-Counted : (priority : Bool) (g : Gate) → Counted g → Counted (enter priority g)
unfolding enter count_priority
enter-Counted true g h = ground arith
enter-Counted false g h = ground arith

check-Counted :
    (priority : Bool) (g : Gate) → 0 < g.awake priority → Counted g → Counted (check priority g)
unfolding check may_pass pass sleep uncount_priority notify_all
check-Counted true g l h = ground arith
check-Counted false g l h = ground arith

cancel_awake-Counted :
    (priority : Bool) (g : Gate)
    → 0 < g.awake priority
    → Counted g
    → Counted (cancel_awake priority g)
unfolding cancel_awake uncount_priority notify_all
cancel_awake-Counted true g l h = ground arith
cancel_awake-Counted false g l h = ground arith

cancel_asleep-Counted :
    (priority : Bool) (g : Gate)
    → 0 < g.asleep priority
    → Counted g
    → Counted (cancel_asleep priority g)
unfolding cancel_asleep uncount_priority notify_all
cancel_asleep-Counted true g l h = ground arith
cancel_asleep-Counted false g l h = ground arith

leave-Counted : (g : Gate) → 0 < g.inside → Counted g → Counted (leave g)
unfolding leave notify_all
leave-Counted g l h = ground arith

step-Counted : {g h : Gate} → Step g h → Counted g → Counted h
step-Counted (enters priority g) c = enter-Counted priority g c
step-Counted (checks priority g l) c = check-Counted priority g l c
step-Counted (gives_up priority g l) c = cancel_awake-Counted priority g l c
step-Counted (is_cancelled priority g l) c = cancel_asleep-Counted priority g l c
step-Counted (leaves g l) c = leave-Counted g l c

keeps : {g h : Gate} → Steps g h → Counted g → Counted h
keeps done c = c
keeps (then_ s x) c = step-Counted x (keeps s c)

new_gate-Counted : Counted new_gate
unfolding new_gate
new_gate-Counted = omega arith

-- Whatever tasks enter, wait, are cancelled and leave, in any order: one task is in the body exactly
-- if the gate is busy and none otherwise, and the count of waiting tasks with priority is exact.
pub gate-Counted : (g : Gate) → Steps new_gate g → Counted g
gate-Counted g s = keeps s new_gate-Counted

-- A task without priority passes only if no task is in the body and none with priority waits.
pub ordinary_pass :
    (g : Gate)
    → Steps new_gate g
    → may_pass false g ≡ true
    → (g.inside ≡ 0) × (g.awake true ≡ 0) × (g.asleep true ≡ 0)
unfolding may_pass
ordinary_pass g s h = let c = gate-Counted g s in ground (arith, c.waiting, c.single)
