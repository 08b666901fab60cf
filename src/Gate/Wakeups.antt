-- ===== src/Gate/Wakeups.antt =====
-- src/deepx_sdk/_async_encoder.py, _PriorityGate: no task sleeps while it could pass.
use deepx_python_sdk.Prelude.{
  ◌+◌, ◌<◌, ◌≡◌, ◌⊎◌, inl, inr, refl, Bool, true, false, ltb, Bool-cases, arith,
}
use deepx_python_sdk.Gate.{
  Gate, new_gate, notify_all, count_priority, uncount_priority, enter, may_pass, pass, sleep, check,
  cancel_awake, cancel_asleep, leave, Step, enters, checks, gives_up, is_cancelled, leaves, Steps,
  done, then_,
}
use deepx_python_sdk.Gate.Exclusion.{gate-Counted}

-- A sleeping task could not pass: the gate is busy, or the task has no priority and one with
-- priority waits.
pub record Heard (g : Gate) : Type 0 where
  pub priority_asleep : (g.asleep true ≡ 0) ⊎ (g.busy ≡ true)
  pub ordinary_asleep : (g.asleep false ≡ 0) ⊎ ((g.busy ≡ true) ⊎ (0 < g.priority_waiters))

enter-Heard : (priority : Bool) (g : Gate) → Heard g → Heard (enter priority g)
unfolding enter count_priority
enter-Heard true g h = ground (arith, h.priority_asleep, h.ordinary_asleep)
enter-Heard false g h = ground (arith, h.priority_asleep, h.ordinary_asleep)

check-Heard : (priority : Bool) (g : Gate) → Heard g → Heard (check priority g)
unfolding check may_pass pass sleep uncount_priority notify_all
check-Heard true g h = ground (arith, h.priority_asleep, h.ordinary_asleep)
check-Heard false g h = ground (arith, h.priority_asleep, h.ordinary_asleep)

cancel_awake-Heard : (priority : Bool) (g : Gate) → Heard g → Heard (cancel_awake priority g)
unfolding cancel_awake uncount_priority notify_all
cancel_awake-Heard true g h = ground (arith, h.priority_asleep, h.ordinary_asleep)
cancel_awake-Heard false g h = ground (arith, h.priority_asleep, h.ordinary_asleep)

cancel_asleep-Heard : (priority : Bool) (g : Gate) → Heard g → Heard (cancel_asleep priority g)
unfolding cancel_asleep uncount_priority notify_all
cancel_asleep-Heard true g h = ground (arith, h.priority_asleep, h.ordinary_asleep)
cancel_asleep-Heard false g h = ground (arith, h.priority_asleep, h.ordinary_asleep)

leave-Heard : (g : Gate) → Heard g → Heard (leave g)
unfolding leave notify_all
leave-Heard g h = ground arith

step-Heard : {g h : Gate} → Step g h → Heard g → Heard h
step-Heard (enters priority g) c = enter-Heard priority g c
step-Heard (checks priority g l) c = check-Heard priority g c
step-Heard (gives_up priority g l) c = cancel_awake-Heard priority g c
step-Heard (is_cancelled priority g l) c = cancel_asleep-Heard priority g c
step-Heard (leaves g l) c = leave-Heard g c

heard : {g h : Gate} → Steps g h → Heard g → Heard h
heard done c = c
heard (then_ s x) c = step-Heard x (heard s c)

new_gate-Heard : Heard new_gate
unfolding new_gate
new_gate-Heard = record { priority_asleep = inl refl; ordinary_asleep = inl refl }

-- No wake-up is lost: in every state that the gate reaches, a task that sleeps could not pass.
pub gate-Heard : (g : Gate) → Steps new_gate g → Heard g
gate-Heard g s = heard s new_gate-Heard

-- The gate cannot lock up: while tasks wait and none is in the body, some task is awake, and there
-- is one that passes when it reads the predicate.
pub gate_live :
    (g : Gate)
    → Steps new_gate g
    → g.inside ≡ 0
    → 0 < g.awake true + g.awake false + g.asleep true + g.asleep false
    → (priority : Bool) × (0 < g.awake priority) × (may_pass priority g ≡ true)
unfolding may_pass
gate_live g s h k =
    let c = gate-Counted g s in
    let w = gate-Heard g s in
    elim (Bool-cases (ltb 0 (g.awake true))) [
      | inl e ↦ (true, ground (arith, e), ground (arith, h, c.single))
      | inr e ↦ (
        false,
        ground (arith, h, k, e, c.waiting, c.single, w.priority_asleep, w.ordinary_asleep),
        ground (arith, h, k, e, c.waiting, c.single, w.priority_asleep),
      )
    ]
