-- ===== src/Scheduler/Clock.antt =====
-- sim_kernel/src/scheduler.rs, `on_tick_advanced` and `wake_ready_tasks`.
use panda_gen.Prelude.{
  ℕ, Bool, false, List, [], ◌∷◌, ◌++◌, Option, none, some, if◌then◌else◌, leb, u64_add,
  saturating_sub,
}
use panda_gen.Scheduler.Types.{TaskId, TaskInfo, TaskState, runnable, blocked, exited, cancelled}
use panda_gen.Scheduler.Tasks.{Tasks, update}
use panda_gen.Scheduler.Deadlines.{refresh_tasks}
use panda_gen.Scheduler.State.{Scheduler, unblock_task}

-- `wake_tick` reached
abbrev pub is_due : ℕ → TaskState → Bool
is_due now runnable = false
is_due now (blocked wake_tick) = leb wake_tick now
is_due now exited = false
is_due now cancelled = false

-- `tasks_to_wake`
unfoldable pub tasks_to_wake : ℕ → Tasks → List TaskId
tasks_to_wake now [] = []
tasks_to_wake now ((t, info) ∷ m) =
    if is_due now info.state then t ∷ tasks_to_wake now m else tasks_to_wake now m

unfoldable pub unblock_all : Scheduler → List TaskId → Scheduler
unblock_all s [] = s
unblock_all s (t ∷ ts) = unblock_all (unblock_task s t) ts

unfoldable pub wake_ready_tasks : Scheduler → Scheduler
wake_ready_tasks s = unblock_all s (tasks_to_wake s.current_ticks s.tasks)

-- The current task is charged for the ticks.
unfoldable pub charge : ℕ → TaskInfo → TaskInfo
charge delta info = record info {
  ticks_in_quantum = u64_add info.ticks_in_quantum delta;
  realtime = elim info.realtime [
    | none ↦ none
    | some rt ↦ some (record rt { remaining_budget = saturating_sub rt.remaining_budget delta })
  ];
}

unfoldable pub charge_current : Scheduler → ℕ → Scheduler
unfolding charge
charge_current s delta = elim s.current_task [
  | none ↦ s
  | some t ↦ record s { tasks = update s.tasks t (charge delta) }
]

unfoldable pub refresh_deadlines : Scheduler → Option Scheduler
refresh_deadlines s = elim (refresh_tasks s.current_ticks s.tasks) [
  | none ↦ none
  | some (m, events) ↦ some (record s { tasks = m; audit_log = s.audit_log ++ events })
]

-- `none` if a `while` of `refresh_deadlines` does not end.
unfoldable pub on_tick_advanced : Scheduler → ℕ → Option Scheduler
on_tick_advanced s delta =
    elim (refresh_deadlines
      (charge_current (record s { current_ticks = u64_add s.current_ticks delta }) delta)) [
        | none ↦ none
        | some s' ↦ some (wake_ready_tasks s')
      ]
