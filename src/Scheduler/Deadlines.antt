-- ===== src/Scheduler/Deadlines.antt =====
-- sim_kernel/src/scheduler.rs, `refresh_deadlines`: the `while` of one task takes fuel, and `none`
-- is a loop that did not end within it. Deadlines/Loop has that the fuel given is enough.
pub mod Loop
use panda_gen.Prelude.{
  ℕ, zero, suc, ◌+◌, ◌-◌, List, [], ◌∷◌, ◌++◌, Option, none, some, if◌then◌else◌, ◌==◌, ltb, leb,
  u64_add,
}
use panda_gen.Scheduler.Types.{
  TaskId, TaskInfo, RealTimeTask, ScheduleEvent, deadline_missed, reset_for_next_period,
}
use panda_gen.Scheduler.Tasks.{Tasks}

-- One turn of the loop: the missed deadline is counted, and the next period begins.
unfoldable pub next_period : ℕ → TaskId → RealTimeTask → RealTimeTask × List ScheduleEvent
unfolding reset_for_next_period
next_period now t rt =
    if ltb 0 rt.remaining_budget
    then (
      reset_for_next_period (record rt { deadline_misses = u64_add rt.deadline_misses 1 }),
      deadline_missed t rt.next_deadline now ∷ [],
    )
    else (reset_for_next_period rt, [])

-- `while current_ticks >= realtime.next_deadline { … }`
unfoldable pub catch_up : ℕ → ℕ → TaskId → RealTimeTask → Option (RealTimeTask × List ScheduleEvent)
unfolding next_period
catch_up zero now t rt = none
catch_up (suc fuel) now t rt =
    let rest = catch_up fuel now t (next_period now t rt).0 in
    let more : Option (RealTimeTask × List ScheduleEvent) = elim rest [
      | none ↦ none
      | some (rt', events) ↦ some (rt', (next_period now t rt).1 ++ events)
    ] in
    if leb rt.next_deadline now then more else some (rt, [])

abbrev pub catch_up_fuel : ℕ → RealTimeTask → ℕ
catch_up_fuel now rt = suc (now + 1 - rt.next_deadline)

-- The body of the `for` over the tasks, for one of them.
unfoldable pub refresh_task : ℕ → TaskId → TaskInfo → Option (TaskInfo × List ScheduleEvent)
unfolding catch_up
refresh_task now t info = elim info.realtime [
  | none ↦ some (info, [])
  | some rt ↦
      if rt.params.period_ticks == 0
      then some (info, [])
      else elim (catch_up (catch_up_fuel now rt) now t rt) [
        | none ↦ none
        | some (rt', events) ↦ some (record info { realtime = some rt' }, events)
      ]
]

unfoldable pub refresh_tasks : ℕ → Tasks → Option (Tasks × List ScheduleEvent)
unfolding refresh_task
refresh_tasks now [] = some ([], [])
refresh_tasks now ((t, info) ∷ m) = elim (refresh_task now t info) [
  | none ↦ none
  | some (info', events) ↦ elim (refresh_tasks now m) [
    | none ↦ none
    | some (m', events') ↦ some ((t, info') ∷ m', events ++ events')
  ]
]
