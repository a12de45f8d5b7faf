-- ===== src/Scheduler/Admission.antt =====
-- sim_kernel/src/scheduler.rs: real-time parameters and admission control.
use panda_gen.Prelude.{
  ℕ, ◌+◌, ◌*◌, ◌/◌, ◌%◌, ◌&&◌, ◌||◌, not, [], ◌∷◌, Option, none, some, Result, ok, err,
  if◌then◌else◌, ◌==◌, ltb,
}
use panda_gen.Scheduler.Types.{
  TaskId, TaskInfo, RealTimeParams, new_realtime, SchedulerError, task_not_found,
  admission_control_failed,
}
use panda_gen.Scheduler.Tasks.{Tasks, get, update}
use panda_gen.Scheduler.RunQueue
use panda_gen.Scheduler.RunQueue.{RunQueue, insert_at, dequeue_earliest_deadline, is_empty, len}
use panda_gen.Scheduler.State.{Scheduler, is_current, is_runnable, enqueue_runnable}

-- Parts per million of the processor that the parameters reserve.
unfoldable pub ppm : RealTimeParams → ℕ
ppm p = if ltb 0 p.period_ticks then p.budget_ticks * 1000000 / p.period_ticks else 0

unfoldable pub task_ppm : TaskInfo → ℕ
unfolding ppm
task_ppm info = elim info.realtime [ none ↦ 0 | some rt ↦ ppm rt.params ]

unfoldable pub total_ppm : Tasks → ℕ
unfolding task_ppm
total_ppm [] = 0
total_ppm ((t, info) ∷ m) = task_ppm info + total_ppm m

unfoldable pub real_time_utilization_ppm : Scheduler → ℕ
unfolding total_ppm
real_time_utilization_ppm s = total_ppm s.tasks % 18446744073709551616

unfoldable pub total_ppm_with : TaskId → RealTimeParams → Tasks → ℕ
unfolding task_ppm
total_ppm_with t params [] = 0
total_ppm_with t params ((u, info) ∷ m) =
    (if u == t then ppm params else task_ppm info) + total_ppm_with t params m

unfoldable pub utilization_ppm_with : Scheduler → TaskId → RealTimeParams → ℕ
unfolding total_ppm_with
utilization_ppm_with s t params = total_ppm_with t params s.tasks % 18446744073709551616

-- The scheduler once the task is found and admitted.
unfoldable pub admit : Scheduler → TaskId → RealTimeParams → TaskInfo → Scheduler
unfolding new_realtime
admit s t params info =
    let rt = new_realtime params s.current_ticks in
    let s' = record s { tasks = update s.tasks t (λ i. record i { realtime = some rt }) } in
    if is_runnable info.state && not (is_current s.current_task t)
    then enqueue_runnable (record s' { run_queue = RunQueue.remove s.run_queue t }) t
    else s'

unfoldable pub set_real_time_params :
    Scheduler → TaskId → RealTimeParams → Scheduler × Result SchedulerError Unit
unfolding admit
set_real_time_params s t params =
    if params.period_ticks == 0
      || (params.budget_ticks == 0 || ltb params.period_ticks params.budget_ticks)
    then (s, err admission_control_failed)
    else if ltb 1000000 (utilization_ppm_with s t params)
    then (s, err admission_control_failed)
    else elim (get s.tasks t) [
      | none ↦ (s, err (task_not_found t))
      | some info ↦ (admit s t params info, ok tt)
    ]

unfoldable pub real_time_params : Scheduler → TaskId → Option RealTimeParams
real_time_params s t = elim (get s.tasks t) [
  | none ↦ none
  | some info ↦ elim info.realtime [ none ↦ none | some rt ↦ some rt.params ]
]
