-- ===== src/Scheduler/Switching.antt =====
-- sim_kernel/src/scheduler.rs: preemption, blocking, exit and cancellation, and the queries.
use panda_gen.Prelude.{ℕ, Bool, true, false, not, [], Option, none, some, if◌then◌else◌, ◌==◌, leb}
use panda_gen.Scheduler.Types.{
  TaskId, TaskInfo, TaskState, blocked, exited, cancelled, RealTimeTask, task_preempted,
  task_exited, quantum_expired, budget_exhausted, normal, resource_exhaustion,
}
use panda_gen.Scheduler.Tasks.{get, update}
use panda_gen.Scheduler.RunQueue
use panda_gen.Scheduler.RunQueue.{RunQueue, insert_at, dequeue_earliest_deadline, is_empty, len}
use panda_gen.Scheduler.State.{Scheduler, is_current, is_runnable, record_event, enqueue_runnable}

-- `realtime.remaining_budget == 0`, for a task with real-time parameters.
abbrev pub is_exhausted : Option RealTimeTask → Bool
is_exhausted none = false
is_exhausted (some rt) = rt.remaining_budget == 0

unfoldable pub should_preempt : Scheduler → TaskId → Bool
should_preempt s t = elim (get s.tasks t) [
  | none ↦ false
  | some info ↦
      if is_exhausted info.realtime then true else leb s.config.quantum_ticks info.ticks_in_quantum
]

unfoldable pub block_info : ℕ → TaskInfo → TaskInfo
block_info wake_tick info = record info { state = blocked wake_tick; ticks_in_quantum = 0 }

abbrev pub set_state : TaskState → TaskInfo → TaskInfo
set_state state info = record info { state = state }

-- The budget of the current task has run out: it sleeps until its deadline.
unfoldable pub preempt_exhausted : Scheduler → TaskId → RealTimeTask → Scheduler
unfolding block_info
preempt_exhausted s t rt =
    record_event (record s { tasks = update s.tasks t (block_info rt.next_deadline) })
      (task_preempted t budget_exhausted s.current_ticks)

unfoldable pub preempt_quantum : Scheduler → TaskId → Scheduler
preempt_quantum s t =
    record_event
      (enqueue_runnable
        (record s { tasks = update s.tasks t (λ info. record info { ticks_in_quantum = 0 }) }) t)
      (task_preempted t quantum_expired s.current_ticks)

-- The branch of `preempt_current` for a runnable task.
unfoldable pub preempt_runnable : Scheduler → TaskId → Option RealTimeTask → Scheduler
unfolding preempt_exhausted preempt_quantum
preempt_runnable s t none = preempt_quantum s t
preempt_runnable s t (some rt) =
    if rt.remaining_budget == 0 then preempt_exhausted s t rt else preempt_quantum s t

unfoldable pub preempt_current : Scheduler → Scheduler × Bool
unfolding preempt_runnable
preempt_current s =
    let s' = record s { current_task = none } in
    elim s.current_task [
      | none ↦ (s', false)
      | some t ↦ elim (get s.tasks t) [
        | none ↦ (s', false)
        | some info ↦
            if is_runnable info.state
            then (preempt_runnable s' t info.realtime, true)
            else (s', false)
      ]
    ]

-- The task leaves the run queue, and the processor if it is the current task.
unfoldable pub withdraw : Scheduler → TaskId → Scheduler
unfolding RunQueue.remove
withdraw s t = record s {
  run_queue = RunQueue.remove s.run_queue t;
  current_task = if is_current s.current_task t then none else s.current_task;
}

unfoldable pub block_task : Scheduler → TaskId → ℕ → Scheduler
unfolding block_info withdraw
block_task s t wake_tick = withdraw (record s { tasks = update s.tasks t (block_info wake_tick) }) t

unfoldable pub exit_task : Scheduler → TaskId → Scheduler
unfolding withdraw
exit_task s t =
    record_event (withdraw (record s { tasks = update s.tasks t (set_state exited) }) t)
      (task_exited t normal s.current_ticks)

unfoldable pub cancel_task : Scheduler → TaskId → Scheduler
unfolding withdraw
cancel_task s t =
    record_event (withdraw (record s { tasks = update s.tasks t (set_state cancelled) }) t)
      (task_exited t resource_exhaustion s.current_ticks)

unfoldable pub task_state : Scheduler → TaskId → Option TaskState
task_state s t = elim (get s.tasks t) [ none ↦ none | some info ↦ some info.state ]

unfoldable pub has_runnable_tasks : Scheduler → Bool
has_runnable_tasks s = not (is_empty s.run_queue)

unfoldable pub runnable_count : Scheduler → ℕ
runnable_count s = len s.run_queue

unfoldable pub clear_audit_log : Scheduler → Scheduler
clear_audit_log s = record s { audit_log = [] }
