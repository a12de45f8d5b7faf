-- ===== src/Scheduler/Histories.antt =====
-- sim_kernel/src/scheduler.rs: every history of calls of the scheduler, as a step relation. Between
-- two calls the `HashMap` may be met in another order.
use mathlib.Core.List.{Permᴰ}
use panda_gen.Prelude.{ℕ, ◌≡◌, ap, sym, ◌∙◌, none, some, Option-cases, inl, inr, arith}
use panda_gen.Scheduler.Types.{TaskId, RealTimeParams, SchedulerConfig, runnable}
use panda_gen.Scheduler.Tasks.{Tasks, get}
use panda_gen.Scheduler.State.{
  Scheduler, with_config, enqueue, dequeue_next, take_next, unblock_task,
}
use panda_gen.Scheduler.Clock.{wake_ready_tasks, on_tick_advanced}
use panda_gen.Scheduler.Admission.{set_real_time_params}
use panda_gen.Scheduler.Switching.{preempt_current, block_task, exit_task, cancel_task, task_state}
use panda_gen.Scheduler.Placement.{
  IsPlaced, runnable_bit, with_config-IsPlaced, enqueue-IsPlaced, dequeue_next-IsPlaced,
}
use panda_gen.Scheduler.Placement.Ticks.{
  unblock_task-IsPlaced, wake_ready_tasks-IsPlaced, on_tick_advanced-IsPlaced,
}
use panda_gen.Scheduler.Placement.Switches.{
  set_real_time_params-IsPlaced, preempt_current-IsPlaced, block_task-IsPlaced, exit_task-IsPlaced,
  cancel_task-IsPlaced,
}
use panda_gen.Scheduler.Waking.{DistinctKeys}
use panda_gen.Scheduler.Counting.{count, count-take_next}

-- The calls of the scheduler, where a task is enqueued that is not runnable already, and a task is
-- selected when none holds the processor. (The kernel's `run_for_ticks` may stop in the middle of a
-- quantum and select again while that task is current; such a history is not among these.)
pub data Step : Scheduler → Scheduler → Type 0 where
  enqueues : (s : Scheduler) (t : TaskId) → runnable_bit (get s.tasks t) ≡ 0 → Step s (enqueue s t)
  selects : (s : Scheduler) → s.current_task ≡ none → Step s (dequeue_next s).0
  ticks : (s u : Scheduler) (delta : ℕ) → on_tick_advanced s delta ≡ some u → Step s u
  wakes : (s : Scheduler) → Step s (wake_ready_tasks s)
  sets_params :
      (s : Scheduler) (t : TaskId) (p : RealTimeParams) → Step s (set_real_time_params s t p).0
  preempts : (s : Scheduler) → Step s (preempt_current s).0
  blocks : (s : Scheduler) (t : TaskId) (wake_tick : ℕ) → Step s (block_task s t wake_tick)
  unblocks : (s : Scheduler) (t : TaskId) → Step s (unblock_task s t)
  exits : (s : Scheduler) (t : TaskId) → Step s (exit_task s t)
  cancels : (s : Scheduler) (t : TaskId) → Step s (cancel_task s t)
  reorders :
      (s : Scheduler) (m : Tasks)
      → Permᴰ m s.tasks
      → DistinctKeys m
      → ((t : TaskId) → get m t ≡ get s.tasks t)
      → Step s (record s { tasks = m })

pub data Reach (s : Scheduler) : Scheduler → Type 0 where
  here : Reach s s
  next : {t u : Scheduler} → Reach s t → Step t u → Reach s u

Step-IsPlaced : {s u : Scheduler} → Step s u → IsPlaced s → IsPlaced u
Step-IsPlaced (enqueues s t h) p = enqueue-IsPlaced s t h p
Step-IsPlaced (selects s h) p = dequeue_next-IsPlaced s h p
Step-IsPlaced (ticks s u d h) p = on_tick_advanced-IsPlaced s u d h p
Step-IsPlaced (wakes s) p = wake_ready_tasks-IsPlaced s p
Step-IsPlaced (sets_params s t r) p = set_real_time_params-IsPlaced s t r p
Step-IsPlaced (preempts s) p = preempt_current-IsPlaced s p
Step-IsPlaced (blocks s t w) p = block_task-IsPlaced s t w p
Step-IsPlaced (unblocks s t) p = unblock_task-IsPlaced s t p
Step-IsPlaced (exits s t) p = exit_task-IsPlaced s t p
Step-IsPlaced (cancels s t) p = cancel_task-IsPlaced s t p
Step-IsPlaced (reorders s m q d h) p = record { at = λ t. p.at t ∙ ap runnable_bit (sym (h t)) }

-- After any history of the scheduler's calls from a new scheduler, in which a task is enqueued only
-- while it is not runnable and a task is selected only while none is current: each runnable task
-- either is the current task or stands exactly once in the run queue, and not both, and a task
-- that is blocked, exited, cancelled or unknown is in neither place.
pub Reach-IsPlaced : (c : SchedulerConfig) {s : Scheduler} → Reach (with_config c) s → IsPlaced s
Reach-IsPlaced c here = with_config-IsPlaced c
Reach-IsPlaced c (next r st) = Step-IsPlaced st (Reach-IsPlaced c r)

-- After any history of the scheduler's calls from a new scheduler, in which a task is enqueued only
-- while it is not runnable and a task is selected only while none is current: when no task is
-- current, the task that `dequeue_next` selects is known and runnable, and once it is selected it
-- stands in the queue no more.
pub dequeue_next-runnable :
    (c : SchedulerConfig) {s : Scheduler} (t : TaskId)
    → Reach (with_config c) s
    → s.current_task ≡ none
    → (dequeue_next s).1 ≡ some t
    → (task_state s t ≡ some runnable) × (count t (dequeue_next s).0.run_queue ≡ 0)
unfolding dequeue_next task_state
dequeue_next-runnable c {s = s} t r idle e = elim (Option-cases (take_next s)) [
  | inl n ↦ cc
  | inr ((u, q), n) ↦
      let placed = (Reach-IsPlaced c r).at t in
      (
        ground (arith, count-take_next s q u t n, placed),
        ground (arith, count-take_next s q u t n, placed),
      )
]
