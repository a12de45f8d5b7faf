-- ===== src/Scheduler/Placement.antt =====
-- sim_kernel/src/scheduler.rs: where a task stands. A runnable task is the current task or stands
-- once in the run queue; any other task is in neither place.
pub mod Ticks
pub mod Switches
use panda_gen.Prelude.{
  ℕ, zero, suc, ◌+◌, ◌≡◌, refl, ap, sym, ◌∙◌, Bool, true, false, not, List, [], ◌∷◌, ◌++◌, Option,
  none, some, subst, arith, if◌then◌else◌, ◌==◌, select, Option-cases, some_inj, Bool-cases, inl,
  inr, ltb, ◌&&◌, ◌||◌, u64_add,
}
use panda_gen.Scheduler.Types.{
  TaskId, TaskInfo, TaskState, RealTimeParams, RealTimeTask, SchedulerConfig, ScheduleEvent,
  new_realtime, runnable, exited, cancelled,
}
use panda_gen.Scheduler.Tasks.{Tasks, get, update, insert, get-update, get-insert, map_some}
use panda_gen.Scheduler.RunQueue
use panda_gen.Scheduler.RunQueue.{RunQueue}
use panda_gen.Scheduler.Deadlines.{refresh_tasks, refresh_task}
use panda_gen.Scheduler.State.{
  Scheduler, with_config, is_current, is_runnable, enqueue_runnable, enqueue, is_blocked, take_next,
  dequeue_next, unblock_task,
}
use panda_gen.Scheduler.Clock.{
  unblock_all, wake_ready_tasks, charge_current, charge, refresh_deadlines, on_tick_advanced,
  tasks_to_wake,
}
use panda_gen.Scheduler.Admission.{set_real_time_params, admit, utilization_ppm_with}
use panda_gen.Scheduler.Switching.{
  preempt_current, preempt_runnable, preempt_exhausted, preempt_quantum, block_task, block_info,
  set_state, withdraw, exit_task, cancel_task,
}
use panda_gen.Scheduler.Counting.{bit, count, count-remove, count-take_next, count-enqueue_runnable}

-- 1 for a task that is known and runnable, 0 for any other.
abbrev pub runnable_bit : Option TaskInfo → ℕ
runnable_bit none = 0
runnable_bit (some info) = bit (is_runnable info.state)

-- The places that a task holds: in the run queue, and as the current task.
abbrev pub places : Scheduler → TaskId → ℕ
places s t = count t s.run_queue + bit (is_current s.current_task t)

pub record IsPlaced (s : Scheduler) : Type 0 where
  pub at : (t : TaskId) → places s t ≡ runnable_bit (get s.tasks t)

pub with_config-IsPlaced : (c : SchedulerConfig) → IsPlaced (with_config c)
unfolding with_config get
with_config-IsPlaced c = record { at = λ t. refl }

-- The queue gains `t`, whatever else changed before.
enqueue_runnable-places :
    (s : Scheduler) (t u : TaskId) → places (enqueue_runnable s t) u ≡ places s u + bit (t == u)
unfolding enqueue_runnable
enqueue_runnable-places s t u = omega (arith, count-enqueue_runnable s t u)

enqueue_runnable-tasks : (s : Scheduler) (t : TaskId) → (enqueue_runnable s t).tasks ≡ s.tasks
unfolding enqueue_runnable
enqueue_runnable-tasks s t = refl

enqueue_runnable-current :
    (s : Scheduler) (t : TaskId) → (enqueue_runnable s t).current_task ≡ s.current_task
unfolding enqueue_runnable
enqueue_runnable-current s t = refl

pub enqueue-IsPlaced :
    (s : Scheduler) (t : TaskId)
    → runnable_bit (get s.tasks t) ≡ 0
    → IsPlaced s
    → IsPlaced (enqueue s t)
unfolding enqueue
enqueue-IsPlaced s t new p = record {
  at = λ u.
      rw (enqueue_runnable-places _ t u, enqueue_runnable-tasks, get-insert s.tasks t u)
        (ground (arith, p.at u));
}

pub dequeue_next-IsPlaced :
    (s : Scheduler) → s.current_task ≡ none → IsPlaced s → IsPlaced (dequeue_next s).0
unfolding dequeue_next
dequeue_next-IsPlaced s idle p = elim (Option-cases (take_next s)) [
  | inl e ↦ rw (e, dequeue_next) (record { at = λ u. ground (arith, p.at u) })
  | inr ((t, q), e) ↦
      rw (e, dequeue_next)
        (record {
          at = λ u. ground (
            arith,
            p.at u,
            count-take_next s q t u e,
            get-update s.tasks t u (λ info. record info { ticks_in_quantum = 0 }),
          );
        })
]

runnable_bit-map_some :
    (o : Option TaskInfo) (f : TaskInfo → TaskInfo)
    → ((info : TaskInfo) → (f info).state ≡ info.state)
    → runnable_bit (map_some f o) ≡ runnable_bit o
runnable_bit-map_some none f h = refl
runnable_bit-map_some (some info) f h = ap (λ st. bit (is_runnable st)) (h info)

-- A change of one entry that keeps its state keeps the places of every task.
keeps_state :
    (m : Tasks) (t u : TaskId) (f : TaskInfo → TaskInfo)
    → ((info : TaskInfo) → (f info).state ≡ info.state)
    → runnable_bit (get (update m t f) u) ≡ runnable_bit (get m u)
keeps_state m t u f h =
    rw (get-update m t u f) (ground (arith, runnable_bit-map_some (get m u) f h))
