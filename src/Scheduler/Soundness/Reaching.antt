-- ===== src/Scheduler/Soundness/Reaching.antt =====
-- sim_kernel/src/scheduler.rs: every history keeps the map of tasks sound.
use mathlib.Core.List.{Permᴰ}
use panda_gen.Prelude.{
  ◌≡◌, refl, ◌∙◌, inl, inr, Option, none, some, arith, ◌==◌, Option-cases, Bool-cases,
}
use panda_gen.Scheduler.Types.{TaskId, RealTimeTask, SchedulerConfig}
use panda_gen.Scheduler.Tasks.{Tasks, get}
use panda_gen.Scheduler.State.{Scheduler, with_config, is_runnable, enqueue_runnable}
use panda_gen.Scheduler.Admission.{total_ppm}
use panda_gen.Scheduler.Switching.{
  preempt_current, preempt_runnable, preempt_quantum, preempt_exhausted, block_task, block_info,
  exit_task, cancel_task,
}
use panda_gen.Scheduler.Soundness.{AllValid, IsSound}
use panda_gen.Scheduler.Histories.{
  Step, enqueues, selects, ticks, wakes, sets_params, preempts, blocks, unblocks, exits, cancels,
  reorders, Reach, here, next,
}
use panda_gen.Scheduler.Soundness.Steps.{
  keep-IsSound, enqueue-IsSound, dequeue_next-IsSound, unblock_task-IsSound,
  wake_ready_tasks-IsSound, on_tick_advanced-IsSound,
}
use panda_gen.Scheduler.Soundness.Admitting.{set_real_time_params-IsSound}

preempt_runnable-IsSound :
    (s : Scheduler) (t : TaskId) (r : Option RealTimeTask)
    → IsSound s.tasks
    → IsSound (preempt_runnable s t r).tasks
unfolding preempt_runnable preempt_exhausted preempt_quantum enqueue_runnable block_info
preempt_runnable-IsSound s t none h = keep-IsSound s.tasks t _ (λ i. refl) h
preempt_runnable-IsSound s t (some rt) h = elim (Bool-cases (rt.remaining_budget == 0)) [
  | inl b ↦ rw b (keep-IsSound s.tasks t _ (λ i. refl) h)
  | inr b ↦ rw b (keep-IsSound s.tasks t _ (λ i. refl) h)
]

preempt_current-IsSound : (s : Scheduler) → IsSound s.tasks → IsSound (preempt_current s).0.tasks
unfolding preempt_current
preempt_current-IsSound s h = elim (Option-cases s.current_task) [
  | inl e ↦ rw (e, preempt_current) h
  | inr (t, e) ↦ elim (Option-cases (get s.tasks t)) [
    | inl e' ↦ rw (e, preempt_current) (rw e' h)
    | inr (info, e') ↦ elim (Bool-cases (is_runnable info.state)) [
      | inr b ↦ rw (e, preempt_current) (rw e' (rw b h))
      | inl b ↦
          rw (e, preempt_current) (rw e' (rw b (preempt_runnable-IsSound _ t info.realtime h)))
    ]
  ]
]

AllValid-perm : {m n : Tasks} → Permᴰ m n → AllValid n → AllValid m
AllValid-perm Permᴰ.nil a = a
AllValid-perm (Permᴰ.cons e p) (v, a) = (ground (arith, v), AllValid-perm p a)
AllValid-perm (Permᴰ.swap e f) (v, (w, a)) = ground (arith, v, w, a)
AllValid-perm (Permᴰ.trans p q) a = AllValid-perm p (AllValid-perm q a)

total_ppm-perm : {m n : Tasks} → Permᴰ m n → total_ppm m ≡ total_ppm n
unfolding total_ppm
total_ppm-perm Permᴰ.nil = refl
total_ppm-perm (Permᴰ.cons e p) = ground (arith, total_ppm-perm p)
total_ppm-perm (Permᴰ.swap e f) = ground arith
total_ppm-perm (Permᴰ.trans p q) = total_ppm-perm p ∙ total_ppm-perm q

pub Step-IsSound : {s u : Scheduler} → Step s u → IsSound s.tasks → IsSound u.tasks
unfolding block_task exit_task cancel_task block_info
Step-IsSound (enqueues s t e) h = enqueue-IsSound s t h
Step-IsSound (selects s e) h = dequeue_next-IsSound s h
Step-IsSound (ticks s u d e) h = on_tick_advanced-IsSound s u d e h
Step-IsSound (wakes s) h = wake_ready_tasks-IsSound s h
Step-IsSound (sets_params s t r) h = set_real_time_params-IsSound s t r h
Step-IsSound (preempts s) h = preempt_current-IsSound s h
Step-IsSound (blocks s t w) h = keep-IsSound s.tasks t _ (λ i. refl) h
Step-IsSound (unblocks s t) h = unblock_task-IsSound s t h
Step-IsSound (exits s t) h = keep-IsSound s.tasks t _ (λ i. refl) h
Step-IsSound (cancels s t) h = keep-IsSound s.tasks t _ (λ i. refl) h
Step-IsSound (reorders s m p d e) h = record {
  distinct = d;
  valid = AllValid-perm p h.valid;
  admitted = rw (total_ppm-perm p) h.admitted;
}

pub Reach-IsSound :
    (c : SchedulerConfig) {s : Scheduler} → Reach (with_config c) s → IsSound s.tasks
unfolding with_config total_ppm
Reach-IsSound c here = record { distinct = tt; valid = tt; admitted = omega arith }
Reach-IsSound c (next r st) = Step-IsSound st (Reach-IsSound c r)
