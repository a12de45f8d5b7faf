-- ===== src/Scheduler/Placement/Switches.antt =====
-- sim_kernel/src/scheduler.rs: admission, preemption, blocking, exit and cancellation keep every task in
-- its place.
use panda_gen.Prelude.{
  ℕ, ◌≡◌, refl, sym, ◌∙◌, true, not, Option, none, some, arith, ◌==◌, Option-cases, Bool-cases, inl,
  inr, ltb, ◌&&◌, ◌||◌,
}
use panda_gen.Scheduler.Types.{
  TaskId, TaskInfo, RealTimeParams, RealTimeTask, new_realtime, exited, cancelled,
}
use panda_gen.Scheduler.Tasks.{get, get-update}
use panda_gen.Scheduler.State.{Scheduler, is_current, is_runnable}
use panda_gen.Scheduler.Admission.{set_real_time_params, admit, utilization_ppm_with}
use panda_gen.Scheduler.Switching.{
  preempt_current, preempt_runnable, preempt_quantum, block_task, block_info, set_state, exit_task,
  cancel_task,
}
use panda_gen.Scheduler.Counting.{count-remove}
use panda_gen.Scheduler.Placement.{
  IsPlaced, keeps_state, enqueue_runnable-places, enqueue_runnable-tasks,
}

admit-IsPlaced :
    (s : Scheduler) (t : TaskId) (params : RealTimeParams) (info : TaskInfo)
    → get s.tasks t ≡ some info
    → IsPlaced s
    → IsPlaced (admit s t params info)
unfolding admit
admit-IsPlaced s t params info e p =
    let f : TaskInfo → TaskInfo =
      λ i. record i { realtime = some (new_realtime params s.current_ticks) } in
    elim (Bool-cases (is_runnable info.state && not (is_current s.current_task t))) [
      | inl b ↦ rw b (record {
        at = λ u.
            rw (enqueue_runnable-places _ t u, enqueue_runnable-tasks)
              (ground (
                arith,
                p.at u,
                p.at t,
                count-remove u t s.run_queue,
                keeps_state s.tasks t u f (λ _. refl),
              ));
      })
      | inr b ↦ rw b (record { at = λ u. p.at u ∙ sym (keeps_state s.tasks t u f (λ _. refl)) })
    ]

pub set_real_time_params-IsPlaced :
    (s : Scheduler) (t : TaskId) (params : RealTimeParams)
    → IsPlaced s
    → IsPlaced (set_real_time_params s t params).0
unfolding set_real_time_params
set_real_time_params-IsPlaced s t params p =
    elim (Bool-cases (
      params.period_ticks == 0
      || (params.budget_ticks == 0 || ltb params.period_ticks params.budget_ticks))) [
        | inl a ↦ rw a p
        | inr a ↦ rw a (elim (Bool-cases (ltb 1000000 (utilization_ppm_with s t params))) [
          | inl b ↦ rw b p
          | inr b ↦ rw b (elim (Option-cases (get s.tasks t)) [
            | inl e ↦ rw e p
            | inr (info, e) ↦ rw e (admit-IsPlaced s t params info e p)
          ])
        ])
      ]

module _ (s : Scheduler) (t : TaskId) (info : TaskInfo) (r : Option RealTimeTask) where
  preempt_quantum-IsPlaced :
      s.current_task ≡ some t
      → get s.tasks t ≡ some info
      → is_runnable info.state ≡ true
      → IsPlaced s
      → IsPlaced (preempt_quantum (record s { current_task = none }) t)
  unfolding preempt_quantum
  preempt_quantum-IsPlaced e e' b p = record {
    at = λ u.
        rw (enqueue_runnable-places _ t u, enqueue_runnable-tasks)
          (ground (
            arith,
            p.at u,
            keeps_state s.tasks t u (λ i. record i { ticks_in_quantum = 0 }) (λ _. refl),
          ));
  }

  preempt_runnable-IsPlaced :
      s.current_task ≡ some t
      → get s.tasks t ≡ some info
      → is_runnable info.state ≡ true
      → IsPlaced s
      → IsPlaced (preempt_runnable (record s { current_task = none }) t r)
  unfolding preempt_runnable
  preempt_runnable-IsPlaced e e' b p = elim (Option-cases r) [
    | inl n ↦ rw (n, preempt_runnable) (preempt_quantum-IsPlaced e e' b p)
    | inr (rt, n) ↦ elim (Bool-cases (rt.remaining_budget == 0)) [
      | inl z ↦
          rw (n, preempt_runnable)
            (rw z (record {
              at = λ u.
                  ground
                    (arith, p.at u, p.at t, get-update s.tasks t u (block_info rt.next_deadline));
            }))
      | inr z ↦ rw (n, preempt_runnable) (rw z (preempt_quantum-IsPlaced e e' b p))
    ]
  ]

pub preempt_current-IsPlaced : (s : Scheduler) → IsPlaced s → IsPlaced (preempt_current s).0
unfolding preempt_current
preempt_current-IsPlaced s p = elim (Option-cases s.current_task) [
  | inl e ↦ rw (e, preempt_current) (record { at = λ u. ground (arith, p.at u) })
  | inr (t, e) ↦ elim (Option-cases (get s.tasks t)) [
    | inl e' ↦ rw (e, preempt_current) (rw e' (record { at = λ u. ground (arith, p.at u, p.at t) }))
    | inr (info, e') ↦ elim (Bool-cases (is_runnable info.state)) [
      | inr b ↦
          rw (e, preempt_current)
            (rw e' (rw b (record { at = λ u. ground (arith, p.at u, p.at t) })))
      | inl b ↦
          rw (e, preempt_current)
            (rw e' (rw b (preempt_runnable-IsPlaced s t info info.realtime e e' b p)))
    ]
  ]
]

pub block_task-IsPlaced :
    (s : Scheduler) (t : TaskId) (wake_tick : ℕ) → IsPlaced s → IsPlaced (block_task s t wake_tick)
unfolding block_task
block_task-IsPlaced s t w p = record {
  at = λ u.
      ground (arith, p.at u, count-remove u t s.run_queue, get-update s.tasks t u (block_info w));
}

pub exit_task-IsPlaced : (s : Scheduler) (t : TaskId) → IsPlaced s → IsPlaced (exit_task s t)
unfolding exit_task
exit_task-IsPlaced s t p = record {
  at = λ u.
      ground
        (arith, p.at u, count-remove u t s.run_queue, get-update s.tasks t u (set_state exited));
}

pub cancel_task-IsPlaced : (s : Scheduler) (t : TaskId) → IsPlaced s → IsPlaced (cancel_task s t)
unfolding cancel_task
cancel_task-IsPlaced s t p = record {
  at = λ u.
      ground
        (arith, p.at u, count-remove u t s.run_queue, get-update s.tasks t u (set_state cancelled));
}
