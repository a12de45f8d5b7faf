-- ===== src/Scheduler/Placement/Ticks.antt =====
-- sim_kernel/src/scheduler.rs: waking and the tick keep every task in its place.
use panda_gen.Prelude.{
  ℕ, ◌≡◌, refl, sym, ◌∙◌, List, [], ◌∷◌, some, subst, arith, Option-cases, some_inj, Bool-cases,
  inl, inr, u64_add,
}
use panda_gen.Scheduler.Types.{TaskId, TaskInfo, ScheduleEvent}
use panda_gen.Scheduler.Tasks.{Tasks, get, get-update}
use panda_gen.Scheduler.Deadlines.{refresh_tasks, refresh_task}
use panda_gen.Scheduler.State.{Scheduler, is_blocked, unblock_task}
use panda_gen.Scheduler.Clock.{
  unblock_all, wake_ready_tasks, charge_current, charge, refresh_deadlines, on_tick_advanced,
}
use panda_gen.Scheduler.Placement.{
  IsPlaced, runnable_bit, keeps_state, enqueue_runnable-places, enqueue_runnable-tasks,
}

pub unblock_task-IsPlaced : (s : Scheduler) (t : TaskId) → IsPlaced s → IsPlaced (unblock_task s t)
unfolding unblock_task
unblock_task-IsPlaced s t p = elim (Option-cases (get s.tasks t)) [
  | inl e ↦ rw (e, unblock_task) p
  | inr (info, e) ↦ elim (Bool-cases (is_blocked info.state)) [
    | inr b ↦ rw (e, unblock_task) (rw b p)
    | inl b ↦
        rw (e, unblock_task)
          (rw b (record {
            at = λ u.
                rw (enqueue_runnable-places _ t u, enqueue_runnable-tasks, get-update s.tasks t u)
                  (ground (arith, p.at u));
          }))
  ]
]

pub unblock_all-IsPlaced :
    (s : Scheduler) (ts : List TaskId) → IsPlaced s → IsPlaced (unblock_all s ts)
unfolding unblock_all
unblock_all-IsPlaced s [] p = p
unblock_all-IsPlaced s (t ∷ ts) p =
    unblock_all-IsPlaced (unblock_task s t) ts (unblock_task-IsPlaced s t p)

pub wake_ready_tasks-IsPlaced : (s : Scheduler) → IsPlaced s → IsPlaced (wake_ready_tasks s)
unfolding wake_ready_tasks
wake_ready_tasks-IsPlaced s p = unblock_all-IsPlaced s _ p

charge_current-IsPlaced :
    (s : Scheduler) (delta : ℕ) → IsPlaced s → IsPlaced (charge_current s delta)
unfolding charge_current charge
charge_current-IsPlaced s delta p = elim (Option-cases s.current_task) [
  | inl e ↦ rw (e, charge_current) p
  | inr (t, e) ↦
      rw (e, charge_current)
        (record { at = λ u. p.at u ∙ sym (keeps_state s.tasks t u (charge delta) (λ _. refl)) })
]

refresh_task-state :
    (now : ℕ) (t : TaskId) (info info' : TaskInfo) (es : List ScheduleEvent)
    → refresh_task now t info ≡ some (info', es)
    → info'.state ≡ info.state
unfolding refresh_task
refresh_task-state now t info info' es h = ground arith

refresh_tasks-runnable :
    (now : ℕ) (m m' : Tasks) (es : List ScheduleEvent) (t : TaskId)
    → refresh_tasks now m ≡ some (m', es)
    → runnable_bit (get m' t) ≡ runnable_bit (get m t)
unfolding refresh_tasks get
refresh_tasks-runnable now [] m' es t h = ground arith
refresh_tasks-runnable now ((u, info) ∷ m) m' es t h =
    elim (Option-cases (refresh_task now u info)) [
      | inl e ↦ cc
      | inr ((info', fs), e) ↦ elim (Option-cases (refresh_tasks now m)) [
        | inl e' ↦ cc
        | inr ((r, gs), e') ↦ ground (
          arith,
          refresh_task-state now u info info' fs e,
          refresh_tasks-runnable now m r gs t e',
        )
      ]
    ]

refresh_deadlines-IsPlaced :
    (s u : Scheduler) → refresh_deadlines s ≡ some u → IsPlaced s → IsPlaced u
unfolding refresh_deadlines
refresh_deadlines-IsPlaced s u h p = elim (Option-cases (refresh_tasks s.current_ticks s.tasks)) [
  | inl e ↦ cc
  | inr ((m, es), e) ↦
      subst IsPlaced (some_inj (rw (e, refresh_deadlines) at h)) (record {
        at = λ t. p.at t ∙ sym (refresh_tasks-runnable s.current_ticks s.tasks m es t e);
      })
]

pub on_tick_advanced-IsPlaced :
    (s u : Scheduler) (delta : ℕ) → on_tick_advanced s delta ≡ some u → IsPlaced s → IsPlaced u
unfolding on_tick_advanced
on_tick_advanced-IsPlaced s u delta h p =
    let c : Scheduler =
      charge_current (record s { current_ticks = u64_add s.current_ticks delta }) delta in
    let placed : IsPlaced c = charge_current-IsPlaced _ delta (record { at = p.at }) in
    elim (Option-cases (refresh_deadlines c)) [
      | inl e ↦ cc
      | inr (r, e) ↦
          subst IsPlaced (some_inj (rw (e, on_tick_advanced) at h))
            (wake_ready_tasks-IsPlaced r (refresh_deadlines-IsPlaced c r e placed))
    ]
