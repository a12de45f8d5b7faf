-- ===== src/Scheduler/Soundness/Steps.antt =====
-- sim_kernel/src/scheduler.rs: enqueueing, selection, waking and the tick keep the map of
-- tasks sound.
use panda_gen.Prelude.{
  ℕ, ◌≡◌, refl, subst, inl, inr, List, [], ◌∷◌, some, arith, Option-cases, Bool-cases, some_inj,
  u64_add,
}
use panda_gen.Scheduler.Types.{TaskId, TaskInfo}
use panda_gen.Scheduler.Tasks.{Tasks, get, update}
use panda_gen.Scheduler.Deadlines.{refresh_tasks}
use panda_gen.Scheduler.State.{
  Scheduler, is_blocked, enqueue, enqueue_runnable, take_next, dequeue_next, unblock_task,
}
use panda_gen.Scheduler.Clock.{
  charge, charge_current, unblock_all, wake_ready_tasks, refresh_deadlines, on_tick_advanced,
}
use panda_gen.Scheduler.Admission.{task_ppm}
use panda_gen.Scheduler.Soundness.{ValidInfo, IsSound, update-IsSound, insert-IsSound}
use panda_gen.Scheduler.Soundness.Refreshing.{refresh_tasks-IsSound}

-- A change of an entry that leaves the real-time part alone.
module _ (m : Tasks) (t : TaskId) (f : TaskInfo → TaskInfo)
    (same : (i : TaskInfo) → (f i).realtime ≡ i.realtime) where
  pub keep-IsSound : IsSound m → IsSound (update m t f)
  unfolding task_ppm
  keep-IsSound = update-IsSound m t f (λ i v. rw (same i, ValidInfo) v) (λ i. rw (same i))

charge-valid : (delta : ℕ) (i : TaskInfo) → ValidInfo i → ValidInfo (charge delta i)
unfolding charge
charge-valid delta i v = ground arith

charge-ppm : (delta : ℕ) (i : TaskInfo) → task_ppm (charge delta i) ≡ task_ppm i
unfolding charge task_ppm
charge-ppm delta i = ground arith

pub enqueue-IsSound : (s : Scheduler) (t : TaskId) → IsSound s.tasks → IsSound (enqueue s t).tasks
unfolding enqueue enqueue_runnable
enqueue-IsSound s t h = insert-IsSound s.tasks t _ refl h

pub dequeue_next-IsSound : (s : Scheduler) → IsSound s.tasks → IsSound (dequeue_next s).0.tasks
unfolding dequeue_next
dequeue_next-IsSound s h = elim (Option-cases (take_next s)) [
  | inl e ↦ rw (e, dequeue_next) h
  | inr ((t, q), e) ↦ rw (e, dequeue_next) (keep-IsSound s.tasks t _ (λ i. refl) h)
]

pub unblock_task-IsSound :
    (s : Scheduler) (t : TaskId) → IsSound s.tasks → IsSound (unblock_task s t).tasks
unfolding unblock_task enqueue_runnable
unblock_task-IsSound s t h = elim (Option-cases (get s.tasks t)) [
  | inl e ↦ rw (e, unblock_task) h
  | inr (info, e) ↦ elim (Bool-cases (is_blocked info.state)) [
    | inl b ↦ rw (e, unblock_task) (rw b (keep-IsSound s.tasks t _ (λ i. refl) h))
    | inr b ↦ rw (e, unblock_task) (rw b h)
  ]
]

unblock_all-IsSound :
    (s : Scheduler) (ts : List TaskId) → IsSound s.tasks → IsSound (unblock_all s ts).tasks
unfolding unblock_all
unblock_all-IsSound s [] h = h
unblock_all-IsSound s (t ∷ ts) h =
    unblock_all-IsSound (unblock_task s t) ts (unblock_task-IsSound s t h)

pub wake_ready_tasks-IsSound :
    (s : Scheduler) → IsSound s.tasks → IsSound (wake_ready_tasks s).tasks
unfolding wake_ready_tasks
wake_ready_tasks-IsSound s h = unblock_all-IsSound s _ h

pub charge_current-IsSound :
    (s : Scheduler) (delta : ℕ) → IsSound s.tasks → IsSound (charge_current s delta).tasks
unfolding charge_current
charge_current-IsSound s delta h = elim (Option-cases s.current_task) [
  | inl e ↦ rw (e, charge_current) h
  | inr (t, e) ↦
      rw (e, charge_current)
        (update-IsSound s.tasks t (charge delta) (charge-valid delta) (charge-ppm delta) h)
]

refresh_deadlines-IsSound :
    (s u : Scheduler) → refresh_deadlines s ≡ some u → IsSound s.tasks → IsSound u.tasks
unfolding refresh_deadlines
refresh_deadlines-IsSound s u h p = elim (Option-cases (refresh_tasks s.current_ticks s.tasks)) [
  | inl e ↦ cc
  | inr ((m, es), e) ↦
      subst (λ (x : Scheduler). IsSound x.tasks) (some_inj (rw (e, refresh_deadlines) at h))
        (refresh_tasks-IsSound s.current_ticks s.tasks m es e p)
]

pub on_tick_advanced-IsSound :
    (s u : Scheduler) (delta : ℕ)
    → on_tick_advanced s delta ≡ some u
    → IsSound s.tasks
    → IsSound u.tasks
unfolding on_tick_advanced
on_tick_advanced-IsSound s u delta h p =
    let c : Scheduler =
      charge_current (record s { current_ticks = u64_add s.current_ticks delta }) delta in
    elim (Option-cases (refresh_deadlines c)) [
      | inl e ↦ cc
      | inr (r, e) ↦
          subst (λ (x : Scheduler). IsSound x.tasks) (some_inj (rw (e, on_tick_advanced) at h))
            (wake_ready_tasks-IsSound r
              (refresh_deadlines-IsSound c r e (charge_current-IsSound _ delta p)))
    ]
