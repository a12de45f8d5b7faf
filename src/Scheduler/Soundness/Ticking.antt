-- ===== src/Scheduler/Soundness/Ticking.antt =====
-- sim_kernel/src/scheduler.rs, `on_tick_advanced`: when it ends, and what it leaves.
use panda_gen.Prelude.{
  ℕ, ◌+◌, ◌<◌, ◌≡◌, refl, ◌∙◌, inl, inr, ◌||◌, Bool, true, false, List, [], ◌∷◌, ◌++◌, Option, none,
  some, arith, ◌==◌, Option-cases, Bool-cases, u64_add, u64_max,
}
use panda_gen.Scheduler.Types.{TaskId, TaskInfo, RealTimeTask, ScheduleEvent, SchedulerConfig}
use panda_gen.Scheduler.Tasks.{Tasks, get, update}
use panda_gen.Scheduler.Deadlines.{refresh_tasks, refresh_task, catch_up_fuel}
use panda_gen.Scheduler.Deadlines.Loop.{IsValid, catch_up-CaughtUp, catch_up_diverges}
use panda_gen.Scheduler.State.{Scheduler, with_config, is_blocked, unblock_task, enqueue_runnable}
use panda_gen.Scheduler.Clock.{
  tasks_to_wake, charge, charge_current, unblock_all, wake_ready_tasks, refresh_deadlines,
  on_tick_advanced,
}
use panda_gen.Scheduler.Histories.{Reach}
use panda_gen.Scheduler.Soundness.{ValidInfo, AllValid}
use panda_gen.Scheduler.Soundness.Steps.{charge_current-IsSound}
use panda_gen.Scheduler.Soundness.Reaching.{Reach-IsSound}

abbrev pub AheadInfo : ℕ → TaskInfo → Type 0
AheadInfo now info = elim info.realtime [ none ↦ Unit {0} | some rt ↦ now < rt.next_deadline ]

-- Each real-time task has its deadline ahead.
abbrev pub AllAhead : ℕ → Tasks → Type 0
AllAhead now [] = Unit {0}
AllAhead now ((t, info) ∷ m) = AheadInfo now info × AllAhead now m

refresh_task-total :
    (now : ℕ) (t : TaskId) (info : TaskInfo)
    → now < u64_max
    → ValidInfo info
    → (info' : TaskInfo) × (es : List ScheduleEvent) × (refresh_task now t info ≡ some (info', es))
      × AheadInfo now info'
unfolding refresh_task
refresh_task-total now t info m v = elim (Option-cases info.realtime) [
  | inl e ↦ (info, [], ground arith, rw (e, AheadInfo) tt)
  | inr (rt, e) ↦
      let ok_rt : IsValid rt = rw (e, ValidInfo) at v in
      let (rt', es, h, c) =
        catch_up-CaughtUp (catch_up_fuel now rt) now t rt m ok_rt (omega arith) in
      (record info { realtime = some rt' }, es, ground (arith, ok_rt.period_pos, h), c.future)
]

refresh_tasks-total :
    (now : ℕ) (m : Tasks)
    → now < u64_max
    → AllValid m
    → (m' : Tasks) × (es : List ScheduleEvent) × (refresh_tasks now m ≡ some (m', es))
      × AllAhead now m'
unfolding refresh_tasks
refresh_tasks-total now [] l a = ([], [], refl, tt)
refresh_tasks-total now ((t, info) ∷ m) l (v, a) =
    let (info', es, h, ahead) = refresh_task-total now t info l v in
    let (m', fs, k, all) = refresh_tasks-total now m l a in
    ((t, info') ∷ m', es ++ fs, rw (h, refresh_tasks) (rw k), (ahead, all))

-- Waking tasks moves no deadline.
AllAhead-update :
    (now : ℕ) (m : Tasks) (t : TaskId) (f : TaskInfo → TaskInfo)
    → ((i : TaskInfo) → (f i).realtime ≡ i.realtime)
    → AllAhead now m
    → AllAhead now (update m t f)
unfolding update
AllAhead-update now [] t f h a = tt
AllAhead-update now ((u, info) ∷ m) t f h (v, a) = elim (Bool-cases (u == t)) [
  | inl b ↦ rw b (rw (h info, AheadInfo) v, AllAhead-update now m t f h a)
  | inr b ↦ rw b (v, AllAhead-update now m t f h a)
]

AllAhead-unblock_task :
    (now : ℕ) (s : Scheduler) (t : TaskId)
    → AllAhead now s.tasks
    → AllAhead now (unblock_task s t).tasks
unfolding unblock_task enqueue_runnable
AllAhead-unblock_task now s t a = elim (Option-cases (get s.tasks t)) [
  | inl e ↦ rw (e, unblock_task) a
  | inr (info, e) ↦ elim (Bool-cases (is_blocked info.state)) [
    | inl b ↦ rw (e, unblock_task) (rw b (AllAhead-update now s.tasks t _ (λ i. refl) a))
    | inr b ↦ rw (e, unblock_task) (rw b a)
  ]
]

AllAhead-unblock_all :
    (now : ℕ) (s : Scheduler) (ts : List TaskId)
    → AllAhead now s.tasks
    → AllAhead now (unblock_all s ts).tasks
unfolding unblock_all
AllAhead-unblock_all now s [] a = a
AllAhead-unblock_all now s (t ∷ ts) a =
    AllAhead-unblock_all now (unblock_task s t) ts (AllAhead-unblock_task now s t a)

unblock_all-ticks :
    (s : Scheduler) (ts : List TaskId) → (unblock_all s ts).current_ticks ≡ s.current_ticks
unfolding unblock_all unblock_task enqueue_runnable
unblock_all-ticks s [] = refl
unblock_all-ticks s (t ∷ ts) = unblock_all-ticks (unblock_task s t) ts ∙ ground arith

charge_current-ticks :
    (s : Scheduler) (delta : ℕ) → (charge_current s delta).current_ticks ≡ s.current_ticks
unfolding charge_current
charge_current-ticks s delta = ground arith

refresh_deadlines-total :
    (s : Scheduler)
    → s.current_ticks < u64_max
    → AllValid s.tasks
    → (u : Scheduler) × (refresh_deadlines s ≡ some u)
      × (u.current_ticks ≡ s.current_ticks)
      × AllAhead s.current_ticks u.tasks
unfolding refresh_deadlines
refresh_deadlines-total s l a =
    let (m, es, h, all) = refresh_tasks-total s.current_ticks s.tasks l a in
    (record s { tasks = m; audit_log = s.audit_log ++ es }, rw (h, refresh_deadlines), refl, all)

-- The scheduler that `refresh_deadlines` sees within a tick.
abbrev charged : Scheduler → ℕ → Scheduler
charged s delta = charge_current (record s { current_ticks = u64_add s.current_ticks delta }) delta

-- A scheduler that was reached from a new one, with its clock below the last value of a `u64` after
-- the ticks: `on_tick_advanced` ends, the clock has moved by the ticks, and every real-time task
-- has its deadline ahead.
pub on_tick_advanced-total :
    (c : SchedulerConfig) (s : Scheduler) (delta : ℕ)
    → Reach (with_config c) s
    → s.current_ticks + delta < u64_max
    → (u : Scheduler) × (on_tick_advanced s delta ≡ some u)
      × (u.current_ticks ≡ s.current_ticks + delta)
      × AllAhead u.current_ticks u.tasks
unfolding on_tick_advanced wake_ready_tasks
on_tick_advanced-total c s delta r l =
    let now_eq : (charged s delta).current_ticks ≡ s.current_ticks + delta =
      charge_current-ticks _ delta ∙ omega arith in
    let (d, h, kept, all) =
      refresh_deadlines-total (charged s delta) (omega (arith, now_eq))
        (charge_current-IsSound _ delta (Reach-IsSound c r)).valid in
    let same = unblock_all-ticks d (tasks_to_wake d.current_ticks d.tasks) ∙ kept in
    (
      wake_ready_tasks d,
      rw (h, on_tick_advanced),
      same ∙ now_eq,
      rw same (AllAhead-unblock_all (charged s delta).current_ticks d _ all),
    )

abbrev pub is_realtime : Option RealTimeTask → Bool
is_realtime none = false
is_realtime (some rt) = true

-- Some task has real-time parameters.
abbrev pub has_realtime : Tasks → Bool
has_realtime [] = false
has_realtime ((t, info) ∷ m) = is_realtime info.realtime || has_realtime m

has_realtime-update :
    (m : Tasks) (t : TaskId) (delta : ℕ) → has_realtime (update m t (charge delta)) ≡ has_realtime m
unfolding update charge
has_realtime-update [] t delta = refl
has_realtime-update ((u, info) ∷ m) t delta = ground (arith, has_realtime-update m t delta)

refresh_task-diverges :
    (t : TaskId) (info : TaskInfo)
    → ValidInfo info
    → is_realtime info.realtime ≡ true
    → refresh_task u64_max t info ≡ none
unfolding refresh_task
refresh_task-diverges t info v h = elim (Option-cases info.realtime) [
  | inl e ↦ ground arith
  | inr (rt, e) ↦
      let ok_rt : IsValid rt = rw (e, ValidInfo) at v in
      ground (
        arith,
        ok_rt.period_pos,
        catch_up_diverges (catch_up_fuel u64_max rt) t rt ok_rt.deadline_range,
      )
]

refresh_tasks-diverges :
    (m : Tasks) → AllValid m → has_realtime m ≡ true → refresh_tasks u64_max m ≡ none
unfolding refresh_tasks
refresh_tasks-diverges [] a h = cc
refresh_tasks-diverges ((t, info) ∷ m) (v, a) h = elim (Bool-cases (is_realtime info.realtime)) [
  | inl b ↦ rw (refresh_task-diverges t info v b, refresh_tasks)
  | inr b ↦ ground (arith, refresh_tasks-diverges m a)
]

has_realtime-charge_current :
    (s : Scheduler) (delta : ℕ) → has_realtime (charge_current s delta).tasks ≡ has_realtime s.tasks
unfolding charge_current
has_realtime-charge_current s delta = elim (Option-cases s.current_task) [
  | inl e ↦ rw (e, charge_current)
  | inr (t, e) ↦ rw (e, charge_current) (has_realtime-update s.tasks t delta)
]

refresh_deadlines-diverges :
    (s : Scheduler)
    → s.current_ticks ≡ u64_max
    → AllValid s.tasks
    → has_realtime s.tasks ≡ true
    → refresh_deadlines s ≡ none
unfolding refresh_deadlines
refresh_deadlines-diverges s l a h =
    let e : refresh_tasks s.current_ticks s.tasks ≡ none =
      rw l (refresh_tasks-diverges s.tasks a h) in
    rw (e, refresh_deadlines)

-- When the ticks take the clock of a reached scheduler to the last value of a `u64` and any task
-- has real-time parameters, the loop of `on_tick_advanced` does not end within its fuel.
pub on_tick_advanced-diverges :
    (c : SchedulerConfig) (s : Scheduler) (delta : ℕ)
    → Reach (with_config c) s
    → s.current_ticks + delta ≡ u64_max
    → has_realtime s.tasks ≡ true
    → on_tick_advanced s delta ≡ none
unfolding on_tick_advanced
on_tick_advanced-diverges c s delta r l h =
    let e : refresh_deadlines (charged s delta) ≡ none =
      refresh_deadlines-diverges (charged s delta) (charge_current-ticks _ delta ∙ omega arith)
        (charge_current-IsSound _ delta (Reach-IsSound c r)).valid
        (has_realtime-charge_current _ delta ∙ h) in
    rw (e, on_tick_advanced)
