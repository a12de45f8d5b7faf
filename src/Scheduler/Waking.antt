-- ===== src/Scheduler/Waking.antt =====
-- sim_kernel/src/scheduler.rs, `wake_ready_tasks`: who is woken, and in which order.
use panda_gen.Prelude.{
  ℕ, ◌≡◌, refl, sym, ap, ltb, ◌∙◌, inl, inr, Bool, true, false, ◌||◌, List, [], ◌∷◌, ◌++◌, none,
  some, arith, if◌then◌else◌, ◌==◌, Option-cases, Bool-cases,
}
use mathlib.Core.List.{append-nil, append_assoc}
use panda_gen.Scheduler.Types.{TaskId, TaskInfo, runnable, blocked, exited, cancelled, no_policy}
use panda_gen.Scheduler.Tasks.{Tasks, get, get-update, map_some}
use panda_gen.Scheduler.RunQueue
use panda_gen.Scheduler.State.{Scheduler, is_blocked, unblock_task, enqueue_runnable}
use panda_gen.Scheduler.Clock.{is_due, tasks_to_wake, unblock_all, wake_ready_tasks}

abbrev pub elem : TaskId → List TaskId → Bool
elem t [] = false
elem t (u ∷ us) = u == t || elem t us

abbrev unblocked : TaskInfo → TaskInfo
unblocked info =
    if is_blocked info.state then record info { state = runnable; ticks_in_quantum = 0 } else info

get-unblock_task :
    (s : Scheduler) (t u : TaskId)
    → get (unblock_task s t).tasks u
      ≡ (if t == u then map_some unblocked (get s.tasks u) else get s.tasks u)
unfolding unblock_task enqueue_runnable
get-unblock_task s t u =
    ground
      (arith, get-update s.tasks t u (λ i. record i { state = runnable; ticks_in_quantum = 0 }))

get-unblock_all :
    (s : Scheduler) (ts : List TaskId) (u : TaskId)
    → get (unblock_all s ts).tasks u
      ≡ (if elem u ts then map_some unblocked (get s.tasks u) else get s.tasks u)
unfolding unblock_all
get-unblock_all s [] u = refl
get-unblock_all s (t ∷ ts) u =
    ground (arith, get-unblock_all (unblock_task s t) ts u, get-unblock_task s t u)

elem-tasks_to_wake :
    (now : ℕ) (m : Tasks) (t : TaskId) (info : TaskInfo)
    → get m t ≡ some info
    → is_due now info.state ≡ true
    → elem t (tasks_to_wake now m) ≡ true
unfolding get tasks_to_wake
elem-tasks_to_wake now [] t info h d = cc
elem-tasks_to_wake now ((u, i) ∷ m) t info h d = ground (arith, elem-tasks_to_wake now m t info)

-- After `wake_ready_tasks` no task is left blocked whose wake tick has been reached.
pub wake_ready_tasks-none_due :
    (s : Scheduler) (t : TaskId) (info : TaskInfo)
    → get (wake_ready_tasks s).tasks t ≡ some info
    → is_due s.current_ticks info.state ≡ false
unfolding wake_ready_tasks
wake_ready_tasks-none_due s t info h = elim (Option-cases (get s.tasks t)) [
  | inl e ↦ ground (arith, get-unblock_all s (tasks_to_wake s.current_ticks s.tasks) t)
  | inr (old, e) ↦ ground (
    arith,
    get-unblock_all s (tasks_to_wake s.current_ticks s.tasks) t,
    elem-tasks_to_wake s.current_ticks s.tasks t old e,
  )
]

-- The tasks are distinct, and each is blocked.
abbrev AllBlocked : Tasks → List TaskId → Type 0
AllBlocked m [] = Unit {0}
AllBlocked m (t ∷ ts) =
    ((info : TaskInfo) × (get m t ≡ some info) × (is_blocked info.state ≡ true))
    × (elem t ts ≡ false)
    × AllBlocked m ts

AllBlocked-unblock_task :
    (s : Scheduler) (t : TaskId) (ts : List TaskId)
    → elem t ts ≡ false
    → AllBlocked s.tasks ts
    → AllBlocked (unblock_task s t).tasks ts
AllBlocked-unblock_task s t [] n a = tt
AllBlocked-unblock_task s t (u ∷ us) n (b, d, a) = (
  (b.0, ground (arith, get-unblock_task s t u, b.1, n), b.2),
  d,
  AllBlocked-unblock_task s t us (ground arith) a,
)

unblock_task-run_queue :
    (s : Scheduler) (t : TaskId) (info : TaskInfo)
    → s.config.realtime_policy ≡ no_policy
    → get s.tasks t ≡ some info
    → is_blocked info.state ≡ true
    → (unblock_task s t).run_queue ≡ s.run_queue ++ t ∷ []
unfolding unblock_task enqueue_runnable RunQueue.enqueue
unblock_task-run_queue s t info h e b = ground arith

unblock_task-config : (s : Scheduler) (t : TaskId) → (unblock_task s t).config ≡ s.config
unfolding unblock_task enqueue_runnable
unblock_task-config s t = ground arith

unblock_all-run_queue :
    (s : Scheduler) (ts : List TaskId)
    → s.config.realtime_policy ≡ no_policy
    → AllBlocked s.tasks ts
    → (unblock_all s ts).run_queue ≡ s.run_queue ++ ts
unfolding unblock_all
unblock_all-run_queue s [] h a = sym (append-nil s.run_queue)
unblock_all-run_queue s (t ∷ ts) h (b, d, a) =
    unblock_all-run_queue (unblock_task s t) ts (ground (arith, unblock_task-config s t))
      (AllBlocked-unblock_task s t ts d a)
    ∙ rw (unblock_task-run_queue s t b.0 h b.1 b.2) (append_assoc s.run_queue (t ∷ []) ts)

-- No key stands twice.
abbrev pub DistinctKeys : Tasks → Type 0
DistinctKeys [] = Unit {0}
DistinctKeys ((t, info) ∷ m) = (get m t ≡ none) × DistinctKeys m

not-elem-tasks_to_wake :
    (now : ℕ) (m : Tasks) (t : TaskId) → get m t ≡ none → elem t (tasks_to_wake now m) ≡ false
unfolding get tasks_to_wake
not-elem-tasks_to_wake now [] t h = refl
not-elem-tasks_to_wake now ((u, i) ∷ m) t h = ground (arith, not-elem-tasks_to_wake now m t)

AllBlocked-cons :
    (m : Tasks) (u : TaskId) (i : TaskInfo) (ts : List TaskId)
    → elem u ts ≡ false
    → AllBlocked m ts
    → AllBlocked ((u, i) ∷ m) ts
unfolding get
AllBlocked-cons m u i [] n a = tt
AllBlocked-cons m u i (t ∷ ts) n (b, d, a) =
    ((b.0, ground (arith, b.1, n), b.2), d, AllBlocked-cons m u i ts (ground arith) a)

tasks_to_wake-AllBlocked :
    (now : ℕ) (m : Tasks) → DistinctKeys m → AllBlocked m (tasks_to_wake now m)
unfolding tasks_to_wake get
tasks_to_wake-AllBlocked now [] d = tt
tasks_to_wake-AllBlocked now ((t, info) ∷ m) (n, d) =
    let absent = not-elem-tasks_to_wake now m t n in
    let rest =
      AllBlocked-cons m t info (tasks_to_wake now m) absent (tasks_to_wake-AllBlocked now m d) in
    elim (Bool-cases (is_due now info.state)) [
      | inl b ↦ rw b ((info, ground arith, ground (arith, b)), absent, rest)
      | inr b ↦ rw b rest
    ]

-- The tasks that are blocked until a tick no later than `now`, in the order of the map.
abbrev pub sleepers_until : ℕ → Tasks → List TaskId
sleepers_until now [] = []
sleepers_until now ((t, info) ∷ m) = elim info.state [
  | blocked wake_tick ↦ if ltb now wake_tick then sleepers_until now m else t ∷ sleepers_until now m
  | runnable ↦ sleepers_until now m
  | exited ↦ sleepers_until now m
  | cancelled ↦ sleepers_until now m
]

tasks_to_wake-sleepers_until : (now : ℕ) (m : Tasks) → tasks_to_wake now m ≡ sleepers_until now m
unfolding tasks_to_wake
tasks_to_wake-sleepers_until now [] = refl
tasks_to_wake-sleepers_until now ((t, info) ∷ m) =
    ground (arith, tasks_to_wake-sleepers_until now m)

-- Without a real-time policy, when no key stands twice in the map of tasks, `wake_ready_tasks` puts
-- the tasks that are blocked until a tick no later than the current one behind those queued
-- already, in the order in which the map of tasks is walked through.
pub wake_ready_tasks-run_queue :
    (s : Scheduler)
    → s.config.realtime_policy ≡ no_policy
    → DistinctKeys s.tasks
    → (wake_ready_tasks s).run_queue ≡ s.run_queue ++ sleepers_until s.current_ticks s.tasks
unfolding wake_ready_tasks
wake_ready_tasks-run_queue s h d =
    unblock_all-run_queue s (tasks_to_wake s.current_ticks s.tasks) h
      (tasks_to_wake-AllBlocked s.current_ticks s.tasks d)
    ∙ ap (λ woken. s.run_queue ++ woken) (tasks_to_wake-sleepers_until s.current_ticks s.tasks)
