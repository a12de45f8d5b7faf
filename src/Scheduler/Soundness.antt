-- ===== src/Scheduler/Soundness.antt =====
-- sim_kernel/src/scheduler.rs: what holds of the map of tasks between two calls, and the tick.
pub mod Refreshing
pub mod Reserving
pub mod Steps
pub mod Admitting
pub mod Reaching
pub mod Demand
pub mod Ticking
use panda_gen.Prelude.{
  ℕ, zero, suc, ◌+◌, ◌*◌, ◌/◌, ◌%◌, ◌≤◌, ◌<◌, ◌≡◌, refl, sym, ap, ◌∙◌, ◌⊎◌, inl, inr, Bool, true,
  false, List, [], ◌∷◌, ◌++◌, Option, none, some, arith, if◌then◌else◌, ◌==◌, ltb, leb, u64_max,
  Option-cases, Bool-cases,
}
use panda_gen.Scheduler.Types.{TaskId, TaskInfo, RealTimeParams, RealTimeTask, ScheduleEvent}
use panda_gen.Scheduler.Tasks.{Tasks, get, update, insert, get-update, get-insert, map_some}
use panda_gen.Scheduler.Deadlines.{
  refresh_task, refresh_tasks, catch_up, next_period, catch_up_fuel,
}
use panda_gen.Scheduler.Deadlines.Loop.{IsValid, next_period-IsValid, next_period-params}
use panda_gen.Scheduler.Admission.{ppm, task_ppm, total_ppm, total_ppm_with}
use panda_gen.Scheduler.Waking.{DistinctKeys}

abbrev pub ValidInfo : TaskInfo → Type 0
ValidInfo info = elim info.realtime [ none ↦ Unit {0} | some rt ↦ IsValid rt ]

abbrev pub AllValid : Tasks → Type 0
AllValid [] = Unit {0}
AllValid ((t, info) ∷ m) = ValidInfo info × AllValid m

-- The keys are distinct, the real-time parameters are those that admission lets in, and together
-- they reserve at most the whole processor.
pub record IsSound (m : Tasks) : Type 0 where
  pub distinct : DistinctKeys m
  pub valid : AllValid m
  pub admitted : total_ppm m ≤ 1000000

pub DistinctKeys-update :
    (m : Tasks) (t : TaskId) (f : TaskInfo → TaskInfo)
    → DistinctKeys m
    → DistinctKeys (update m t f)
unfolding update
DistinctKeys-update [] t f d = tt
DistinctKeys-update ((u, info) ∷ m) t f (n, d) =
    ground (arith, n, get-update m t u f, DistinctKeys-update m t f d)

pub AllValid-update :
    (m : Tasks) (t : TaskId) (f : TaskInfo → TaskInfo)
    → ((info : TaskInfo) → ValidInfo info → ValidInfo (f info))
    → AllValid m
    → AllValid (update m t f)
unfolding update
AllValid-update [] t f h a = tt
AllValid-update ((u, info) ∷ m) t f h (v, a) = elim (Bool-cases (u == t)) [
  | inl b ↦ rw b (h info v, AllValid-update m t f h a)
  | inr b ↦ rw b (v, AllValid-update m t f h a)
]

total_ppm-update :
    (m : Tasks) (t : TaskId) (f : TaskInfo → TaskInfo)
    → ((info : TaskInfo) → task_ppm (f info) ≡ task_ppm info)
    → total_ppm (update m t f) ≡ total_ppm m
unfolding update total_ppm
total_ppm-update [] t f h = refl
total_ppm-update ((u, info) ∷ m) t f h = ground (arith, h info, total_ppm-update m t f h)

-- A change that keeps the reservation of the task.
pub update-IsSound :
    (m : Tasks) (t : TaskId) (f : TaskInfo → TaskInfo)
    → ((info : TaskInfo) → ValidInfo info → ValidInfo (f info))
    → ((info : TaskInfo) → task_ppm (f info) ≡ task_ppm info)
    → IsSound m
    → IsSound (update m t f)
update-IsSound m t f h k s = record {
  distinct = DistinctKeys-update m t f s.distinct;
  valid = AllValid-update m t f h s.valid;
  admitted = omega (arith, s.admitted, total_ppm-update m t f k);
}

DistinctKeys-insert :
    (m : Tasks) (t : TaskId) (info : TaskInfo) → DistinctKeys m → DistinctKeys (insert m t info)
unfolding insert get
DistinctKeys-insert [] t info d = (refl, tt)
DistinctKeys-insert ((u, old) ∷ m) t info (n, d) =
    ground (arith, n, get-insert m t u info, DistinctKeys-insert m t info d)

AllValid-insert :
    (m : Tasks) (t : TaskId) (info : TaskInfo)
    → info.realtime ≡ none
    → AllValid m
    → AllValid (insert m t info)
unfolding insert
AllValid-insert [] t info h a = (rw (h, ValidInfo) tt, tt)
AllValid-insert ((u, old) ∷ m) t info h (v, a) = elim (Bool-cases (u == t)) [
  | inl b ↦ rw b (rw (h, ValidInfo) tt, a)
  | inr b ↦ rw b (v, AllValid-insert m t info h a)
]

total_ppm-insert :
    (m : Tasks) (t : TaskId) (info : TaskInfo)
    → info.realtime ≡ none
    → total_ppm (insert m t info) ≤ total_ppm m
unfolding insert total_ppm
total_ppm-insert [] t info h = ground arith
total_ppm-insert ((u, old) ∷ m) t info h = ground (arith, total_ppm-insert m t info h)

-- A task without real-time parameters takes the place of another, or is new.
pub insert-IsSound :
    (m : Tasks) (t : TaskId) (info : TaskInfo)
    → info.realtime ≡ none
    → IsSound m
    → IsSound (insert m t info)
insert-IsSound m t info h s = record {
  distinct = DistinctKeys-insert m t info s.distinct;
  valid = AllValid-insert m t info h s.valid;
  admitted = omega (arith, s.admitted, total_ppm-insert m t info h);
}
