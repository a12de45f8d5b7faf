-- ===== src/Scheduler/Soundness/Reserving.antt =====
-- sim_kernel/src/scheduler.rs, admission: parameters that are let in keep the map sound.
use native.Mathlib.Nat.{div-le_of_le-mul}
use panda_gen.Prelude.{◌+◌, ◌*◌, ◌≤◌, ◌≡◌, refl, [], ◌∷◌, none, some, arith}
use panda_gen.Scheduler.Types.{TaskId, RealTimeParams, RealTimeTask}
use panda_gen.Scheduler.Tasks.{Tasks, get, update}
use panda_gen.Scheduler.Admission.{ppm, task_ppm, total_ppm, total_ppm_with}
use panda_gen.Scheduler.Waking.{DistinctKeys}

pub total_ppm-update_params :
    (m : Tasks) (t : TaskId) (rt : RealTimeTask)
    → total_ppm (update m t (λ i. record i { realtime = some rt })) ≡ total_ppm_with t rt.params m
unfolding total_ppm total_ppm_with update task_ppm
total_ppm-update_params [] t rt = refl
total_ppm-update_params ((u, info) ∷ m) t rt = ground (arith, total_ppm-update_params m t rt)

total_ppm_with-absent :
    (m : Tasks) (t : TaskId) (p : RealTimeParams)
    → get m t ≡ none
    → total_ppm_with t p m ≡ total_ppm m
unfolding total_ppm total_ppm_with get
total_ppm_with-absent [] t p h = refl
total_ppm_with-absent ((u, info) ∷ m) t p h = ground (arith, total_ppm_with-absent m t p)

pub total_ppm_with-le :
    (m : Tasks) (t : TaskId) (p : RealTimeParams)
    → DistinctKeys m
    → total_ppm_with t p m ≤ total_ppm m + ppm p
unfolding total_ppm total_ppm_with get
total_ppm_with-le [] t p d = omega arith
total_ppm_with-le ((u, info) ∷ m) t p (n, d) =
    ground (arith, total_ppm_with-absent m t p, total_ppm_with-le m t p d, n)

pub ppm_le : (p : RealTimeParams) → p.budget_ticks ≤ p.period_ticks → ppm p ≤ 1000000
unfolding ppm
ppm_le p h = ground (
  arith,
  div-le_of_le-mul p.period_ticks {m = p.budget_ticks * 1000000} {n = 1000000} (omega arith),
)
