-- ===== src/Scheduler/Soundness/Demand.antt =====
-- sim_kernel/src/scheduler.rs, admission control: the processor time that the real-time tasks may take,
-- against the whole of it.
use native.Mathlib.Nat.{
  mul-le-mul_left, mul-le-mul_right, mul_right_comm, div-mul-le_self, mod-lt, mod-add-div',
  mul_assoc, mul_comm, mul-add, add-mul,
}
use panda_gen.Prelude.{
  ℕ, ◌+◌, ◌*◌, ◌/◌, ◌≤◌, ◌<◌, [], ◌∷◌, none, some, inl, inr, arith, ap, ltb, Option-cases,
  Bool-cases,
}
use panda_gen.Scheduler.Types.{TaskInfo, RealTimeParams, SchedulerConfig}
use panda_gen.Scheduler.Tasks.{Tasks}
use panda_gen.Scheduler.State.{Scheduler, with_config}
use panda_gen.Scheduler.Admission.{ppm, task_ppm, total_ppm}
use panda_gen.Scheduler.Histories.{Reach}
use panda_gen.Scheduler.Soundness.{AllValid, ValidInfo}
use panda_gen.Scheduler.Soundness.Reaching.{Reach-IsSound}

-- The ticks that a task may take in the whole periods of so many ticks: its budget in each of them.
abbrev pub task_demand : ℕ → TaskInfo → ℕ
task_demand ticks info = elim info.realtime [
  | none ↦ 0
  | some rt ↦ rt.params.budget_ticks * (ticks / rt.params.period_ticks)
]

abbrev pub demand : ℕ → Tasks → ℕ
demand ticks [] = 0
demand ticks ((t, info) ∷ m) = task_demand ticks info + demand ticks m

abbrev pub real_time_tasks : Tasks → ℕ
real_time_tasks [] = 0
real_time_tasks ((t, info) ∷ m) = elim info.realtime [ none ↦ 0 | some rt ↦ 1 ] + real_time_tasks m

-- A quotient times the divisor, and one divisor more.
below_next : (a p : ℕ) → 0 < p → a ≤ (a / p + 1) * p
below_next a p h = omega (arith, mod-add-div' a p, mod-lt a h, add-mul (a / p) 1 p)

scaled : (b q p h r : ℕ) → b * 1000000 ≤ r * p → q * p ≤ h → 1000000 * (b * q) ≤ h * r
scaled b q p h r l m = omega (
  arith,
  mul-le-mul_right q l,
  mul-le-mul_left r m,
  mul_right_comm b 1000000 q,
  mul_assoc r p q,
  ap (λ x. r * x) (mul_comm p q),
  mul_comm h r,
)

joined :
    (h d e p m n : ℕ)
    → 1000000 * d ≤ h * (p + 1)
    → 1000000 * e ≤ h * (m + n)
    → 1000000 * (d + e) ≤ h * (p + m + (1 + n))
joined h d e p m n l k = omega (
  arith,
  l,
  k,
  mul-add h p 1,
  mul-add h m n,
  mul-add h (p + m) (1 + n),
  mul-add h p m,
  mul-add h 1 n,
)

budget-le :
    (ticks : ℕ) (p : RealTimeParams)
    → 0 < p.period_ticks
    → 1000000 * (p.budget_ticks * (ticks / p.period_ticks)) ≤ ticks * (ppm p + 1)
unfolding ppm
budget-le ticks p h = elim (Bool-cases (ltb 0 p.period_ticks)) [
  | inr b ↦ ground arith
  | inl b ↦
      rw (ppm, b)
        (scaled p.budget_ticks (ticks / p.period_ticks) p.period_ticks ticks
          (p.budget_ticks * 1000000 / p.period_ticks + 1)
          (below_next (p.budget_ticks * 1000000) p.period_ticks h)
          (div-mul-le_self ticks p.period_ticks))
]

demand-le :
    (ticks : ℕ) (m : Tasks)
    → AllValid m
    → 1000000 * demand ticks m ≤ ticks * (total_ppm m + real_time_tasks m)
unfolding total_ppm task_ppm
demand-le ticks [] v = omega arith
demand-le ticks ((t, info) ∷ m) (w, v) = elim (Option-cases info.realtime) [
  | inl n ↦ rw (n, task_demand, task_ppm) (omega (arith, demand-le ticks m v))
  | inr (rt, q) ↦
      rw (q, task_demand, task_ppm)
        (joined ticks (rt.params.budget_ticks * (ticks / rt.params.period_ticks)) (demand ticks m)
          (ppm rt.params) (total_ppm m) (real_time_tasks m)
          (budget-le ticks rt.params (rw (ValidInfo, q) at w).period_pos) (demand-le ticks m v))
]

-- After any history from a new scheduler that enqueues only tasks that are not runnable and selects a
-- task only when none is current, the budgets that the real-time tasks may take in the whole
-- periods of any number of ticks are together at most that number, but for one part per million of
-- it for each real-time task.
pub demand-le_ticks :
    (c : SchedulerConfig) {s : Scheduler}
    → Reach (with_config c) s
    → (ticks : ℕ) → 1000000 * demand ticks s.tasks ≤ ticks * (1000000 + real_time_tasks s.tasks)
demand-le_ticks c {s} r ticks = omega (
  arith,
  demand-le ticks s.tasks (Reach-IsSound c r).valid,
  mul-le-mul_left ticks (Reach-IsSound c r).admitted,
  mul-add ticks (total_ppm s.tasks) (real_time_tasks s.tasks),
  mul-add ticks 1000000 (real_time_tasks s.tasks),
)
