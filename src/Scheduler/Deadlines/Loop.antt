-- ===== src/Scheduler/Deadlines/Loop.antt =====
-- sim_kernel/src/scheduler.rs, the `while` of `refresh_deadlines`: what it computes, and when it ends.
use panda_gen.Prelude.{
  ℕ, zero, suc, ◌+◌, ◌-◌, ◌*◌, ◌≤◌, ◌<◌, ◌≡◌, refl, ap, ◌∙◌, leb→le, min, List, [], ◌++◌, none,
  some, arith, if◌then◌else◌, ◌==◌, leb, length, length-append, u64_add, u64_max, le→leb,
  Bool-cases, inl, inr,
}
use panda_gen.Scheduler.Types.{TaskId, RealTimeParams, RealTimeTask, ScheduleEvent}
use panda_gen.Scheduler.Deadlines.{next_period, catch_up}

-- `rt'` is `rt` moved on by the least number of whole periods after which its deadline lies ahead
-- of `now`, and `es` holds the deadlines that were missed on the way.
pub record CaughtUp (now : ℕ) (rt rt' : RealTimeTask) (es : List ScheduleEvent) : Type 0 where
  pub periods : ℕ
  pub moved : rt'.next_deadline ≡ min (rt.next_deadline + periods * rt.params.period_ticks) u64_max
  pub future : now < rt'.next_deadline
  pub least : (j : ℕ) → j < periods → rt.next_deadline + j * rt.params.period_ticks ≤ now
  pub params_kept : rt'.params ≡ rt.params
  pub refilled :
      rt'.remaining_budget ≡ (if periods == 0 then rt.remaining_budget else rt.params.budget_ticks)
  -- The first deadline is missed only if budget was left; at the later ones the whole budget was.
  pub missed : length es ≡ (if rt.remaining_budget == 0 then periods - 1 else periods)
  pub counted : rt'.deadline_misses ≡ u64_add rt.deadline_misses (length es)

-- What `set_real_time_params` lets in, and the ranges of the fields.
pub record IsValid (rt : RealTimeTask) : Type 0 where
  pub period_pos : 0 < rt.params.period_ticks
  pub budget_pos : 0 < rt.params.budget_ticks
  pub deadline_range : rt.next_deadline ≤ u64_max
  pub misses_range : rt.deadline_misses ≤ u64_max

pub next_period-IsValid :
    (now : ℕ) (t : TaskId) (rt : RealTimeTask) → IsValid rt → IsValid (next_period now t rt).0
unfolding next_period
next_period-IsValid now t rt v = ground arith

ahead-CaughtUp :
    (now : ℕ) (rt : RealTimeTask) → IsValid rt → now < rt.next_deadline → CaughtUp now rt rt []
ahead-CaughtUp now rt v h = record {
  periods = 0;
  moved = ground arith;
  future = h;
  least = λ j l. absurd (omega arith);
  params_kept = refl;
  refilled = ground arith;
  missed = ground arith;
  counted = omega arith;
}

-- The fields after one turn of the loop.
module _ (now : ℕ) (t : TaskId) (rt : RealTimeTask) where
  pub next_period-params : (next_period now t rt).0.params ≡ rt.params
  unfolding next_period
  next_period-params = ground arith

  pub next_period-deadline :
      (next_period now t rt).0.next_deadline
      ≡ min (rt.next_deadline + rt.params.period_ticks) u64_max
  unfolding next_period
  next_period-deadline = ground arith

  next_period-budget : (next_period now t rt).0.remaining_budget ≡ rt.params.budget_ticks
  unfolding next_period
  next_period-budget = ground arith

  next_period-events : length (next_period now t rt).1 ≡ (if rt.remaining_budget == 0 then 0 else 1)
  unfolding next_period
  next_period-events = ground arith

  next_period-misses :
      IsValid rt
      → (next_period now t rt).0.deadline_misses
        ≡ u64_add rt.deadline_misses (length (next_period now t rt).1)
  unfolding next_period
  next_period-misses v = ground arith

module _ (now : ℕ) (t : TaskId) (rt rt' : RealTimeTask) (es : List ScheduleEvent)
    (room : now < u64_max) (v : IsValid rt) (passed : rt.next_deadline ≤ now)
    (c : CaughtUp now (next_period now t rt).0 rt' es) where
  next_period-moved :
      rt'.next_deadline ≡ min (rt.next_deadline + suc c.periods * rt.params.period_ticks) u64_max
  next_period-moved = omega (
    arith,
    c.moved,
    next_period-deadline now t rt,
    ap (λ (p : RealTimeParams). c.periods * p.period_ticks) (next_period-params now t rt),
  )

  next_period-least :
      (j : ℕ) → j < suc c.periods → rt.next_deadline + j * rt.params.period_ticks ≤ now
  next_period-least zero l = omega (arith, passed)
  next_period-least (suc j) l = omega (
    arith,
    room,
    c.least j (omega arith),
    next_period-deadline now t rt,
    ap (λ (p : RealTimeParams). j * p.period_ticks) (next_period-params now t rt),
  )

  next_period-missed :
      length ((next_period now t rt).1 ++ es)
      ≡ (if rt.remaining_budget == 0 then suc c.periods - 1 else suc c.periods)
  next_period-missed = ground (
    arith,
    length-append (next_period now t rt).1 es,
    next_period-events now t rt,
    next_period-budget now t rt,
    c.missed,
    v.budget_pos,
  )

  next_period-CaughtUp : CaughtUp now rt rt' ((next_period now t rt).1 ++ es)
  next_period-CaughtUp = record {
    periods = suc c.periods;
    moved = next_period-moved;
    future = c.future;
    least = next_period-least;
    params_kept = c.params_kept ∙ next_period-params now t rt;
    refilled = ground (arith, c.refilled, next_period-budget now t rt, next_period-params now t rt);
    missed = next_period-missed;
    counted = omega (
      arith,
      c.counted,
      next_period-misses now t rt v,
      length-append (next_period now t rt).1 es,
    );
  }

-- With the clock below the last value of a `u64`, the loop of a task with valid parameters ends
-- within the fuel that `refresh_task` gives it, and leaves the task caught up.
pub catch_up-CaughtUp :
    (fuel now : ℕ) (t : TaskId) (rt : RealTimeTask)
    → now < u64_max
    → IsValid rt
    → now + 1 - rt.next_deadline < fuel
    → (rt' : RealTimeTask) × (es : List ScheduleEvent) × (catch_up fuel now t rt ≡ some (rt', es))
      × CaughtUp now rt rt' es
unfolding catch_up
catch_up-CaughtUp zero now t rt m v h = absurd (omega arith)
catch_up-CaughtUp (suc fuel) now t rt m v h = elim (Bool-cases (leb rt.next_deadline now)) [
  | inr b ↦ (rt, [], rw b, ahead-CaughtUp now rt v (ground arith))
  | inl b ↦
      let (rt', es, e, c) =
        catch_up-CaughtUp fuel now t (next_period now t rt).0 m (next_period-IsValid now t rt v)
          (ground (arith, next_period-deadline now t rt, v.period_pos)) in
      (
        rt',
        (next_period now t rt).1 ++ es,
        rw (b, e),
        next_period-CaughtUp now t rt rt' es m v (leb→le _ _ b) c,
      )
]

-- At the last value of a `u64` the loop never ends, whatever the fuel: the deadline saturates there
-- and stays reached.
pub catch_up_diverges :
    (fuel : ℕ) (t : TaskId) (rt : RealTimeTask)
    → rt.next_deadline ≤ u64_max
    → catch_up fuel u64_max t rt ≡ none
unfolding catch_up
catch_up_diverges zero t rt h = refl
catch_up_diverges (suc fuel) t rt h = rw (
  le→leb rt.next_deadline u64_max h,
  catch_up_diverges fuel t (next_period u64_max t rt).0
      (omega (arith, next_period-deadline u64_max t rt)),
)
