-- ===== src/Scheduler/Examples.antt =====
-- sim_kernel/src/scheduler.rs: the theorems at concrete schedulers.
use panda_gen.Prelude.{
  ◌*◌, ◌+◌, ◌<◌, ℕ, ◌≤◌, ◌≡◌, refl, List, [], ◌∷◌, Option, none, some, arith, if◌then◌else◌, ◌==◌,
  ◌⊎◌, u64_max,
}
use panda_gen.Scheduler.Types.{
  TaskId, TaskInfo, RealTimeParams, RealTimeTask, runnable, blocked, default_config,
}
use panda_gen.Scheduler.Tasks.{get, update, insert}
use panda_gen.Scheduler.RunQueue
use panda_gen.Scheduler.RunQueue.Earliest.{
  AllNotBefore, IsEarliest, dequeue_earliest_deadline-IsEarliest,
}
use panda_gen.Scheduler.Deadlines.Loop.{IsValid}
use panda_gen.Scheduler.State.{Scheduler, with_config, enqueue, enqueue_runnable}
use panda_gen.Scheduler.Clock.{wake_ready_tasks, on_tick_advanced, tasks_to_wake}
use panda_gen.Scheduler.Admission.{set_real_time_params, utilization_ppm_with}
use panda_gen.Scheduler.Placement.{IsPlaced}
use panda_gen.Scheduler.Histories.{Reach, here, next, enqueues, sets_params, Reach-IsPlaced}
use panda_gen.Scheduler.Waking.{wake_ready_tasks-run_queue}
use panda_gen.Scheduler.Soundness.Demand.{demand, real_time_tasks, demand-le_ticks}
use panda_gen.Scheduler.Soundness.Ticking.{
  AllAhead, on_tick_advanced-total, on_tick_advanced-diverges,
}
use panda_gen.Scheduler.RoundRobin.{IsPlain, turns, turn_events, turns_round_robin}

abbrev half : RealTimeParams
half = record { period_ticks = 10; budget_ticks = 5 }

-- Tasks 1 and 2 are enqueued, and task 2 asks for half of the processor.
abbrev two_tasks : Scheduler
two_tasks = enqueue (enqueue (with_config default_config) 1) 2

abbrev admitted : Scheduler
admitted = (set_real_time_params two_tasks 2 half).0

two_tasks-Reach : Reach (with_config default_config) two_tasks
unfolding enqueue enqueue_runnable with_config get insert
two_tasks-Reach =
    next (next here (enqueues (with_config default_config) 1 refl))
      (enqueues (enqueue (with_config default_config) 1) 2 refl)

admitted-Reach : Reach (with_config default_config) admitted
admitted-Reach = next two_tasks-Reach (sets_params two_tasks 2 half)

Reach-IsPlaced_example : IsPlaced admitted
Reach-IsPlaced_example = Reach-IsPlaced default_config admitted-Reach

demand-le_ticks_example :
    1000000 * demand 100 admitted.tasks ≤ 100 * (1000000 + real_time_tasks admitted.tasks)
demand-le_ticks_example = demand-le_ticks default_config admitted-Reach 100

on_tick_advanced-total_example :
    (u : Scheduler) × (on_tick_advanced admitted 25 ≡ some u)
    × (u.current_ticks ≡ 25)
    × AllAhead u.current_ticks u.tasks
unfolding enqueue enqueue_runnable with_config set_real_time_params utilization_ppm_with insert get
on_tick_advanced-total_example =
    on_tick_advanced-total default_config admitted 25 admitted-Reach (omega arith)

on_tick_advanced-diverges_example : on_tick_advanced admitted u64_max ≡ none
unfolding enqueue enqueue_runnable with_config set_real_time_params utilization_ppm_with insert get
    update
on_tick_advanced-diverges_example =
    on_tick_advanced-diverges default_config admitted u64_max admitted-Reach (omega arith) refl

-- Period 10, deadline 10, 3 ticks of budget left.
abbrev late : RealTimeTask
late = record { params = half; next_deadline = 10; remaining_budget = 3; deadline_misses = 0 }

abbrev late-IsValid : IsValid late
late-IsValid = record {
  period_pos = omega arith;
  budget_pos = omega arith;
  deadline_range = omega arith;
  misses_range = omega arith;
}

-- Task 1 has no deadline, task 2 the deadline 30, task 3 the deadline 20, task 4 the deadline 20.
abbrev deadlines : TaskId → Option ℕ
deadlines t =
    if t == 2 then some 30 else if t == 3 then some 20 else if t == 4 then some 20 else none

dequeue_earliest_deadline-IsEarliest_example :
    (AllNotBefore deadlines u64_max (1 ∷ 2 ∷ 3 ∷ 4 ∷ [])
      × (RunQueue.dequeue_earliest_deadline deadlines (1 ∷ 2 ∷ 3 ∷ 4 ∷ [])
          ≡ RunQueue.dequeue (1 ∷ 2 ∷ 3 ∷ 4 ∷ [])))
    ⊎ ((i : ℕ) × (t : TaskId) × (rest : List TaskId) × (e : IsEarliest deadlines
          (1 ∷ 2 ∷ 3 ∷ 4 ∷ [])
          i
          t
          rest)
        × (e.d < u64_max)
        × (RunQueue.dequeue_earliest_deadline deadlines (1 ∷ 2 ∷ 3 ∷ 4 ∷ []) ≡ some (t, rest)))
dequeue_earliest_deadline-IsEarliest_example =
    dequeue_earliest_deadline-IsEarliest deadlines (1 ∷ 2 ∷ 3 ∷ 4 ∷ [])

-- A test of the choice: task 3, the first of the two that are due at 20.
earliest_of_four :
    RunQueue.dequeue_earliest_deadline deadlines (1 ∷ 2 ∷ 3 ∷ 4 ∷ []) ≡ some (3, 1 ∷ 2 ∷ 4 ∷ [])
unfolding RunQueue.dequeue_earliest_deadline
earliest_of_four = refl

-- Tasks 1 and 2 sleep until tick 0, which has come.
abbrev sleepers : Scheduler
sleepers = record {
  config = default_config;
  run_queue = 9 ∷ [];
  tasks =
      (1, record { state = blocked 0; ticks_in_quantum = 0; realtime = none })
      ∷ (2, record { state = blocked 0; ticks_in_quantum = 0; realtime = none })
      ∷ [];
  current_task = none;
  current_ticks = 0;
  audit_log = [];
}

wake_ready_tasks-run_queue_example : (wake_ready_tasks sleepers).run_queue ≡ 9 ∷ 1 ∷ 2 ∷ []
unfolding tasks_to_wake get
wake_ready_tasks-run_queue_example = wake_ready_tasks-run_queue sleepers refl (refl, (refl, tt))

abbrev woken : TaskInfo
woken = record { state = runnable; ticks_in_quantum = 0; realtime = none }

two_tasks-IsPlain : IsPlain two_tasks
unfolding enqueue enqueue_runnable with_config insert get
two_tasks-IsPlain = record {
  placed = Reach-IsPlaced default_config two_tasks-Reach;
  idle = refl;
  plain = refl;
  no_realtime = refl;
}

turns_round_robin_example :
    ((turns 2 two_tasks).run_queue ≡ 1 ∷ 2 ∷ [])
    × ((turns 2 two_tasks).audit_log ≡ turn_events 0 (1 ∷ 2 ∷ []))
unfolding enqueue enqueue_runnable with_config RunQueue.enqueue
turns_round_robin_example = turns_round_robin (1 ∷ 2 ∷ []) [] two_tasks two_tasks-IsPlain refl
