-- ===== src/Scheduler/Types.antt =====
-- sim_kernel/src/scheduler.rs: the data of the scheduler. A task identifier is a number.
use panda_gen.Prelude.{ℕ, Option, some, saturating_add}

abbrev pub TaskId : Type 0
TaskId = ℕ

pub data TaskState : Type 0 where
  runnable : TaskState
  blocked : ℕ → TaskState
  exited cancelled : TaskState

pub data RealTimePolicy : Type 0 where
  no_policy earliest_deadline_first : RealTimePolicy

pub record SchedulerConfig : Type 0 where
  pub quantum_ticks : ℕ
  pub max_steps_per_tick : Option ℕ
  pub realtime_policy : RealTimePolicy

abbrev pub default_config : SchedulerConfig
default_config = record {
  quantum_ticks = 10;
  max_steps_per_tick = some 1000;
  realtime_policy = no_policy;
}

pub record RealTimeParams : Type 0 where
  pub period_ticks : ℕ
  pub budget_ticks : ℕ

pub record RealTimeTask : Type 0 where
  pub params : RealTimeParams
  pub next_deadline : ℕ
  pub remaining_budget : ℕ
  pub deadline_misses : ℕ

-- `RealTimeTask::new`
unfoldable pub new_realtime : RealTimeParams → ℕ → RealTimeTask
new_realtime params current_ticks = record {
  params = params;
  next_deadline = saturating_add current_ticks params.period_ticks;
  remaining_budget = params.budget_ticks;
  deadline_misses = 0;
}

unfoldable pub reset_for_next_period : RealTimeTask → RealTimeTask
reset_for_next_period rt = record rt {
  remaining_budget = params.budget_ticks;
  next_deadline = saturating_add next_deadline params.period_ticks;
}
  where
    open rt use {params, next_deadline}

pub data SchedulerError : Type 0 where
  task_not_found : TaskId → SchedulerError
  admission_control_failed : SchedulerError

pub data PreemptionReason : Type 0 where
  quantum_expired yielded blocked_on budget_exhausted : PreemptionReason

pub data ExitReason : Type 0 where
  normal resource_exhaustion failed : ExitReason

-- The last number of each event is `timestamp_ticks`.
pub data ScheduleEvent : Type 0 where
  task_selected : TaskId → ℕ → ScheduleEvent
  task_preempted : TaskId → PreemptionReason → ℕ → ScheduleEvent
  task_exited : TaskId → ExitReason → ℕ → ScheduleEvent
  deadline_missed : TaskId → ℕ → ℕ → ScheduleEvent

pub record TaskInfo : Type 0 where
  pub state : TaskState
  pub ticks_in_quantum : ℕ
  pub realtime : Option RealTimeTask
