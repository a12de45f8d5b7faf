-- ===== src/Scheduler/State.antt =====
-- sim_kernel/src/scheduler.rs, `impl Scheduler`: construction, enqueueing, selection, unblocking.
-- Each method returns the new scheduler.
use panda_gen.Prelude.{
  ℕ, suc, Bool, true, false, List, [], ◌∷◌, ◌++◌, Option, none, some, if◌then◌else◌, ◌==◌, ltb,
}
use panda_gen.Scheduler.Types.{
  TaskId, TaskInfo, TaskState, runnable, blocked, exited, cancelled, SchedulerConfig,
  default_config, no_policy, earliest_deadline_first, ScheduleEvent, task_selected,
}
use panda_gen.Scheduler.Tasks.{Tasks, get, update, insert}
use panda_gen.Scheduler.RunQueue
use panda_gen.Scheduler.RunQueue.{RunQueue, insert_at, dequeue_earliest_deadline, is_empty, len}

pub record Scheduler : Type 0 where
  pub config : SchedulerConfig
  pub run_queue : RunQueue
  pub tasks : Tasks
  pub current_task : Option TaskId
  pub current_ticks : ℕ
  pub audit_log : List ScheduleEvent

unfoldable pub with_config : SchedulerConfig → Scheduler
with_config config = record {
  config = config;
  run_queue = [];
  tasks = [];
  current_task = none;
  current_ticks = 0;
  audit_log = [];
}

unfoldable pub new : Scheduler
unfolding with_config
new = with_config default_config

-- `current_task == Some(task_id)`
abbrev pub is_current : Option TaskId → TaskId → Bool
is_current none t = false
is_current (some u) t = u == t

abbrev pub is_runnable : TaskState → Bool
is_runnable runnable = true
is_runnable (blocked w) = false
is_runnable exited = false
is_runnable cancelled = false

abbrev pub record_event : Scheduler → ScheduleEvent → Scheduler
record_event s e = record s { audit_log = s.audit_log ++ e ∷ [] }

unfoldable pub task_deadline : Tasks → TaskId → Option ℕ
task_deadline m t = elim (get m t) [
  | none ↦ none
  | some info ↦ elim info.realtime [ none ↦ none | some rt ↦ some rt.next_deadline ]
]

-- The `for` of `enqueue_runnable`, from `index` on: the first queued task with a later deadline.
unfoldable pub insert_position : Tasks → ℕ → RunQueue → ℕ → ℕ
unfolding task_deadline
insert_position m deadline [] index = index
insert_position m deadline (existing ∷ q) index =
    let later = insert_position m deadline q (suc index) in
    elim (task_deadline m existing) [
      | none ↦ later
      | some existing_deadline ↦ if ltb deadline existing_deadline then index else later
    ]

unfoldable pub enqueue_runnable : Scheduler → TaskId → Scheduler
unfolding insert_position
enqueue_runnable s t = record s {
  run_queue = elim s.config.realtime_policy [
    | no_policy ↦ RunQueue.enqueue s.run_queue t
    | earliest_deadline_first ↦ elim (task_deadline s.tasks t) [
      | none ↦ RunQueue.enqueue s.run_queue t
      | some deadline ↦ insert_at (insert_position s.tasks deadline s.run_queue 0) t s.run_queue
    ]
  ];
}

unfoldable pub enqueue : Scheduler → TaskId → Scheduler
enqueue s t = enqueue_runnable (record s { tasks = insert s.tasks t info }) t
  where
    info : TaskInfo
    info = record { state = runnable; ticks_in_quantum = 0; realtime = none }

-- Which task the policy takes from the queue.
unfoldable pub take_next : Scheduler → Option (TaskId × RunQueue)
take_next s = elim s.config.realtime_policy [
  | no_policy ↦ RunQueue.dequeue s.run_queue
  | earliest_deadline_first ↦ dequeue_earliest_deadline (task_deadline s.tasks) s.run_queue
]

unfoldable pub dequeue_next : Scheduler → Scheduler × Option TaskId
dequeue_next s = elim (take_next s) [
  | none ↦ (record s { current_task = none }, none)
  | some (t, rest) ↦ (
    record_event
        (record s {
          run_queue = rest;
          tasks = update s.tasks t (λ info. record info { ticks_in_quantum = 0 });
          current_task = some t;
        })
        (task_selected t s.current_ticks),
    some t,
  )
]

abbrev pub is_blocked : TaskState → Bool
is_blocked runnable = false
is_blocked (blocked w) = true
is_blocked exited = false
is_blocked cancelled = false

unfoldable pub unblock_task : Scheduler → TaskId → Scheduler
unblock_task s t = elim (get s.tasks t) [
  | none ↦ s
  | some info ↦
      if is_blocked info.state
      then enqueue_runnable
          (record s {
            tasks = update s.tasks t (λ i. record i { state = runnable; ticks_in_quantum = 0 });
          })
          t
      else s
]
