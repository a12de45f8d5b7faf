-- ===== src/Jobs.antt =====
-- services_job_scheduler/src/lib.rs: jobs run one at a time, a tick at a time, by priority. The code of a
-- job is a parameter: a closure with state of its own, so its answer is a function of all the
-- contexts it was called with, the newest first.
pub mod Order
pub mod Counting
pub mod Kept
pub mod Examples
use Prim.Native.String.{String}
use panda_gen.Prelude.{
  ℕ, ◌+◌, Bool, true, false, List, [], ◌∷◌, ◌++◌, Option, none, some, if◌then◌else◌, ltb, leb, ◌==◌,
  u64_add, length,
}

abbrev pub JobId : Type 0
JobId = ℕ

pub data JobPriority : Type 0 where
  low normal high : JobPriority

-- The derived order.
abbrev pub rank : JobPriority → ℕ
rank low = 0
rank normal = 1
rank high = 2

pub data JobStatus : Type 0 where
  pending running yielded completed failed cancelled : JobStatus

pub record JobContext : Type 0 where
  pub tick_count : ℕ
  pub job_ticks : ℕ

pub data JobResult : Type 0 where
  job_completed job_yielded : JobResult
  job_failed : String → JobResult

abbrev pub JobFn : Type 0
JobFn = List JobContext → JobResult

-- `called` stands for the state of the closure.
pub record JobDescriptor : Type 0 where
  pub id : JobId
  pub name : String
  pub priority : JobPriority
  pub status : JobStatus
  pub ticks_executed : ℕ
  pub progress : ℕ
  pub error : Option String
  pub executor : Option JobFn
  pub called : List JobContext

-- `JobDescriptor::new`
unfoldable pub new_job : JobId → String → JobPriority → JobFn → JobDescriptor
new_job fresh name priority executor = record {
  id = fresh;
  name = name;
  priority = priority;
  status = pending;
  ticks_executed = 0;
  progress = 0;
  error = none;
  executor = some executor;
  called = [];
}

abbrev pub set_progress : JobDescriptor → ℕ → JobDescriptor
set_progress job progress = record job { progress = if leb progress 100 then progress else 100 }

pub record JobScheduler : Type 0 where
  pub pending_jobs : List JobDescriptor
  pub running_job : Option JobDescriptor
  pub completed_jobs : List JobDescriptor
  pub tick_count : ℕ

abbrev pub new_scheduler : JobScheduler
new_scheduler = record {
  pending_jobs = [];
  running_job = none;
  completed_jobs = [];
  tick_count = 0;
}

-- Before the first job of a lower priority.
unfoldable pub insert_job : List JobDescriptor → JobDescriptor → List JobDescriptor
insert_job [] job = job ∷ []
insert_job (j ∷ jobs) job =
    if ltb (rank j.priority) (rank job.priority) then job ∷ j ∷ jobs else j ∷ insert_job jobs job

unfoldable pub schedule_job : JobScheduler → JobDescriptor → JobScheduler × JobId
unfolding insert_job
schedule_job s job = (record s { pending_jobs = insert_job s.pending_jobs job }, job.id)

-- The job as its code sees it: one tick more, and one call more.
abbrev pub begin_tick : JobDescriptor → ℕ → Bool → JobDescriptor
begin_tick job tick_count is_continuing = record job {
  status = if is_continuing then job.status else running;
  ticks_executed = u64_add job.ticks_executed 1;
  called =
      record { tick_count = tick_count; job_ticks = u64_add job.ticks_executed 1 } ∷ job.called;
}

-- What the answer of its code does with a job.
unfoldable pub handle_result : JobScheduler → JobDescriptor → JobResult → JobScheduler
handle_result s job job_completed = record s {
  completed_jobs =
      s.completed_jobs ++ record job { status = completed; progress = 100; executor = none } ∷ [];
}
handle_result s job job_yielded = record s { running_job = some (record job { status = yielded }) }
handle_result s job (job_failed error) = record s {
  completed_jobs =
      s.completed_jobs ++ record job { status = failed; error = some error; executor = none } ∷ [];
}

unfoldable pub execute_and_handle_job : JobScheduler → JobDescriptor → Bool → JobScheduler
unfolding handle_result
execute_and_handle_job s job is_continuing = elim job.executor [
  | none ↦ s
  | some executor ↦
      let begun = begin_tick job s.tick_count is_continuing in
      handle_result s begun (executor begun.called)
]

unfoldable pub tick : JobScheduler → JobScheduler
unfolding execute_and_handle_job
tick s =
    let now = u64_add s.tick_count 1 in
    elim s.running_job [
      | some job ↦
          execute_and_handle_job (record s { tick_count = now; running_job = none }) job true
      | none ↦ elim s.pending_jobs [
        | [] ↦ record s { tick_count = now }
        | job ∷ jobs ↦
            execute_and_handle_job (record s { tick_count = now; pending_jobs = jobs }) job false
      ]
    ]

-- The first job with that identifier, and the others.
unfoldable pub take_job : List JobDescriptor → JobId → Option (JobDescriptor × List JobDescriptor)
take_job [] id = none
take_job (j ∷ jobs) id =
    let rest = take_job jobs id in
    if j.id == id
    then some (j, jobs)
    else elim rest [ none ↦ none | some (job, others) ↦ some (job, j ∷ others) ]

unfoldable pub cancel_job : JobScheduler → JobId → JobScheduler × Bool
unfolding take_job
cancel_job s id = elim (take_job s.pending_jobs id) [
  | none ↦ (s, false)
  | some (job, others) ↦ (
    record s {
      pending_jobs = others;
      completed_jobs = s.completed_jobs ++ record job { status = cancelled; executor = none } ∷ [];
    },
    true,
  )
]

-- A walk over jobs for the first with that identifier.
unfoldable pub find_job : List JobDescriptor → JobId → Option JobDescriptor
find_job [] id = none
find_job (j ∷ jobs) id = if j.id == id then some j else find_job jobs id

abbrev pub or_else : Option JobDescriptor → Option JobDescriptor → Option JobDescriptor
or_else (some job) other = some job
or_else none other = other

abbrev pub running_jobs : Option JobDescriptor → List JobDescriptor
running_jobs none = []
running_jobs (some job) = job ∷ []

-- The running job, then the pending ones, then the completed ones.
unfoldable pub get_job : JobScheduler → JobId → Option JobDescriptor
unfolding find_job
get_job s id =
    or_else (find_job (running_jobs s.running_job) id)
      (or_else (find_job s.pending_jobs id) (find_job s.completed_jobs id))

abbrev pub status_of : Option JobDescriptor → Option JobStatus
status_of none = none
status_of (some job) = some job.status

abbrev pub progress_of : Option JobDescriptor → Option ℕ
progress_of none = none
progress_of (some job) = some job.progress

unfoldable pub get_job_status : JobScheduler → JobId → Option JobStatus
unfolding get_job
get_job_status s id = status_of (get_job s id)

unfoldable pub get_job_progress : JobScheduler → JobId → Option ℕ
unfolding get_job
get_job_progress s id = progress_of (get_job s id)
