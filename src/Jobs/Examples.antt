-- ===== src/Jobs/Examples.antt =====
-- services_job_scheduler/src/lib.rs: the theorems at three jobs.
use panda_gen.Prelude.{◌≡◌, true, [], ◌∷◌, ◌++◌}
use panda_gen.Jobs.{
  JobScheduler, JobDescriptor, JobFn, job_completed, job_yielded, low, high, new_scheduler, new_job,
  schedule_job, tick, cancel_job,
}
use panda_gen.Jobs.Counting.{places}
use panda_gen.Jobs.Order.{of_rank, is_ordered}
use panda_gen.Jobs.Kept.{History, begin, schedules, ticks, cancels, History-places, History-turns}

-- Yields once, then completes.
abbrev two_steps : JobFn
two_steps [] = job_completed
two_steps (c ∷ []) = job_yielded
two_steps (c ∷ d ∷ contexts) = job_completed

abbrev first : JobScheduler
first = (schedule_job new_scheduler (new_job 1 "index" low two_steps)).0

abbrev second : JobScheduler
second = (schedule_job first (new_job 2 "save" high two_steps)).0

second-History : History second (2 ∷ 1 ∷ [])
second-History =
    schedules first (1 ∷ []) 2 "save" high two_steps
      (schedules new_scheduler [] 1 "index" low two_steps begin)

-- The job with the high priority runs, the other is cancelled.
History-places_example : places (cancel_job (tick second) 1).0 2 ≡ 1
History-places_example =
    History-places (cancel_job (tick second) 1).0 (2 ∷ 1 ∷ []) 2
      (cancels (tick second) (2 ∷ 1 ∷ []) 1 (ticks second (2 ∷ 1 ∷ []) second-History))

abbrev late : JobDescriptor
late = new_job 3 "format" low two_steps

History-turns_example :
    (of_rank 0 (schedule_job second late).0.pending_jobs
      ≡ of_rank 0 second.pending_jobs ++ late ∷ [])
    × (is_ordered (schedule_job second late).0.pending_jobs ≡ true)
unfolding late new_job
History-turns_example = History-turns second (2 ∷ 1 ∷ []) late 0 second-History
