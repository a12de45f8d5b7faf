-- ===== src/Jobs/Counting.antt =====
-- services_job_scheduler/src/lib.rs: how often a job stands in a queue.
use panda_gen.Prelude.{
  ℕ, ◌+◌, ◌≡◌, refl, Bool, true, false, List, [], ◌∷◌, ◌++◌, Option, none, some, Option-cases, inl,
  inr, arith, if◌then◌else◌, ◌==◌,
}
use panda_gen.Jobs.{JobId, JobDescriptor, JobFn, JobScheduler, insert_job, take_job, running_jobs}
use panda_gen.Jobs.Order.{others_of}

-- How often an identifier stands in a list, and in a list of jobs.
abbrev pub times : List JobId → JobId → ℕ
times [] id = 0
times (i ∷ ids) id = if i == id then times ids id + 1 else times ids id

abbrev pub count : List JobDescriptor → JobId → ℕ
count [] id = 0
count (j ∷ jobs) id = if j.id == id then count jobs id + 1 else count jobs id

abbrev pub places : JobScheduler → JobId → ℕ
places s id =
    count s.pending_jobs id + (count (running_jobs s.running_job) id + count s.completed_jobs id)

-- Every job that waits has code and is pending.
abbrev pub has_code : Option JobFn → Bool
has_code none = false
has_code (some executor) = true

abbrev pub all_coded : List JobDescriptor → Bool
all_coded [] = true
all_coded (j ∷ jobs) = if has_code j.executor then all_coded jobs else false

pub count-append :
    (jobs others : List JobDescriptor) (id : JobId)
    → count (jobs ++ others) id ≡ count jobs id + count others id
count-append [] others id = ground arith
count-append (j ∷ jobs) others id = ground (arith, count-append jobs others id)

pub count-insert_job :
    (jobs : List JobDescriptor) (job : JobDescriptor) (id : JobId)
    → count (insert_job jobs job) id ≡ count (job ∷ jobs) id
unfolding insert_job
count-insert_job [] job id = refl
count-insert_job (j ∷ jobs) job id = ground (arith, count-insert_job jobs job id)

pub coded-insert_job :
    (jobs : List JobDescriptor) (job : JobDescriptor)
    → all_coded jobs ≡ true
    → has_code job.executor ≡ true
    → all_coded (insert_job jobs job) ≡ true
unfolding insert_job
coded-insert_job [] job c h = ground (arith, h)
coded-insert_job (j ∷ jobs) job c h = ground (arith, c, h, coded-insert_job jobs job)

-- The job that was taken out in front of the others; the list as it is, when there was none.
abbrev pub put_back :
    Option (JobDescriptor × List JobDescriptor) → List JobDescriptor → List JobDescriptor
put_back none jobs = jobs
put_back (some (job, others)) jobs = job ∷ others

pub count-put_back :
    (jobs : List JobDescriptor) (id u : JobId)
    → count (put_back (take_job jobs id) jobs) u ≡ count jobs u
unfolding take_job
count-put_back [] id u = refl
count-put_back (j ∷ jobs) id u = elim (Option-cases (take_job jobs id)) [
  | inl n ↦ ground (arith, n)
  | inr ((job, others), q) ↦ ground (arith, q, count-put_back jobs id u)
]

pub coded-take_job :
    (jobs : List JobDescriptor) (id : JobId)
    → all_coded jobs ≡ true
    → all_coded (others_of (take_job jobs id)) ≡ true
unfolding take_job
coded-take_job [] id c = refl
coded-take_job (j ∷ jobs) id c = elim (Option-cases (take_job jobs id)) [
  | inl n ↦ ground (arith, c, n)
  | inr ((job, others), q) ↦ ground (arith, c, q, coded-take_job jobs id)
]
