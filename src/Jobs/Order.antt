-- ===== src/Jobs/Order.antt =====
-- services_job_scheduler/src/lib.rs: the order in which jobs wait.
use panda_gen.Prelude.{
  ℕ, ◌≤◌, ◌≡◌, refl, Bool, true, false, List, [], ◌∷◌, ◌++◌, Option, none, some, Option-cases, inl,
  inr, arith, if◌then◌else◌, leb, ◌==◌,
}
use panda_gen.Jobs.{JobDescriptor, rank, insert_job, take_job}

-- No job is above the rank.
abbrev pub is_below : List JobDescriptor → ℕ → Bool
is_below [] r = true
is_below (j ∷ jobs) r = if leb (rank j.priority) r then is_below jobs r else false

-- Priorities never rise from the front to the back.
abbrev pub is_ordered : List JobDescriptor → Bool
is_ordered [] = true
is_ordered (j ∷ jobs) = if is_below jobs (rank j.priority) then is_ordered jobs else false

-- The jobs of one rank, in their order.
abbrev pub of_rank : ℕ → List JobDescriptor → List JobDescriptor
of_rank r [] = []
of_rank r (j ∷ jobs) = if rank j.priority == r then j ∷ of_rank r jobs else of_rank r jobs

is_below-insert_job :
    (jobs : List JobDescriptor) (job : JobDescriptor) (r : ℕ)
    → is_below jobs r ≡ true
    → rank job.priority ≤ r
    → is_below (insert_job jobs job) r ≡ true
unfolding insert_job
is_below-insert_job [] job r b l = ground arith
is_below-insert_job (j ∷ jobs) job r b l = ground (arith, b, is_below-insert_job jobs job r)

is_below-le :
    (jobs : List JobDescriptor) (q r : ℕ) → is_below jobs q ≡ true → q ≤ r → is_below jobs r ≡ true
is_below-le [] q r b l = refl
is_below-le (j ∷ jobs) q r b l = ground (arith, b, is_below-le jobs q r)

pub is_ordered-insert_job :
    (jobs : List JobDescriptor) (job : JobDescriptor)
    → is_ordered jobs ≡ true
    → is_ordered (insert_job jobs job) ≡ true
unfolding insert_job
is_ordered-insert_job [] job o = refl
is_ordered-insert_job (j ∷ jobs) job o = ground (
  arith,
  o,
  is_ordered-insert_job jobs job,
  is_below-insert_job jobs job (rank j.priority),
  is_below-le jobs (rank j.priority) (rank job.priority),
)

of_rank-below :
    (jobs : List JobDescriptor) (q r : ℕ)
    → is_below jobs q ≡ true
    → leb r q ≡ false
    → of_rank r jobs ≡ []
of_rank-below [] q r b l = refl
of_rank-below (j ∷ jobs) q r b l = ground (arith, b, of_rank-below jobs q r)

-- A scheduled job waits behind the jobs of its priority, and no others' turn changes.
pub of_rank-insert_job :
    (jobs : List JobDescriptor) (job : JobDescriptor) (r : ℕ)
    → is_ordered jobs ≡ true
    → of_rank r (insert_job jobs job)
      ≡ (if rank job.priority == r then of_rank r jobs ++ job ∷ [] else of_rank r jobs)
unfolding insert_job
of_rank-insert_job [] job r o = ground arith
of_rank-insert_job (j ∷ jobs) job r o =
    ground (arith, o, of_rank-insert_job jobs job r, of_rank-below jobs (rank j.priority) r)

-- What stays when a job is taken out.
abbrev pub others_of : Option (JobDescriptor × List JobDescriptor) → List JobDescriptor
others_of none = []
others_of (some (job, others)) = others

is_below-take_job :
    (jobs : List JobDescriptor) (id r : ℕ)
    → is_below jobs r ≡ true
    → is_below (others_of (take_job jobs id)) r ≡ true
unfolding take_job
is_below-take_job [] id r b = refl
is_below-take_job (j ∷ jobs) id r b = elim (Option-cases (take_job jobs id)) [
  | inl n ↦ ground (arith, b, n)
  | inr ((job, others), q) ↦ ground (arith, b, q, is_below-take_job jobs id r)
]

pub is_ordered-take_job :
    (jobs : List JobDescriptor) (id : ℕ)
    → is_ordered jobs ≡ true
    → is_ordered (others_of (take_job jobs id)) ≡ true
unfolding take_job
is_ordered-take_job [] id o = refl
is_ordered-take_job (j ∷ jobs) id o = elim (Option-cases (take_job jobs id)) [
  | inl n ↦ ground (arith, o, n)
  | inr ((job, others), q) ↦
      ground (arith, o, q, is_ordered-take_job jobs id, is_below-take_job jobs id (rank j.priority))
]
