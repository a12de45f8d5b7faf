-- ===== src/Jobs/Kept.antt =====
-- services_job_scheduler/src/lib.rs: histories of the job scheduler.
use Prim.Native.String.{String}
use panda_gen.Prelude.{
  ℕ, ◌+◌, ◌≡◌, refl, Bool, true, false, List, [], ◌∷◌, ◌++◌, none, some, Option-cases, inl, inr,
  arith, if◌then◌else◌, ◌==◌, u64_add,
}
use panda_gen.Jobs.{
  JobId, JobDescriptor, JobPriority, JobFn, completed, failed, cancelled, rank, JobScheduler,
  JobResult, job_completed, job_yielded, job_failed, new_scheduler, new_job, schedule_job,
  begin_tick, handle_result, execute_and_handle_job, tick, take_job, cancel_job, running_jobs,
}
use panda_gen.Jobs.Order.{
  is_ordered, is_ordered-insert_job, is_ordered-take_job, of_rank, of_rank-insert_job,
}
use panda_gen.Jobs.Counting.{
  times, count, places, has_code, all_coded, count-append, count-insert_job, coded-insert_job,
  count-put_back, coded-take_job,
}

-- A history of the scheduler, with the identifiers of the jobs that were scheduled.
pub data History : JobScheduler → List JobId → Type 0 where
  begin : History new_scheduler []
  schedules :
      (s : JobScheduler) (ids : List JobId) (fresh : JobId) (name : String) (priority : JobPriority)
      (executor : JobFn)
      → History s ids
      → History (schedule_job s (new_job fresh name priority executor)).0 (fresh ∷ ids)
  ticks : (s : JobScheduler) (ids : List JobId) → History s ids → History (tick s) ids
  cancels :
      (s : JobScheduler) (ids : List JobId) (id : JobId)
      → History s ids
      → History (cancel_job s id).0 ids

record IsSound (s : JobScheduler) (ids : List JobId) : Type 0 where
  pub ordered : is_ordered s.pending_jobs ≡ true
  pub coded : all_coded s.pending_jobs ≡ true
  pub running_coded : all_coded (running_jobs s.running_job) ≡ true
  pub kept : (id : JobId) → places s id ≡ times ids id

-- What a tick of a job leaves.
record IsHandled (s : JobScheduler) (job : JobDescriptor) (n : JobScheduler) : Type 0 where
  pub same_pending : n.pending_jobs ≡ s.pending_jobs
  pub still_coded : all_coded (running_jobs n.running_job) ≡ true
  pub placed : (id : JobId) → places n id ≡ places s id + count (job ∷ []) id

handle_result-IsHandled :
    (s : JobScheduler) (job : JobDescriptor) (r : JobResult)
    → has_code job.executor ≡ true
    → s.running_job ≡ none
    → IsHandled s job (handle_result s job r)
unfolding handle_result
handle_result-IsHandled s job job_completed c n = record {
  same_pending = refl;
  still_coded = rw n refl;
  placed = λ id. ground (
    arith,
    n,
    count-append s.completed_jobs
        (record job { status = completed; progress = 100; executor = none } ∷ []) id,
  );
}
handle_result-IsHandled s job job_yielded c n = record {
  same_pending = refl;
  still_coded = ground (arith, c);
  placed = λ id. ground (arith, n);
}
handle_result-IsHandled s job (job_failed text) c n = record {
  same_pending = refl;
  still_coded = rw n refl;
  placed = λ id. ground (
    arith,
    n,
    count-append s.completed_jobs
        (record job { status = failed; error = some text; executor = none } ∷ []) id,
  );
}

execute_and_handle_job-IsHandled :
    (s : JobScheduler) (job : JobDescriptor) (is_continuing : Bool)
    → has_code job.executor ≡ true
    → s.running_job ≡ none
    → IsHandled s job (execute_and_handle_job s job is_continuing)
unfolding execute_and_handle_job
execute_and_handle_job-IsHandled s job is_continuing c n = elim (Option-cases job.executor) [
  | inl e ↦ ground (arith, c, e)
  | inr (executor, e) ↦
      let begun = begin_tick job s.tick_count is_continuing in
      let h = handle_result-IsHandled s begun (executor begun.called) c n in
      rw (execute_and_handle_job, e)
        (record { same_pending = h.same_pending; still_coded = h.still_coded; placed = h.placed })
]

tick-IsSound : (s : JobScheduler) (ids : List JobId) → IsSound s ids → IsSound (tick s) ids
unfolding tick
tick-IsSound s ids i = elim (Option-cases s.running_job) [
  | inr (job, q) ↦
      let idle = record s { tick_count = u64_add s.tick_count 1; running_job = none } in
      let h =
        execute_and_handle_job-IsHandled idle job true (ground (arith, q, i.running_coded)) refl in
      rw (tick, q)
        (record {
          ordered = rw h.same_pending i.ordered;
          coded = rw h.same_pending i.coded;
          running_coded = h.still_coded;
          kept = λ id. ground (arith, q, h.placed id, i.kept id);
        })
  | inl q ↦ next_tick q s.pending_jobs refl
]
  where
    next_tick :
        s.running_job ≡ none
        → (jobs : List JobDescriptor) → s.pending_jobs ≡ jobs
        → IsSound (tick s) ids
    next_tick q [] p =
        rw (tick, q, p)
          (record {
            ordered = i.ordered;
            coded = i.coded;
            running_coded = i.running_coded;
            kept = λ id. ground (arith, q, p, i.kept id);
          })
    next_tick q (job ∷ jobs) p =
        let rest = record s { tick_count = u64_add s.tick_count 1; pending_jobs = jobs } in
        let h = execute_and_handle_job-IsHandled rest job false (ground (arith, p, i.coded)) q in
        let ordered : is_ordered jobs ≡ true = ground (arith, p, i.ordered) in
        let coded : all_coded jobs ≡ true = ground (arith, p, i.coded) in
        rw (tick, q, p)
          (record {
            ordered = rw h.same_pending ordered;
            coded = rw h.same_pending coded;
            running_coded = h.still_coded;
            kept = λ id. ground (arith, q, p, h.placed id, i.kept id);
          })

cancel_job-IsSound :
    (s : JobScheduler) (ids : List JobId) (id : JobId)
    → IsSound s ids
    → IsSound (cancel_job s id).0 ids
unfolding cancel_job
cancel_job-IsSound s ids id i = elim (Option-cases (take_job s.pending_jobs id)) [
  | inl n ↦ rw (cancel_job, n) i
  | inr ((job, others), q) ↦
      rw (cancel_job, q)
        (record {
          ordered = rw q at (is_ordered-take_job s.pending_jobs id i.ordered);
          coded = rw q at (coded-take_job s.pending_jobs id i.coded);
          running_coded = i.running_coded;
          kept = λ u. ground (
            arith,
            i.kept u,
            rw q at (count-put_back s.pending_jobs id u),
            count-append s.completed_jobs (record job { status = cancelled; executor = none } ∷ [])
                u,
          );
        })
]

History-IsSound : {s : JobScheduler} {ids : List JobId} → History s ids → IsSound s ids
unfolding schedule_job new_job
History-IsSound begin = record {
  ordered = refl;
  coded = refl;
  running_coded = refl;
  kept = λ id. refl;
}
History-IsSound (schedules s ids fresh name priority executor h) =
    let i = History-IsSound h in
    let job = new_job fresh name priority executor in
    record {
      ordered = is_ordered-insert_job s.pending_jobs job i.ordered;
      coded = coded-insert_job s.pending_jobs job i.coded refl;
      running_coded = i.running_coded;
      kept = λ id. ground (arith, i.kept id, count-insert_job s.pending_jobs job id);
    }
History-IsSound (ticks s ids h) = tick-IsSound s ids (History-IsSound h)
History-IsSound (cancels s ids id h) = cancel_job-IsSound s ids id (History-IsSound h)

-- In every history of scheduling, ticks and cancellations, a job stands among the pending, the
-- running and the completed jobs as often as its identifier was scheduled: no job is lost and
-- none is there twice, whatever the code of the jobs answers.
pub History-places :
    (s : JobScheduler) (ids : List JobId) (id : JobId) → History s ids → places s id ≡ times ids id
History-places s ids id h = (History-IsSound h).kept id

-- In every history the job that is scheduled next waits behind all jobs of its priority, the jobs of
-- each other priority keep their order, and priorities never rise from the front of the queue
-- to its back.
pub History-turns :
    (s : JobScheduler) (ids : List JobId) (job : JobDescriptor) (r : ℕ)
    → History s ids
    → (of_rank r (schedule_job s job).0.pending_jobs ≡ (
        if rank job.priority == r
        then of_rank r s.pending_jobs ++ job ∷ []
        else of_rank r s.pending_jobs))
      × (is_ordered (schedule_job s job).0.pending_jobs ≡ true)
unfolding schedule_job
History-turns s ids job r h =
    let ordered = (History-IsSound h).ordered in
    (
      of_rank-insert_job s.pending_jobs job r ordered,
      is_ordered-insert_job s.pending_jobs job ordered,
    )
