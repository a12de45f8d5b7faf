-- ===== src/Scheduler/Counting.antt =====
-- sim_kernel/src/scheduler.rs: how often a task stands in the run queue, under each queue operation.
use panda_gen.Prelude.{
  ℕ, zero, suc, ◌+◌, ◌≡◌, Bool, true, false, [], ◌∷◌, ◌++◌, Option, none, some, arith,
  if◌then◌else◌, ◌==◌, u64_max, Option-cases, inl, inr,
}
use panda_gen.Scheduler.Types.{TaskId}
use panda_gen.Scheduler.RunQueue.{
  RunQueue, enqueue, dequeue, remove_at, insert_at, remove, dequeue_earliest_deadline, find_best,
}
use panda_gen.Scheduler.State.{Scheduler, enqueue_runnable, take_next, task_deadline}

abbrev pub bit : Bool → ℕ
bit true = 1
bit false = 0

abbrev pub count : TaskId → RunQueue → ℕ
count t [] = 0
count t (u ∷ q) = bit (u == t) + count t q

count-append : (u : TaskId) (q r : RunQueue) → count u (q ++ r) ≡ count u q + count u r
count-append u [] r = omega arith
count-append u (v ∷ q) r = omega (arith, count-append u q r)

pub count-enqueue : (u t : TaskId) (q : RunQueue) → count u (enqueue q t) ≡ count u q + bit (t == u)
unfolding enqueue
count-enqueue u t q = omega (arith, count-append u q (t ∷ []))

pub count-insert_at :
    (u t : TaskId) (i : ℕ) (q : RunQueue) → count u (insert_at i t q) ≡ count u q + bit (t == u)
unfolding insert_at
count-insert_at u t zero q = omega arith
count-insert_at u t (suc i) [] = omega arith
count-insert_at u t (suc i) (v ∷ q) = omega (arith, count-insert_at u t i q)

pub count-remove :
    (u t : TaskId) (q : RunQueue) → count u (remove q t) ≡ (if t == u then 0 else count u q)
unfolding remove
count-remove u t [] = ground arith
count-remove u t (v ∷ q) = ground (arith, count-remove u t q)

pub count-remove_at :
    (i : ℕ) (q q' : RunQueue) (t u : TaskId)
    → remove_at i q ≡ some (t, q')
    → count u q ≡ bit (t == u) + count u q'
unfolding remove_at
count-remove_at i [] q' t u h = cc
count-remove_at zero (v ∷ q) q' t u h = ground arith
count-remove_at (suc i) (v ∷ q) q' t u h = elim (Option-cases (remove_at i q)) [
  | inl e ↦ cc
  | inr ((w, rest), e) ↦ ground (arith, count-remove_at i q rest w u e)
]

pub count-dequeue :
    (q q' : RunQueue) (t u : TaskId)
    → dequeue q ≡ some (t, q')
    → count u q ≡ bit (t == u) + count u q'
unfolding dequeue
count-dequeue [] q' t u h = cc
count-dequeue (v ∷ q) q' t u h = ground arith

pub count-dequeue_earliest_deadline :
    (d : TaskId → Option ℕ) (q q' : RunQueue) (t u : TaskId)
    → dequeue_earliest_deadline d q ≡ some (t, q')
    → count u q ≡ bit (t == u) + count u q'
unfolding dequeue_earliest_deadline
count-dequeue_earliest_deadline d q q' t u h =
    elim (Option-cases (find_best d 0 (none, u64_max) q).0) [
      | inl e ↦ count-dequeue q q' t u (rw (e, dequeue_earliest_deadline) at h)
      | inr (i, e) ↦ count-remove_at i q q' t u (rw (e, dequeue_earliest_deadline) at h)
    ]

pub count-take_next :
    (s : Scheduler) (q' : RunQueue) (t u : TaskId)
    → take_next s ≡ some (t, q')
    → count u s.run_queue ≡ bit (t == u) + count u q'
unfolding take_next
count-take_next s q' t u h = ground (
  arith,
  count-dequeue s.run_queue q' t u,
  count-dequeue_earliest_deadline (task_deadline s.tasks) s.run_queue q' t u,
)

pub count-enqueue_runnable :
    (s : Scheduler) (t u : TaskId)
    → count u (enqueue_runnable s t).run_queue ≡ count u s.run_queue + bit (t == u)
unfolding enqueue_runnable
count-enqueue_runnable s t u = grind (arith, count-enqueue, count-insert_at)
