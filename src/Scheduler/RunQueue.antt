-- ===== src/Scheduler/RunQueue.antt =====
-- sim_kernel/src/scheduler.rs, `RunQueue`: the front of the `VecDeque` is the head of the list.
pub mod Earliest
use panda_gen.Prelude.{
  ℕ, zero, suc, Bool, true, false, not, List, [], ◌∷◌, ◌++◌, Option, none, some, if◌then◌else◌,
  ◌==◌, ltb, length, select, u64_max,
}
use panda_gen.Scheduler.Types.{TaskId}

abbrev pub RunQueue : Type 0
RunQueue = List TaskId

unfoldable pub enqueue : RunQueue → TaskId → RunQueue
enqueue q t = q ++ t ∷ []

unfoldable pub dequeue : RunQueue → Option (TaskId × RunQueue)
dequeue [] = none
dequeue (t ∷ q) = some (t, q)

-- `VecDeque::remove(index)`
unfoldable pub remove_at : ℕ → RunQueue → Option (TaskId × RunQueue)
remove_at i [] = none
remove_at zero (t ∷ q) = some (t, q)
remove_at (suc i) (t ∷ q) = elim (remove_at i q) [
  | none ↦ none
  | some (u, rest) ↦ some (u, t ∷ rest)
]

-- `VecDeque::insert(index, id)`
unfoldable pub insert_at : ℕ → TaskId → RunQueue → RunQueue
insert_at zero t q = t ∷ q
insert_at (suc i) t [] = t ∷ []
insert_at (suc i) t (u ∷ q) = u ∷ insert_at i t q

-- `best_index` and `best_deadline` after the element at `index`.
unfoldable pub better : (TaskId → Option ℕ) → ℕ → TaskId → Option ℕ × ℕ → Option ℕ × ℕ
better deadline_of index t best = elim (deadline_of t) [
  | none ↦ best
  | some deadline ↦ if ltb deadline best.1 then (some index, deadline) else best
]

-- The loop over the queue from `index` on.
unfoldable pub find_best : (TaskId → Option ℕ) → ℕ → Option ℕ × ℕ → RunQueue → Option ℕ × ℕ
unfolding better
find_best deadline_of index best [] = best
find_best deadline_of index best (t ∷ q) =
    find_best deadline_of (suc index) (better deadline_of index t best) q

unfoldable pub dequeue_earliest_deadline :
    (TaskId → Option ℕ) → RunQueue → Option (TaskId × RunQueue)
unfolding find_best dequeue remove_at
dequeue_earliest_deadline deadline_of q = elim (find_best deadline_of 0 (none, u64_max) q).0 [
  | none ↦ dequeue q
  | some i ↦ remove_at i q
]

abbrev pub is_empty : RunQueue → Bool
is_empty [] = true
is_empty (t ∷ q) = false

abbrev pub len : RunQueue → ℕ
len = length

-- `retain(|&id| id != task_id)`
unfoldable pub remove : RunQueue → TaskId → RunQueue
remove q t = select (λ u. not (u == t)) q
