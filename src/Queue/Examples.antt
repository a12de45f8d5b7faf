-- ===== src/Queue/Examples.antt =====
-- sim_kernel/src/message_queue.rs: the order of a queue at a concrete run.
use panda_gen.Prelude.{ℕ, ◌+◌, ◌≡◌, [], ◌∷◌, ◌++◌, length}
use panda_gen.Queue.{remaining_capacity}
use panda_gen.Queue.Order.{Run, pushes, pops, run, new_run, run-fifo}

-- One place: the second push is refused.
abbrev two_pushes : Run ℕ
two_pushes = run (new_run 1) (pushes 4 ∷ pushes 5 ∷ pops ∷ pushes 6 ∷ [])

run-fifo_example :
    (two_pushes.accepted ≡ two_pushes.popped ++ two_pushes.queue.messages)
    × (length two_pushes.queue.messages + remaining_capacity two_pushes.queue ≡ 1)
run-fifo_example = run-fifo 1 (pushes 4 ∷ pushes 5 ∷ pops ∷ pushes 6 ∷ [])
