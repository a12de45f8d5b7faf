-- ===== src/Queue/Order.antt =====
-- sim_kernel/src/message_queue.rs: first in, first out, over every sequence of pushes and pops.
use mathlib.Core.List.{append_assoc}
use panda_gen.Prelude.{
  ℕ, ◌+◌, ◌≡◌, ◌≤◌, refl, sym, ap, ◌∙◌, List, [], ◌∷◌, ◌++◌, Option, none, some, Result, ok, err,
  inl, inr, leb, length, length-append, arith, Bool-cases,
}
use panda_gen.Queue.{QueueError, MessageQueue, with_capacity, remaining_capacity, push, pop}

pub data Operation (M : Type 0) : Type 0 where
  pushes : M → Operation M
  pops : Operation M

-- A queue, with the messages that pushes put in and those that pops took out, oldest first.
pub record Run (M : Type 0) : Type 0 where
  pub queue : MessageQueue M
  pub accepted : List M
  pub popped : List M

module _ {M : Type 0} where
  abbrev pub accept : Result QueueError Unit → M → List M → List M
  accept (ok _) m ms = ms ++ m ∷ []
  accept (err e) m ms = ms

  abbrev pub take_out : Option M → List M → List M
  take_out none ms = ms
  take_out (some m) ms = ms ++ m ∷ []

  abbrev pub perform : Run M → Operation M → Run M
  perform r (pushes m) = record r {
    queue = (push r.queue m).0;
    accepted = accept (push r.queue m).1 m r.accepted;
  }
  perform r pops = record r { queue = (pop r.queue).0; popped = take_out (pop r.queue).1 r.popped }

  abbrev pub run : Run M → List (Operation M) → Run M
  run r [] = r
  run r (o ∷ os) = run (perform r o) os

  abbrev pub new_run : ℕ → Run M
  new_run capacity = record { queue = with_capacity capacity; accepted = []; popped = [] }

  -- What was accepted is what was popped and then what is queued, and the queue fits.
  record IsOrdered (capacity : ℕ) (r : Run M) : Type 0 where
    split : r.accepted ≡ r.popped ++ r.queue.messages
    bound : length r.queue.messages ≤ capacity
    fixed : r.queue.capacity ≡ capacity

  perform-IsOrdered :
      (capacity : ℕ) (r : Run M) (o : Operation M)
      → IsOrdered capacity r
      → IsOrdered capacity (perform r o)
  unfolding push pop
  perform-IsOrdered capacity r (pushes m) i =
      elim (Bool-cases (leb r.queue.capacity (length r.queue.messages))) [
        | inl h ↦ rw (push, h) i
        | inr h ↦
            rw (push, h)
              record {
                split =
                    ap (λ ms. ms ++ m ∷ []) i.split
                    ∙ append_assoc r.popped r.queue.messages (m ∷ []);
                bound = ground (arith, length-append r.queue.messages (m ∷ []), i.fixed);
                fixed = i.fixed;
              }
      ]
  perform-IsOrdered capacity r pops i = take r.queue.messages refl
    where
      take : (ms : List M) → r.queue.messages ≡ ms → IsOrdered capacity (perform r pops)
      take [] q = rw (pop, q) record { split = i.split; bound = i.bound; fixed = i.fixed }
      take (m ∷ ms) q =
          rw (pop, q)
            record {
              split =
                  i.split ∙ ap (λ xs. r.popped ++ xs) q ∙ sym (append_assoc r.popped (m ∷ []) ms);
              bound = omega (arith, i.bound, ap length q);
              fixed = i.fixed;
            }

  run-IsOrdered :
      (capacity : ℕ) (r : Run M) (os : List (Operation M))
      → IsOrdered capacity r
      → IsOrdered capacity (run r os)
  run-IsOrdered capacity r [] i = i
  run-IsOrdered capacity r (o ∷ os) i =
      run-IsOrdered capacity (perform r o) os (perform-IsOrdered capacity r o i)

  new_run-IsOrdered : (capacity : ℕ) → IsOrdered capacity (new_run capacity)
  new_run-IsOrdered capacity = record { split = refl; bound = omega arith; fixed = refl }

  -- For every sequence of pushes and pops on a new queue: the messages that pushes accepted are, in
  -- their order, those that pops returned followed by those still queued, so that none is lost,
  -- doubled or overtaken; the queue never holds more messages than its capacity, and the room that
  -- it reports makes up the rest.
  pub run-fifo :
      (capacity : ℕ) (os : List (Operation M))
      → ((run (new_run capacity) os).accepted
          ≡ (run (new_run capacity) os).popped ++ (run (new_run capacity) os).queue.messages)
        × (length (run (new_run capacity) os).queue.messages
              + remaining_capacity (run (new_run capacity) os).queue
            ≡ capacity)
  run-fifo capacity os = (last_run.split, omega (arith, last_run.bound, last_run.fixed))
    where
      last_run : IsOrdered capacity (run (new_run capacity) os)
      last_run = run-IsOrdered capacity (new_run capacity) os (new_run-IsOrdered capacity)
