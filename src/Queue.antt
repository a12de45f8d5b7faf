-- ===== src/Queue.antt =====
-- sim_kernel/src/message_queue.rs: the bounded queue of a channel, for any type of messages.
pub mod Order
pub mod Examples
use panda_gen.Prelude.{
  ℕ, ◌-◌, Bool, true, false, List, [], ◌∷◌, ◌++◌, Option, none, some, Result, ok, err, leb,
  if◌then◌else◌, length, saturating_sub,
}

pub data QueueError : Type 0 where
  full : QueueError

pub record MessageQueue (M : Type 0) : Type 0 where
  pub capacity : ℕ
  pub messages : List M

module _ {M : Type 0} where
  abbrev pub with_capacity : ℕ → MessageQueue M
  with_capacity capacity = record { capacity = capacity; messages = [] }

  abbrev pub remaining_capacity : MessageQueue M → ℕ
  remaining_capacity q = saturating_sub q.capacity (length q.messages)

  unfoldable pub push : MessageQueue M → M → MessageQueue M × Result QueueError Unit
  push q message =
      if leb q.capacity (length q.messages)
      then (q, err full)
      else (record q { messages = q.messages ++ message ∷ [] }, ok tt)

  unfoldable pub pop : MessageQueue M → MessageQueue M × Option M
  pop q = elim q.messages [ [] ↦ (q, none) | m ∷ rest ↦ (record q { messages = rest }, some m) ]
