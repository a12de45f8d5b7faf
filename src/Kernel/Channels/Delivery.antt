-- ===== src/Kernel/Channels/Delivery.antt =====
-- sim_kernel/src/lib.rs: what `send_message` and `receive_message` do to the queues.
use panda_gen.Prelude.{
  ◌≡◌, refl, sym, ap, ◌∙◌, List, [], ◌∷◌, ◌++◌, Option, none, some, Option-cases, inl, inr, Result,
  Result-cases, ok, err, arith, if◌then◌else◌, ◌==◌, Map,
}
use panda_gen.Prelude.Tables.{get}
use panda_gen.Scheduler.Types.{TaskId}
use panda_gen.Ipc.{ChannelId, MessageEnvelope}
use panda_gen.Queue.{MessageQueue}
use panda_gen.Queue as Queue
use panda_gen.Kernel.{SimulatedKernel}
use panda_gen.Kernel.Types.{KernelError, MessageOperation}
use panda_gen.Kernel.Budgets.{consume, exhaust, cancel_identity, try_consume_message, message_meter}
use panda_gen.Kernel.Budgets.Outcomes.{try_consume-keeps}
use panda_gen.Kernel.Channels.{
  check_sender, check_schema, charge_task, enqueue_message, send_message, check_receiver,
  dequeue_message, receive_message,
}

-- The messages that wait in a channel, the next one first.
abbrev pub pending : Map (MessageQueue MessageEnvelope) → ChannelId → List MessageEnvelope
pending channels channel = elim (channels channel) [ none ↦ [] | some queue ↦ queue.messages ]

-- A queue after `send_message` with a result, from what waited before.
abbrev pub after_send :
    Result KernelError Unit
    → ChannelId
    → ChannelId
    → MessageEnvelope
    → List MessageEnvelope
    → List MessageEnvelope
after_send (err e) channel other message waiting = waiting
after_send (ok _) channel other message waiting =
    if channel == other then waiting ++ message ∷ [] else waiting

-- A queue before `receive_message` with a result, from what waits after it.
abbrev pub before_receive :
    Result KernelError MessageEnvelope
    → ChannelId
    → ChannelId
    → List MessageEnvelope
    → List MessageEnvelope
before_receive (err e) channel other waiting = waiting
before_receive (ok message) channel other waiting =
    if channel == other then message ∷ waiting else waiting

charge_task-channels :
    (k : SimulatedKernel) (t : Option TaskId) (operation : MessageOperation)
    → (charge_task k t operation).0.channels ≡ k.channels
unfolding charge_task try_consume_message consume exhaust cancel_identity
charge_task-channels k none operation = refl
charge_task-channels k (some t) operation = elim (Option-cases (get k.task_to_identity t)) [
  | inl n ↦ rw (try_consume_message, n) refl
  | inr (e, q) ↦
      rw (try_consume_message, q)
        (try_consume-keeps k (message_meter operation) e (λ n. n.channels ≡ k.channels) refl
          (λ identity h. refl) (λ limit current. ground arith))
]

enqueue_message-pending :
    (k : SimulatedKernel) (channel other : ChannelId) (message : MessageEnvelope)
    → pending (enqueue_message k channel message).0.channels other
      ≡ after_send
          (enqueue_message k channel message).1
          channel
          other
          message
          (pending k.channels other)
unfolding enqueue_message Queue.push
enqueue_message-pending k channel other message = elim (Option-cases (k.channels channel)) [
  | inl n ↦ ground (arith, n)
  | inr (queue, q) ↦ ground (arith, q)
]

dequeue_message-pending :
    (k : SimulatedKernel) (channel other : ChannelId)
    → pending k.channels other
      ≡ before_receive
          (dequeue_message k channel).1
          channel
          other
          (pending (dequeue_message k channel).0.channels other)
unfolding dequeue_message Queue.pop
dequeue_message-pending k channel other = elim (Option-cases (k.channels channel)) [
  | inl n ↦ ground (arith, n)
  | inr (queue, q) ↦ ground (arith, q)
]

-- A message that `send_message` accepts is put behind those that wait in its channel, and no other
-- channel changes; a message that it refuses leaves every channel as it was.
pub send_message-pending :
    (k : SimulatedKernel) (channel other : ChannelId) (message : MessageEnvelope)
    → pending (send_message k channel message).0.channels other
      ≡ after_send
          (send_message k channel message).1
          channel
          other
          message
          (pending k.channels other)
unfolding send_message
send_message-pending k channel other message =
    elim (Result-cases (check_sender k channel message)) [
      | inr (e, h) ↦ rw (send_message, h) refl
      | inl (u, h) ↦ elim (Result-cases (check_schema k message)) [
        | inr (e, g) ↦ rw (send_message, h, g) refl
        | inl (v, g) ↦
            let charged = charge_task k message.source MessageOperation.send in
            let same = charge_task-channels k message.source MessageOperation.send in
            elim (Result-cases charged.1) [
              | inr (e, c) ↦
                  rw (send_message, h, g, c) (ap (λ channels. pending channels other) same)
              | inl (w, c) ↦
                  rw (send_message, h, g, c)
                    (enqueue_message-pending charged.0 channel other message
                      ∙ ap
                          (λ channels.
                            after_send (enqueue_message charged.0 channel message).1 channel other
                              message (pending channels other))
                          same)
            ]
      ]
    ]

-- A message that `receive_message` gives is the first of those that wait in the channel, which keeps
-- the others in their order; no other channel changes, and none does when the call fails.
pub receive_message-pending :
    (k : SimulatedKernel) (channel other : ChannelId)
    → pending k.channels other
      ≡ before_receive
          (receive_message k channel).1
          channel
          other
          (pending (receive_message k channel).0.channels other)
unfolding receive_message
receive_message-pending k channel other = elim (Result-cases (check_receiver k channel)) [
  | inr (e, h) ↦ rw (receive_message, h) refl
  | inl (u, h) ↦
      let charged = charge_task k k.current_receive_task MessageOperation.receive in
      let same =
        ap (λ channels. pending channels other)
          (sym (charge_task-channels k k.current_receive_task MessageOperation.receive)) in
      elim (Result-cases charged.1) [
        | inr (e, c) ↦ rw (receive_message, h, c) same
        | inl (w, c) ↦
            rw (receive_message, h, c) (same ∙ dequeue_message-pending charged.0 channel other)
      ]
]
