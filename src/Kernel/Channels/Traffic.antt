-- ===== src/Kernel/Channels/Traffic.antt =====
-- sim_kernel/src/lib.rs: a channel over many calls.
use mathlib.Core.List.{append_assoc, append-nil}
use panda_gen.Prelude.{
  ◌≡◌, refl, sym, ap, ◌∙◌, List, [], ◌∷◌, ◌++◌, Bool-cases, inl, inr, Result, ok, err,
  if◌then◌else◌, ◌==◌,
}
use panda_gen.Ipc.{ChannelId, MessageEnvelope}
use panda_gen.Kernel.{SimulatedKernel}
use panda_gen.Kernel.Types.{KernelError}
use panda_gen.Kernel.Channels.{send_message, receive_message}
use panda_gen.Kernel.Channels.Delivery.{
  pending, after_send, before_receive, send_message-pending, receive_message-pending,
}

-- The messages taken out of the channel, after one more call.
abbrev pub after_receive :
    Result KernelError MessageEnvelope
    → ChannelId
    → ChannelId
    → List MessageEnvelope
    → List MessageEnvelope
after_receive (err e) channel other taken = taken
after_receive (ok message) channel other taken =
    if channel == other then taken ++ message ∷ [] else taken

-- Calls on any channels from `k` on, with the messages that the channel accepted and those that it
-- gave.
pub data Traffic (channel : ChannelId) (k : SimulatedKernel)
    : SimulatedKernel → List MessageEnvelope → List MessageEnvelope → Type 0 where
  quiet : Traffic channel k k [] []
  then_send :
      (n : SimulatedKernel) (accepted given : List MessageEnvelope)
      → Traffic channel k n accepted given
      → (c : ChannelId) (message : MessageEnvelope)
      → Traffic channel k
          (send_message n c message).0
          (after_send (send_message n c message).1 c channel message accepted)
          given
  then_receive :
      (n : SimulatedKernel) (accepted given : List MessageEnvelope)
      → Traffic channel k n accepted given
      → (c : ChannelId)
      → Traffic channel k
          (receive_message n c).0
          accepted
          (after_receive (receive_message n c).1 c channel given)

++-after_send :
    (r : Result KernelError Unit) (c channel : ChannelId) (message : MessageEnvelope)
    (xs ys : List MessageEnvelope)
    → xs ++ after_send r c channel message ys ≡ after_send r c channel message (xs ++ ys)
++-after_send (err e) c channel message xs ys = refl
++-after_send (ok u) c channel message xs ys = elim (Bool-cases (c == channel)) [
  | inl h ↦ rw h (sym (append_assoc xs ys (message ∷ [])))
  | inr h ↦ rw h refl
]

after_receive-++ :
    (r : Result KernelError MessageEnvelope) (c channel : ChannelId) (xs ys : List MessageEnvelope)
    → xs ++ before_receive r c channel ys ≡ after_receive r c channel xs ++ ys
after_receive-++ (err e) c channel xs ys = refl
after_receive-++ (ok message) c channel xs ys = elim (Bool-cases (c == channel)) [
  | inl h ↦ rw h (sym (append_assoc xs (message ∷ []) ys))
  | inr h ↦ rw h refl
]

-- Over any sequence of `send_message` and `receive_message` on any channels, what a channel gave,
-- followed by what still waits in it, is what waited at the start followed by what it accepted:
-- no message is lost, given twice or overtaken.
pub Traffic-in_order :
    (channel : ChannelId) (k n : SimulatedKernel) (accepted given : List MessageEnvelope)
    → Traffic channel k n accepted given
    → pending k.channels channel ++ accepted ≡ given ++ pending n.channels channel
Traffic-in_order channel k n accepted given p = ordered p
  where
    ordered :
        {o : SimulatedKernel} {ins outs : List MessageEnvelope}
        → Traffic channel k o ins outs
        → pending k.channels channel ++ ins ≡ outs ++ pending o.channels channel
    ordered quiet = append-nil (pending k.channels channel)
    ordered (then_send o ins outs q c message) =
        ++-after_send (send_message o c message).1 c channel message (pending k.channels channel)
          ins
        ∙ ap (after_send (send_message o c message).1 c channel message) (ordered q)
        ∙ sym (
            ++-after_send (send_message o c message).1 c channel message outs
              (pending o.channels channel))
        ∙ ap (λ waiting. outs ++ waiting) (sym (send_message-pending o c channel message))
    ordered (then_receive o ins outs q c) =
        ordered q
        ∙ ap (λ waiting. outs ++ waiting) (receive_message-pending o c channel)
        ∙ after_receive-++ (receive_message o c).1 c channel outs
            (pending (receive_message o c).0.channels channel)
