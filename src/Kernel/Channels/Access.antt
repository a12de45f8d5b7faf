-- ===== src/Kernel/Channels/Access.antt =====
-- sim_kernel/src/lib.rs: who may use a channel.
use panda_gen.Prelude.{
  ◌≡◌, refl, Bool, true, false, not, ◌||◌, List, [], ◌∷◌, some, Bool-cases, inl, inr, ok, arith,
  if◌then◌else◌, ◌==◌,
}
use panda_gen.Scheduler.Types.{TaskId}
use panda_gen.Ipc.{ChannelId, MessageEnvelope}
use panda_gen.Kernel.{SimulatedKernel, ChannelAccess}
use panda_gen.Kernel.Channels.{
  contains, take_away, is_nil, allows_send, is_unused, narrow_access, may_send, may_receive,
  revoke_channel_access, check_sender, send_message,
}

contains-take_away :
    (us : List TaskId) (t u : TaskId)
    → contains (take_away us t) u ≡ (if t == u then false else contains us u)
contains-take_away [] t u = ground arith
contains-take_away (w ∷ us) t u = ground (arith, contains-take_away us t u)

-- Somebody else than the task stands in the list.
abbrev pub has_other : List TaskId → TaskId → Bool
has_other [] t = false
has_other (u ∷ us) t = not (u == t) || has_other us t

is_nil-take_away : (us : List TaskId) (t : TaskId) → is_nil (take_away us t) ≡ not (has_other us t)
is_nil-take_away [] t = refl
is_nil-take_away (u ∷ us) t = ground (arith, is_nil-take_away us t)

is_unused-narrow_access :
    (access : ChannelAccess) (t : TaskId)
    → is_unused (narrow_access access t)
      ≡ not (has_other access.senders t || has_other access.receivers t)
is_unused-narrow_access access t =
    ground (arith, is_nil-take_away access.senders t, is_nil-take_away access.receivers t)

-- After a revocation on a channel with an access list: when another task than the one revoked is among
-- the senders or the receivers, the revoked task may neither send nor receive, and every other
-- task may do what it could before. When there is no other, every task may send and receive,
-- the one whose access was revoked too.
pub revoke_channel_access-admits :
    (k : SimulatedKernel) (channel : ChannelId) (t u : TaskId) (access : ChannelAccess)
    → k.channel_access channel ≡ some access
    → (may_send (revoke_channel_access k channel t) channel u ≡ (
        if has_other access.senders t || has_other access.receivers t
        then (if t == u then false else may_send k channel u)
        else true))
      × (may_receive (revoke_channel_access k channel t) channel u ≡ (
          if has_other access.senders t || has_other access.receivers t
          then (if t == u then false else may_receive k channel u)
          else true))
unfolding revoke_channel_access
revoke_channel_access-admits k channel t u access q =
    elim (Bool-cases (is_unused (narrow_access access t))) [
      | inl n ↦ (
        ground (arith, q, n, is_unused-narrow_access access t),
        ground (arith, q, n, is_unused-narrow_access access t),
      )
      | inr n ↦ (
        ground
            (arith, q, n, is_unused-narrow_access access t, contains-take_away access.senders t u),
        ground (
          arith,
          q,
          n,
          is_unused-narrow_access access t,
          contains-take_away access.receivers t u,
        ),
      )
    ]

-- On a channel with an access list, a message that `send_message` accepts from a task comes from one
-- that the list lets send.
pub send_message-allowed :
    (k : SimulatedKernel) (channel : ChannelId) (message : MessageEnvelope) (t : TaskId)
    (access : ChannelAccess)
    → k.channel_access channel ≡ some access
    → message.source ≡ some t
    → (send_message k channel message).1 ≡ ok tt
    → allows_send access t ≡ true
unfolding send_message check_sender
send_message-allowed k channel message t access q s h = elim (Bool-cases (allows_send access t)) [
  | inl a ↦ a
  | inr a ↦ ground (arith, q, s, h, a)
]
