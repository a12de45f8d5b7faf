-- ===== src/Kernel/Channels.antt =====
-- sim_kernel/src/lib.rs: channels, who may use them, sending and receiving. A
-- fresh channel identifier is an argument. No fault injector is set.
pub mod Delivery
pub mod Traffic
pub mod Access
use panda_gen.Prelude.{
  ℕ, Bool, true, false, ◌&&◌, ◌||◌, not, List, [], ◌∷◌, ◌++◌, Option, none, some, Map, put, delete,
  Result, ok, err, if◌then◌else◌, ◌==◌,
}
use panda_gen.Scheduler.Types.{TaskId}
use panda_gen.Ipc.{
  ServiceId, ChannelId, VersionPolicy, MessageEnvelope, check_compatibility, compatible,
  upgrade_required, unsupported, min_version, needs_upgrade, not_supported,
}
use panda_gen.Queue.{MessageQueue, with_capacity}
use panda_gen.Queue as Queue
use panda_gen.Kernel.{SimulatedKernel, ChannelAccess}
use panda_gen.Kernel.Types.{
  KernelError, channel_error, send_failed, receive_failed, timeout, service_already_registered,
  service_not_found, words, words_task, words_mismatch, words_service, MessageOperation,
}
use panda_gen.Kernel.Budgets.{try_consume_message}

-- `HashSet::contains`, `insert`, `remove` and `is_empty`
abbrev pub contains : List TaskId → TaskId → Bool
contains [] t = false
contains (u ∷ us) t = u == t || contains us t

abbrev pub add : List TaskId → TaskId → List TaskId
add us t = if contains us t then us else us ++ t ∷ []

abbrev pub take_away : List TaskId → TaskId → List TaskId
take_away [] t = []
take_away (u ∷ us) t = if u == t then take_away us t else u ∷ take_away us t

abbrev pub is_nil : List TaskId → Bool
is_nil [] = true
is_nil (u ∷ us) = false

abbrev pub allows_send : ChannelAccess → TaskId → Bool
allows_send access t = contains access.senders t

abbrev pub allows_receive : ChannelAccess → TaskId → Bool
allows_receive access t = contains access.receivers t

-- `ChannelAccess::is_empty`
abbrev pub is_unused : ChannelAccess → Bool
is_unused access = is_nil access.senders && is_nil access.receivers

pub data ChannelAccessMode : Type 0 where
  send_mode receive_mode both_modes : ChannelAccessMode

abbrev pub or_default : Option ChannelAccess → ChannelAccess
or_default none = record { senders = []; receivers = [] }
or_default (some access) = access

abbrev pub widen : ChannelAccess → TaskId → ChannelAccessMode → ChannelAccess
widen access t send_mode = record access { senders = add access.senders t }
widen access t receive_mode = record access { receivers = add access.receivers t }
widen access t both_modes = record {
  senders = add access.senders t;
  receivers = add access.receivers t;
}

unfoldable pub grant_channel_access :
    SimulatedKernel → ChannelId → TaskId → ChannelAccessMode → SimulatedKernel
grant_channel_access k channel t mode = record k {
  channel_access =
      put k.channel_access channel (widen (or_default (k.channel_access channel)) t mode);
}

abbrev pub narrow_access : ChannelAccess → TaskId → ChannelAccess
narrow_access access t = record {
  senders = take_away access.senders t;
  receivers = take_away access.receivers t;
}

unfoldable pub revoke_channel_access : SimulatedKernel → ChannelId → TaskId → SimulatedKernel
revoke_channel_access k channel t = elim (k.channel_access channel) [
  | none ↦ k
  | some access ↦ record k {
    channel_access =
        if is_unused (narrow_access access t)
        then delete k.channel_access channel
        else put k.channel_access channel (narrow_access access t);
  }
]

unfoldable pub create_channel : SimulatedKernel → ChannelId → SimulatedKernel
create_channel k fresh = record k {
  channels = put k.channels fresh (with_capacity k.channel_capacity);
}

-- A missing access list lets every task through.
abbrev pub may_send : SimulatedKernel → ChannelId → TaskId → Bool
may_send k channel t = elim (k.channel_access channel) [
  | none ↦ true
  | some access ↦ allows_send access t
]

abbrev pub may_receive : SimulatedKernel → ChannelId → TaskId → Bool
may_receive k channel t = elim (k.channel_access channel) [
  | none ↦ true
  | some access ↦ allows_receive access t
]

unfoldable pub check_sender :
    SimulatedKernel → ChannelId → MessageEnvelope → Result KernelError Unit
check_sender k channel message = elim message.source [
  | none ↦ ok tt
  | some t ↦
      if may_send k channel t
      then ok tt
      else err (send_failed (words_task "Channel send denied for task" t))
]

unfoldable pub check_schema : SimulatedKernel → MessageEnvelope → Result KernelError Unit
unfolding check_compatibility
check_schema k message = elim (k.service_policies message.destination) [
  | none ↦ ok tt
  | some policy ↦ elim (check_compatibility policy message.schema_version) [
    | compatible ↦ ok tt
    | upgrade_required ↦ err (
        send_failed (
          words_mismatch
            (needs_upgrade message.destination (min_version policy) message.schema_version)))
    | unsupported ↦ err (
        send_failed (
          words_mismatch (
            not_supported message.destination (min_version policy) policy.current
              message.schema_version)))
  ]
]

-- The charge for the message, when its sender or its receiver is known.
unfoldable pub charge_task :
    SimulatedKernel → Option TaskId → MessageOperation → SimulatedKernel × Result KernelError Unit
unfolding try_consume_message
charge_task k none operation = (k, ok tt)
charge_task k (some t) operation = try_consume_message k t operation

unfoldable pub enqueue_message :
    SimulatedKernel → ChannelId → MessageEnvelope → SimulatedKernel × Result KernelError Unit
unfolding Queue.push
enqueue_message k channel message = elim (k.channels channel) [
  | none ↦ (k, err (channel_error (words "Channel not found")))
  | some queue ↦ elim (Queue.push queue message).1 [
    | err e ↦ (k, err (send_failed (words "Channel queue full")))
    | ok _ ↦ (record k { channels = put k.channels channel (Queue.push queue message).0 }, ok tt)
  ]
]

unfoldable pub send_message :
    SimulatedKernel → ChannelId → MessageEnvelope → SimulatedKernel × Result KernelError Unit
unfolding check_sender check_schema charge_task enqueue_message
send_message k channel message = elim (check_sender k channel message) [
  | err e ↦ (k, err e)
  | ok _ ↦ elim (check_schema k message) [
    | err e ↦ (k, err e)
    | ok _ ↦
        let charged = charge_task k message.source MessageOperation.send in
        elim charged.1 [
          | err e ↦ (charged.0, err e)
          | ok _ ↦ enqueue_message charged.0 channel message
        ]
  ]
]

unfoldable pub check_receiver : SimulatedKernel → ChannelId → Result KernelError Unit
check_receiver k channel = elim k.current_receive_task [
  | none ↦ ok tt
  | some t ↦
      if may_receive k channel t
      then ok tt
      else err (receive_failed (words_task "Channel receive denied for task" t))
]

unfoldable pub dequeue_message :
    SimulatedKernel → ChannelId → SimulatedKernel × Result KernelError MessageEnvelope
unfolding Queue.pop
dequeue_message k channel = elim (k.channels channel) [
  | none ↦ (k, err (channel_error (words "Channel not found")))
  | some queue ↦ elim (Queue.pop queue).1 [
    | none ↦ (k, err timeout)
    | some message ↦
        (record k { channels = put k.channels channel (Queue.pop queue).0 }, ok message)
  ]
]

unfoldable pub receive_message :
    SimulatedKernel → ChannelId → SimulatedKernel × Result KernelError MessageEnvelope
unfolding check_receiver charge_task dequeue_message
receive_message k channel = elim (check_receiver k channel) [
  | err e ↦ (k, err e)
  | ok _ ↦
      let charged = charge_task k k.current_receive_task MessageOperation.receive in
      elim charged.1 [ err e ↦ (charged.0, err e) | ok _ ↦ dequeue_message charged.0 channel ]
]

unfoldable pub set_receive_context : SimulatedKernel → TaskId → SimulatedKernel
set_receive_context k t = record k { current_receive_task = some t }

unfoldable pub clear_receive_context : SimulatedKernel → SimulatedKernel
clear_receive_context k = record k { current_receive_task = none }
