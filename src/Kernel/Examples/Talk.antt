-- ===== src/Kernel/Examples/Talk.antt =====
-- sim_kernel/src/lib.rs: the theorems on channels at the kernel with two tasks.
use panda_gen.Prelude.{◌≡◌, refl, true, [], ◌∷◌, ◌++◌, none, some}
use panda_gen.Ipc.{MessageEnvelope}
use panda_gen.Kernel.{SimulatedKernel}
use panda_gen.Kernel.Tasks.{spawn_task, install_task}
use panda_gen.Kernel.Channels.{
  may_send, may_receive, both_modes, grant_channel_access, revoke_channel_access, create_channel,
  send_message, receive_message,
}
use panda_gen.Kernel.Channels.Access.{revoke_channel_access-admits}
use panda_gen.Kernel.Channels.Delivery.{pending, after_send}
use panda_gen.Kernel.Channels.Traffic.{
  quiet, then_send, then_receive, after_receive, Traffic-in_order,
}
use panda_gen.Kernel.Examples.{two_tasks, one_task}

-- Channel 40, which only task 1 may use.
abbrev guarded : SimulatedKernel
guarded = grant_channel_access (create_channel two_tasks 40) 40 1 both_modes

abbrev hello : MessageEnvelope
hello = record {
  id = 1;
  destination = 50;
  source = some 1;
  action = "hello";
  schema_version = record { major = 1; minor = 0 };
  correlation_id = none;
  payload = 104 ∷ 105 ∷ [];
}

-- Task 1 was alone on the list: task 2 may use the channel after the revocation.
revoke_channel_access-admits_example :
    (may_send (revoke_channel_access guarded 40 1) 40 2 ≡ true)
    × (may_receive (revoke_channel_access guarded 40 1) 40 2 ≡ true)
unfolding grant_channel_access create_channel two_tasks one_task spawn_task install_task
revoke_channel_access-admits_example =
    revoke_channel_access-admits guarded 40 1 2 (record { senders = 1 ∷ []; receivers = 1 ∷ [] })
      refl

Traffic-in_order_example :
    let n = (send_message guarded 40 hello).0 in
    pending guarded.channels 40 ++ after_send (send_message guarded 40 hello).1 40 40 hello []
    ≡ after_receive (receive_message n 40).1 40 40 []
      ++ pending (receive_message n 40).0.channels 40
Traffic-in_order_example =
    Traffic-in_order 40 guarded (receive_message (send_message guarded 40 hello).0 40).0
      (after_send (send_message guarded 40 hello).1 40 40 hello [])
      (after_receive (receive_message (send_message guarded 40 hello).0 40).1 40 40 [])
      (then_receive (send_message guarded 40 hello).0
        (after_send (send_message guarded 40 hello).1 40 40 hello []) []
        (then_send guarded [] [] quiet 40 hello) 40)
