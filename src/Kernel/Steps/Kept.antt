-- ===== src/Kernel/Steps/Kept.antt =====
-- sim_kernel/src/lib.rs: every call of the kernel is made of the moves of Kernel.Authority.Moves.
use Prim.Native.String.{String}
use panda_gen.Prelude.{
  ℕ, ◌≡◌, refl, Bool, true, Option, none, some, Option-cases, Bool-cases, Result-cases, inl, inr,
  arith, delete,
}
use panda_gen.Prelude.Tables.{get}
use panda_gen.Scheduler.Types.{TaskId}
use panda_gen.Policy.Composition.{PolicyDecision-cases}
use panda_gen.Policy.{on_spawn, for_spawn}
use panda_gen.Ipc.{ChannelId, MessageEnvelope}
use panda_gen.Identity.{ExecutionId, IdentityKind, TrustDomain, IdentityMetadata, ExitReason}
use panda_gen.Memory.{AddressSpaceId}
use panda_gen.Kernel.{SimulatedKernel}
use panda_gen.Kernel.Types.{MessageOperation}
use panda_gen.Kernel.Authority.Moves.{
  IsKept, unmoved, begins, ends, grant_capability-keeps, grant_capability_with_lease-keeps,
  revoke_capability-keeps, drop_capability-keeps, invalidate_task_capabilities-keeps,
  expire_capability_leases-keeps,
}
use panda_gen.Kernel.Authority.Delegation.{delegate_capability-keeps, evaluate_policy-Move}
use panda_gen.Kernel.Authority.{invalidate_task_capabilities}
use panda_gen.Kernel.Tasks.{
  install_task, spawn_task, child_identity, violates_inheritance, ask_spawn,
  spawn_task_with_identity, release_identity, terminate_task_with_reason, sync_time,
  create_identity, clear_exit_notifications,
}
use panda_gen.Kernel.Budgets.{
  Meter, try_consume, consume, exhaust, cancel_identity, try_consume_message, message_meter,
}
use panda_gen.Kernel.Budgets.Outcomes.{try_consume-keeps}
use panda_gen.Kernel.Budgets.Exhausted.{exhaust-cancelled}
use panda_gen.Kernel.Channels.{
  grant_channel_access, revoke_channel_access, create_channel, check_sender, check_schema,
  charge_task, enqueue_message, send_message, check_receiver, dequeue_message, receive_message,
  set_receive_context, clear_receive_context,
}
use panda_gen.Kernel.Services.{
  register_service, register_service_with_schema, set_service_schema_policy,
}
use panda_gen.Kernel.Memory.{allocate_region}
use panda_gen.Kernel.Memory.Operation.{allocate_region_op, charge_memory_op}
use panda_gen.Kernel.Steps.{
  Step, Steps, idle, then_step, grants, leases, revokes, drops, delegates, spawns, spawns_identity,
  terminates, syncs, creates_identity, clears_exits, charges, creates_channel, grants_access,
  revokes_access, registers, registers_schema, sets_schema, sends, receives, sets_receiver,
  clears_receiver, allocates, allocates_op,
}

module _ {ℓ} {begun : TaskId → Bool} {given : ℕ → Bool} {P : SimulatedKernel → Type ℓ}
    (kept : IsKept begun given P) where
  try_consume-kept :
      (k : SimulatedKernel) (m : Meter) (e : ExecutionId) → P k → P (try_consume k m e).0
  unfolding consume exhaust cancel_identity
  try_consume-kept k m e i =
      try_consume-keeps k m e P i
        (λ identity q. kept.keeps (unmoved k (consume k m e identity) refl refl refl (λ f q. q)) i)
        (λ limit current.
          kept.keeps
            (unmoved k (exhaust k m e limit current).0 (ground arith) (ground arith) (ground arith)
              (λ f q. exhaust-cancelled k m e f limit current q))
            i)

  charge_task-kept :
      (k : SimulatedKernel) (t : Option TaskId) (operation : MessageOperation)
      → P k
      → P (charge_task k t operation).0
  unfolding charge_task try_consume_message
  charge_task-kept k none operation i = i
  charge_task-kept k (some t) operation i = elim (Option-cases (get k.task_to_identity t)) [
    | inl n ↦ rw (try_consume_message, n) i
    | inr (e, q) ↦ rw (try_consume_message, q) (try_consume-kept k (message_meter operation) e i)
  ]

  send_message-kept :
      (k : SimulatedKernel) (channel : ChannelId) (message : MessageEnvelope)
      → P k
      → P (send_message k channel message).0
  unfolding send_message enqueue_message
  send_message-kept k channel message i = elim (Result-cases (check_sender k channel message)) [
    | inr (e, h) ↦ rw (send_message, h) i
    | inl (u, h) ↦ elim (Result-cases (check_schema k message)) [
      | inr (e, g) ↦ rw (send_message, h, g) i
      | inl (v, g) ↦
          let charged = charge_task k message.source MessageOperation.send in
          let after = charge_task-kept k message.source MessageOperation.send i in
          elim (Result-cases charged.1) [
            | inr (e, c) ↦ rw (send_message, h, g, c) after
            | inl (w, c) ↦
                rw (send_message, h, g, c)
                  (kept.keeps
                    (unmoved charged.0 (enqueue_message charged.0 channel message).0 (ground arith)
                      (ground arith) (ground arith) (λ f q. ground arith))
                    after)
          ]
    ]
  ]

  receive_message-kept :
      (k : SimulatedKernel) (channel : ChannelId) → P k → P (receive_message k channel).0
  unfolding receive_message dequeue_message
  receive_message-kept k channel i = elim (Result-cases (check_receiver k channel)) [
    | inr (e, h) ↦ rw (receive_message, h) i
    | inl (u, h) ↦
        let charged = charge_task k k.current_receive_task MessageOperation.receive in
        let after = charge_task-kept k k.current_receive_task MessageOperation.receive i in
        elim (Result-cases charged.1) [
          | inr (e, c) ↦ rw (receive_message, h, c) after
          | inl (w, c) ↦
              rw (receive_message, h, c)
                (kept.keeps
                  (unmoved charged.0 (dequeue_message charged.0 channel).0 (ground arith)
                    (ground arith) (ground arith) (λ f q. ground arith))
                  after)
        ]
  ]

  install_task-kept :
      (k : SimulatedKernel) (t : TaskId) (name : String) (metadata : IdentityMetadata)
      (space : AddressSpaceId)
      → begun t ≡ true
      → P k
      → P (install_task k t name metadata space)
  unfolding install_task
  install_task-kept k t name metadata space b i =
      kept.keeps
        (begins k (install_task k t name metadata space) t
          (record { descriptor = name; execution_id = metadata.execution_id }) b refl refl refl
          (λ f q. q))
        i

  ask_spawn-kept :
      (k : SimulatedKernel) (metadata : IdentityMetadata) (creator_id : Option ExecutionId)
      → P k
      → P (ask_spawn k metadata creator_id).0
  unfolding ask_spawn
  ask_spawn-kept k metadata none i = i
  ask_spawn-kept k metadata (some creator) i = elim (Option-cases (k.identity_table creator)) [
    | inl n ↦ rw (ask_spawn, n) i
    | inr (identity, q) ↦
        rw (ask_spawn, q)
          (kept.keeps (evaluate_policy-Move begun given k on_spawn (for_spawn identity metadata)) i)
  ]

  spawn_task_with_identity-kept :
      (k : SimulatedKernel) (t : TaskId) (e : ExecutionId) (space : AddressSpaceId) (name : String)
      (kind : IdentityKind) (trust_domain : TrustDomain) (parent_id creator_id : Option ExecutionId)
      → begun t ≡ true
      → P k
      → P (spawn_task_with_identity k t e space name kind trust_domain parent_id creator_id).0
  unfolding spawn_task_with_identity
  spawn_task_with_identity-kept k t e space name kind trust_domain parent_id creator_id b i =
      let metadata =
        child_identity e kind trust_domain name k.current_time t parent_id creator_id in
      let after = ask_spawn-kept k metadata creator_id i in
      elim (Bool-cases (violates_inheritance k metadata parent_id)) [
        | inl h ↦ rw (spawn_task_with_identity, h) i
        | inr h ↦ elim (PolicyDecision-cases (ask_spawn k metadata creator_id).1) [
          | inl (reason, q) ↦ rw (spawn_task_with_identity, h, q) after
          | inr (inl (action, q)) ↦ rw (spawn_task_with_identity, h, q) after
          | inr (inr (derived, q)) ↦
              rw (spawn_task_with_identity, h, q)
                (install_task-kept (ask_spawn k metadata creator_id).0 t name metadata space b
                  after)
        ]
      ]

  terminate_task_with_reason-kept :
      (k : SimulatedKernel) (t : TaskId) (reason : ExitReason) (unknown : AddressSpaceId)
      → P k
      → P (terminate_task_with_reason k t reason unknown)
  unfolding terminate_task_with_reason release_identity
  terminate_task_with_reason-kept k t reason unknown i =
      let released = release_identity k t reason unknown in
      let after =
        invalidate_task_capabilities-keeps kept
          (record released { tasks = delete released.tasks t }) t
          (kept.keeps (ends released t) (
            kept.keeps
              (unmoved k released (ground arith) (ground arith) (ground arith)
                (λ f q. ground arith))
              i)) in
      kept.keeps
        (unmoved
          (invalidate_task_capabilities (record released { tasks = delete released.tasks t }) t)
          (terminate_task_with_reason k t reason unknown) refl refl refl (λ f q. q))
        after

  pub Step-kept : {k n : SimulatedKernel} → Step begun given k n → P k → P n
  unfolding spawn_task sync_time create_identity clear_exit_notifications create_channel
      grant_channel_access revoke_channel_access register_service register_service_with_schema
      set_service_schema_policy set_receive_context clear_receive_context allocate_region
      allocate_region_op charge_memory_op
  Step-kept (grants k t c g) i = grant_capability-keeps kept k t c g i
  Step-kept (leases k t c lease g) i = grant_capability_with_lease-keeps kept k t c lease g i
  Step-kept (revokes k c t reason) i = revoke_capability-keeps kept k c t reason i
  Step-kept (drops k c t) i = drop_capability-keeps kept k c t i
  Step-kept (delegates k c from to) i = delegate_capability-keeps kept k c from to i
  Step-kept (spawns k t e space name b) i = install_task-kept k t name _ space b i
  Step-kept (spawns_identity k t e space name kind trust_domain parent_id creator_id b) i =
      spawn_task_with_identity-kept k t e space name kind trust_domain parent_id creator_id b i
  Step-kept (terminates k t reason unknown) i = terminate_task_with_reason-kept k t reason unknown i
  Step-kept (syncs k now) i =
      expire_capability_leases-keeps kept (record k { current_time = now })
        (kept.keeps (unmoved k (record k { current_time = now }) refl refl refl (λ f q. q)) i)
  Step-kept (creates_identity k metadata) i =
      kept.keeps (unmoved k (create_identity k metadata) refl refl refl (λ f q. q)) i
  Step-kept (clears_exits k) i =
      kept.keeps (unmoved k (clear_exit_notifications k) refl refl refl (λ f q. q)) i
  Step-kept (charges k m e) i = try_consume-kept k m e i
  Step-kept (creates_channel k fresh) i =
      kept.keeps (unmoved k (create_channel k fresh) refl refl refl (λ f q. q)) i
  Step-kept (grants_access k channel t mode) i =
      kept.keeps (unmoved k (grant_channel_access k channel t mode) refl refl refl (λ f q. q)) i
  Step-kept (revokes_access k channel t) i =
      kept.keeps
        (unmoved k (revoke_channel_access k channel t) (ground arith) (ground arith) (ground arith)
          (λ f q. ground arith))
        i
  Step-kept (registers k service channel) i =
      kept.keeps
        (unmoved k (register_service k service channel).0 (ground arith) (ground arith)
          (ground arith) (λ f q. ground arith))
        i
  Step-kept (registers_schema k service channel policy) i =
      kept.keeps
        (unmoved k (register_service_with_schema k service channel policy).0 (ground arith)
          (ground arith) (ground arith) (λ f q. ground arith))
        i
  Step-kept (sets_schema k service policy) i =
      kept.keeps (unmoved k (set_service_schema_policy k service policy) refl refl refl (λ f q. q))
        i
  Step-kept (sends k channel message) i = send_message-kept k channel message i
  Step-kept (receives k channel) i = receive_message-kept k channel i
  Step-kept (sets_receiver k t) i =
      kept.keeps (unmoved k (set_receive_context k t) refl refl refl (λ f q. q)) i
  Step-kept (clears_receiver k) i =
      kept.keeps (unmoved k (clear_receive_context k) refl refl refl (λ f q. q)) i
  Step-kept (allocates k cap fresh size_bytes permissions backing e) i =
      kept.keeps
        (unmoved k (allocate_region k cap fresh size_bytes permissions backing e).0 (ground arith)
          (ground arith) (ground arith) (λ f q. ground arith))
        i
  Step-kept (allocates_op k cap fresh size_bytes permissions backing e) i =
      kept.keeps
        (unmoved k (allocate_region_op k cap fresh size_bytes permissions backing e).0
          (ground arith) (ground arith) (ground arith) (λ f q. ground arith))
        i

  pub Steps-kept : {k n : SimulatedKernel} → Steps begun given k n → P k → P n
  Steps-kept idle i = i
  Steps-kept (then_step s d) i = Step-kept d (Steps-kept s i)
