-- ===== src/Kernel/Steps.antt =====
-- sim_kernel/src/lib.rs: the calls of the kernel as a step relation.
pub mod Kept
pub mod Cancelled
pub mod Histories
use Prim.Native.String.{String}
use panda_gen.Prelude.{ℕ, ◌≡◌, refl, Bool, true, false, Option, ok, err}
use panda_gen.Scheduler.Types.{TaskId}
use panda_gen.Ipc.{ServiceId, ChannelId, VersionPolicy, MessageEnvelope}
use panda_gen.Identity.{ExecutionId, IdentityKind, TrustDomain, IdentityMetadata, ExitReason}
use panda_gen.Memory.{AddressSpaceId, AddressSpaceCap, MemoryRegionId, MemoryPerms, MemoryBacking}
use panda_gen.Kernel.{SimulatedKernel}
use panda_gen.Kernel.Authority.{
  grant_capability, grant_capability_with_lease, revoke_capability, drop_capability,
  delegate_capability,
}
use panda_gen.Kernel.Tasks.{
  spawn_task, spawn_task_with_identity, terminate_task_with_reason, sync_time, create_identity,
  clear_exit_notifications,
}
use panda_gen.Kernel.Budgets.{Meter, try_consume}
use panda_gen.Kernel.Channels.{
  ChannelAccessMode, grant_channel_access, revoke_channel_access, create_channel, send_message,
  receive_message, set_receive_context, clear_receive_context,
}
use panda_gen.Kernel.Services.{
  register_service, register_service_with_schema, set_service_schema_policy,
}
use panda_gen.Kernel.Memory.{allocate_region}
use panda_gen.Kernel.Memory.Operation.{allocate_region_op}

-- `begun` are the tasks that may begin, and `given` the capabilities that may be granted.
pub data Step (begun : TaskId → Bool) (given : ℕ → Bool)
    : SimulatedKernel → SimulatedKernel → Type 0 where
  grants :
      (k : SimulatedKernel) (t : TaskId) (c : ℕ)
      → given c ≡ true
      → Step begun given k (grant_capability k t c).0
  leases :
      (k : SimulatedKernel) (t : TaskId) (c lease : ℕ)
      → given c ≡ true
      → Step begun given k (grant_capability_with_lease k t c lease).0
  revokes :
      (k : SimulatedKernel) (c : ℕ) (t : TaskId) (reason : String)
      → Step begun given k (revoke_capability k c t reason).0
  drops : (k : SimulatedKernel) (c : ℕ) (t : TaskId) → Step begun given k (drop_capability k c t).0
  delegates :
      (k : SimulatedKernel) (c : ℕ) (from to : TaskId)
      → Step begun given k (delegate_capability k c from to).0
  spawns :
      (k : SimulatedKernel) (t : TaskId) (e : ExecutionId) (space : AddressSpaceId) (name : String)
      → begun t ≡ true
      → Step begun given k (spawn_task k t e space name)
  spawns_identity :
      (k : SimulatedKernel) (t : TaskId) (e : ExecutionId) (space : AddressSpaceId) (name : String)
      (kind : IdentityKind) (trust_domain : TrustDomain) (parent_id creator_id : Option ExecutionId)
      → begun t ≡ true
      → Step begun given k
          (spawn_task_with_identity k t e space name kind trust_domain parent_id creator_id).0
  terminates :
      (k : SimulatedKernel) (t : TaskId) (reason : ExitReason) (unknown : AddressSpaceId)
      → Step begun given k (terminate_task_with_reason k t reason unknown)
  syncs : (k : SimulatedKernel) (now : ℕ) → Step begun given k (sync_time k now)
  creates_identity :
      (k : SimulatedKernel) (metadata : IdentityMetadata)
      → Step begun given k (create_identity k metadata)
  clears_exits : (k : SimulatedKernel) → Step begun given k (clear_exit_notifications k)
  charges :
      (k : SimulatedKernel) (m : Meter) (e : ExecutionId) → Step begun given k (try_consume k m e).0
  creates_channel :
      (k : SimulatedKernel) (fresh : ChannelId) → Step begun given k (create_channel k fresh)
  grants_access :
      (k : SimulatedKernel) (channel : ChannelId) (t : TaskId) (mode : ChannelAccessMode)
      → Step begun given k (grant_channel_access k channel t mode)
  revokes_access :
      (k : SimulatedKernel) (channel : ChannelId) (t : TaskId)
      → Step begun given k (revoke_channel_access k channel t)
  registers :
      (k : SimulatedKernel) (service : ServiceId) (channel : ChannelId)
      → Step begun given k (register_service k service channel).0
  registers_schema :
      (k : SimulatedKernel) (service : ServiceId) (channel : ChannelId) (policy : VersionPolicy)
      → Step begun given k (register_service_with_schema k service channel policy).0
  sets_schema :
      (k : SimulatedKernel) (service : ServiceId) (policy : VersionPolicy)
      → Step begun given k (set_service_schema_policy k service policy)
  sends :
      (k : SimulatedKernel) (channel : ChannelId) (message : MessageEnvelope)
      → Step begun given k (send_message k channel message).0
  receives :
      (k : SimulatedKernel) (channel : ChannelId) → Step begun given k (receive_message k channel).0
  sets_receiver : (k : SimulatedKernel) (t : TaskId) → Step begun given k (set_receive_context k t)
  clears_receiver : (k : SimulatedKernel) → Step begun given k (clear_receive_context k)
  allocates :
      (k : SimulatedKernel) (cap : AddressSpaceCap) (fresh : MemoryRegionId) (size_bytes : ℕ)
      (permissions : MemoryPerms) (backing : MemoryBacking) (e : ExecutionId)
      → Step begun given k (allocate_region k cap fresh size_bytes permissions backing e).0
  allocates_op :
      (k : SimulatedKernel) (cap : AddressSpaceCap) (fresh : MemoryRegionId) (size_bytes : ℕ)
      (permissions : MemoryPerms) (backing : MemoryBacking) (e : ExecutionId)
      → Step begun given k (allocate_region_op k cap fresh size_bytes permissions backing e).0

-- A history: steps from a kernel on.
pub data Steps (begun : TaskId → Bool) (given : ℕ → Bool) (k : SimulatedKernel)
    : SimulatedKernel → Type 0 where
  idle : Steps begun given k k
  then_step :
      {n o : SimulatedKernel} → Steps begun given k n → Step begun given n o → Steps begun given k o
