-- ===== src/Kernel/Gate.antt =====
-- sim_kernel/src/syscall_gate.rs: the gate between user tasks and the kernel, over any kernel with the
-- operations of `KernelApi` and `MemoryOps`.
pub mod Audit
use Prim.Native.String.{String}
use panda_gen.Prelude.{
  ℕ, Bool, true, false, List, [], ◌∷◌, ◌++◌, Option, none, some, Result, ok, err,
}
use panda_gen.Scheduler.Types.{TaskId}
use panda_gen.Identity.{ExecutionId}
use panda_gen.Ipc.{ServiceId, ChannelId, MessageEnvelope}
use panda_gen.Memory.{
  AddressSpaceCap, MemoryRegionCap, MemoryPerms, MemoryBacking, MemoryAccessType, MemoryError,
  MemoryRegionId, region_not_found,
}
use panda_gen.Kernel.Types.{KernelError, insufficient_authority, words}

-- The trait `KernelApi`. The descriptor of a task is its name, a capability is its number.
pub record KernelApi (K : Type 0) : Type 0 where
  pub spawn_task : K → String → K × Result KernelError TaskId
  pub create_channel : K → K × Result KernelError ChannelId
  pub send_message : K → ChannelId → MessageEnvelope → K × Result KernelError Unit
  pub receive_message : K → ChannelId → K × Result KernelError MessageEnvelope
  pub now : K → ℕ
  pub sleep : K → ℕ → K × Result KernelError Unit
  pub grant_capability : K → TaskId → ℕ → K × Result KernelError Unit
  pub register_service : K → ServiceId → ChannelId → K × Result KernelError Unit
  pub lookup_service : K → ServiceId → Result KernelError ChannelId

-- The trait `MemoryOps`.
pub record MemoryOps (K : Type 0) : Type 0 where
  pub create_address_space_op : K → ExecutionId → K × Result MemoryError AddressSpaceCap
  pub allocate_region_op :
      K
      → AddressSpaceCap
      → ℕ
      → MemoryPerms
      → MemoryBacking
      → ExecutionId
      → K × Result MemoryError MemoryRegionCap
  pub access_region_op :
      K → MemoryRegionCap → MemoryAccessType → ExecutionId → K × Result MemoryError Unit

pub data Syscall : Type 0 where
  spawn_task : String → Syscall
  create_channel : Syscall
  send : ChannelId → MessageEnvelope → Syscall
  recv : ChannelId → Syscall
  sleep : ℕ → Syscall
  now yield_now : Syscall
  grant : TaskId → ℕ → Syscall
  register_service : ServiceId → ChannelId → Syscall
  lookup_service : ServiceId → Syscall
  create_address_space : Syscall
  allocate_region : AddressSpaceCap → ℕ → MemoryPerms → MemoryBacking → Syscall
  access_region : MemoryRegionCap → MemoryAccessType → Syscall

pub data SyscallResult : Type 0 where
  done : SyscallResult
  task_handle : TaskId → SyscallResult
  channel_id : ChannelId → SyscallResult
  message : MessageEnvelope → SyscallResult
  instant : ℕ → SyscallResult
  address_space_cap : AddressSpaceCap → SyscallResult
  memory_region_cap : MemoryRegionCap → SyscallResult

-- What the reason of a rejection prints.
pub data Reason : Type 0 where
  kernel_reason : KernelError → Reason
  memory_reason : MemoryError → Reason

pub data SyscallEvent : Type 0 where
  invoked : ExecutionId → String → ℕ → SyscallEvent
  completed : ExecutionId → String → ℕ → SyscallEvent
  rejected : ExecutionId → String → Reason → ℕ → SyscallEvent
  bypass_attempt : ExecutionId → ℕ → SyscallEvent

pub record SyscallGate : Type 0 where
  pub audit_log : List SyscallEvent

abbrev pub record_event : SyscallGate → SyscallEvent → SyscallGate
record_event gate event = record { audit_log = gate.audit_log ++ event ∷ [] }

abbrev pub map_result : {A B E : Type 0} → (A → B) → Result E A → Result E B
map_result f (ok a) = ok (f a)
map_result f (err e) = err e

abbrev pub needs_kernel : String → Result KernelError SyscallResult
needs_kernel text = err (insufficient_authority (words text))

abbrev pub syscall_name : Syscall → String
syscall_name (spawn_task descriptor) = "SpawnTask"
syscall_name create_channel = "CreateChannel"
syscall_name (send channel envelope) = "Send"
syscall_name (recv channel) = "Recv"
syscall_name (sleep duration) = "Sleep"
syscall_name now = "Now"
syscall_name yield_now = "Yield"
syscall_name (grant task capability) = "Grant"
syscall_name (register_service service channel) = "RegisterService"
syscall_name (lookup_service service) = "LookupService"
syscall_name create_address_space = "CreateAddressSpace"
syscall_name (allocate_region space_cap size_bytes permissions backing) = "AllocateRegion"
syscall_name (access_region region_cap access_type) = "AccessRegion"

-- The event after the call, by its result.
abbrev pub finish :
    {E : Type 0}
    → SyscallGate
    → ExecutionId
    → String
    → ℕ
    → (E → Reason)
    → Result E SyscallResult
    → SyscallGate
finish gate caller name at reason (ok result) = record_event gate (completed caller name at)
finish gate caller name at reason (err e) = record_event gate (rejected caller name (reason e) at)

module _ {K : Type 0} (api : KernelApi K) where
  abbrev pub answered :
      {A : Type 0}
      → (A → SyscallResult)
      → K × Result KernelError A
      → K × Result KernelError SyscallResult
  answered f (k, r) = (k, map_result f r)

  -- The `match` of `execute`.
  unfoldable pub dispatch : K → Syscall → K × Result KernelError SyscallResult
  dispatch k (spawn_task descriptor) = answered task_handle (api.spawn_task k descriptor)
  dispatch k create_channel = answered channel_id (api.create_channel k)
  dispatch k (send channel envelope) = answered (λ u. done) (api.send_message k channel envelope)
  dispatch k (recv channel) = answered message (api.receive_message k channel)
  dispatch k (sleep duration) = answered (λ u. done) (api.sleep k duration)
  dispatch k now = (k, ok (instant (api.now k)))
  dispatch k yield_now = (k, ok done)
  dispatch k (grant task capability) = answered (λ u. done) (api.grant_capability k task capability)
  dispatch k (register_service service channel) =
      answered (λ u. done) (api.register_service k service channel)
  dispatch k (lookup_service service) = (k, map_result channel_id (api.lookup_service k service))
  dispatch k create_address_space =
      (k, needs_kernel "CreateAddressSpace requires SimulatedKernel access")
  dispatch k (allocate_region space_cap size_bytes permissions backing) =
      (k, needs_kernel "AllocateRegion requires SimulatedKernel access")
  dispatch k (access_region region_cap access_type) =
      (k, needs_kernel "AccessRegion requires SimulatedKernel access")

  unfoldable pub execute :
      SyscallGate
      → K
      → ExecutionId
      → Syscall
      → ℕ
      → SyscallGate × (K × Result KernelError SyscallResult)
  unfolding dispatch
  execute gate k caller syscall at =
      let name = syscall_name syscall in
      let result = dispatch k syscall in
      (
        finish (record_event gate (invoked caller name at)) caller name at kernel_reason result.1,
        result,
      )

module _ {K : Type 0} (ops : MemoryOps K) where
  abbrev pub answered_memory :
      {A : Type 0}
      → (A → SyscallResult)
      → K × Result MemoryError A
      → K × Result MemoryError SyscallResult
  answered_memory f (k, r) = (k, map_result f r)

  -- The `match` of `execute_with_memory`; `none` for the early return.
  unfoldable pub dispatch_memory :
      K → ExecutionId → Syscall → Option (K × Result MemoryError SyscallResult)
  dispatch_memory k caller create_address_space =
      some (answered_memory address_space_cap (ops.create_address_space_op k caller))
  dispatch_memory k caller (allocate_region space_cap size_bytes permissions backing) = some (
      answered_memory memory_region_cap
        (ops.allocate_region_op k space_cap size_bytes permissions backing caller))
  dispatch_memory k caller (access_region region_cap access_type) =
      some (answered_memory (λ u. done) (ops.access_region_op k region_cap access_type caller))
  dispatch_memory k caller _ = none

  -- The region of the early return's error is new.
  unfoldable pub execute_with_memory :
      SyscallGate
      → K
      → ExecutionId
      → Syscall
      → ℕ
      → MemoryRegionId
      → SyscallGate × (K × Result MemoryError SyscallResult)
  unfolding dispatch_memory
  execute_with_memory gate k caller syscall at fresh =
      let name = syscall_name syscall in
      let begun = record_event gate (invoked caller name at) in
      elim (dispatch_memory k caller syscall) [
        | none ↦ (begun, (k, err (region_not_found fresh)))
        | some result ↦ (finish begun caller name at memory_reason result.1, result)
      ]
