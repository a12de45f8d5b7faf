-- ===== src/Kernel/Types.antt =====
-- kernel_api/src/error.rs, core_types/src/capability.rs and sim_kernel/src/resource_audit.rs: the errors
-- that the kernel returns and the events that it records. A formatted text is its words and the
-- values that are printed in it.
use Prim.Native.String.{String}
use panda_gen.Prelude.{ℕ, Bool, Option}
use panda_gen.Scheduler.Types.{TaskId}
use panda_gen.Ipc.{SchemaMismatchError}
use panda_gen.Identity.{ExecutionId}

pub data CapabilityInvalidReason : Type 0 where
  owner_dead never_granted transferred_away type_mismatch was_revoked lease_expired :
      CapabilityInvalidReason

pub data CapabilityStatus : Type 0 where
  valid transferred invalid : CapabilityStatus

pub record CapabilityMetadata : Type 0 where
  pub cap_id : ℕ
  pub owner : TaskId
  pub cap_type : String
  pub status : CapabilityStatus
  pub grantor : Option TaskId
  pub revoked : Bool
  pub lease_expires_at_nanos : Option ℕ

pub data CapabilityEvent : Type 0 where
  granted : ℕ → Option TaskId → TaskId → String → CapabilityEvent
  delegated : ℕ → TaskId → TaskId → String → CapabilityEvent
  cross_domain_delegation : ℕ → TaskId → String → TaskId → String → CapabilityEvent
  cloned : ℕ → TaskId → TaskId → String → CapabilityEvent
  dropped : ℕ → TaskId → String → CapabilityEvent
  invalid_use_attempt : ℕ → TaskId → CapabilityInvalidReason → CapabilityEvent
  invalidated : ℕ → TaskId → String → CapabilityEvent
  revoked_event : ℕ → TaskId → String → String → CapabilityEvent
  lease_expired_event : ℕ → TaskId → String → ℕ → CapabilityEvent

pub data Text : Type 0 where
  words : String → Text
  words_reason : String → CapabilityInvalidReason → Text
  words_task : String → TaskId → Text
  words_text : String → String → Text
  words_mismatch : SchemaMismatchError → Text
  words_service : ℕ → Text

pub data KernelError : Type 0 where
  spawn_failed channel_error send_failed receive_failed : Text → KernelError
  timeout : KernelError
  service_not_found service_already_registered : Text → KernelError
  insufficient_authority invalid_capability resource_exhausted : Text → KernelError
  resource_budget_exceeded : String → ℕ → ℕ → ExecutionId → Text → KernelError
  resource_budget_exhausted : String → ℕ → ℕ → ExecutionId → Text → KernelError

pub data MessageOperation : Type 0 where
  send receive : MessageOperation

pub data PacketOperation : Type 0 where
  send_packet receive_packet : PacketOperation

pub data StorageOperation : Type 0 where
  read write commit : StorageOperation

pub data ResourceEvent : Type 0 where
  message_consumed : ExecutionId → MessageOperation → ℕ → ℕ → ResourceEvent
  packet_consumed : ExecutionId → PacketOperation → ℕ → ℕ → ResourceEvent
  cpu_consumed : ExecutionId → ℕ → ℕ → ℕ → ResourceEvent
  storage_op_consumed : ExecutionId → StorageOperation → ℕ → ℕ → ResourceEvent
  pipeline_stage_consumed : ExecutionId → String → ℕ → ℕ → ResourceEvent
  budget_exhausted : ExecutionId → String → ℕ → ℕ → Text → ResourceEvent
  cancelled_due_to_exhaustion : ExecutionId → String → ResourceEvent
