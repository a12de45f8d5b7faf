-- ===== src/Kernel.antt =====
-- sim_kernel/src/lib.rs: the kernel's state. The kernel runs on one core, without faults injected.
pub mod Types
pub mod Budgets
pub mod Authority
pub mod Tasks
pub mod Channels
pub mod Services
pub mod Memory
pub mod Steps
pub mod Gate
pub mod Examples
use Prim.Native.String.{String}
use panda_gen.Prelude.{
  ℕ, ◌==◌, if◌then◌else◌, List, [], ◌∷◌, ◌++◌, Option, none, some, Map, empty_map,
}
use panda_gen.Prelude.Tables.{Table}
use panda_gen.Scheduler.Types.{TaskId}
use panda_gen.Scheduler.State.{Scheduler}
use panda_gen.Scheduler.State as State
use panda_gen.Memory.Spaces.{AddressSpaceManager, new_manager}
use panda_gen.Queue.{MessageQueue}
use panda_gen.Ipc.{ServiceId, ChannelId, VersionPolicy, MessageEnvelope}
use panda_gen.Identity.{ExecutionId, IdentityMetadata, ExitNotification}
use panda_gen.Policy.{PolicyEngine, PolicyEvent, PolicyContext, PolicyDecision, allow}
use Types.{CapabilityMetadata, CapabilityEvent, ResourceEvent}

-- The descriptor is the task's name.
pub record TaskInfo : Type 0 where
  pub descriptor : String
  pub execution_id : ExecutionId

-- `HashSet<TaskId>`, without repetitions.
pub record ChannelAccess : Type 0 where
  pub senders : List TaskId
  pub receivers : List TaskId

-- The context stands for its summary.
pub record PolicyAuditEvent : Type 0 where
  pub timestamp : ℕ
  pub event : PolicyEvent
  pub policy_name : String
  pub decision : PolicyDecision
  pub context : PolicyContext

pub record SimulatedKernel : Type 0 where
  pub current_time : ℕ
  pub tasks : Map TaskInfo
  pub channels : Map (MessageQueue MessageEnvelope)
  pub channel_access : Map ChannelAccess
  pub services : Map ChannelId
  pub service_policies : Map VersionPolicy
  pub capability_table : Table CapabilityMetadata
  pub capability_audit : List (ℕ × CapabilityEvent)
  pub identity_table : Map IdentityMetadata
  pub task_to_identity : Table ExecutionId
  pub exit_notifications : List ExitNotification
  pub policy_engine : Option PolicyEngine
  pub policy_audit : List PolicyAuditEvent
  pub resource_audit : List (ℕ × ResourceEvent)
  pub cancelled_identities : Map String
  pub current_receive_task : Option TaskId
  pub scheduler : Scheduler
  pub address_space_manager : AddressSpaceManager
  pub channel_capacity : ℕ

-- `SimulatedKernel::new`, with the policy engine and the channel capacity that the builder's calls
-- give.
abbrev pub new_kernel : Option PolicyEngine → ℕ → SimulatedKernel
new_kernel engine capacity = record {
  current_time = 0;
  tasks = empty_map;
  channels = empty_map;
  channel_access = empty_map;
  services = empty_map;
  service_policies = empty_map;
  capability_table = [];
  capability_audit = [];
  identity_table = empty_map;
  task_to_identity = [];
  exit_notifications = [];
  policy_engine = engine;
  policy_audit = [];
  resource_audit = [];
  cancelled_identities = empty_map;
  current_receive_task = none;
  scheduler = State.new;
  address_space_manager = new_manager;
  channel_capacity = if capacity == 0 then 1 else capacity;
}

abbrev pub audit_capability : SimulatedKernel → CapabilityEvent → SimulatedKernel
audit_capability k event = record k {
  capability_audit = k.capability_audit ++ (k.current_time, event) ∷ [];
}

abbrev pub audit_resource : SimulatedKernel → ResourceEvent → SimulatedKernel
audit_resource k event = record k {
  resource_audit = k.resource_audit ++ (k.current_time, event) ∷ [];
}

unfoldable pub evaluate_policy :
    SimulatedKernel → PolicyEvent → PolicyContext → SimulatedKernel × PolicyDecision
evaluate_policy k event context = elim k.policy_engine [
  | none ↦ (k, allow none)
  | some engine ↦ (
    record k {
      policy_audit =
          k.policy_audit
          ++ record {
            timestamp = k.current_time;
            event = event;
            policy_name = engine.name;
            decision = engine.evaluate event context;
            context = context;
          }
            ∷ [];
    },
    engine.evaluate event context,
  )
]
