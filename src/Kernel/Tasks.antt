-- ===== src/Kernel/Tasks.antt =====
-- sim_kernel/src/lib.rs: tasks begin and end, and the clock moves. Fresh identifiers of tasks, executions
-- and address spaces are arguments.
pub mod Inheriting
use Prim.Native.String.{String}
use panda_gen.Prelude.{
  ℕ, ◌*◌, ◌/◌, ◌%◌, Bool, true, false, not, List, [], ◌∷◌, ◌++◌, Option, none, some, put, delete,
  Result, ok, err, if◌then◌else◌,
}
use panda_gen.Prelude.Tables.{get, insert, remove}
use panda_gen.Scheduler.Types.{TaskId}
use panda_gen.Scheduler.Switching.{exit_task}
use panda_gen.Scheduler.Clock.{on_tick_advanced}
use panda_gen.Scheduler.State as State
use panda_gen.Identity.{
  ExecutionId, IdentityKind, component, TrustDomain, user_domain, IdentityMetadata, new_identity,
  with_task_id, with_parent, with_creator, budget_inherits_from, ExitReason, ExitNotification,
}
use panda_gen.Policy.{on_spawn, for_spawn, PolicyDecision, allow, deny, require}
use panda_gen.Memory.{AddressSpaceId}
use panda_gen.Memory.Spaces.{create_address_space, destroy_address_space}
use panda_gen.Kernel.{SimulatedKernel, TaskInfo, evaluate_policy}
use panda_gen.Kernel.Types.{KernelError, insufficient_authority, words, words_text}
use panda_gen.Kernel.Authority.{invalidate_task_capabilities, expire_capability_leases}

-- The new task in the tables, the run queue and an address space of its own.
unfoldable pub install_task :
    SimulatedKernel → TaskId → String → IdentityMetadata → AddressSpaceId → SimulatedKernel
install_task k t name metadata space = record k {
  identity_table = put k.identity_table metadata.execution_id metadata;
  task_to_identity = insert k.task_to_identity t metadata.execution_id;
  tasks = put k.tasks t (record { descriptor = name; execution_id = metadata.execution_id });
  scheduler = State.enqueue k.scheduler t;
  address_space_manager =
      (create_address_space k.address_space_manager space metadata.execution_id k.current_time).0;
}

unfoldable pub spawn_task :
    SimulatedKernel → TaskId → ExecutionId → AddressSpaceId → String → SimulatedKernel
unfolding install_task new_identity
spawn_task k t e space name =
    install_task k t name
      (with_task_id (new_identity e component user_domain name k.current_time) t) space

-- The identity of a child, with the parent and the creator that are given.
unfoldable pub child_identity :
    ExecutionId
    → IdentityKind
    → TrustDomain
    → String
    → ℕ
    → TaskId
    → Option ExecutionId
    → Option ExecutionId
    → IdentityMetadata
unfolding new_identity
child_identity e kind trust_domain name now t parent_id creator_id =
    let metadata = with_task_id (new_identity e kind trust_domain name now) t in
    let child : IdentityMetadata = elim parent_id [
      | none ↦ metadata
      | some parent ↦ with_parent metadata parent
    ] in
    elim creator_id [ none ↦ child | some creator ↦ with_creator child creator ]

-- `if !metadata.budget_inherits_from(parent_identity)`, for a parent that the kernel knows.
unfoldable pub violates_inheritance : SimulatedKernel → IdentityMetadata → Option ExecutionId → Bool
unfolding budget_inherits_from
violates_inheritance k metadata parent_id = elim parent_id [
  | none ↦ false
  | some parent ↦ elim (k.identity_table parent) [
    | none ↦ false
    | some parent_identity ↦ not (budget_inherits_from metadata parent_identity)
  ]
]

-- The policy's answer, for a creator that the kernel knows.
unfoldable pub ask_spawn :
    SimulatedKernel → IdentityMetadata → Option ExecutionId → SimulatedKernel × PolicyDecision
unfolding evaluate_policy
ask_spawn k metadata none = (k, allow none)
ask_spawn k metadata (some creator) = elim (k.identity_table creator) [
  | none ↦ (k, allow none)
  | some creator_identity ↦ evaluate_policy k on_spawn (for_spawn creator_identity metadata)
]

-- The budget check sees the identity before the creator is set, which it does not read.
unfoldable pub spawn_task_with_identity :
    SimulatedKernel
    → TaskId
    → ExecutionId
    → AddressSpaceId
    → String
    → IdentityKind
    → TrustDomain
    → Option ExecutionId
    → Option ExecutionId
    → SimulatedKernel × Result KernelError ExecutionId
unfolding child_identity violates_inheritance ask_spawn install_task
spawn_task_with_identity k t e space name kind trust_domain parent_id creator_id =
    let metadata = child_identity e kind trust_domain name k.current_time t parent_id creator_id in
    let asked = ask_spawn k metadata creator_id in
    if violates_inheritance k metadata parent_id
    then (
      k,
      err (
          insufficient_authority
            (words "Budget inheritance violation: child budget exceeds parent")),
    )
    else elim asked.1 [
      | deny reason ↦
          (asked.0, err (insufficient_authority (words_text "Policy denied spawn: " reason)))
      | require action ↦ (
        asked.0,
        err (insufficient_authority (words_text "Policy requires action before spawn: " action)),
      )
      | allow derived ↦ (install_task asked.0 t name metadata space, ok e)
    ]

-- The exit notification, and the end of the address space and of the entry of the identity.
unfoldable pub release_identity :
    SimulatedKernel → TaskId → ExitReason → AddressSpaceId → SimulatedKernel
unfolding destroy_address_space
release_identity k t reason unknown = elim (get k.task_to_identity t) [
  | none ↦ k
  | some e ↦ record k {
    exit_notifications =
        k.exit_notifications
        ++ record {
          execution_id = e;
          task_id = some t;
          reason = reason;
          terminated_at_nanos = k.current_time;
        }
          ∷ [];
    address_space_manager =
        (destroy_address_space k.address_space_manager unknown e k.current_time).0;
    task_to_identity = remove k.task_to_identity t;
  }
]

unfoldable pub terminate_task_with_reason :
    SimulatedKernel → TaskId → ExitReason → AddressSpaceId → SimulatedKernel
unfolding release_identity invalidate_task_capabilities
terminate_task_with_reason k t reason unknown =
    let released = release_identity k t reason unknown in
    let powerless =
      invalidate_task_capabilities (record released { tasks = delete released.tasks t }) t in
    record powerless { scheduler = exit_task powerless.scheduler t }

unfoldable pub terminate_task : SimulatedKernel → TaskId → AddressSpaceId → SimulatedKernel
unfolding terminate_task_with_reason
terminate_task k t unknown = terminate_task_with_reason k t ExitReason.normal unknown

-- `sync_time_from_timer`, at the time that the timer gives.
unfoldable pub sync_time : SimulatedKernel → ℕ → SimulatedKernel
unfolding expire_capability_leases
sync_time k now = expire_capability_leases (record k { current_time = now })

-- `create_identity` and `clear_exit_notifications`
unfoldable pub create_identity : SimulatedKernel → IdentityMetadata → SimulatedKernel
create_identity k metadata = record k {
  identity_table = put k.identity_table metadata.execution_id metadata;
}

unfoldable pub clear_exit_notifications : SimulatedKernel → SimulatedKernel
clear_exit_notifications k = record k { exit_notifications = [] }
