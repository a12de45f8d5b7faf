-- ===== src/Kernel/Budgets.antt =====
-- sim_kernel/src/lib.rs: the five calls that consume a resource. They differ in what a `Meter` holds.
pub mod Outcomes
pub mod Limits
pub mod Enforced
pub mod Exhausted
pub mod Overflow
pub mod Consumption
use Prim.Native.String
use Prim.Native.String.{String}
use panda_gen.Prelude.{
  ℕ, ◌+◌, Bool, true, false, List, [], ◌∷◌, Option, none, some, Map, put, Result, ok, err,
  if◌then◌else◌, ltb, leb, ◌==◌, u64_add,
}
use panda_gen.Prelude.Tables.{Table, get}
use panda_gen.Resources.{
  ResourceBudget, ResourceUsage, consume_cpu_ticks, consume_message, consume_packet,
  consume_storage_op, consume_pipeline_stage,
}
use panda_gen.Scheduler.Types.{TaskId}
use panda_gen.Scheduler.Switching.{cancel_task}
use panda_gen.Identity.{ExecutionId, IdentityMetadata}
use panda_gen.Kernel.{SimulatedKernel, audit_resource}
use panda_gen.Kernel.Types.{
  KernelError, resource_budget_exhausted, Text, words, words_text, MessageOperation,
  PacketOperation, StorageOperation, ResourceEvent, message_consumed, packet_consumed, cpu_consumed,
  storage_op_consumed, pipeline_stage_consumed, budget_exhausted, cancelled_due_to_exhaustion,
}

-- The first task of the map with that identity.
abbrev pub task_of : Table ExecutionId → ExecutionId → Option TaskId
task_of [] e = none
task_of ((t, i) ∷ m) e = if i == e then some t else task_of m e

unfoldable pub cancel_identity : SimulatedKernel → ExecutionId → String → SimulatedKernel
cancel_identity k e reason =
    let k' =
      audit_resource (record k { cancelled_identities = put k.cancelled_identities e reason })
        (cancelled_due_to_exhaustion e reason) in
    elim (task_of k.task_to_identity e) [
      | none ↦ k'
      | some t ↦ record k' { scheduler = cancel_task k.scheduler t }
    ]

abbrev pub is_identity_cancelled : SimulatedKernel → ExecutionId → Bool
is_identity_cancelled k e = elim (k.cancelled_identities e) [ none ↦ false | some reason ↦ true ]

-- What one call consumes: the resource's name, its counter and limit, when a limit is passed, the
-- usage that was attempted, and the event that tells of the consumption.
pub record Meter : Type 0 where
  pub resource_type : String
  pub usage : ResourceUsage → ℕ
  pub limit : ResourceBudget → Option ℕ
  pub passes : ℕ → ℕ → Bool
  pub attempted : ℕ → ℕ
  pub consume : ResourceUsage → ResourceUsage
  pub event : ExecutionId → ℕ → ℕ → ResourceEvent
  pub operation : Text

-- The budget passes the limit: it is recorded, the identity is cancelled, and the call fails.
unfoldable pub exhaust :
    SimulatedKernel → Meter → ExecutionId → ℕ → ℕ → SimulatedKernel × Result KernelError Unit
unfolding cancel_identity
exhaust k m e limit current = (
  cancel_identity
      (audit_resource k
        (budget_exhausted e m.resource_type limit (m.attempted current) m.operation))
      e m.resource_type,
  err (resource_budget_exhausted m.resource_type limit current e m.operation),
)

unfoldable pub consume : SimulatedKernel → Meter → ExecutionId → IdentityMetadata → SimulatedKernel
consume k m e identity =
    audit_resource
      (record k {
        identity_table =
            put k.identity_table e (record identity { usage = m.consume identity.usage });
      })
      (m.event e (m.usage identity.usage) (m.usage (m.consume identity.usage)))

unfoldable pub try_consume :
    SimulatedKernel → Meter → ExecutionId → SimulatedKernel × Result KernelError Unit
unfolding exhaust consume
try_consume k m e =
    if is_identity_cancelled k e
    then (
      k,
      err (
          resource_budget_exhausted (String.◌++◌ m.resource_type " (cancelled)") 0 0 e m.operation),
    )
    else elim (k.identity_table e) [
      | none ↦ (k, ok tt)
      | some identity ↦ elim identity.budget [
        | none ↦ (k, ok tt)
        | some budget ↦ elim (m.limit budget) [
          | none ↦ (consume k m e identity, ok tt)
          | some limit ↦
              if m.passes (m.usage identity.usage) limit
              then exhaust k m e limit (m.usage identity.usage)
              else (consume k m e identity, ok tt)
        ]
      ]
    ]

unfoldable pub cpu_meter : ℕ → Meter
unfolding consume_cpu_ticks
cpu_meter amount = record {
  resource_type = "CpuTicks";
  usage = λ u. u.cpu_ticks;
  limit = λ b. b.cpu_ticks;
  passes = λ current limit. ltb limit (u64_add current amount);
  attempted = λ current. u64_add current amount;
  consume = λ u. consume_cpu_ticks u amount;
  event = λ e before after. cpu_consumed e amount before after;
  operation = words "cpu_consumption";
}

unfoldable pub stage_meter : String → Meter
unfolding consume_pipeline_stage
stage_meter stage_name = record {
  resource_type = "PipelineStages";
  usage = λ u. u.pipeline_stages;
  limit = λ b. b.pipeline_stages;
  passes = λ current limit. leb limit current;
  attempted = λ current. u64_add current 1;
  consume = consume_pipeline_stage;
  event = λ e before after. pipeline_stage_consumed e stage_name before after;
  operation = words_text "pipeline_stage:" stage_name;
}

-- `format!("{:?}", operation)`
abbrev message_words : MessageOperation → Text
message_words MessageOperation.send = words "Send"
message_words MessageOperation.receive = words "Receive"

abbrev packet_words : PacketOperation → Text
packet_words PacketOperation.send_packet = words "Send"
packet_words PacketOperation.receive_packet = words "Receive"

abbrev storage_words : StorageOperation → Text
storage_words StorageOperation.read = words "Read"
storage_words StorageOperation.write = words "Write"
storage_words StorageOperation.commit = words "Commit"

unfoldable pub message_meter : MessageOperation → Meter
unfolding consume_message
message_meter operation = record {
  resource_type = "MessageCount";
  usage = λ u. u.message_count;
  limit = λ b. b.message_count;
  passes = λ current limit. leb limit current;
  attempted = λ current. u64_add current 1;
  consume = consume_message;
  event = λ e before after. message_consumed e operation before after;
  operation = message_words operation;
}

unfoldable pub packet_meter : PacketOperation → Meter
unfolding consume_packet
packet_meter operation = record {
  resource_type = "PacketCount";
  usage = λ u. u.packet_count;
  limit = λ b. b.packet_count;
  passes = λ current limit. leb limit current;
  attempted = λ current. u64_add current 1;
  consume = consume_packet;
  event = λ e before after. packet_consumed e operation before after;
  operation = packet_words operation;
}

unfoldable pub storage_meter : StorageOperation → Meter
unfolding consume_storage_op
storage_meter operation = record {
  resource_type = "StorageOps";
  usage = λ u. u.storage_ops;
  limit = λ b. b.storage_ops;
  passes = λ current limit. leb limit current;
  attempted = λ current. u64_add current 1;
  consume = consume_storage_op;
  event = λ e before after. storage_op_consumed e operation before after;
  operation = storage_words operation;
}

unfoldable pub try_consume_cpu_ticks :
    SimulatedKernel → ExecutionId → ℕ → SimulatedKernel × Result KernelError Unit
unfolding try_consume cpu_meter
try_consume_cpu_ticks k e amount = try_consume k (cpu_meter amount) e

unfoldable pub try_consume_pipeline_stage :
    SimulatedKernel → ExecutionId → String → SimulatedKernel × Result KernelError Unit
unfolding try_consume stage_meter
try_consume_pipeline_stage k e stage_name = try_consume k (stage_meter stage_name) e

-- A message is charged to the identity of the task; a task without one is not charged.
unfoldable pub try_consume_message :
    SimulatedKernel → TaskId → MessageOperation → SimulatedKernel × Result KernelError Unit
unfolding try_consume message_meter
try_consume_message k t operation = elim (get k.task_to_identity t) [
  | none ↦ (k, ok tt)
  | some e ↦ try_consume k (message_meter operation) e
]

unfoldable pub try_consume_packet :
    SimulatedKernel → ExecutionId → PacketOperation → SimulatedKernel × Result KernelError Unit
unfolding try_consume packet_meter
try_consume_packet k e operation = try_consume k (packet_meter operation) e

unfoldable pub try_consume_storage_op :
    SimulatedKernel → ExecutionId → StorageOperation → SimulatedKernel × Result KernelError Unit
unfolding try_consume storage_meter
try_consume_storage_op k e operation = try_consume k (storage_meter operation) e
