-- ===== src/Kernel/Budgets/Consumption.antt =====
-- sim_kernel/src/lib.rs: the five calls that consume a resource, each against the budget's own limit of it
-- in resources/src/lib.rs.
use Prim.Native.String.{String}
use panda_gen.Prelude.{
  ℕ, ◌+◌, ◌≤◌, ◌<◌, ◌≡◌, refl, true, false, Option, some, err, Result, arith, u64_max,
}
use panda_gen.Prelude.Tables.{get}
use panda_gen.Resources.{ResourceBudget, ResourceUsage}
use panda_gen.Scheduler.Types.{TaskId}
use panda_gen.Scheduler.State.{is_current}
use panda_gen.Scheduler.Counting.{count}
use panda_gen.Identity.{ExecutionId, IdentityMetadata}
use panda_gen.Kernel.{SimulatedKernel}
use panda_gen.Kernel.Types.{KernelError, MessageOperation, PacketOperation, StorageOperation}
use panda_gen.Kernel.Budgets.{
  Meter, try_consume, is_identity_cancelled, task_of, cpu_meter, stage_meter, message_meter,
  packet_meter, storage_meter, try_consume_cpu_ticks, try_consume_pipeline_stage,
  try_consume_message, try_consume_packet, try_consume_storage_op,
}
use panda_gen.Kernel.Budgets.Exhausted.{exhausted-cancels}

-- What is consumed.
pub data Consumption : Type 0 where
  cpu_ticks : ℕ → Consumption
  pipeline_stage : String → Consumption
  message : MessageOperation → Consumption
  packet : PacketOperation → Consumption
  storage_op : StorageOperation → Consumption

-- How much of it, and the budget's limit and the usage of it.
abbrev pub amount_of : Consumption → ℕ
amount_of (cpu_ticks n) = n
amount_of (pipeline_stage s) = 1
amount_of (message operation) = 1
amount_of (packet operation) = 1
amount_of (storage_op operation) = 1

abbrev pub limit_of : Consumption → ResourceBudget → Option ℕ
limit_of (cpu_ticks n) b = b.cpu_ticks
limit_of (pipeline_stage s) b = b.pipeline_stages
limit_of (message operation) b = b.message_count
limit_of (packet operation) b = b.packet_count
limit_of (storage_op operation) b = b.storage_ops

abbrev pub used_of : Consumption → ResourceUsage → ℕ
used_of (cpu_ticks n) u = u.cpu_ticks
used_of (pipeline_stage s) u = u.pipeline_stages
used_of (message operation) u = u.message_count
used_of (packet operation) u = u.packet_count
used_of (storage_op operation) u = u.storage_ops

-- The call that charges it: a message to a task, the others to an execution.
abbrev pub charge :
    SimulatedKernel → TaskId → ExecutionId → Consumption → SimulatedKernel × Result KernelError Unit
charge k t e (cpu_ticks n) = try_consume_cpu_ticks k e n
charge k t e (pipeline_stage s) = try_consume_pipeline_stage k e s
charge k t e (message operation) = try_consume_message k t operation
charge k t e (packet operation) = try_consume_packet k e operation
charge k t e (storage_op operation) = try_consume_storage_op k e operation

-- A message is charged through a task of the execution.
abbrev pub IsChargedTo : SimulatedKernel → TaskId → ExecutionId → Consumption → Type 0
IsChargedTo k t e (cpu_ticks n) = Unit
IsChargedTo k t e (pipeline_stage s) = Unit
IsChargedTo k t e (message operation) = get k.task_to_identity t ≡ some e
IsChargedTo k t e (packet operation) = Unit
IsChargedTo k t e (storage_op operation) = Unit

abbrev pub meter_of : Consumption → Meter
meter_of (cpu_ticks n) = cpu_meter n
meter_of (pipeline_stage s) = stage_meter s
meter_of (message operation) = message_meter operation
meter_of (packet operation) = packet_meter operation
meter_of (storage_op operation) = storage_meter operation

pub charge-meter :
    (k : SimulatedKernel) (t : TaskId) (e : ExecutionId) (c : Consumption)
    → IsChargedTo k t e c
    → charge k t e c ≡ try_consume k (meter_of c) e
unfolding try_consume_cpu_ticks try_consume_pipeline_stage try_consume_message try_consume_packet
    try_consume_storage_op
charge-meter k t e (cpu_ticks n) h = refl
charge-meter k t e (pipeline_stage s) h = refl
charge-meter k t e (message operation) h = rw (try_consume_message, h) refl
charge-meter k t e (packet operation) h = refl
charge-meter k t e (storage_op operation) h = refl

meter-limit : (c : Consumption) (b : ResourceBudget) → (meter_of c).limit b ≡ limit_of c b
unfolding cpu_meter stage_meter message_meter packet_meter storage_meter
meter-limit (cpu_ticks n) b = refl
meter-limit (pipeline_stage s) b = refl
meter-limit (message operation) b = refl
meter-limit (packet operation) b = refl
meter-limit (storage_op operation) b = refl

meter-passes :
    (c : Consumption) (u : ResourceUsage) (limit : ℕ)
    → limit < used_of c u + amount_of c
    → used_of c u + amount_of c ≤ u64_max
    → (meter_of c).passes ((meter_of c).usage u) limit ≡ true
unfolding cpu_meter stage_meter message_meter packet_meter storage_meter
meter-passes (cpu_ticks n) u limit h o = ground arith
meter-passes (pipeline_stage s) u limit h o = ground arith
meter-passes (message operation) u limit h o = ground arith
meter-passes (packet operation) u limit h o = ground arith
meter-passes (storage_op operation) u limit h o = ground arith

-- When a charge for processor ticks, a pipeline stage, a message, a packet or a storage operation
-- would take an execution over the budget's limit of it, and the sum of the usage and the amount is
-- at most the last value of a `u64`, the call fails, the execution is cancelled, and its task, the
-- one that the kernel finds first and that a message is charged through, holds neither the
-- processor nor a place in the run queue any more. The execution was not cancelled before. Charges
-- for memory are not meant.
pub charge-cancels :
    (k : SimulatedKernel) (c : Consumption) (e : ExecutionId) (identity : IdentityMetadata)
    (b : ResourceBudget) (limit : ℕ) (t : TaskId)
    → is_identity_cancelled k e ≡ false
    → k.identity_table e ≡ some identity
    → identity.budget ≡ some b
    → limit_of c b ≡ some limit
    → limit < used_of c identity.usage + amount_of c
    → used_of c identity.usage + amount_of c ≤ u64_max
    → task_of k.task_to_identity e ≡ some t
    → IsChargedTo k t e c
    → ((x : KernelError) × ((charge k t e c).1 ≡ err x))
      × (is_identity_cancelled (charge k t e c).0 e ≡ true)
      × (count t (charge k t e c).0.scheduler.run_queue ≡ 0)
      × (is_current (charge k t e c).0.scheduler.current_task t ≡ false)
charge-cancels k c e identity b limit t f q w l p o i g =
    let (x, y, z, v) =
      exhausted-cancels k (meter_of c) e identity b limit t f q w (rw (meter-limit c b) l)
        (meter-passes c identity.usage limit p o) i in
    rw (charge-meter k t e c g) ((_, x), y, z, v)
