-- ===== src/Resources.antt =====
-- resources/src/lib.rs: budgets and usage (below), and what the checks on them mean (the children).
pub mod Enforcement
pub mod Inheritance
pub mod Accounting
pub mod Examples
use panda_gen.Prelude.{
  ℕ, ◌≡◌, Bool, true, false, ◌&&◌, Option, none, some, if◌then◌else◌, ltb, leb, or_else,
  saturating_add, saturating_sub,
}
use Prim.Native.Nat.{min as nat_min}

-- The six counters are structs around a `u64`.
abbrev pub CpuTicks : Type 0
CpuTicks = ℕ

abbrev pub MemoryUnits : Type 0
MemoryUnits = ℕ

abbrev pub MessageCount : Type 0
MessageCount = ℕ

abbrev pub PacketCount : Type 0
PacketCount = ℕ

abbrev pub StorageOps : Type 0
StorageOps = ℕ

abbrev pub PipelineStages : Type 0
PipelineStages = ℕ

-- `none` is no limit.
pub record ResourceBudget : Type 0 where
  pub cpu_ticks : Option CpuTicks
  pub memory_units : Option MemoryUnits
  pub message_count : Option MessageCount
  pub packet_count : Option PacketCount
  pub storage_ops : Option StorageOps
  pub pipeline_stages : Option PipelineStages

unfoldable pub unlimited : ResourceBudget
unlimited = record {
  cpu_ticks = none;
  memory_units = none;
  message_count = none;
  packet_count = none;
  storage_ops = none;
  pipeline_stages = none;
}

-- `ResourceBudget::zero`
unfoldable pub zero_budget : ResourceBudget
zero_budget = record {
  cpu_ticks = some 0;
  memory_units = some 0;
  message_count = some 0;
  packet_count = some 0;
  storage_ops = some 0;
  pipeline_stages = some 0;
}

-- One resource of `is_subset_of`.
unfoldable pub limit_subset : Option ℕ → Option ℕ → Bool
limit_subset none other = true
limit_subset (some own) none = true
limit_subset (some own) (some other) = leb own other

unfoldable pub is_subset_of : ResourceBudget → ResourceBudget → Bool
unfolding limit_subset
is_subset_of b other =
    limit_subset b.cpu_ticks other.cpu_ticks
    && limit_subset b.memory_units other.memory_units
    && limit_subset b.message_count other.message_count
    && limit_subset b.packet_count other.packet_count
    && limit_subset b.storage_ops other.storage_ops
    && limit_subset b.pipeline_stages other.pipeline_stages

-- One resource of `ResourceBudget::min`.
unfoldable pub min_limit : Option ℕ → Option ℕ → Option ℕ
min_limit (some a) (some b) = some (nat_min a b)
min_limit (some a) none = some a
min_limit none (some b) = some b
min_limit none none = none

unfoldable pub min : ResourceBudget → ResourceBudget → ResourceBudget
unfolding min_limit
min a b = record {
  cpu_ticks = min_limit a.cpu_ticks b.cpu_ticks;
  memory_units = min_limit a.memory_units b.memory_units;
  message_count = min_limit a.message_count b.message_count;
  packet_count = min_limit a.packet_count b.packet_count;
  storage_ops = min_limit a.storage_ops b.storage_ops;
  pipeline_stages = min_limit a.pipeline_stages b.pipeline_stages;
}

pub record ResourceUsage : Type 0 where
  pub cpu_ticks : CpuTicks
  pub memory_units : MemoryUnits
  pub message_count : MessageCount
  pub packet_count : PacketCount
  pub storage_ops : StorageOps
  pub pipeline_stages : PipelineStages

-- `ResourceUsage::zero`
unfoldable pub zero_usage : ResourceUsage
zero_usage = record {
  cpu_ticks = 0;
  memory_units = 0;
  message_count = 0;
  packet_count = 0;
  storage_ops = 0;
  pipeline_stages = 0;
}

unfoldable pub consume_cpu_ticks : ResourceUsage → CpuTicks → ResourceUsage
consume_cpu_ticks u amount = record u { cpu_ticks = saturating_add u.cpu_ticks amount }

unfoldable pub consume_memory_units : ResourceUsage → MemoryUnits → ResourceUsage
consume_memory_units u amount = record u { memory_units = saturating_add u.memory_units amount }

unfoldable pub consume_message : ResourceUsage → ResourceUsage
consume_message u = record u { message_count = saturating_add u.message_count 1 }

unfoldable pub consume_packet : ResourceUsage → ResourceUsage
consume_packet u = record u { packet_count = saturating_add u.packet_count 1 }

unfoldable pub consume_storage_op : ResourceUsage → ResourceUsage
consume_storage_op u = record u { storage_ops = saturating_add u.storage_ops 1 }

unfoldable pub consume_pipeline_stage : ResourceUsage → ResourceUsage
consume_pipeline_stage u = record u { pipeline_stages = saturating_add u.pipeline_stages 1 }

-- The limit, then the usage.
pub data ResourceExceeded : Type 0 where
  cpu_exceeded memory_exceeded messages_exceeded packets_exceeded storage_exceeded stages_exceeded :
      ℕ → ℕ → ResourceExceeded

-- One resource of `exceeds`.
unfoldable pub check : (ℕ → ℕ → ResourceExceeded) → Option ℕ → ℕ → Option ResourceExceeded
check report none usage = none
check report (some limit) usage = if ltb limit usage then some (report limit usage) else none

unfoldable pub exceeds : ResourceUsage → ResourceBudget → Option ResourceExceeded
unfolding check
exceeds u b = or_else (check cpu_exceeded b.cpu_ticks u.cpu_ticks) (
    or_else (check memory_exceeded b.memory_units u.memory_units) (
      or_else (check messages_exceeded b.message_count u.message_count) (
        or_else (check packets_exceeded b.packet_count u.packet_count) (
          or_else (check storage_exceeded b.storage_ops u.storage_ops)
            (check stages_exceeded b.pipeline_stages u.pipeline_stages)))))

-- One resource of `remaining`.
unfoldable pub left : Option ℕ → ℕ → Option ℕ
left none usage = none
left (some limit) usage = some (saturating_sub limit usage)

unfoldable pub remaining : ResourceUsage → ResourceBudget → ResourceBudget
unfolding left
remaining u b = record {
  cpu_ticks = left b.cpu_ticks u.cpu_ticks;
  memory_units = left b.memory_units u.memory_units;
  message_count = left b.message_count u.message_count;
  packet_count = left b.packet_count u.packet_count;
  storage_ops = left b.storage_ops u.storage_ops;
  pipeline_stages = left b.pipeline_stages u.pipeline_stages;
}

pub record ResourceDelta : Type 0 where
  pub cpu_ticks : CpuTicks
  pub memory_units : MemoryUnits
  pub message_count : MessageCount
  pub packet_count : PacketCount
  pub storage_ops : StorageOps
  pub pipeline_stages : PipelineStages

-- `ResourceDelta::from`
unfoldable pub delta_from : ResourceUsage → ResourceUsage → ResourceDelta
delta_from before after = record {
  cpu_ticks = saturating_sub after.cpu_ticks before.cpu_ticks;
  memory_units = saturating_sub after.memory_units before.memory_units;
  message_count = saturating_sub after.message_count before.message_count;
  packet_count = saturating_sub after.packet_count before.packet_count;
  storage_ops = saturating_sub after.storage_ops before.storage_ops;
  pipeline_stages = saturating_sub after.pipeline_stages before.pipeline_stages;
}
