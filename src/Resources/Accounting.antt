-- ===== src/Resources/Accounting.antt =====
-- resources/src/lib.rs: usage as it grows, what is left of a budget, and deltas.
use panda_gen.Prelude.{ℕ, ◌+◌, ◌≤◌, ◌≡◌, ◌↔◌, Option, none, some, arith, u64_max, saturating_add}
use panda_gen.Resources.{
  ResourceBudget, ResourceUsage, ResourceDelta, exceeds, remaining, left, delta_from,
  consume_cpu_ticks, consume_memory_units, consume_message, consume_packet, consume_storage_op,
  consume_pipeline_stage,
}
use panda_gen.Resources.Enforcement.{Fits, exceeds-none_iff}

-- The calls that consume.
pub data Consumes : ResourceUsage → ResourceUsage → Type 0 where
  cpu : (u : ResourceUsage) (n : ℕ) → Consumes u (consume_cpu_ticks u n)
  memory : (u : ResourceUsage) (n : ℕ) → Consumes u (consume_memory_units u n)
  message : (u : ResourceUsage) → Consumes u (consume_message u)
  packet : (u : ResourceUsage) → Consumes u (consume_packet u)
  storage_op : (u : ResourceUsage) → Consumes u (consume_storage_op u)
  pipeline_stage : (u : ResourceUsage) → Consumes u (consume_pipeline_stage u)

pub data History (u : ResourceUsage) : ResourceUsage → Type 0 where
  here : History u u
  next : {v w : ResourceUsage} → History u v → Consumes v w → History u w

-- Every counter is a `u64`.
pub record InRange (u : ResourceUsage) : Type 0 where
  pub cpu : u.cpu_ticks ≤ u64_max
  pub memory : u.memory_units ≤ u64_max
  pub messages : u.message_count ≤ u64_max
  pub packets : u.packet_count ≤ u64_max
  pub storage : u.storage_ops ≤ u64_max
  pub stages : u.pipeline_stages ≤ u64_max

-- `v` has used at least what `u` had.
pub record Covers (u v : ResourceUsage) : Type 0 where
  pub cpu : u.cpu_ticks ≤ v.cpu_ticks
  pub memory : u.memory_units ≤ v.memory_units
  pub messages : u.message_count ≤ v.message_count
  pub packets : u.packet_count ≤ v.packet_count
  pub storage : u.storage_ops ≤ v.storage_ops
  pub stages : u.pipeline_stages ≤ v.pipeline_stages

-- One call keeps the counters in range, and lowers none.
Consumes-Covers : {u v : ResourceUsage} → Consumes u v → InRange u → InRange v × Covers u v
unfolding consume_cpu_ticks consume_memory_units consume_message consume_packet consume_storage_op
    consume_pipeline_stage
Consumes-Covers (cpu u n) r = omega arith
Consumes-Covers (memory u n) r = omega arith
Consumes-Covers (message u) r = omega arith
Consumes-Covers (packet u) r = omega arith
Consumes-Covers (storage_op u) r = omega arith
Consumes-Covers (pipeline_stage u) r = omega arith

History-Covers : {u v : ResourceUsage} → InRange u → History u v → InRange v × Covers u v
History-Covers {u} r here = omega arith
History-Covers r (next h c) =
    let (r', k) = History-Covers r h in let (r'', k') = Consumes-Covers c r' in omega arith

-- Adding a delta to a usage, counter by counter.
pub plus : ResourceUsage → ResourceDelta → ResourceUsage
plus u d = record {
  cpu_ticks = u.cpu_ticks + d.cpu_ticks;
  memory_units = u.memory_units + d.memory_units;
  message_count = u.message_count + d.message_count;
  packet_count = u.packet_count + d.packet_count;
  storage_ops = u.storage_ops + d.storage_ops;
  pipeline_stages = u.pipeline_stages + d.pipeline_stages;
}

-- Over any sequence of consuming calls from a usage in range, the counters never fall and stay in
-- range, and the delta between the two ends is exact: added to the first it gives the last.
pub delta_from-History :
    {u v : ResourceUsage}
    → InRange u
    → History u v
    → InRange v × Covers u v × (plus u (delta_from u v) ≡ v)
unfolding plus delta_from
delta_from-History r h = let (r', k) = History-Covers r h in (r', k, ground arith)

Fits-left :
    (limit : Option ℕ) (used n : ℕ)
    → Fits limit used
    → used + n ≤ u64_max
    → Fits limit (saturating_add used n) ↔ Fits (left limit used) n
unfolding left
Fits-left none used n f l = ((λ h. tt), (λ h. tt))
Fits-left (some limit) used n f l = ((λ h. omega arith), (λ h. omega arith))

-- What is left of a budget is what may still be used: from a usage within the budget, consuming
-- `n` processor ticks (or memory units) that do not overflow the counter stays within the budget
-- exactly when what remains of the budget allows `n`.
pub consume-remaining :
    (u : ResourceUsage) (b : ResourceBudget) (n : ℕ)
    → exceeds u b ≡ none
    → u.cpu_ticks + n ≤ u64_max
    → u.memory_units + n ≤ u64_max
    → ((exceeds (consume_cpu_ticks u n) b ≡ none) ↔ Fits (remaining u b).cpu_ticks n)
      × ((exceeds (consume_memory_units u n) b ≡ none) ↔ Fits (remaining u b).memory_units n)
unfolding consume_cpu_ticks consume_memory_units remaining
consume-remaining u b n h l m =
    let w = (exceeds-none_iff u b).0 h in
    let cpu = Fits-left b.cpu_ticks u.cpu_ticks n w.cpu l in
    let memory = Fits-left b.memory_units u.memory_units n w.memory m in
    let more = exceeds-none_iff (consume_cpu_ticks u n) b in
    let larger = exceeds-none_iff (consume_memory_units u n) b in
    (
      (
        (λ e. cpu.0 (more.0 e).cpu),
        (λ f. more.1 (record {
          cpu = cpu.1 f;
          memory = w.memory;
          messages = w.messages;
          packets = w.packets;
          storage = w.storage;
          stages = w.stages;
        })),
      ),
      (
        (λ e. memory.0 (larger.0 e).memory),
        (λ f. larger.1 (record {
          cpu = w.cpu;
          memory = memory.1 f;
          messages = w.messages;
          packets = w.packets;
          storage = w.storage;
          stages = w.stages;
        })),
      ),
    )
