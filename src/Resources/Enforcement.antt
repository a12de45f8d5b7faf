-- ===== src/Resources/Enforcement.antt =====
-- resources/src/lib.rs, `exceeds` and `min`: which usage a budget lets through.
use panda_gen.Prelude.{ℕ, ◌≤◌, ◌<◌, ◌≡◌, ◌↔◌, refl, Option, none, some, arith}
use panda_gen.Resources.{
  ResourceBudget, ResourceUsage, ResourceExceeded, cpu_exceeded, memory_exceeded, messages_exceeded,
  packets_exceeded, storage_exceeded, stages_exceeded, exceeds, check, min, min_limit,
}

-- The usage of one resource is within its limit.
abbrev pub Fits : Option ℕ → ℕ → Type 0
Fits none usage = Unit {0}
Fits (some limit) usage = usage ≤ limit

pub record IsWithin (u : ResourceUsage) (b : ResourceBudget) : Type 0 where
  pub cpu : Fits b.cpu_ticks u.cpu_ticks
  pub memory : Fits b.memory_units u.memory_units
  pub messages : Fits b.message_count u.message_count
  pub packets : Fits b.packet_count u.packet_count
  pub storage : Fits b.storage_ops u.storage_ops
  pub stages : Fits b.pipeline_stages u.pipeline_stages

check-none_iff :
    (report : ℕ → ℕ → ResourceExceeded) (limit : Option ℕ) (usage : ℕ)
    → (check report limit usage ≡ none) ↔ Fits limit usage
unfolding check
check-none_iff report none usage = ((λ _. tt), (λ _. refl))
check-none_iff report (some limit) usage = ((λ h. ground arith), (λ h. ground arith))

-- `exceeds` finds nothing exactly when the usage of each of the six resources is within its limit,
-- if it has one.
pub exceeds-none_iff :
    (u : ResourceUsage) (b : ResourceBudget) → (exceeds u b ≡ none) ↔ IsWithin u b
unfolding exceeds
exceeds-none_iff u b = ((λ h. within u b h), (λ w. none_exceeded u b w))
  where
    within : (u : ResourceUsage) (b : ResourceBudget) → exceeds u b ≡ none → IsWithin u b
    within u b h = ground arith

    none_exceeded : (u : ResourceUsage) (b : ResourceBudget) → IsWithin u b → exceeds u b ≡ none
    none_exceeded u b w = ground arith

Fits-min_limit : (x y : Option ℕ) (n : ℕ) → Fits (min_limit x y) n ↔ (Fits x n × Fits y n)
unfolding min_limit
Fits-min_limit none none n = ((λ h. (tt, tt)), (λ h. tt))
Fits-min_limit none (some b) n = ((λ h. (tt, h)), (λ h. h.1))
Fits-min_limit (some a) none n = ((λ h. (h, tt)), (λ h. h.0))
Fits-min_limit (some a) (some b) n = ((λ h. omega arith), (λ h. omega arith))

module _ (u : ResourceUsage) (a b : ResourceBudget) where
  IsWithin-min_of : IsWithin u a → IsWithin u b → IsWithin u (min a b)
  unfolding min
  IsWithin-min_of v w = record {
    cpu = (Fits-min_limit a.cpu_ticks b.cpu_ticks u.cpu_ticks).1 (v.cpu, w.cpu);
    memory = (Fits-min_limit a.memory_units b.memory_units u.memory_units).1 (v.memory, w.memory);
    messages =
        (Fits-min_limit a.message_count b.message_count u.message_count).1 (v.messages, w.messages);
    packets =
        (Fits-min_limit a.packet_count b.packet_count u.packet_count).1 (v.packets, w.packets);
    storage = (Fits-min_limit a.storage_ops b.storage_ops u.storage_ops).1 (v.storage, w.storage);
    stages =
        (Fits-min_limit a.pipeline_stages b.pipeline_stages u.pipeline_stages).1
          (v.stages, w.stages);
  }

  IsWithin-of_min : IsWithin u (min a b) → IsWithin u a × IsWithin u b
  unfolding min
  IsWithin-of_min v =
      let cpu = (Fits-min_limit a.cpu_ticks b.cpu_ticks u.cpu_ticks).0 v.cpu in
      let memory = (Fits-min_limit a.memory_units b.memory_units u.memory_units).0 v.memory in
      let messages =
        (Fits-min_limit a.message_count b.message_count u.message_count).0 v.messages in
      let packets = (Fits-min_limit a.packet_count b.packet_count u.packet_count).0 v.packets in
      let storage = (Fits-min_limit a.storage_ops b.storage_ops u.storage_ops).0 v.storage in
      let stages =
        (Fits-min_limit a.pipeline_stages b.pipeline_stages u.pipeline_stages).0 v.stages in
      (
        record {
          cpu = cpu.0;
          memory = memory.0;
          messages = messages.0;
          packets = packets.0;
          storage = storage.0;
          stages = stages.0;
        },
        record {
          cpu = cpu.1;
          memory = memory.1;
          messages = messages.1;
          packets = packets.1;
          storage = storage.1;
          stages = stages.1;
        },
      )

-- A usage is within the minimum of two budgets exactly when it is within both.
pub exceeds-min :
    (u : ResourceUsage) (a b : ResourceBudget)
    → (exceeds u (min a b) ≡ none) ↔ ((exceeds u a ≡ none) × (exceeds u b ≡ none))
exceeds-min u a b = (
  (λ h.
      let w = IsWithin-of_min u a b ((exceeds-none_iff u (min a b)).0 h) in
      ((exceeds-none_iff u a).1 w.0, (exceeds-none_iff u b).1 w.1)),
  (λ h.
      (exceeds-none_iff u (min a b)).1
        (IsWithin-min_of u a b ((exceeds-none_iff u a).0 h.0) ((exceeds-none_iff u b).0 h.1))),
)

-- What a report says is true of the usage and the budget, and it is about the first resource in
-- the order of the fields that is over its limit.
abbrev pub IsTrue : ResourceUsage → ResourceBudget → ResourceExceeded → Type 0
IsTrue u b (cpu_exceeded l n) = (b.cpu_ticks ≡ some l) × (n ≡ u.cpu_ticks) × (l < n)
IsTrue u b (memory_exceeded l n) =
    (b.memory_units ≡ some l) × (n ≡ u.memory_units) × (l < n) × Fits b.cpu_ticks u.cpu_ticks
IsTrue u b (messages_exceeded l n) =
    (b.message_count ≡ some l)
    × (n ≡ u.message_count)
    × (l < n)
    × Fits b.cpu_ticks u.cpu_ticks
    × Fits b.memory_units u.memory_units
IsTrue u b (packets_exceeded l n) =
    (b.packet_count ≡ some l)
    × (n ≡ u.packet_count)
    × (l < n)
    × Fits b.cpu_ticks u.cpu_ticks
    × Fits b.memory_units u.memory_units
    × Fits b.message_count u.message_count
IsTrue u b (storage_exceeded l n) =
    (b.storage_ops ≡ some l)
    × (n ≡ u.storage_ops)
    × (l < n)
    × Fits b.cpu_ticks u.cpu_ticks
    × Fits b.memory_units u.memory_units
    × Fits b.message_count u.message_count
    × Fits b.packet_count u.packet_count
IsTrue u b (stages_exceeded l n) =
    (b.pipeline_stages ≡ some l)
    × (n ≡ u.pipeline_stages)
    × (l < n)
    × Fits b.cpu_ticks u.cpu_ticks
    × Fits b.memory_units u.memory_units
    × Fits b.message_count u.message_count
    × Fits b.packet_count u.packet_count
    × Fits b.storage_ops u.storage_ops

-- When `exceeds` reports a resource, the report gives its limit and its usage, the usage is above
-- the limit, and each resource that stands before it in the budget is within its limit.
pub exceeds-IsTrue :
    (u : ResourceUsage) (b : ResourceBudget) (e : ResourceExceeded)
    → exceeds u b ≡ some e
    → IsTrue u b e
unfolding exceeds
exceeds-IsTrue u b (cpu_exceeded l n) h = ground arith
exceeds-IsTrue u b (memory_exceeded l n) h = ground arith
exceeds-IsTrue u b (messages_exceeded l n) h = ground arith
exceeds-IsTrue u b (packets_exceeded l n) h = ground arith
exceeds-IsTrue u b (storage_exceeded l n) h = ground arith
exceeds-IsTrue u b (stages_exceeded l n) h = ground arith
