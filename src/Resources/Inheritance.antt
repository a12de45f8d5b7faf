-- ===== src/Resources/Inheritance.antt =====
-- resources/src/lib.rs, `is_subset_of`: what a child budget that passes the test promises.
use panda_gen.Prelude.{
  ℕ, suc, ◌≤◌, ◌<◌, ◌≡◌, ◌≢◌, ◌↔◌, refl, Bool, true, ◌&&◌, Option, none, some, arith, u64_max,
}
use panda_gen.Resources.{
  ResourceBudget, ResourceUsage, exceeds, is_subset_of, limit_subset, min, min_limit, unlimited,
  zero_usage,
}
use panda_gen.Resources.Enforcement.{Fits, exceeds-none_iff}

-- If the parent limits the resource, so does the child.
abbrev pub Covers : Option ℕ → Option ℕ → Type 0
Covers child none = Unit {0}
Covers none (some limit) = ⊥
Covers (some own) (some limit) = Unit {0}

pub record CoversAll (child parent : ResourceBudget) : Type 0 where
  pub cpu : Covers child.cpu_ticks parent.cpu_ticks
  pub memory : Covers child.memory_units parent.memory_units
  pub messages : Covers child.message_count parent.message_count
  pub packets : Covers child.packet_count parent.packet_count
  pub storage : Covers child.storage_ops parent.storage_ops
  pub stages : Covers child.pipeline_stages parent.pipeline_stages

Fits-inherit :
    (child parent : Option ℕ) (n : ℕ)
    → limit_subset child parent ≡ true
    → Covers child parent
    → Fits child n
    → Fits parent n
unfolding limit_subset
Fits-inherit child none n h c f = tt
Fits-inherit none (some l) n h c f = absurd c
Fits-inherit (some k) (some l) n h c f = ground arith

-- The six tests of `is_subset_of`, one by one.
record AllSubset (child parent : ResourceBudget) : Type 0 where
  cpu : limit_subset child.cpu_ticks parent.cpu_ticks ≡ true
  memory : limit_subset child.memory_units parent.memory_units ≡ true
  messages : limit_subset child.message_count parent.message_count ≡ true
  packets : limit_subset child.packet_count parent.packet_count ≡ true
  storage : limit_subset child.storage_ops parent.storage_ops ≡ true
  stages : limit_subset child.pipeline_stages parent.pipeline_stages ≡ true

all_true :
    (a b c d e f : Bool)
    → (a && b && c && d && e && f ≡ true)
      ↔ ((a ≡ true) × (b ≡ true) × (c ≡ true) × (d ≡ true) × (e ≡ true) × (f ≡ true))
all_true a b c d e f = ((λ h. ground arith), (λ h. ground arith))

is_subset_of_iff :
    (child parent : ResourceBudget) → (is_subset_of child parent ≡ true) ↔ AllSubset child parent
unfolding is_subset_of
is_subset_of_iff child parent = (
  (λ h.
      let t = (all_true _ _ _ _ _ _).0 h in
      record {
        cpu = t.0;
        memory = t.1;
        messages = t.2;
        packets = t.3;
        storage = t.4;
        stages = t.5;
      }),
  (λ t. (all_true _ _ _ _ _ _).1 (t.cpu, t.memory, t.messages, t.packets, t.storage, t.stages)),
)

-- A child budget that passes `is_subset_of`, and that limits every resource which the parent
-- limits, confines the child to the parent's budget: a usage within the child's is within the
-- parent's.
pub exceeds-is_subset_of :
    (child parent : ResourceBudget) (u : ResourceUsage)
    → is_subset_of child parent ≡ true
    → CoversAll child parent
    → exceeds u child ≡ none
    → exceeds u parent ≡ none
exceeds-is_subset_of child parent u s c h =
    let w = (exceeds-none_iff u child).0 h in
    let t = (is_subset_of_iff child parent).0 s in
    (exceeds-none_iff u parent).1 (record {
      cpu = Fits-inherit child.cpu_ticks parent.cpu_ticks u.cpu_ticks t.cpu c.cpu w.cpu;
      memory =
          Fits-inherit child.memory_units parent.memory_units u.memory_units t.memory c.memory
            w.memory;
      messages =
          Fits-inherit child.message_count parent.message_count u.message_count t.messages
            c.messages w.messages;
      packets =
          Fits-inherit child.packet_count parent.packet_count u.packet_count t.packets c.packets
            w.packets;
      storage =
          Fits-inherit child.storage_ops parent.storage_ops u.storage_ops t.storage c.storage
            w.storage;
      stages =
          Fits-inherit child.pipeline_stages parent.pipeline_stages u.pipeline_stages t.stages
            c.stages w.stages;
    })

-- The budget without limits passes `is_subset_of` against any parent, and where the parent limits
-- the processor below the last value of a `u64`, some usage is within the child's budget and over
-- the parent's.
pub is_subset_of-unlimited :
    (parent : ResourceBudget) (limit : ℕ)
    → parent.cpu_ticks ≡ some limit
    → limit < u64_max
    → (is_subset_of unlimited parent ≡ true)
      × ((u : ResourceUsage) × (u.cpu_ticks ≤ u64_max)
          × (exceeds u unlimited ≡ none)
          × (exceeds u parent ≢ none))
unfolding is_subset_of unlimited exceeds zero_usage
is_subset_of-unlimited parent limit e l =
    (refl, (record zero_usage { cpu_ticks = suc limit }, omega arith, refl, ground arith))

limit_subset-min_limit :
    (x y : Option ℕ)
    → (limit_subset (min_limit x y) x ≡ true) × (limit_subset (min_limit x y) y ≡ true)
unfolding limit_subset min_limit
limit_subset-min_limit none none = (refl, refl)
limit_subset-min_limit none (some b) = (refl, ground arith)
limit_subset-min_limit (some a) none = (ground arith, refl)
limit_subset-min_limit (some a) (some b) = (ground arith, ground arith)

-- The minimum of two budgets passes the test against both.
pub is_subset_of-min :
    (a b : ResourceBudget) → (is_subset_of (min a b) a ≡ true) × (is_subset_of (min a b) b ≡ true)
unfolding min
is_subset_of-min a b =
    let cpu = limit_subset-min_limit a.cpu_ticks b.cpu_ticks in
    let memory = limit_subset-min_limit a.memory_units b.memory_units in
    let messages = limit_subset-min_limit a.message_count b.message_count in
    let packets = limit_subset-min_limit a.packet_count b.packet_count in
    let storage = limit_subset-min_limit a.storage_ops b.storage_ops in
    let stages = limit_subset-min_limit a.pipeline_stages b.pipeline_stages in
    (
      (is_subset_of_iff (min a b) a).1 (record {
        cpu = cpu.0;
        memory = memory.0;
        messages = messages.0;
        packets = packets.0;
        storage = storage.0;
        stages = stages.0;
      }),
      (is_subset_of_iff (min a b) b).1 (record {
        cpu = cpu.1;
        memory = memory.1;
        messages = messages.1;
        packets = packets.1;
        storage = storage.1;
        stages = stages.1;
      }),
    )
