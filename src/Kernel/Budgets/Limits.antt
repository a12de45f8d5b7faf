-- ===== src/Kernel/Budgets/Limits.antt =====
-- sim_kernel/src/lib.rs: what each meter lets through stays within the budget of resources/src/lib.rs.
use Prim.Native.String.{String}
use panda_gen.Prelude.{
  ℕ, ◌+◌, ◌≤◌, ◌≡◌, refl, Bool, false, Option, none, some, Option-cases, Bool-cases, inl, inr, ltb,
  leb, u64_max, arith, saturating_add, put, Map, u64_add, ◌==◌,
}
use panda_gen.Resources.{
  ResourceBudget, ResourceUsage, consume_cpu_ticks, consume_message, consume_packet,
  consume_storage_op, consume_pipeline_stage,
}
use panda_gen.Resources.Enforcement.{Fits, IsWithin}
use panda_gen.Identity.{ExecutionId, IdentityMetadata}
use panda_gen.Kernel.{SimulatedKernel}
use panda_gen.Kernel.Types.{MessageOperation, PacketOperation, StorageOperation}
use panda_gen.Kernel.Budgets.{
  Meter, try_consume, consume, exhaust, cancel_identity, is_identity_cancelled, task_of, cpu_meter,
  stage_meter, message_meter, packet_meter, storage_meter,
}

-- The usage is within the budget, if there is one.
abbrev pub Obeys : Option IdentityMetadata → Type 0
Obeys none = Unit
Obeys (some identity) = elim identity.budget [
  | none ↦ Unit
  | some budget ↦ IsWithin identity.usage budget
]

pub record IsEnforced (k : SimulatedKernel) : Type 0 where
  pub obeys : (e : ExecutionId) → Obeys (k.identity_table e)

-- The processor ticks that an execution has used.
abbrev pub cpu_used : SimulatedKernel → ExecutionId → ℕ
cpu_used k e = elim (k.identity_table e) [ none ↦ 0 | some identity ↦ identity.usage.cpu_ticks ]

-- The limit, if there is one, was not passed.
abbrev Unpassed : (ℕ → Bool) → Option ℕ → Type 0
Unpassed passes none = Unit
Unpassed passes (some limit) = passes limit ≡ false

abbrev Spared : Meter → ResourceUsage → ResourceBudget → Type 0
Spared m u b = Unpassed (m.passes (m.usage u)) (m.limit b)

-- At the execution's usage, what the meter lets through stays within the budget.
abbrev pub Sound : SimulatedKernel → Meter → ExecutionId → Type 0
Sound k m e =
    (identity : IdentityMetadata) (b : ResourceBudget)
    → k.identity_table e ≡ some identity
    → IsWithin identity.usage b
    → Spared m identity.usage b
    → IsWithin (m.consume identity.usage) b

pub put-Obeys :
    (table : Map IdentityMetadata) (e : ExecutionId) (identity : IdentityMetadata)
    → Obeys (some identity)
    → ((f : ExecutionId) → Obeys (table f))
    → (f : ExecutionId) → Obeys (put table e identity f)
put-Obeys table e identity w obeys f = elim (Bool-cases (e == f)) [
  | inl h ↦ rw h w
  | inr h ↦ rw h (obeys f)
]

module _ (k : SimulatedKernel) (m : Meter) (e : ExecutionId) where
  exhaust-identity_table :
      (limit current : ℕ) → (exhaust k m e limit current).0.identity_table ≡ k.identity_table
  unfolding exhaust cancel_identity
  exhaust-identity_table limit current = elim (Option-cases (task_of k.task_to_identity e)) [
    | inl n ↦ rw (cancel_identity, n) refl
    | inr (t, q) ↦ rw (cancel_identity, q) refl
  ]

  consume-IsEnforced :
      Sound k m e
      → IsEnforced k
      → (identity : IdentityMetadata) (b : ResourceBudget) → k.identity_table e ≡ some identity
      → identity.budget ≡ some b
      → Spared m identity.usage b
      → IsEnforced (consume k m e identity)
  unfolding consume
  consume-IsEnforced sound i identity b q w spared = record {
    obeys =
        put-Obeys k.identity_table e (record identity { usage = m.consume identity.usage })
          (rw w (sound identity b q within spared)) i.obeys;
  }
    where
      within : IsWithin identity.usage b
      within = rw (q, Obeys, w) at (i.obeys e)

  pub try_consume-IsEnforced : Sound k m e → IsEnforced k → IsEnforced (try_consume k m e).0
  unfolding try_consume consume
  try_consume-IsEnforced sound i = elim (Bool-cases (is_identity_cancelled k e)) [
    | inl c ↦ rw (try_consume, c) i
    | inr c ↦ elim (Option-cases (k.identity_table e)) [
      | inl n ↦ rw (try_consume, c, n) i
      | inr (identity, q) ↦ elim (Option-cases identity.budget) [
        | inl n ↦ rw (try_consume, c, q, n) i
        | inr (b, w) ↦ elim (Option-cases (m.limit b)) [
          | inl n ↦
              rw (try_consume, c, q, w, n)
                (consume-IsEnforced sound i identity b q w (rw (Spared, n) tt))
          | inr (limit, l) ↦ elim (Bool-cases (m.passes (m.usage identity.usage) limit)) [
            | inl p ↦
                rw (try_consume, c, q, w, l, p)
                  record {
                    obeys =
                        λ f. rw (exhaust-identity_table limit (m.usage identity.usage)) (i.obeys f);
                  }
            | inr p ↦
                rw (try_consume, c, q, w, l, p)
                  (consume-IsEnforced sound i identity b q w (rw (Spared, l) p))
          ]
        ]
      ]
    ]
  ]

-- One counter, when its limit was not passed.
Fits-cpu :
    (limit : Option ℕ) (used amount : ℕ)
    → used + amount ≤ u64_max
    → Unpassed (λ l. ltb l (u64_add used amount)) limit
    → Fits limit (saturating_add used amount)
Fits-cpu none used amount h p = tt
Fits-cpu (some l) used amount h p = ground arith

Fits-unit :
    (limit : Option ℕ) (used : ℕ)
    → Unpassed (λ l. leb l used) limit
    → Fits limit (saturating_add used 1)
Fits-unit none used p = tt
Fits-unit (some l) used p = ground arith

pub cpu-Sound :
    (k : SimulatedKernel) (e : ExecutionId) (amount : ℕ)
    → cpu_used k e + amount ≤ u64_max
    → Sound k (cpu_meter amount) e
unfolding cpu_meter consume_cpu_ticks
cpu-Sound k e amount l identity b q w spared = record {
  cpu = Fits-cpu b.cpu_ticks identity.usage.cpu_ticks amount (rw (cpu_used, q) at l) spared;
  memory = w.memory;
  messages = w.messages;
  packets = w.packets;
  storage = w.storage;
  stages = w.stages;
}

pub stage-Sound :
    (k : SimulatedKernel) (e : ExecutionId) (stage_name : String)
    → Sound k (stage_meter stage_name) e
unfolding stage_meter consume_pipeline_stage
stage-Sound k e stage_name identity b q w spared = record {
  cpu = w.cpu;
  memory = w.memory;
  messages = w.messages;
  packets = w.packets;
  storage = w.storage;
  stages = Fits-unit b.pipeline_stages identity.usage.pipeline_stages spared;
}

pub message-Sound :
    (k : SimulatedKernel) (e : ExecutionId) (operation : MessageOperation)
    → Sound k (message_meter operation) e
unfolding message_meter consume_message
message-Sound k e operation identity b q w spared = record {
  cpu = w.cpu;
  memory = w.memory;
  messages = Fits-unit b.message_count identity.usage.message_count spared;
  packets = w.packets;
  storage = w.storage;
  stages = w.stages;
}

pub packet-Sound :
    (k : SimulatedKernel) (e : ExecutionId) (operation : PacketOperation)
    → Sound k (packet_meter operation) e
unfolding packet_meter consume_packet
packet-Sound k e operation identity b q w spared = record {
  cpu = w.cpu;
  memory = w.memory;
  messages = w.messages;
  packets = Fits-unit b.packet_count identity.usage.packet_count spared;
  storage = w.storage;
  stages = w.stages;
}

pub storage-Sound :
    (k : SimulatedKernel) (e : ExecutionId) (operation : StorageOperation)
    → Sound k (storage_meter operation) e
unfolding storage_meter consume_storage_op
storage-Sound k e operation identity b q w spared = record {
  cpu = w.cpu;
  memory = w.memory;
  messages = w.messages;
  packets = w.packets;
  storage = Fits-unit b.storage_ops identity.usage.storage_ops spared;
  stages = w.stages;
}
