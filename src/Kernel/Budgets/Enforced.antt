-- ===== src/Kernel/Budgets/Enforced.antt =====
-- sim_kernel/src/lib.rs: what the kernel's charges mean in terms of the budgets of resources/src/lib.rs.
use Prim.Native.String.{String}
use panda_gen.Prelude.{
  ℕ, ◌+◌, ◌≤◌, ◌≡◌, false, none, some, Option-cases, Bool-cases, inl, inr, ok, ltb, u64_max, arith,
  subst, saturating_add, saturating_sub, put, Map, Result-cases, ◌==◌, u64_add,
}
use panda_gen.Prelude.Tables.{get}
use panda_gen.Resources.{ResourceBudget, ResourceUsage, exceeds}
use panda_gen.Resources.Enforcement.{IsWithin, exceeds-none_iff}
use panda_gen.Scheduler.Types.{TaskId}
use panda_gen.Identity.{ExecutionId, IdentityMetadata}
use panda_gen.Memory.{AddressSpaceCap, MemoryRegionId, MemoryPerms, MemoryBacking}
use panda_gen.Kernel.{SimulatedKernel}
use panda_gen.Kernel.Types.{MessageOperation, PacketOperation, StorageOperation}
use panda_gen.Kernel.Budgets.{
  cpu_meter, stage_meter, message_meter, packet_meter, storage_meter, try_consume_cpu_ticks,
  try_consume_pipeline_stage, try_consume_message, try_consume_packet, try_consume_storage_op,
}
use panda_gen.Kernel.Memory.{allocate_region, add_memory_units, charge_memory, memory_limit, pages}
use panda_gen.Kernel.Memory.Operation.{allocate_region_op, charge_memory_op}
use panda_gen.Kernel.Budgets.Limits.{
  Obeys, IsEnforced, cpu_used, put-Obeys, try_consume-IsEnforced, cpu-Sound, stage-Sound,
  message-Sound, packet-Sound, storage-Sound,
}

-- The memory units that an execution has used.
abbrev pub memory_used : SimulatedKernel → ExecutionId → ℕ
memory_used k e = elim (k.identity_table e) [
  | none ↦ 0
  | some identity ↦ identity.usage.memory_units
]

-- The kernel's charging calls. The two sums that the source does not check, of the ticks used and the
-- ticks asked for and of the memory units in `allocate_region_op`, do not overflow.
pub data Call : SimulatedKernel → SimulatedKernel → Type 0 where
  charges_cpu :
      (k : SimulatedKernel) (e : ExecutionId) (amount : ℕ)
      → cpu_used k e + amount ≤ u64_max
      → Call k (try_consume_cpu_ticks k e amount).0
  charges_stage :
      (k : SimulatedKernel) (e : ExecutionId) (stage_name : String)
      → Call k (try_consume_pipeline_stage k e stage_name).0
  charges_message :
      (k : SimulatedKernel) (t : TaskId) (operation : MessageOperation)
      → Call k (try_consume_message k t operation).0
  charges_packet :
      (k : SimulatedKernel) (e : ExecutionId) (operation : PacketOperation)
      → Call k (try_consume_packet k e operation).0
  charges_storage :
      (k : SimulatedKernel) (e : ExecutionId) (operation : StorageOperation)
      → Call k (try_consume_storage_op k e operation).0
  charges_memory :
      (k : SimulatedKernel) (cap : AddressSpaceCap) (fresh : MemoryRegionId) (size_bytes : ℕ)
      (permissions : MemoryPerms) (backing : MemoryBacking) (e : ExecutionId)
      → Call k (allocate_region k cap fresh size_bytes permissions backing e).0
  charges_memory_op :
      (k : SimulatedKernel) (cap : AddressSpaceCap) (fresh : MemoryRegionId) (size_bytes : ℕ)
      (permissions : MemoryPerms) (backing : MemoryBacking) (e : ExecutionId)
      → memory_used k e + pages size_bytes ≤ u64_max
      → Call k (allocate_region_op k cap fresh size_bytes permissions backing e).0

pub data Calls (k : SimulatedKernel) : SimulatedKernel → Type 0 where
  idle : Calls k k
  then_call : {n o : SimulatedKernel} → Calls k n → Call n o → Calls k o

try_consume_message-IsEnforced :
    (k : SimulatedKernel) (t : TaskId) (operation : MessageOperation)
    → IsEnforced k
    → IsEnforced (try_consume_message k t operation).0
unfolding try_consume_message
try_consume_message-IsEnforced k t operation i = elim (Option-cases (get k.task_to_identity t)) [
  | inl n ↦ rw (try_consume_message, n) i
  | inr (e, q) ↦
      rw (try_consume_message, q)
        (try_consume-IsEnforced k (message_meter operation) e (message-Sound k e operation) i)
]

memory-IsWithin :
    (u : ResourceUsage) (b : ResourceBudget) (limit units : ℕ)
    → IsWithin u b
    → b.memory_units ≡ some limit
    → ltb (saturating_sub limit u.memory_units) units ≡ false
    → IsWithin (record u { memory_units = saturating_add u.memory_units units }) b
memory-IsWithin u b limit units w l h = record {
  cpu = w.cpu;
  memory = ground (arith, w.memory);
  messages = w.messages;
  packets = w.packets;
  storage = w.storage;
  stages = w.stages;
}

-- What the charge for memory leaves in the table.
charge_memory-Obeys :
    (table : Map IdentityMetadata) (e : ExecutionId) (units : ℕ) (after : Map IdentityMetadata)
    → ((f : ExecutionId) → Obeys (table f))
    → charge_memory table e units ≡ ok after
    → (f : ExecutionId) → Obeys (after f)
unfolding charge_memory memory_limit
charge_memory-Obeys table e units after i h = elim (Option-cases (table e)) [
  | inl n ↦ kept (ground arith)
  | inr (identity, q) ↦ elim (Option-cases identity.budget) [
    | inl n ↦ kept (ground arith)
    | inr (b, w) ↦ elim (Option-cases b.memory_units) [
      | inl n ↦ kept (ground arith)
      | inr (limit, l) ↦
          elim (Bool-cases (ltb (saturating_sub limit identity.usage.memory_units) units)) [
            | inl p ↦ ground arith
            | inr p ↦ charged identity (ground arith) (
                rw w (memory-IsWithin identity.usage b limit units (rw (q, Obeys, w) at (i e)) l p))
          ]
    ]
  ]
]
  where
    kept : table ≡ after → (f : ExecutionId) → Obeys (after f)
    kept p = subst (λ t. (f : ExecutionId) → Obeys (t f)) p i

    charged :
        (identity : IdentityMetadata)
        → put table e (add_memory_units identity units) ≡ after
        → Obeys (some (add_memory_units identity units))
        → (f : ExecutionId) → Obeys (after f)
    charged identity p w =
        subst (λ t. (f : ExecutionId) → Obeys (t f)) p
          (put-Obeys table e (add_memory_units identity units) w i)

allocate_region-IsEnforced :
    (k : SimulatedKernel) (cap : AddressSpaceCap) (fresh : MemoryRegionId) (size_bytes : ℕ)
    (permissions : MemoryPerms) (backing : MemoryBacking) (e : ExecutionId)
    → IsEnforced k
    → IsEnforced (allocate_region k cap fresh size_bytes permissions backing e).0
unfolding allocate_region
allocate_region-IsEnforced k cap fresh size_bytes permissions backing e i =
    elim (Bool-cases (size_bytes == 0)) [
      | inl z ↦ rw (allocate_region, z) i
      | inr z ↦ elim (Result-cases (charge_memory k.identity_table e (pages size_bytes))) [
        | inl (table, h) ↦
            rw (allocate_region, z, h)
              record {
                obeys = charge_memory-Obeys k.identity_table e (pages size_bytes) table i.obeys h;
              }
        | inr (x, h) ↦ rw (allocate_region, z, h) i
      ]
    ]

-- What the charge of `allocate_region_op` leaves in the table.
charge_memory_op-Obeys :
    (k : SimulatedKernel) (e : ExecutionId) (units : ℕ)
    → memory_used k e + units ≤ u64_max
    → IsEnforced k
    → (f : ExecutionId) → Obeys ((charge_memory_op k e units).0.identity_table f)
unfolding charge_memory_op memory_limit
charge_memory_op-Obeys k e units h i = elim (Option-cases (k.identity_table e)) [
  | inl n ↦ rw (charge_memory_op, n) i.obeys
  | inr (identity, q) ↦ elim (Option-cases identity.budget) [
    | inl n ↦ rw (charge_memory_op, q, memory_limit, n) i.obeys
    | inr (b, w) ↦ elim (Option-cases b.memory_units) [
      | inl n ↦ rw (charge_memory_op, q, memory_limit, w, n) i.obeys
      | inr (limit, l) ↦ elim (Bool-cases (ltb limit (u64_add identity.usage.memory_units units))) [
        | inl p ↦ rw (charge_memory_op, q, memory_limit, w, l, p) i.obeys
        | inr p ↦
            rw (charge_memory_op, q, memory_limit, w, l, p)
              (put-Obeys k.identity_table e (add_memory_units identity units)
                (rw w (
                  memory-IsWithin identity.usage b limit units (rw (q, Obeys, w) at (i.obeys e)) l
                    (ground (arith, rw (memory_used, q) at h, p))))
                i.obeys)
      ]
    ]
  ]
]

allocate_region_op-table :
    (k : SimulatedKernel) (cap : AddressSpaceCap) (fresh : MemoryRegionId) (size_bytes : ℕ)
    (permissions : MemoryPerms) (backing : MemoryBacking) (e : ExecutionId)
    → (allocate_region_op k cap fresh size_bytes permissions backing e).0.identity_table
      ≡ (charge_memory_op k e (pages size_bytes)).0.identity_table
unfolding allocate_region_op
allocate_region_op-table k cap fresh size_bytes permissions backing e = ground arith

Call-IsEnforced : {k n : SimulatedKernel} → Call k n → IsEnforced k → IsEnforced n
unfolding try_consume_cpu_ticks try_consume_pipeline_stage try_consume_packet try_consume_storage_op
Call-IsEnforced (charges_cpu k e amount l) i =
    try_consume-IsEnforced k (cpu_meter amount) e (cpu-Sound k e amount l) i
Call-IsEnforced (charges_stage k e stage_name) i =
    try_consume-IsEnforced k (stage_meter stage_name) e (stage-Sound k e stage_name) i
Call-IsEnforced (charges_message k t operation) i = try_consume_message-IsEnforced k t operation i
Call-IsEnforced (charges_packet k e operation) i =
    try_consume-IsEnforced k (packet_meter operation) e (packet-Sound k e operation) i
Call-IsEnforced (charges_storage k e operation) i =
    try_consume-IsEnforced k (storage_meter operation) e (storage-Sound k e operation) i
Call-IsEnforced (charges_memory k cap fresh size_bytes permissions backing e) i =
    allocate_region-IsEnforced k cap fresh size_bytes permissions backing e i
Call-IsEnforced (charges_memory_op k cap fresh size_bytes permissions backing e l) i = record {
  obeys = λ f.
      rw (allocate_region_op-table k cap fresh size_bytes permissions backing e)
        (charge_memory_op-Obeys k e (pages size_bytes) l i f);
}

-- From a kernel in which every usage is within its budget, any sequence of charges for processor ticks,
-- pipeline stages, messages, packets, storage operations and memory, granted or refused, leads to
-- one in which it is: `exceeds` finds nothing for any execution with a budget. The condition is
-- that no charge for processor ticks and no charge for memory through `allocate_region_op` takes
-- the counter past the last value of a `u64`.
pub Calls-exceeds :
    (k n : SimulatedKernel)
    → IsEnforced k
    → Calls k n
    → (e : ExecutionId) (identity : IdentityMetadata) (b : ResourceBudget)
    → n.identity_table e ≡ some identity
    → identity.budget ≡ some b
    → exceeds identity.usage b ≡ none
Calls-exceeds k n i p e identity b q w =
    (exceeds-none_iff identity.usage b).1 (rw (q, Obeys, w) at ((keeps p).obeys e))
  where
    keeps : {o : SimulatedKernel} → Calls k o → IsEnforced o
    keeps idle = i
    keeps (then_call c d) = Call-IsEnforced d (keeps c)
