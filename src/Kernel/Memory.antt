-- ===== src/Kernel/Memory.antt =====
-- sim_kernel/src/lib.rs: the kernel's memory calls, which charge the caller's budget before they ask the
-- manager of address spaces. The identity table is a map from executions.
pub mod Operation
pub mod Drained
use panda_gen.Prelude.{
  ℕ, ◌+◌, ◌/◌, ◌≡◌, ◌≤◌, inl, inr, false, Option, none, some, ok, err, Result, Option-cases, ◌==◌,
  arith, Map, put, if◌then◌else◌, ltb, saturating_add, saturating_sub, Bool-cases, Result-cases,
}
use panda_gen.Identity.{ExecutionId, IdentityMetadata}
use panda_gen.Kernel.{SimulatedKernel}
use panda_gen.Memory.{
  MemoryRegionId, AddressSpaceCap, MemoryRegionCap, MemoryPerms, MemoryBacking, MemoryError,
  invalid_region_size, budget_exhausted,
}
use panda_gen.Memory.Spaces.{open_space}
use panda_gen.Memory.Spaces as Spaces

-- `u64::div_ceil(4096)`: whole pages.
abbrev pub pages : ℕ → ℕ
pages size_bytes = (size_bytes + 4095) / 4096

-- The caller's limit on memory units, when it has one.
unfoldable pub memory_limit : IdentityMetadata → Option ℕ
memory_limit identity = elim identity.budget [ none ↦ none | some budget ↦ budget.memory_units ]

abbrev pub add_memory_units : IdentityMetadata → ℕ → IdentityMetadata
add_memory_units identity units = record identity {
  usage = record identity.usage { memory_units = saturating_add identity.usage.memory_units units };
}

-- The budget check of `allocate_region`: the identity table after the charge.
unfoldable pub charge_memory :
    Map IdentityMetadata → ExecutionId → ℕ → Result MemoryError (Map IdentityMetadata)
unfolding memory_limit
charge_memory table caller units = elim (table caller) [
  | none ↦ ok table
  | some identity ↦ elim (memory_limit identity) [
    | none ↦ ok table
    | some limit ↦
        if ltb (saturating_sub limit identity.usage.memory_units) units
        then err (budget_exhausted units (saturating_sub limit identity.usage.memory_units))
        else ok (put table caller (add_memory_units identity units))
  ]
]

unfoldable pub allocate_region :
    SimulatedKernel
    → AddressSpaceCap
    → MemoryRegionId
    → ℕ
    → MemoryPerms
    → MemoryBacking
    → ExecutionId
    → SimulatedKernel × Result MemoryError MemoryRegionCap
unfolding charge_memory
allocate_region k cap fresh size_bytes permissions backing caller =
    if size_bytes == 0
    then (k, err (invalid_region_size 0))
    else elim (charge_memory k.identity_table caller (pages size_bytes)) [
      | err e ↦ (k, err e)
      | ok table ↦ (
        record k {
          identity_table = table;
          address_space_manager =
              (Spaces.allocate_region k.address_space_manager cap
                (record {
                  region_id = fresh;
                  size_bytes = size_bytes;
                  permissions = permissions;
                  backing = backing;
                })
                caller k.current_time).0;
        },
        (Spaces.allocate_region k.address_space_manager cap
            (record {
              region_id = fresh;
              size_bytes = size_bytes;
              permissions = permissions;
              backing = backing;
            })
            caller k.current_time).1,
      )
    ]

-- An execution with a limit has not used more memory units than the limit.
unfoldable pub IsWithinMemory : Option IdentityMetadata → Type 0
unfolding memory_limit
IsWithinMemory none = Unit
IsWithinMemory (some identity) = elim (memory_limit identity) [
  | none ↦ Unit
  | some limit ↦ identity.usage.memory_units ≤ limit
]

charge_memory-IsWithinMemory :
    (table : Map IdentityMetadata) (caller : ExecutionId) (units : ℕ) (after : Map IdentityMetadata)
    → ((e : ExecutionId) → IsWithinMemory (table e))
    → charge_memory table caller units ≡ ok after
    → (e : ExecutionId) → IsWithinMemory (after e)
unfolding charge_memory IsWithinMemory
charge_memory-IsWithinMemory table caller units after w h e = elim (Option-cases (table caller)) [
  | inl n ↦ ground (arith, w e)
  | inr (identity, q) ↦ elim (Option-cases (memory_limit identity)) [
    | inl n ↦ ground (arith, w e)
    | inr (limit, u) ↦ ground (arith, w e, w caller)
  ]
]

-- When no execution has used more memory units than its limit, none has after the kernel's
-- `allocate_region`, whether the call succeeds or fails.
pub allocate_region-IsWithinMemory :
    (k : SimulatedKernel) (cap : AddressSpaceCap) (fresh : MemoryRegionId) (size_bytes : ℕ)
    (permissions : MemoryPerms) (backing : MemoryBacking) (caller : ExecutionId)
    → ((e : ExecutionId) → IsWithinMemory (k.identity_table e))
    → (e : ExecutionId)
    → IsWithinMemory
        ((allocate_region k cap fresh size_bytes permissions backing caller).0.identity_table e)
unfolding allocate_region
allocate_region-IsWithinMemory k cap fresh size_bytes permissions backing caller w e =
    elim (Bool-cases (size_bytes == 0)) [
      | inl z ↦ rw (allocate_region, z) (w e)
      | inr z ↦ elim (Result-cases (charge_memory k.identity_table caller (pages size_bytes))) [
        | inl (table, h) ↦
            rw (allocate_region, z, h)
              (charge_memory-IsWithinMemory k.identity_table caller (pages size_bytes) table w h e)
        | inr (x, h) ↦ rw (allocate_region, z, h) (w e)
      ]
    ]

-- A request with a capability that the manager refuses is charged, when it fits the limit.
pub allocate_region-charged_refused :
    (k : SimulatedKernel) (cap : AddressSpaceCap) (fresh : MemoryRegionId) (size_bytes : ℕ)
    (permissions : MemoryPerms) (backing : MemoryBacking) (caller : ExecutionId)
    (identity : IdentityMetadata) (limit : ℕ) (x : MemoryError)
    → (size_bytes == 0) ≡ false
    → k.identity_table caller ≡ some identity
    → memory_limit identity ≡ some limit
    → identity.usage.memory_units + pages size_bytes ≤ limit
    → open_space k.address_space_manager cap caller ≡ err x
    → ((allocate_region k cap fresh size_bytes permissions backing caller).1 ≡ err x)
      × ((allocate_region k cap fresh size_bytes permissions backing caller).0.identity_table caller
          ≡ some (add_memory_units identity (pages size_bytes)))
unfolding allocate_region charge_memory Spaces.allocate_region
allocate_region-charged_refused k cap fresh size_bytes permissions backing caller identity limit x h
      i l b c =
    ground arith
