-- ===== src/Kernel/Memory/Operation.antt =====
-- sim_kernel/src/lib.rs: `allocate_region_op`, the allocation that the gate of
-- sim_kernel/src/syscall_gate.rs asks for. Its budget check differs from that of `allocate_region`: the
-- sum is not checked for overflow, and a refusal is recorded in the audit.
use panda_gen.Prelude.{
  ℕ, none, some, ok, err, Result, put, if◌then◌else◌, ltb, u64_add, saturating_sub,
}
use panda_gen.Identity.{ExecutionId}
use panda_gen.Kernel.{SimulatedKernel, audit_resource}
use panda_gen.Kernel.Types.{words}
use panda_gen.Kernel.Types as Kinds
use panda_gen.Memory.{
  MemoryRegionId, AddressSpaceCap, MemoryRegionCap, MemoryPerms, MemoryBacking, MemoryError,
  budget_exhausted,
}
use panda_gen.Memory.Spaces as Spaces
use panda_gen.Kernel.Memory.{memory_limit, add_memory_units, pages}

-- The budget check of `allocate_region_op`: the kernel after the charge or the record.
unfoldable pub charge_memory_op :
    SimulatedKernel → ExecutionId → ℕ → SimulatedKernel × Result MemoryError Unit
unfolding memory_limit
charge_memory_op k caller units = elim (k.identity_table caller) [
  | none ↦ (k, ok tt)
  | some identity ↦ elim (memory_limit identity) [
    | none ↦ (k, ok tt)
    | some limit ↦
        if ltb limit (u64_add identity.usage.memory_units units)
        then (
          audit_resource k (
              Kinds.budget_exhausted caller "MemoryUnits" limit
                (u64_add identity.usage.memory_units units) (words "allocate_region")),
          err (budget_exhausted units (saturating_sub limit identity.usage.memory_units)),
        )
        else (
          record k {
            identity_table = put k.identity_table caller (add_memory_units identity units);
          },
          ok tt,
        )
  ]
]

unfoldable pub allocate_region_op :
    SimulatedKernel
    → AddressSpaceCap
    → MemoryRegionId
    → ℕ
    → MemoryPerms
    → MemoryBacking
    → ExecutionId
    → SimulatedKernel × Result MemoryError MemoryRegionCap
unfolding charge_memory_op
allocate_region_op k cap fresh size_bytes permissions backing caller =
    let charged = charge_memory_op k caller (pages size_bytes) in
    elim charged.1 [
      | err e ↦ (charged.0, err e)
      | ok u ↦
          let allocated =
            Spaces.allocate_region charged.0.address_space_manager cap
              (record {
                region_id = fresh;
                size_bytes = size_bytes;
                permissions = permissions;
                backing = backing;
              })
              caller k.current_time in
          (record charged.0 { address_space_manager = allocated.0 }, allocated.1)
    ]
