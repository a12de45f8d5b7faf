-- ===== src/Kernel/Memory/Drained.antt =====
-- sim_kernel/src/lib.rs: what refused allocations do to the budget of the caller.
use panda_gen.Prelude.{
  ℕ, zero, suc, ◌+◌, ◌≡◌, ◌≤◌, ◌∙◌, refl, false, some, err, ◌==◌, arith, u64_max,
}
use panda_gen.Identity.{ExecutionId, IdentityMetadata}
use panda_gen.Kernel.{SimulatedKernel}
use panda_gen.Memory.{
  MemoryRegionId, AddressSpaceCap, MemoryPerms, MemoryBacking, MemoryError, budget_exhausted,
}
use panda_gen.Memory.Spaces.{AddressSpaceManager, open_space}
use panda_gen.Memory.Spaces as Spaces
use panda_gen.Kernel.Memory.{
  allocate_region, charge_memory, memory_limit, add_memory_units, pages,
  allocate_region-charged_refused,
}

-- What the manager of address spaces is after a call with a capability that it refuses.
allocate_region-refused :
    (k : SimulatedKernel) (cap : AddressSpaceCap) (fresh : MemoryRegionId) (size_bytes : ℕ)
    (permissions : MemoryPerms) (backing : MemoryBacking) (caller : ExecutionId) (x : MemoryError)
    → open_space k.address_space_manager cap caller ≡ err x
    → (allocate_region k cap fresh size_bytes permissions backing caller).0.address_space_manager
      ≡ k.address_space_manager
unfolding allocate_region Spaces.allocate_region
allocate_region-refused k cap fresh size_bytes permissions backing caller x c = ground arith

-- A caller whose usage is its limit gets no region.
allocate_region-full :
    (k : SimulatedKernel) (cap : AddressSpaceCap) (fresh : MemoryRegionId) (size_bytes : ℕ)
    (permissions : MemoryPerms) (backing : MemoryBacking) (caller : ExecutionId)
    (identity : IdentityMetadata) (limit : ℕ)
    → k.identity_table caller ≡ some identity
    → memory_limit identity ≡ some limit
    → identity.usage.memory_units ≡ limit
    → (size_bytes == 0) ≡ false
    → (allocate_region k cap fresh size_bytes permissions backing caller).1
      ≡ err (budget_exhausted (pages size_bytes) 0)
unfolding allocate_region charge_memory
allocate_region-full k cap fresh size_bytes permissions backing caller identity limit q l u h =
    ground arith

module _ (cap : AddressSpaceCap) (fresh : MemoryRegionId) (permissions : MemoryPerms)
    (backing : MemoryBacking) (caller : ExecutionId) where
  -- The kernel after so many requests of one page.
  abbrev pub requests : ℕ → SimulatedKernel → SimulatedKernel
  requests zero k = k
  requests (suc n) k = requests n (allocate_region k cap fresh 4096 permissions backing caller).0

  record IsFull (k : SimulatedKernel) (limit : ℕ) (m : AddressSpaceManager) : Type 0 where
    identity : IdentityMetadata
    entry : k.identity_table caller ≡ some identity
    limited : memory_limit identity ≡ some limit
    used : identity.usage.memory_units ≡ limit
    manager : k.address_space_manager ≡ m

  requests-IsFull :
      (k : SimulatedKernel) (m : AddressSpaceManager) (identity : IdentityMetadata) (left limit : ℕ)
      (x : MemoryError)
      → k.address_space_manager ≡ m
      → open_space m cap caller ≡ err x
      → k.identity_table caller ≡ some identity
      → memory_limit identity ≡ some limit
      → identity.usage.memory_units + left ≡ limit
      → limit ≤ u64_max
      → IsFull (requests left k) limit m
  unfolding memory_limit
  requests-IsFull k m identity zero limit x s c q l u b = record {
    identity = identity;
    entry = q;
    limited = l;
    used = omega (arith, u);
    manager = s;
  }
  requests-IsFull k m identity (suc left) limit x s c q l u b =
      requests-IsFull (allocate_region k cap fresh 4096 permissions backing caller).0 m
        (add_memory_units identity 1) left limit x
        (allocate_region-refused k cap fresh 4096 permissions backing caller x (rw s c) ∙ s) c
        (allocate_region-charged_refused k cap fresh 4096 permissions backing caller identity limit
          x refl q l (omega (arith, u)) (rw s c)).1
        l (ground arith) b

-- When the manager of address spaces refuses a capability and the caller has a limit on memory units,
-- within a `u64`, that its usage does not pass: after as many requests for one page with that
-- capability as the limit leaves units, the manager is as it was, so that nothing was allocated, and
-- yet every request of the caller for a region of any size but 0, with any capability, fails for
-- want of budget, with nothing available.
pub allocate_region-drained :
    (k : SimulatedKernel) (cap other : AddressSpaceCap) (fresh region : MemoryRegionId)
    (permissions asked : MemoryPerms) (backing wanted : MemoryBacking) (caller : ExecutionId)
    (identity : IdentityMetadata) (left limit size_bytes : ℕ) (x : MemoryError)
    → open_space k.address_space_manager cap caller ≡ err x
    → k.identity_table caller ≡ some identity
    → memory_limit identity ≡ some limit
    → identity.usage.memory_units + left ≡ limit
    → limit ≤ u64_max
    → (size_bytes == 0) ≡ false
    → ((requests cap fresh permissions backing caller left k).address_space_manager
        ≡ k.address_space_manager)
      × ((allocate_region
            (requests cap fresh permissions backing caller left k)
            other
            region
            size_bytes
            asked
            wanted
            caller).1
          ≡ err (budget_exhausted (pages size_bytes) 0))
allocate_region-drained k cap other fresh region permissions asked backing wanted caller identity
      left limit size_bytes x c q l u b h =
    let full =
      requests-IsFull cap fresh permissions backing caller k k.address_space_manager identity left
        limit x refl c q l u b in
    (
      full.manager,
      allocate_region-full (requests cap fresh permissions backing caller left k) other region
          size_bytes asked wanted caller full.identity limit full.entry full.limited full.used h,
    )
