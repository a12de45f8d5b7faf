-- ===== src/Memory/Isolation.antt =====
-- sim_kernel/src/address_space.rs: every history of calls of the manager, as a step relation, and
-- what one execution can reach of another's memory. The clearing of the audit log, which the source
-- marks as a test aid, is no step.
use panda_gen.Prelude.{
  ℕ, ◌≡◌, ◌⊎◌, inl, inr, true, ok, err, Result-cases, Option-cases, ◌==◌, arith,
}
use panda_gen.Memory.{
  AddressSpaceId, AddressSpaceCap, MemoryRegion, MemoryRegionCap, MemoryAccessType, MemoryError,
  no_capability, permission_denied,
}
use panda_gen.Memory.Spaces.{
  ExecutionId, AddressSpaceManager, new_manager, create_address_space, allocate_region, open_region,
  access_region, activate_space, destroy_address_space,
}
use panda_gen.Memory.Capabilities.{IsConsistent, IsFresh, was_created, new_manager-IsConsistent}
use panda_gen.Memory.Capabilities.Calls.{
  create_address_space-IsConsistent, allocate_region-IsConsistent, access_region-IsConsistent,
  activate_space-IsConsistent, destroy_address_space-IsConsistent,
}

pub data Step : AddressSpaceManager → AddressSpaceManager → Type 0 where
  creates_space :
      (m : AddressSpaceManager) (fresh : AddressSpaceId) (e : ExecutionId) (t : ℕ)
      → IsFresh m fresh
      → Step m (create_address_space m fresh e t).0
  allocates :
      (m : AddressSpaceManager) (s : AddressSpaceCap) (r : MemoryRegion) (e : ExecutionId) (t : ℕ)
      → Step m (allocate_region m s r e t).0
  accesses :
      (m : AddressSpaceManager) (r : MemoryRegionCap) (a : MemoryAccessType) (e : ExecutionId)
      (t : ℕ)
      → Step m (access_region m r a e t).0
  activates :
      (m : AddressSpaceManager) (fresh : AddressSpaceId) (e : ExecutionId) (t : ℕ)
      → Step m (activate_space m fresh e t).0
  destroys :
      (m : AddressSpaceManager) (fresh : AddressSpaceId) (e : ExecutionId) (t : ℕ)
      → Step m (destroy_address_space m fresh e t).0

pub data Reach (m : AddressSpaceManager) : AddressSpaceManager → Type 0 where
  here : Reach m m
  next : {n o : AddressSpaceManager} → Reach m n → Step n o → Reach m o

Step-IsConsistent : {m n : AddressSpaceManager} → Step m n → IsConsistent m → IsConsistent n
Step-IsConsistent (creates_space m fresh e t new) c =
    create_address_space-IsConsistent m fresh e t new c
Step-IsConsistent (allocates m s r e t) c = allocate_region-IsConsistent m c s r e t
Step-IsConsistent (accesses m r a e t) c = access_region-IsConsistent m c r a e t
Step-IsConsistent (activates m fresh e t) c = activate_space-IsConsistent m fresh e t c
Step-IsConsistent (destroys m fresh e t) c = destroy_address_space-IsConsistent m fresh e t c

Reach-keeps : {m n : AddressSpaceManager} → Reach m n → IsConsistent m → IsConsistent n
Reach-keeps here c = c
Reach-keeps (next p s) c = Step-IsConsistent s (Reach-keeps p c)

-- In every history of calls that starts from a new manager and draws a new identifier for each
-- address space, every capability on record and every execution's entry names an address space that
-- is still there and that the log says its holder created, a region capability names a region that
-- is still there, the active address space is there, and no address space has two creators.
pub Reach-IsConsistent : (m : AddressSpaceManager) → Reach new_manager m → IsConsistent m
Reach-IsConsistent m p = Reach-keeps p new_manager-IsConsistent

-- What an opened region says of the address space and of the caller.
pub open_region-owner :
    (m : AddressSpaceManager)
    → IsConsistent m
    → (r : MemoryRegionCap) (e : ExecutionId) (region : MemoryRegion)
    → open_region m r e ≡ ok region
    → was_created m r.space_id e ≡ true
unfolding open_region
open_region-owner m c r e region h = elim (Option-cases (m.region_caps r.cap_id)) [
  | inl n ↦ ground arith
  | inr (g, q) ↦ ground (arith, c.region_grants r.cap_id g q)
]

-- In every history of calls that starts from a new manager and draws a new identifier for each
-- address space, an access that the manager grants is made by the one execution that the log
-- says created the address space.
pub access_region-isolated :
    (m : AddressSpaceManager)
    → Reach new_manager m
    → (r : MemoryRegionCap) (a : MemoryAccessType) (e : ExecutionId) (t : ℕ)
    → (access_region m r a e t).1 ≡ ok tt
    → (f : ExecutionId) → was_created m r.space_id f ≡ (e == f)
unfolding access_region
access_region-isolated m p r a e t h f = elim (Result-cases (open_region m r e)) [
  | inl (region, q) ↦ ground (
    arith,
    open_region-owner m (Reach-IsConsistent m p) r e region q,
    (Reach-IsConsistent m p).one_creator r.space_id e f,
  )
  | inr (x, q) ↦ ground arith
]

-- In every history of calls that starts from a new manager and draws a new identifier for each
-- address space, a failed access is refused for want of a capability or of a permission: a
-- capability on record never leads to an address space or a region that is gone.
pub access_region-no_dangling :
    (m : AddressSpaceManager)
    → Reach new_manager m
    → (r : MemoryRegionCap) (a : MemoryAccessType) (e : ExecutionId) (t : ℕ) (x : MemoryError)
    → (access_region m r a e t).1 ≡ err x
    → (x ≡ no_capability r.region_id)
      ⊎ ((region : MemoryRegion) × (x ≡ permission_denied r.region_id a region.permissions))
unfolding access_region open_region
access_region-no_dangling m p r a e t x h = elim (Option-cases (m.region_caps r.cap_id)) [
  | inl n ↦ inl (ground arith)
  | inr (g, q) ↦ ground (arith, (Reach-IsConsistent m p).region_grants r.cap_id g q)
]
