-- ===== src/Memory/Capabilities.antt =====
-- sim_kernel/src/address_space.rs: what the capabilities on record promise. Calls shows that each
-- call of the manager keeps it.
pub mod Calls
use panda_gen.Prelude.{
  ℕ, ◌≡◌, refl, Bool, true, false, ◌&&◌, ◌||◌, List, [], ◌∷◌, ◌++◌, Option, none, some, ◌==◌, arith,
  ok, Result-cases, inl, inr, if◌then◌else◌, find, retain, not, delete, Option-cases,
}
use panda_gen.Memory.{
  AddressSpaceId, MemoryRegionId, AddressSpace, AddressSpaceCap, MemoryRegion, MemoryRegionCap,
  find_region, MemoryAccessType, add_region,
}
use panda_gen.Memory.Spaces.{
  ExecutionId, AddressSpaceEvent, space_created, AddressSpaceAuditLog, has_event, record_event,
  SpaceGrant, RegionGrant, AddressSpaceManager, new_manager, create_address_space, open_space,
  install_region, allocate_region, open_region, access_region, activate_space, tear_down,
  destroy_address_space,
}

-- The event that the manager records when `e` creates the address space `sid`.
abbrev pub creates : AddressSpaceId → ExecutionId → AddressSpaceEvent → Bool
creates sid e (space_created s o t) = s == sid && o == e
creates sid e _ = false

abbrev pub was_created : AddressSpaceManager → AddressSpaceId → ExecutionId → Bool
was_created m sid e = has_event m.audit_log (creates sid e)

abbrev pub is_live : Option AddressSpace → Bool
is_live none = false
is_live (some space) = true

abbrev pub is_found : Option MemoryRegion → Bool
is_found none = false
is_found (some region) = true

abbrev pub holds_region : Option AddressSpace → MemoryRegionId → Bool
holds_region none region_id = false
holds_region (some space) region_id = is_found (find_region space region_id)

-- Every capability on record, and every execution's entry, names an address space that is there and
-- that the holder created; a region capability names a region that is there; no address space has
-- two creators.
pub record IsConsistent (m : AddressSpaceManager) : Type 0 where
  pub space_grants :
      (k : ℕ) (g : SpaceGrant)
      → m.space_caps k ≡ some g
      → (is_live (m.spaces g.space_id) ≡ true) × (was_created m g.space_id g.owner ≡ true)
  pub region_grants :
      (k : ℕ) (g : RegionGrant)
      → m.region_caps k ≡ some g
      → (holds_region (m.spaces g.space_id) g.region_id ≡ true)
        × (was_created m g.space_id g.owner ≡ true)
  pub executions :
      (e : ExecutionId) (sid : AddressSpaceId)
      → m.execution_to_space e ≡ some sid
      → (is_live (m.spaces sid) ≡ true) × (was_created m sid e ≡ true)
  pub active : (sid : AddressSpaceId) → m.current_space ≡ some sid → is_live (m.spaces sid) ≡ true
  pub one_creator :
      (sid : AddressSpaceId) (e f : ExecutionId)
      → was_created m sid e ≡ true
      → was_created m sid f ≡ true
      → e ≡ f

pub has_event-record_event :
    (p : AddressSpaceEvent → Bool) (log : AddressSpaceAuditLog) (e : AddressSpaceEvent)
    → has_event (record_event log e) p ≡ (has_event log p || p e)
has_event-record_event p [] e = ground arith
has_event-record_event p (x ∷ log) e = ground (arith, has_event-record_event p log e)

pub new_manager-IsConsistent : IsConsistent new_manager
new_manager-IsConsistent = record {
  space_grants = λ k g h. ground arith;
  region_grants = λ k g h. ground arith;
  executions = λ e sid h. ground arith;
  active = λ sid h. ground arith;
  one_creator = λ sid e f h k. ground arith;
}

-- An identifier that no address space was created under.
abbrev pub IsFresh : AddressSpaceManager → AddressSpaceId → Type 0
IsFresh m fresh = (e : ExecutionId) → was_created m fresh e ≡ false
