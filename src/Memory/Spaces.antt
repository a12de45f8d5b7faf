-- ===== src/Memory/Spaces.antt =====
-- sim_kernel/src/address_space.rs: the manager of address spaces, built without page tables
-- (`AddressSpaceManager::new`). A call that may fail leaves a manager and a result; a fresh address
-- space identifier is an argument.
use panda_gen.Prelude.{
  ℕ, Bool, false, ◌||◌, not, List, [], ◌∷◌, ◌++◌, Option, none, some, if◌then◌else◌, ◌==◌, Map,
  empty_map, put, delete, retain, Result, ok, err, u64_add, select, length,
}
use panda_gen.Memory.{
  AddressSpaceId, MemoryRegionId, MemoryPerms, MemoryRegion, MemoryAccessType, read_access,
  write_access, execute_access, can_read, can_write, can_execute, AddressSpace, new_space,
  find_region, add_region, AddressSpaceCap, MemoryRegionCap, MemoryError, address_space_not_found,
  region_not_found, permission_denied, no_capability,
}

abbrev pub ExecutionId : Type 0
ExecutionId = ℕ

pub data AddressSpaceEvent : Type 0 where
  space_created space_activated : AddressSpaceId → ExecutionId → ℕ → AddressSpaceEvent
  region_allocated : AddressSpaceId → MemoryRegionId → ℕ → MemoryPerms → ℕ → AddressSpaceEvent
  region_deallocated : AddressSpaceId → MemoryRegionId → ℕ → AddressSpaceEvent
  access_attempted :
      AddressSpaceId → MemoryRegionId → MemoryAccessType → Bool → ℕ → AddressSpaceEvent
  space_destroyed : AddressSpaceId → ℕ → AddressSpaceEvent

-- The audit log: its events, oldest first.
abbrev pub AddressSpaceAuditLog : Type 0
AddressSpaceAuditLog = List AddressSpaceEvent

-- `AddressSpaceAuditLog::record`
abbrev pub record_event : AddressSpaceAuditLog → AddressSpaceEvent → AddressSpaceAuditLog
record_event log event = log ++ event ∷ []

abbrev pub has_event : AddressSpaceAuditLog → (AddressSpaceEvent → Bool) → Bool
has_event [] predicate = false
has_event (e ∷ log) predicate = predicate e || has_event log predicate

unfoldable pub count_events : AddressSpaceAuditLog → (AddressSpaceEvent → Bool) → ℕ
count_events log predicate = length (select predicate log)

-- The values of `space_caps` and of `region_caps`.
pub record SpaceGrant : Type 0 where
  pub space_id : AddressSpaceId
  pub owner : ExecutionId

pub record RegionGrant : Type 0 where
  pub region_id : MemoryRegionId
  pub space_id : AddressSpaceId
  pub owner : ExecutionId

pub record AddressSpaceManager : Type 0 where
  pub spaces : Map AddressSpace
  pub execution_to_space : Map AddressSpaceId
  pub next_cap_id : ℕ
  pub space_caps : Map SpaceGrant
  pub region_caps : Map RegionGrant
  pub current_space : Option AddressSpaceId
  pub audit_log : AddressSpaceAuditLog

abbrev pub new_manager : AddressSpaceManager
new_manager = record {
  spaces = empty_map;
  execution_to_space = empty_map;
  next_cap_id = 1;
  space_caps = empty_map;
  region_caps = empty_map;
  current_space = none;
  audit_log = [];
}

unfoldable pub create_address_space :
    AddressSpaceManager → AddressSpaceId → ExecutionId → ℕ → AddressSpaceManager × AddressSpaceCap
create_address_space m fresh execution_id timestamp = (
  record m {
    spaces = put m.spaces fresh (new_space fresh);
    execution_to_space = put m.execution_to_space execution_id fresh;
    next_cap_id = u64_add m.next_cap_id 1;
    space_caps = put m.space_caps m.next_cap_id (record { space_id = fresh; owner = execution_id });
    audit_log = record_event m.audit_log (space_created fresh execution_id timestamp);
  },
  record { space_id = fresh; cap_id = m.next_cap_id },
)

-- The checks of `allocate_region`: the address space that the capability opens for the caller.
unfoldable pub open_space :
    AddressSpaceManager → AddressSpaceCap → ExecutionId → Result MemoryError AddressSpace
open_space m cap caller = elim (m.space_caps cap.cap_id) [
  | none ↦ err (address_space_not_found cap.space_id)
  | some grant ↦
      if not (grant.space_id == cap.space_id)
      then err (address_space_not_found cap.space_id)
      else if not (grant.owner == caller)
      then err (address_space_not_found cap.space_id)
      else elim (m.spaces cap.space_id) [
        | none ↦ err (address_space_not_found cap.space_id)
        | some space ↦ ok space
      ]
]

-- `allocate_region` once the address space is found.
unfoldable pub install_region :
    AddressSpaceManager
    → AddressSpaceId
    → AddressSpace
    → MemoryRegion
    → ExecutionId
    → ℕ
    → AddressSpaceManager
install_region m space_id space region caller timestamp = record m {
  spaces = put m.spaces space_id (add_region space region);
  next_cap_id = u64_add m.next_cap_id 1;
  region_caps =
      put m.region_caps m.next_cap_id
        (record { region_id = region.region_id; space_id = space_id; owner = caller });
  audit_log =
      record_event m.audit_log
        (region_allocated space_id region.region_id region.size_bytes region.permissions timestamp);
}

unfoldable pub allocate_region :
    AddressSpaceManager
    → AddressSpaceCap
    → MemoryRegion
    → ExecutionId
    → ℕ
    → AddressSpaceManager × Result MemoryError MemoryRegionCap
unfolding open_space install_region
allocate_region m cap region caller timestamp = elim (open_space m cap caller) [
  | err e ↦ (m, err e)
  | ok space ↦ (
    install_region m cap.space_id space region caller timestamp,
    ok (record { space_id = cap.space_id; region_id = region.region_id; cap_id = m.next_cap_id }),
  )
]

-- The checks of `access_region` up to the region that the capability opens for the caller.
unfoldable pub open_region :
    AddressSpaceManager → MemoryRegionCap → ExecutionId → Result MemoryError MemoryRegion
open_region m cap caller = elim (m.region_caps cap.cap_id) [
  | none ↦ err (no_capability cap.region_id)
  | some grant ↦
      if not (grant.region_id == cap.region_id) || not (grant.space_id == cap.space_id)
      then err (no_capability cap.region_id)
      else if not (grant.owner == caller)
      then err (no_capability cap.region_id)
      else elim (m.spaces cap.space_id) [
        | none ↦ err (address_space_not_found cap.space_id)
        | some space ↦ elim (find_region space cap.region_id) [
          | none ↦ err (region_not_found cap.region_id)
          | some region ↦ ok region
        ]
      ]
]

-- `match access_type` over the region's permissions
abbrev pub is_allowed : MemoryRegion → MemoryAccessType → Bool
is_allowed region read_access = can_read region
is_allowed region write_access = can_write region
is_allowed region execute_access = can_execute region

unfoldable pub access_region :
    AddressSpaceManager
    → MemoryRegionCap
    → MemoryAccessType
    → ExecutionId
    → ℕ
    → AddressSpaceManager × Result MemoryError Unit
unfolding open_region
access_region m cap access caller timestamp = elim (open_region m cap caller) [
  | err e ↦ (m, err e)
  | ok region ↦ (
    record m {
      audit_log =
          record_event m.audit_log (
            access_attempted cap.space_id cap.region_id access (is_allowed region access)
              timestamp);
    },
    if is_allowed region access
        then ok tt
        else err (permission_denied cap.region_id access region.permissions),
  )
]

-- The failure names an address space drawn for the message alone.
unfoldable pub activate_space :
    AddressSpaceManager
    → AddressSpaceId
    → ExecutionId
    → ℕ
    → AddressSpaceManager × Result MemoryError Unit
activate_space m fresh execution_id timestamp = elim (m.execution_to_space execution_id) [
  | none ↦ (m, err (address_space_not_found fresh))
  | some space_id ↦ (
    record m {
      current_space = some space_id;
      audit_log = record_event m.audit_log (space_activated space_id execution_id timestamp);
    },
    ok tt,
  )
]

unfoldable pub get_space_for_execution : AddressSpaceManager → ExecutionId → Option AddressSpace
get_space_for_execution m execution_id = elim (m.execution_to_space execution_id) [
  | none ↦ none
  | some space_id ↦ m.spaces space_id
]

-- `destroy_address_space` once the execution's address space is found.
unfoldable pub tear_down :
    AddressSpaceManager → ExecutionId → AddressSpaceId → ℕ → AddressSpaceManager
tear_down m execution_id space_id timestamp = record m {
  spaces = delete m.spaces space_id;
  execution_to_space = delete m.execution_to_space execution_id;
  space_caps = retain (λ grant. not (grant.space_id == space_id)) m.space_caps;
  region_caps = retain (λ grant. not (grant.space_id == space_id)) m.region_caps;
  current_space = elim m.current_space [
    | none ↦ none
    | some current ↦ if current == space_id then none else some current
  ];
  audit_log = record_event m.audit_log (space_destroyed space_id timestamp);
}

unfoldable pub destroy_address_space :
    AddressSpaceManager
    → AddressSpaceId
    → ExecutionId
    → ℕ
    → AddressSpaceManager × Result MemoryError Unit
unfolding tear_down
destroy_address_space m fresh execution_id timestamp = elim (m.execution_to_space execution_id) [
  | none ↦ (m, err (address_space_not_found fresh))
  | some space_id ↦ (tear_down m execution_id space_id timestamp, ok tt)
]

unfoldable pub clear_audit_log : AddressSpaceManager → AddressSpaceManager
clear_audit_log m = record m { audit_log = [] }
