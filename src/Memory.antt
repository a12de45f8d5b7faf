-- ===== src/Memory.antt =====
-- core_types/src/memory.rs: memory regions, the address spaces that hold them, and the capabilities
-- for both. An identifier is a number, and a fresh one is an argument.
pub mod Spaces
pub mod Capabilities
pub mod Isolation
pub mod Access
pub mod Destroyed
pub mod Examples
use panda_gen.Prelude.{
  ℕ, ◌+◌, Bool, true, false, ◌&&◌, not, List, [], ◌∷◌, ◌++◌, Option, none, some, if◌then◌else◌,
  ◌==◌, find, length, u64_add,
}

abbrev pub AddressSpaceId : Type 0
AddressSpaceId = ℕ

abbrev pub MemoryRegionId : Type 0
MemoryRegionId = ℕ

pub record MemoryPerms : Type 0 where
  pub read : Bool
  pub write : Bool
  pub execute : Bool

abbrev pub read_only : MemoryPerms
read_only = record { read = true; write = false; execute = false }

abbrev pub read_write : MemoryPerms
read_write = record { read = true; write = true; execute = false }

pub data MemoryBacking : Type 0 where
  anonymous shared device : MemoryBacking

pub record MemoryRegion : Type 0 where
  pub region_id : MemoryRegionId
  pub size_bytes : ℕ
  pub permissions : MemoryPerms
  pub backing : MemoryBacking

-- `MemoryRegion::can_read` and its two siblings
abbrev pub can_read : MemoryRegion → Bool
can_read region = region.permissions.read

abbrev pub can_write : MemoryRegion → Bool
can_write region = region.permissions.write

abbrev pub can_execute : MemoryRegion → Bool
can_execute region = region.permissions.execute

pub data MemoryAccessType : Type 0 where
  read_access write_access execute_access : MemoryAccessType

pub record AddressSpace : Type 0 where
  pub space_id : AddressSpaceId
  pub regions : List MemoryRegion

-- `AddressSpace::new`
abbrev pub new_space : AddressSpaceId → AddressSpace
new_space fresh = record { space_id = fresh; regions = [] }

abbrev pub find_region : AddressSpace → MemoryRegionId → Option MemoryRegion
find_region space region_id = find (λ r. r.region_id == region_id) space.regions

-- `AddressSpace::add_region`, which never fails.
abbrev pub add_region : AddressSpace → MemoryRegion → AddressSpace
add_region space region = record space { regions = space.regions ++ region ∷ [] }

-- The list without the first region of that name.
abbrev pub remove_first : List MemoryRegion → MemoryRegionId → List MemoryRegion
remove_first [] region_id = []
remove_first (r ∷ rs) region_id =
    if r.region_id == region_id then rs else r ∷ remove_first rs region_id

unfoldable pub remove_region : AddressSpace → MemoryRegionId → AddressSpace × Option MemoryRegion
remove_region space region_id =
    (record space { regions = remove_first space.regions region_id }, find_region space region_id)

unfoldable pub region_count : AddressSpace → ℕ
region_count space = length space.regions

-- The sum of the sizes wraps, as a release build compiles it.
abbrev pub sum_sizes : List MemoryRegion → ℕ
sum_sizes [] = 0
sum_sizes (r ∷ rs) = u64_add r.size_bytes (sum_sizes rs)

unfoldable pub total_size_bytes : AddressSpace → ℕ
total_size_bytes space = sum_sizes space.regions

pub record AddressSpaceCap : Type 0 where
  pub space_id : AddressSpaceId
  pub cap_id : ℕ

pub record MemoryRegionCap : Type 0 where
  pub space_id : AddressSpaceId
  pub region_id : MemoryRegionId
  pub cap_id : ℕ

-- The errors that the manager of address spaces returns.
pub data MemoryError : Type 0 where
  address_space_not_found : AddressSpaceId → MemoryError
  region_not_found : MemoryRegionId → MemoryError
  permission_denied : MemoryRegionId → MemoryAccessType → MemoryPerms → MemoryError
  invalid_region_size : ℕ → MemoryError
  region_overlap : MemoryError
  budget_exhausted : ℕ → ℕ → MemoryError
  cross_space_access : MemoryRegionId → AddressSpaceId → AddressSpaceId → MemoryError
  no_capability : MemoryRegionId → MemoryError
