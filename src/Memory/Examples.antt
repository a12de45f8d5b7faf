-- ===== src/Memory/Examples.antt =====
-- sim_kernel/src/address_space.rs: the theorems at concrete managers.
use panda_gen.Prelude.{◌≡◌, refl, none, ok, err, ◌==◌}
use panda_gen.Memory.{
  AddressSpaceCap, MemoryRegion, MemoryRegionCap, MemoryBacking, new_space, add_region, read_only,
  read_access, no_capability,
}
use panda_gen.Memory.Spaces.{
  AddressSpaceManager, new_manager, create_address_space, allocate_region, open_space,
  install_region, access_region, open_region, destroy_address_space, get_space_for_execution,
}
use panda_gen.Memory.Capabilities.{was_created}
use panda_gen.Memory.Isolation.{Reach, here, next, creates_space, allocates, access_region-isolated}
use panda_gen.Memory.Access.{allocate_region-access, destroy_address_space-orphans}
use panda_gen.Memory.Destroyed.{destroyed-unreachable}

-- Execution 3 has address space 100 behind capability 1.
abbrev one_space : AddressSpaceManager
unfolding create_address_space
one_space = (create_address_space new_manager 100 3 10).0

abbrev space_cap : AddressSpaceCap
space_cap = record { space_id = 100; cap_id = 1 }

abbrev page : MemoryRegion
page = record {
  region_id = 7;
  size_bytes = 4096;
  permissions = read_only;
  backing = MemoryBacking.anonymous;
}

-- It has a read-only page behind capability 2.
abbrev one_page : AddressSpaceManager
unfolding allocate_region open_space install_region
one_page = (allocate_region one_space space_cap page 3 20).0

abbrev page_cap : MemoryRegionCap
page_cap = record { space_id = 100; region_id = 7; cap_id = 2 }

-- A capability that nobody was granted.
abbrev unknown_cap : AddressSpaceCap
unknown_cap = record { space_id = 200; cap_id = 9 }

one_page-Reach : Reach new_manager one_page
unfolding create_address_space allocate_region open_space install_region
one_page-Reach =
    next (next here (creates_space new_manager 100 3 10 (λ e. refl)))
      (allocates one_space space_cap page 3 20)

access_region-isolated_example : was_created one_page 100 4 ≡ (3 == 4)
unfolding access_region open_region one_page one_space
access_region-isolated_example =
    access_region-isolated one_page one_page-Reach page_cap read_access 3 30 refl 4

allocate_region-access_example :
    (access_region (allocate_region one_space space_cap page 3 20).0 page_cap read_access 4 30).1
    ≡ err (no_capability 7)
unfolding allocate_region open_space install_region one_space
allocate_region-access_example =
    allocate_region-access one_space space_cap page 3 20 page_cap refl refl read_access 4 30

destroyed-unreachable_example :
    (access_region (destroy_address_space one_page 0 3 40).0 page_cap read_access 3 50).1
    ≡ err (no_capability 7)
unfolding one_page one_space
destroyed-unreachable_example =
    destroyed-unreachable one_page one_page-Reach 0 3 100 40 refl
      (destroy_address_space one_page 0 3 40).0 here page_cap refl read_access 3 50

destroy_address_space-orphans_example :
    (open_space
        (destroy_address_space (create_address_space one_page 101 3 40).0 0 3 50).0
        space_cap
        3
      ≡ ok (add_region (new_space 100) page))
    × (get_space_for_execution
          (destroy_address_space (create_address_space one_page 101 3 40).0 0 3 50).0
          3
        ≡ none)
unfolding open_space one_page one_space
destroy_address_space-orphans_example =
    destroy_address_space-orphans one_page space_cap 3 (add_region (new_space 100) page) 101 0 40 50
      refl refl refl
