-- ===== src/Memory/Access.antt =====
-- sim_kernel/src/address_space.rs: a capability from the call that grants it to the call that takes it
-- away.
use panda_gen.Prelude.{
  ℕ, ◌≡◌, inl, inr, false, none, some, ok, err, Option-cases, ◌==◌, arith, if◌then◌else◌, List, [],
  ◌∷◌, ◌++◌, find,
}
use panda_gen.Memory.{
  AddressSpaceId, AddressSpace, AddressSpaceCap, MemoryRegion, MemoryRegionCap, MemoryAccessType,
  no_capability, permission_denied, find_region, add_region,
}
use panda_gen.Memory.Spaces.{
  ExecutionId, AddressSpaceManager, create_address_space, open_space, get_space_for_execution,
  allocate_region, install_region, open_region, access_region, tear_down, destroy_address_space,
  is_allowed,
}
use panda_gen.Memory.Capabilities.{holds_region, is_found}

-- The first region of a name that no earlier region has.
find_region-new :
    (s : AddressSpace) (r : MemoryRegion)
    → is_found (find_region s r.region_id) ≡ false
    → find_region (add_region s r) r.region_id ≡ some r
find_region-new s r = search-in s.regions
  where
    search-in :
        (rs : List MemoryRegion)
        → is_found (find (λ q. q.region_id == r.region_id) rs) ≡ false
        → find (λ q. q.region_id == r.region_id) (rs ++ r ∷ []) ≡ some r
    search-in [] h = ground arith
    search-in (q ∷ rs) h = ground (arith, search-in rs)

-- When `allocate_region` grants a capability for a region whose name is new in the address space,
-- `access_region` with that capability answers the caller that allocated the region by the
-- region's permissions alone, and refuses any other caller.
pub allocate_region-access :
    (m : AddressSpaceManager) (s : AddressSpaceCap) (r : MemoryRegion) (e : ExecutionId) (t : ℕ)
    (granted : MemoryRegionCap)
    → (allocate_region m s r e t).1 ≡ ok granted
    → holds_region (m.spaces s.space_id) r.region_id ≡ false
    → (a : MemoryAccessType) (f : ExecutionId) (u : ℕ)
    → (access_region (allocate_region m s r e t).0 granted a f u).1 ≡ (
        if e == f
        then (if is_allowed r a then ok tt else err (permission_denied r.region_id a r.permissions))
        else err (no_capability r.region_id))
unfolding allocate_region open_space install_region access_region open_region
allocate_region-access m s r e t granted h new a f u = elim (Option-cases (m.space_caps s.cap_id)) [
  | inl n ↦ ground arith
  | inr (g, q) ↦ elim (Option-cases (m.spaces s.space_id)) [
    | inl n ↦ ground arith
    | inr (space, w) ↦ ground (arith, find_region-new space r)
  ]
]

-- After `destroy_address_space` no capability opens the execution's address space, for any caller,
-- and capabilities for every other address space open what they opened before.
pub destroy_address_space-revokes :
    (m : AddressSpaceManager) (fresh : AddressSpaceId) (e : ExecutionId) (sid : AddressSpaceId)
    (t : ℕ)
    → m.execution_to_space e ≡ some sid
    → (r : MemoryRegionCap) (f : ExecutionId)
    → open_region (destroy_address_space m fresh e t).0 r f
      ≡ (if r.space_id == sid then err (no_capability r.region_id) else open_region m r f)
unfolding destroy_address_space tear_down open_region
destroy_address_space-revokes m fresh e sid t at r f =
    elim (Option-cases (m.region_caps r.cap_id)) [
      | inl n ↦ ground arith
      | inr (g, q) ↦ ground arith
    ]

-- When an execution that can open one address space creates another one, `destroy_address_space` for
-- that execution leaves the first: the execution has no address space any more, yet its capability
-- opens the first one as before.
pub destroy_address_space-orphans :
    (m : AddressSpaceManager) (s : AddressSpaceCap) (e : ExecutionId) (space : AddressSpace)
    (fresh unknown : AddressSpaceId) (t u : ℕ)
    → open_space m s e ≡ ok space
    → (fresh == s.space_id) ≡ false
    → (m.next_cap_id == s.cap_id) ≡ false
    → (open_space (destroy_address_space (create_address_space m fresh e t).0 unknown e u).0 s e
        ≡ ok space)
      × (get_space_for_execution
            (destroy_address_space (create_address_space m fresh e t).0 unknown e u).0
            e
          ≡ none)
unfolding destroy_address_space tear_down create_address_space open_space get_space_for_execution
destroy_address_space-orphans m s e space fresh unknown t u h new own =
    elim (Option-cases (m.space_caps s.cap_id)) [ inl n ↦ ground arith | inr (g, q) ↦ ground arith ]
