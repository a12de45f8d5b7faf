-- ===== src/Memory/Capabilities/Calls.antt =====
-- sim_kernel/src/address_space.rs: each call of the manager keeps the promises of the capabilities.
use panda_gen.Prelude.{
  ℕ, ◌≡◌, refl, true, false, ◌||◌, List, [], ◌∷◌, ◌++◌, none, some, ◌==◌, arith, ok, Result-cases,
  inl, inr, if◌then◌else◌, find, retain, not, delete, Option-cases,
}
use panda_gen.Memory.{
  AddressSpaceId, MemoryRegionId, AddressSpace, AddressSpaceCap, MemoryRegion, MemoryRegionCap,
  find_region, MemoryAccessType, add_region,
}
use panda_gen.Memory.Spaces.{
  ExecutionId, AddressSpaceEvent, space_created, has_event, record_event, AddressSpaceManager,
  create_address_space, open_space, install_region, allocate_region, open_region, access_region,
  activate_space, tear_down, destroy_address_space,
}
use panda_gen.Memory.Capabilities.{
  creates, was_created, is_found, IsConsistent, has_event-record_event, IsFresh,
}

module _ (m : AddressSpaceManager) (fresh : AddressSpaceId) (e : ExecutionId) (t : ℕ)
    (new : IsFresh m fresh) (c : IsConsistent m) where
  pub create_address_space-IsConsistent : IsConsistent (create_address_space m fresh e t).0
  unfolding create_address_space
  create_address_space-IsConsistent = record {
    space_grants = λ k g h. ground (
      arith,
      new g.owner,
      c.space_grants k g,
      has_event-record_event (creates g.space_id g.owner) m.audit_log (space_created fresh e t),
    );
    region_grants = λ k g h. ground (
      arith,
      new g.owner,
      c.region_grants k g,
      has_event-record_event (creates g.space_id g.owner) m.audit_log (space_created fresh e t),
    );
    executions = λ f sid h. ground (
      arith,
      new f,
      c.executions f sid,
      has_event-record_event (creates sid f) m.audit_log (space_created fresh e t),
    );
    active = λ sid h. ground (arith, c.active sid h);
    one_creator = λ sid f g h k. ground (
      arith,
      new f,
      new g,
      c.one_creator sid f g,
      has_event-record_event (creates sid f) m.audit_log (space_created fresh e t),
      has_event-record_event (creates sid g) m.audit_log (space_created fresh e t),
    );
  }

-- A region stays findable when another is added behind it, and the new one is findable.
find_region-add_region :
    (s : AddressSpace) (r : MemoryRegion) (i : MemoryRegionId)
    → is_found (find_region (add_region s r) i) ≡ (is_found (find_region s i) || r.region_id == i)
find_region-add_region s r i = search-in s.regions
  where
    search-in :
        (rs : List MemoryRegion)
        → is_found (find (λ q. q.region_id == i) (rs ++ r ∷ []))
          ≡ (is_found (find (λ q. q.region_id == i) rs) || r.region_id == i)
    search-in [] = ground arith
    search-in (q ∷ rs) = ground (arith, search-in rs)

module _ (m : AddressSpaceManager) (c : IsConsistent m) where
  install_region-IsConsistent :
      (cap : AddressSpaceCap) (space : AddressSpace) (r : MemoryRegion) (e : ExecutionId) (t : ℕ)
      → m.spaces cap.space_id ≡ some space
      → was_created m cap.space_id e ≡ true
      → IsConsistent (install_region m cap.space_id space r e t)
  unfolding install_region
  install_region-IsConsistent cap space r e t at made = record {
    space_grants = λ k g h. ground (
      arith,
      c.space_grants k g,
      has_event-record_event (creates g.space_id g.owner) m.audit_log (
          AddressSpaceEvent.region_allocated cap.space_id r.region_id r.size_bytes r.permissions t),
    );
    region_grants = λ k g h. ground (
      arith,
      c.region_grants k g,
      find_region-add_region space r g.region_id,
      has_event-record_event (creates g.space_id g.owner) m.audit_log (
          AddressSpaceEvent.region_allocated cap.space_id r.region_id r.size_bytes r.permissions t),
    );
    executions = λ f sid h. ground (
      arith,
      c.executions f sid,
      has_event-record_event (creates sid f) m.audit_log (
          AddressSpaceEvent.region_allocated cap.space_id r.region_id r.size_bytes r.permissions t),
    );
    active = λ sid h. ground (arith, c.active sid h);
    one_creator = λ sid f g h k. ground (
      arith,
      c.one_creator sid f g,
      has_event-record_event (creates sid f) m.audit_log (
          AddressSpaceEvent.region_allocated cap.space_id r.region_id r.size_bytes r.permissions t),
      has_event-record_event (creates sid g) m.audit_log (
          AddressSpaceEvent.region_allocated cap.space_id r.region_id r.size_bytes r.permissions t),
    );
  }

  -- What an opened address space says of the capability and of the caller.
  pub open_space-ok :
      (cap : AddressSpaceCap) (e : ExecutionId) (space : AddressSpace)
      → open_space m cap e ≡ ok space
      → (m.spaces cap.space_id ≡ some space) × (was_created m cap.space_id e ≡ true)
  unfolding open_space
  open_space-ok cap e space h = elim (Option-cases (m.space_caps cap.cap_id)) [
    | inl n ↦ ground arith
    | inr (g, q) ↦ ground (arith, c.space_grants cap.cap_id g q)
  ]

  pub allocate_region-IsConsistent :
      (cap : AddressSpaceCap) (r : MemoryRegion) (e : ExecutionId) (t : ℕ)
      → IsConsistent (allocate_region m cap r e t).0
  unfolding allocate_region
  allocate_region-IsConsistent cap r e t = elim (Result-cases (open_space m cap e)) [
    | inl (space, h) ↦
        rw (allocate_region, h)
          (install_region-IsConsistent cap space r e t (open_space-ok cap e space h).0
            (open_space-ok cap e space h).1)
    | inr (x, h) ↦ rw (allocate_region, h) c
  ]

  -- Recording an event that creates nothing changes nothing that the capabilities promise.
  record_event-IsConsistent :
      (ev : AddressSpaceEvent)
      → ((sid : AddressSpaceId) (e : ExecutionId) → creates sid e ev ≡ false)
      → IsConsistent (record m { audit_log = record_event m.audit_log ev })
  record_event-IsConsistent ev silent = record {
    space_grants = λ k g h. rw (same g.space_id g.owner) (c.space_grants k g h);
    region_grants = λ k g h. rw (same g.space_id g.owner) (c.region_grants k g h);
    executions = λ f sid h. rw (same sid f) (c.executions f sid h);
    active = c.active;
    one_creator = λ sid f g. rw (same sid f, same sid g) (c.one_creator sid f g);
  }
    where
      same :
          (sid : AddressSpaceId) (e : ExecutionId)
          → has_event (record_event m.audit_log ev) (creates sid e) ≡ was_created m sid e
      same sid e =
          ground (arith, has_event-record_event (creates sid e) m.audit_log ev, silent sid e)

  pub access_region-IsConsistent :
      (cap : MemoryRegionCap) (a : MemoryAccessType) (e : ExecutionId) (t : ℕ)
      → IsConsistent (access_region m cap a e t).0
  unfolding access_region
  access_region-IsConsistent cap a e t = elim (Result-cases (open_region m cap e)) [
    | inl (r, h) ↦ rw (access_region, h) (record_event-IsConsistent _ (λ sid f. refl))
    | inr (x, h) ↦ rw (access_region, h) c
  ]

pub activate_space-IsConsistent :
    (m : AddressSpaceManager) (fresh : AddressSpaceId) (e : ExecutionId) (t : ℕ)
    → IsConsistent m
    → IsConsistent (activate_space m fresh e t).0
unfolding activate_space
activate_space-IsConsistent m fresh e t c = elim (Option-cases (m.execution_to_space e)) [
  | inl h ↦ rw (activate_space, h) c
  | inr (sid, h) ↦
      rw (activate_space, h)
        (record_event-IsConsistent (record m { current_space = some sid })
          (record {
            space_grants = c.space_grants;
            region_grants = c.region_grants;
            executions = c.executions;
            active = λ i q. ground (arith, c.executions e sid h);
            one_creator = c.one_creator;
          })
          _ (λ i f. refl))
]

module _ (m : AddressSpaceManager) (e : ExecutionId) (sid : AddressSpaceId) (t : ℕ)
    (c : IsConsistent m) where
  -- Of the executions only the creator of an address space can be torn down with it.
  tear_down-IsConsistent : m.execution_to_space e ≡ some sid → IsConsistent (tear_down m e sid t)
  unfolding tear_down
  tear_down-IsConsistent at =
      record_event-IsConsistent
        (record m {
          spaces = delete m.spaces sid;
          execution_to_space = delete m.execution_to_space e;
          space_caps = retain (λ grant. not (grant.space_id == sid)) m.space_caps;
          region_caps = retain (λ grant. not (grant.space_id == sid)) m.region_caps;
          current_space = elim m.current_space [
            | none ↦ none
            | some current ↦ if current == sid then none else some current
          ];
        })
        (record {
          space_grants = λ k g h. ground (arith, c.space_grants k g);
          region_grants = λ k g h. ground (arith, c.region_grants k g);
          executions =
              λ f i h. ground (arith, c.executions f i, c.executions e sid, c.one_creator sid e f);
          active = λ i h. ground (arith, c.active i);
          one_creator = c.one_creator;
        })
        _ (λ i f. refl)

pub destroy_address_space-IsConsistent :
    (m : AddressSpaceManager) (fresh : AddressSpaceId) (e : ExecutionId) (t : ℕ)
    → IsConsistent m
    → IsConsistent (destroy_address_space m fresh e t).0
unfolding destroy_address_space
destroy_address_space-IsConsistent m fresh e t c = elim (Option-cases (m.execution_to_space e)) [
  | inl h ↦ rw (destroy_address_space, h) c
  | inr (sid, h) ↦ rw (destroy_address_space, h) (tear_down-IsConsistent m e sid t c h)
]
