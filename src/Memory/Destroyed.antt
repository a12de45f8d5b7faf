-- ===== src/Memory/Destroyed.antt =====
-- sim_kernel/src/address_space.rs: an address space that was destroyed is out of reach for good.
use panda_gen.Prelude.{
  ℕ, ◌≡◌, inl, inr, true, false, some, err, Result-cases, Option-cases, ◌==◌, arith,
}
use panda_gen.Memory.{AddressSpaceId, MemoryRegionCap, MemoryAccessType, no_capability}
use panda_gen.Memory.Spaces.{
  ExecutionId, AddressSpaceEvent, AddressSpaceManager, new_manager, create_address_space,
  open_space, allocate_region, install_region, open_region, access_region, activate_space,
  tear_down, destroy_address_space, SpaceGrant, RegionGrant, has_event, record_event,
}
use panda_gen.Memory.Capabilities.{IsConsistent, was_created, creates, has_event-record_event}
use panda_gen.Memory.Isolation.{
  Step, Reach, here, next, creates_space, allocates, accesses, activates, destroys,
  Reach-IsConsistent,
}

-- No capability on record names the address space, which was created once.
record IsGone (sid : AddressSpaceId) (m : AddressSpaceManager) : Type 0 where
  creator : ExecutionId
  created : was_created m sid creator ≡ true
  space_grants : (k : ℕ) (g : SpaceGrant) → m.space_caps k ≡ some g → (g.space_id == sid) ≡ false
  region_grants : (k : ℕ) (g : RegionGrant) → m.region_caps k ≡ some g → (g.space_id == sid) ≡ false

destroy_address_space-IsGone :
    (m : AddressSpaceManager)
    → IsConsistent m
    → (fresh : AddressSpaceId) (e : ExecutionId) (sid : AddressSpaceId) (t : ℕ)
    → m.execution_to_space e ≡ some sid
    → IsGone sid (destroy_address_space m fresh e t).0
unfolding destroy_address_space tear_down
destroy_address_space-IsGone m c fresh e sid t at =
    rw (destroy_address_space, at)
      record {
        creator = e;
        created = ground (
          arith,
          c.executions e sid at,
          has_event-record_event (creates sid e) m.audit_log
              (AddressSpaceEvent.space_destroyed sid t),
        );
        space_grants = λ k g h. ground arith;
        region_grants = λ k g h. ground arith;
      }

-- The event log only grows.
was_created-record_event :
    (m : AddressSpaceManager) (sid : AddressSpaceId) (e : ExecutionId) (ev : AddressSpaceEvent)
    → was_created m sid e ≡ true
    → has_event (record_event m.audit_log ev) (creates sid e) ≡ true
was_created-record_event m sid e ev h =
    ground (arith, has_event-record_event (creates sid e) m.audit_log ev)

Step-IsGone :
    (sid : AddressSpaceId) {m n : AddressSpaceManager} → Step m n → IsGone sid m → IsGone sid n
unfolding create_address_space allocate_region open_space install_region access_region
    activate_space destroy_address_space tear_down
Step-IsGone sid (creates_space m fresh e t new) c = record {
  creator = c.creator;
  created = was_created-record_event m sid c.creator _ c.created;
  space_grants = λ k g h. ground (arith, c.space_grants k g, new c.creator, c.created);
  region_grants = c.region_grants;
}
Step-IsGone sid (allocates m s r e t) c = elim (Option-cases (m.space_caps s.cap_id)) [
  | inl n ↦ rw (allocate_region, open_space, n) c
  | inr (g, q) ↦ elim (Result-cases (open_space m s e)) [
    | inr (x, w) ↦ rw (allocate_region, w) c
    | inl (space, w) ↦
        rw (allocate_region, w)
          record {
            creator = c.creator;
            created = was_created-record_event m sid c.creator _ c.created;
            space_grants = c.space_grants;
            region_grants =
                λ k i h. ground (arith, c.region_grants k i, c.space_grants s.cap_id g q);
          }
  ]
]
Step-IsGone sid (accesses m r a e t) c = elim (Result-cases (open_region m r e)) [
  | inr (x, w) ↦ rw (access_region, w) c
  | inl (region, w) ↦
      rw (access_region, w)
        record {
          creator = c.creator;
          created = was_created-record_event m sid c.creator _ c.created;
          space_grants = c.space_grants;
          region_grants = c.region_grants;
        }
]
Step-IsGone sid (activates m fresh e t) c = elim (Option-cases (m.execution_to_space e)) [
  | inl w ↦ rw (activate_space, w) c
  | inr (i, w) ↦
      rw (activate_space, w)
        record {
          creator = c.creator;
          created = was_created-record_event m sid c.creator _ c.created;
          space_grants = c.space_grants;
          region_grants = c.region_grants;
        }
]
Step-IsGone sid (destroys m fresh e t) c = elim (Option-cases (m.execution_to_space e)) [
  | inl w ↦ rw (destroy_address_space, w) c
  | inr (i, w) ↦
      rw (destroy_address_space, w)
        record {
          creator = c.creator;
          created = was_created-record_event m sid c.creator _ c.created;
          space_grants = λ k g h. ground (arith, c.space_grants k g);
          region_grants = λ k g h. ground (arith, c.region_grants k g);
        }
]

Reach-IsGone :
    (sid : AddressSpaceId) {m n : AddressSpaceManager} → Reach m n → IsGone sid m → IsGone sid n
Reach-IsGone sid here c = c
Reach-IsGone sid (next p s) c = Step-IsGone sid s (Reach-IsGone sid p c)

-- In every history of calls that starts from a new manager and draws a new identifier for each
-- address space: once `destroy_address_space` has destroyed an execution's address space, no later
-- call of `access_region` on that address space is granted, whoever makes it and with whatever
-- capability.
pub destroyed-unreachable :
    (m : AddressSpaceManager)
    → Reach new_manager m
    → (fresh : AddressSpaceId) (e : ExecutionId) (sid : AddressSpaceId) (t : ℕ)
    → m.execution_to_space e ≡ some sid
    → (n : AddressSpaceManager) → Reach (destroy_address_space m fresh e t).0 n
    → (r : MemoryRegionCap) → r.space_id ≡ sid
    → (a : MemoryAccessType) (f : ExecutionId) (u : ℕ)
    → (access_region n r a f u).1 ≡ err (no_capability r.region_id)
unfolding access_region open_region
destroyed-unreachable m p fresh e sid t at n q r on a f u =
    elim (Option-cases (n.region_caps r.cap_id)) [
      | inl w ↦ ground arith
      | inr (g, w) ↦ ground (arith, gone.region_grants r.cap_id g w)
    ]
  where
    gone : IsGone sid n
    gone =
        Reach-IsGone sid q
          (destroy_address_space-IsGone m (Reach-IsConsistent m p) fresh e sid t at)
