-- ===== src/Kernel/Authority/Validity.antt =====
-- sim_kernel/src/lib.rs: what `validate_capability` has checked when it lets a caller through.
use panda_gen.Prelude.{
  ℕ, ◌≡◌, true, false, some, Option-cases, inl, inr, ok, arith, if◌then◌else◌, ◌==◌,
}
use panda_gen.Prelude.Tables.{get, get-update, map_some}
use panda_gen.Scheduler.Types.{TaskId}
use panda_gen.Kernel.{SimulatedKernel}
use panda_gen.Kernel.Types.{CapabilityMetadata, CapabilityEvent}
use panda_gen.Kernel.Authority.{
  is_valid, is_expired, is_task, is_capability_valid, validate_capability, change_capability,
}

pub record Holds (k : SimulatedKernel) (c : ℕ) (t : TaskId) : Type 0 where
  pub meta : CapabilityMetadata
  pub found : get k.capability_table c ≡ some meta
  pub unexpired : is_expired meta k.current_time ≡ false
  pub unrevoked : meta.revoked ≡ false
  pub valid_status : is_valid meta.status ≡ true
  pub alive : is_task k t ≡ true
  pub owned : (meta.owner == t) ≡ true

module _ (k : SimulatedKernel) (c : ℕ) (t : TaskId) where
  pub validate_capability-Holds : validate_capability k c t ≡ ok tt → Holds k c t
  unfolding validate_capability
  validate_capability-Holds h = elim (Option-cases (get k.capability_table c)) [
    | inl n ↦ ground (arith, n, h)
    | inr (m, q) ↦ record {
      meta = m;
      found = q;
      unexpired = ground (arith, q, h);
      unrevoked = ground (arith, q, h);
      valid_status = ground (arith, q, h);
      alive = ground (arith, q, h);
      owned = ground (arith, q, h);
    }
  ]

  -- With all of them checked the caller is let through.
  pub Holds-validate_capability : Holds k c t → validate_capability k c t ≡ ok tt
  unfolding validate_capability
  Holds-validate_capability h =
      ground (arith, h.found, h.unexpired, h.unrevoked, h.valid_status, h.alive, h.owned)

-- Every other check passed, a capability is valid for its owner and for nobody else.
pub is_capability_valid-owner :
    (k : SimulatedKernel) (c : ℕ) (u : TaskId) (meta : CapabilityMetadata)
    → get k.capability_table c ≡ some meta
    → is_expired meta k.current_time ≡ false
    → meta.revoked ≡ false
    → is_valid meta.status ≡ true
    → is_task k meta.owner ≡ true
    → is_capability_valid k c u ≡ (meta.owner == u)
unfolding validate_capability
is_capability_valid-owner k c u meta q e r v a = ground (arith, q, e, r, v, a)

-- The entry after a change.
module _ (k : SimulatedKernel) (c : ℕ) (change : CapabilityMetadata → CapabilityMetadata)
    (event : CapabilityMetadata → CapabilityEvent) where
  pub change_capability-get :
      (d : ℕ)
      → get (change_capability k c change event).capability_table d
        ≡ (if c == d then map_some change (get k.capability_table d) else get k.capability_table d)
  unfolding change_capability
  change_capability-get d = elim (Option-cases (get k.capability_table c)) [
    | inl n ↦ rw (change_capability, n) (ground (arith, n))
    | inr (meta, q) ↦ rw (change_capability, q) (get-update k.capability_table c d change)
  ]

  pub change_capability-tasks : (change_capability k c change event).tasks ≡ k.tasks
  unfolding change_capability
  change_capability-tasks = ground arith

  pub change_capability-time : (change_capability k c change event).current_time ≡ k.current_time
  unfolding change_capability
  change_capability-time = ground arith
