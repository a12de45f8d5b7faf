-- ===== src/Kernel/Budgets/Exhausted.antt =====
-- sim_kernel/src/lib.rs: an execution that passes a limit of its budget is cancelled.
use Prim.Native.String.{String}
use panda_gen.Prelude.{
  ℕ, ◌≡◌, refl, true, false, Option, some, Option-cases, Bool-cases, inl, inr, err, arith,
  Result-cases, ◌==◌,
}
use panda_gen.Resources.{ResourceBudget}
use panda_gen.Scheduler.Types.{TaskId}
use panda_gen.Scheduler.State.{is_current}
use panda_gen.Scheduler.Counting.{count, count-remove}
use panda_gen.Scheduler.Switching.{cancel_task, withdraw}
use panda_gen.Identity.{ExecutionId, IdentityMetadata}
use panda_gen.Memory.{AddressSpaceCap, MemoryRegionId, MemoryPerms, MemoryBacking}
use panda_gen.Kernel.{SimulatedKernel}
use panda_gen.Kernel.Types.{resource_budget_exhausted}
use panda_gen.Kernel.Budgets.{
  Meter, try_consume, exhaust, cancel_identity, is_identity_cancelled, task_of,
}
use panda_gen.Kernel.Memory.{allocate_region, charge_memory, pages}

-- What follows when the meter's own test finds that a limit is passed.
pub exhausted-cancels :
    (k : SimulatedKernel) (m : Meter) (e : ExecutionId) (identity : IdentityMetadata)
    (b : ResourceBudget) (limit : ℕ) (t : TaskId)
    → is_identity_cancelled k e ≡ false
    → k.identity_table e ≡ some identity
    → identity.budget ≡ some b
    → m.limit b ≡ some limit
    → m.passes (m.usage identity.usage) limit ≡ true
    → task_of k.task_to_identity e ≡ some t
    → ((try_consume k m e).1
        ≡ err (
            resource_budget_exhausted m.resource_type limit (m.usage identity.usage) e m.operation))
      × (is_identity_cancelled (try_consume k m e).0 e ≡ true)
      × (count t (try_consume k m e).0.scheduler.run_queue ≡ 0)
      × (is_current (try_consume k m e).0.scheduler.current_task t ≡ false)
unfolding try_consume exhaust cancel_identity cancel_task withdraw
exhausted-cancels k m e identity b limit t c q w l p o =
    rw (try_consume, c, q, w, l, p, exhaust, cancel_identity, o)
      (refl, ground arith, rw count-remove (ground arith), ground arith)

module _ (k : SimulatedKernel) (m : Meter) (e f : ExecutionId) where
  pub exhaust-cancelled :
      (limit current : ℕ)
      → is_identity_cancelled k f ≡ true
      → is_identity_cancelled (exhaust k m e limit current).0 f ≡ true
  unfolding exhaust cancel_identity
  exhaust-cancelled limit current h = elim (Option-cases (task_of k.task_to_identity e)) [
    | inl n ↦ rw (cancel_identity, n) (ground arith)
    | inr (t, q) ↦ rw (cancel_identity, q) (ground arith)
  ]

-- The kernel's `allocate_region` does not ask whether the caller was cancelled: whatever executions are
-- cancelled, it gives the same result.
pub allocate_region-cancelled :
    (k : SimulatedKernel) (cancelled : ExecutionId → Option String) (cap : AddressSpaceCap)
    (fresh : MemoryRegionId) (size_bytes : ℕ) (permissions : MemoryPerms) (backing : MemoryBacking)
    (e : ExecutionId)
    → (allocate_region
        (record k { cancelled_identities = cancelled })
        cap
        fresh
        size_bytes
        permissions
        backing
        e).1
      ≡ (allocate_region k cap fresh size_bytes permissions backing e).1
unfolding allocate_region
allocate_region-cancelled k cancelled cap fresh size_bytes permissions backing e =
    elim (Bool-cases (size_bytes == 0)) [
      | inl z ↦ rw (allocate_region, z) refl
      | inr z ↦ elim (Result-cases (charge_memory k.identity_table e (pages size_bytes))) [
        | inl (table, q) ↦ rw (allocate_region, z, q) refl
        | inr (x, q) ↦ rw (allocate_region, z, q) refl
      ]
    ]
