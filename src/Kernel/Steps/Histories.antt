-- ===== src/Kernel/Steps/Histories.antt =====
-- sim_kernel/src/lib.rs: authority over whole histories of the kernel.
use Prim.Native.String.{String}
use panda_gen.Prelude.{
  ℕ, ◌≡◌, refl, Bool, true, false, Option, some, Option-cases, Result-cases, inl, inr, ok, arith,
  delete, empty_map,
}
use panda_gen.Prelude.Tables.{get, map_some}
use panda_gen.Scheduler.Types.{TaskId}
use panda_gen.Policy.{PolicyEngine}
use panda_gen.Identity.{ExitReason}
use panda_gen.Memory.{AddressSpaceId}
use panda_gen.Kernel.{SimulatedKernel, new_kernel}
use panda_gen.Kernel.Types.{CapabilityMetadata, CapabilityEvent, invalid, revoked_event}
use panda_gen.Kernel.Authority.{
  is_valid, is_task, is_capability_valid, validate_capability, revoke_capability, change_capability,
}
use panda_gen.Kernel.Authority.Validity.{change_capability-get, validate_capability-Holds}
use panda_gen.Kernel.Authority.Moves.{holder, invalidate_task_capabilities-keeps}
use panda_gen.Kernel.Authority.Ledger.{
  told, Move-IsTold, IsGone, IsGone-refused, Move-IsGone, Move-ended,
}
use panda_gen.Kernel.Tasks.{terminate_task_with_reason, release_identity}
use panda_gen.Kernel.Steps.{Steps}
use panda_gen.Kernel.Steps.Kept.{Steps-kept}

-- From a new kernel on, whatever calls it gets, the log of capability events, read from its start, gives
-- for every capability the owner of the valid entry of the table, and no owner when there is no
-- valid entry.
pub Steps-told :
    (engine : Option PolicyEngine) (capacity : ℕ) (begun : TaskId → Bool) (given : ℕ → Bool)
    (n : SimulatedKernel)
    → Steps begun given (new_kernel engine capacity) n
    → (c : ℕ) → told empty_map n.capability_audit c ≡ holder (get n.capability_table c)
unfolding get
Steps-told engine capacity begun given n p c =
    (Steps-kept (record { keeps = Move-IsTold }) p (record { tells = λ d. refl })).tells c

invalidated-IsGone :
    (k : SimulatedKernel) (c : ℕ) (change : CapabilityMetadata → CapabilityMetadata)
    (event : CapabilityMetadata → CapabilityEvent)
    → ((meta : CapabilityMetadata) → is_valid (change meta).status ≡ false)
    → IsGone c (change_capability k c change event)
invalidated-IsGone k c change event h = record {
  gone = λ meta q.
      let r : map_some change (get k.capability_table c) ≡ some meta =
        ground (arith, change_capability-get k c change event c, q) in
      elim (Option-cases (get k.capability_table c)) [
        | inl n ↦ ground (arith, n, r)
        | inr (old, o) ↦ ground (arith, o, r, h old)
      ];
}

revoke_capability-IsGone :
    (k : SimulatedKernel) (c : ℕ) (owner : TaskId) (reason : String)
    → (revoke_capability k c owner reason).1 ≡ ok tt
    → IsGone c (revoke_capability k c owner reason).0
unfolding revoke_capability
revoke_capability-IsGone k c owner reason h = elim (Result-cases (validate_capability k c owner)) [
  | inr (x, v) ↦ ground (arith, h, v)
  | inl (u, v) ↦
      rw (revoke_capability, v)
        (invalidated-IsGone k c (λ meta. record meta { status = invalid; revoked = true })
          (λ meta. revoked_event c owner meta.cap_type reason) (λ meta. refl))
]

-- Once the owner has revoked a capability, it is not valid for any task, whatever calls the
-- kernel gets, as long as no capability with that identifier is granted anew.
pub revoke_capability-forever :
    (k n : SimulatedKernel) (c : ℕ) (owner u : TaskId) (reason : String) (begun : TaskId → Bool)
    (given : ℕ → Bool)
    → (revoke_capability k c owner reason).1 ≡ ok tt
    → given c ≡ false
    → Steps begun given (revoke_capability k c owner reason).0 n
    → is_capability_valid n c u ≡ false
revoke_capability-forever k n c owner u reason begun given h f p = IsGone-refused c n u (
    Steps-kept {P = IsGone c} (record { keeps = λ m i. Move-IsGone given c f m i }) p
      (revoke_capability-IsGone k c owner reason h))

ended-powerless :
    (k : SimulatedKernel) (c : ℕ) (t : TaskId)
    → is_task k t ≡ false
    → is_capability_valid k c t ≡ false
ended-powerless k c t h = elim (Result-cases (validate_capability k c t)) [
  | inr (x, v) ↦ rw (is_capability_valid, v) refl
  | inl (u, v) ↦ ground (arith, h, (validate_capability-Holds k c t v).alive)
]

terminate_task_with_reason-ended :
    (k : SimulatedKernel) (t : TaskId) (reason : ExitReason) (unknown : AddressSpaceId)
    → is_task (terminate_task_with_reason k t reason unknown) t ≡ false
unfolding terminate_task_with_reason
terminate_task_with_reason-ended k t reason unknown =
    let released = release_identity k t reason unknown in
    invalidate_task_capabilities-keeps {P = λ n. is_task n t ≡ false}
      (record { keeps = λ m i. Move-ended {begun = λ u. false} {given = λ d. false} t refl m i })
      (record released { tasks = delete released.tasks t }) t (ground arith)

-- Once a task is terminated, no capability is valid for it, whatever calls the kernel gets, as
-- long as no task with its identifier begins.
pub terminate_task_with_reason-powerless :
    (k n : SimulatedKernel) (t : TaskId) (reason : ExitReason) (unknown : AddressSpaceId) (c : ℕ)
    (begun : TaskId → Bool) (given : ℕ → Bool)
    → begun t ≡ false
    → Steps begun given (terminate_task_with_reason k t reason unknown) n
    → is_capability_valid n c t ≡ false
terminate_task_with_reason-powerless k n t reason unknown c begun given f p =
    ended-powerless n c t (
      Steps-kept {P = λ o. is_task o t ≡ false} (record { keeps = λ m i. Move-ended t f m i }) p
        (terminate_task_with_reason-ended k t reason unknown))
