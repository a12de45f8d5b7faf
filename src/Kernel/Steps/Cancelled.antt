-- ===== src/Kernel/Steps/Cancelled.antt =====
-- sim_kernel/src/lib.rs: the executions cancelled for want of budget, over whole histories of the kernel.
use panda_gen.Prelude.{ℕ, ◌≡◌, refl, Bool, true, err, arith}
use panda_gen.Scheduler.Types.{TaskId}
use panda_gen.Identity.{ExecutionId}
use panda_gen.Kernel.{SimulatedKernel}
use panda_gen.Kernel.Types.{KernelError}
use panda_gen.Kernel.Authority.{record_capability_grant, change_capability}
use panda_gen.Kernel.Authority.Moves.{Move, unmoved, begins, ends, gives, crosses, changes}
use panda_gen.Kernel.Budgets.{is_identity_cancelled, try_consume}
use panda_gen.Kernel.Budgets.Consumption.{Consumption, IsChargedTo, charge, charge-meter}
use panda_gen.Kernel.Steps.{Steps}
use panda_gen.Kernel.Steps.Kept.{Steps-kept}

Move-cancelled :
    (e : ExecutionId) {begun : TaskId → Bool} {given : ℕ → Bool} {k n : SimulatedKernel}
    → Move begun given k n
    → is_identity_cancelled k e ≡ true
    → is_identity_cancelled n e ≡ true
unfolding record_capability_grant change_capability
Move-cancelled e (unmoved k n audit table tasks stays) h = stays e h
Move-cancelled e (begins k n t info b audit table tasks stays) h = stays e h
Move-cancelled e (ends k t) h = h
Move-cancelled e (gives k c t cap_type grantor lease g) h = h
Move-cancelled e (crosses k c from to d d') h = h
Move-cancelled e (changes k c change event i) h = ground arith

-- Once an execution is cancelled, whatever calls the kernel gets, every later charge to it for processor
-- ticks, a pipeline stage, a message of one of its tasks, a packet or a storage operation fails and
-- leaves the kernel as it was. Charges for memory are not meant.
pub charge-refused :
    (k n : SimulatedKernel) (e : ExecutionId) (begun : TaskId → Bool) (given : ℕ → Bool)
    → is_identity_cancelled k e ≡ true
    → Steps begun given k n
    → (c : Consumption) (t : TaskId) → IsChargedTo n t e c
    → ((x : KernelError) × (charge n t e c ≡ (n, err x)))
unfolding try_consume
charge-refused k n e begun given h p c t g =
    let stays : is_identity_cancelled n e ≡ true =
      Steps-kept {P = λ o. is_identity_cancelled o e ≡ true}
        (record { keeps = λ m i. Move-cancelled e m i }) p h in
    rw (charge-meter n t e c g, try_consume, stays) (_, refl)
