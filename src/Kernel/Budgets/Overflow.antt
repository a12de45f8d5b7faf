-- ===== src/Kernel/Budgets/Overflow.antt =====
-- sim_kernel/src/lib.rs: the unchecked sum in `try_consume_cpu_ticks`.
use panda_gen.Prelude.{
  ℕ, ◌+◌, ◌≤◌, ◌<◌, ◌≡◌, false, some, ok, arith, ltb, u64_add, u64_max, saturating_add,
}
use panda_gen.Resources.{ResourceBudget, consume_cpu_ticks}
use panda_gen.Identity.{ExecutionId, IdentityMetadata}
use panda_gen.Kernel.{SimulatedKernel}
use panda_gen.Kernel.Budgets.{
  is_identity_cancelled, try_consume, consume, cpu_meter, try_consume_cpu_ticks,
}
use panda_gen.Kernel.Budgets.Limits.{cpu_used}

u64_add-wraps :
    (used amount limit : ℕ)
    → used ≤ u64_max
    → amount ≤ u64_max
    → u64_max < used + amount
    → used + amount ≤ u64_max + 1 + limit
    → (ltb limit (u64_add used amount) ≡ false) × (saturating_add used amount ≡ u64_max)
u64_add-wraps used amount limit u a o l = (ground arith, ground arith)

-- When the ticks used and the ticks asked for pass the last value of a `u64` together, and by no more
-- than the limit and one, the sum wraps to one within the limit: the charge is granted, and the
-- execution has then used the last value of a `u64`, whatever its limit is.
pub try_consume_cpu_ticks-wraps :
    (k : SimulatedKernel) (e : ExecutionId) (amount : ℕ) (identity : IdentityMetadata)
    (b : ResourceBudget) (limit : ℕ)
    → is_identity_cancelled k e ≡ false
    → k.identity_table e ≡ some identity
    → identity.budget ≡ some b
    → b.cpu_ticks ≡ some limit
    → identity.usage.cpu_ticks ≤ u64_max
    → amount ≤ u64_max
    → u64_max < identity.usage.cpu_ticks + amount
    → identity.usage.cpu_ticks + amount ≤ u64_max + 1 + limit
    → ((try_consume_cpu_ticks k e amount).1 ≡ ok tt)
      × (cpu_used (try_consume_cpu_ticks k e amount).0 e ≡ u64_max)
unfolding try_consume_cpu_ticks try_consume cpu_meter consume consume_cpu_ticks
try_consume_cpu_ticks-wraps k e amount identity b limit c q w l u a o s =
    let (passes, saturates) = u64_add-wraps identity.usage.cpu_ticks amount limit u a o s in
    (ground (arith, c, q, w, l, passes), ground (arith, c, q, w, l, passes, saturates))
