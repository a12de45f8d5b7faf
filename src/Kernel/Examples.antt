-- ===== src/Kernel/Examples.antt =====
-- sim_kernel/src/lib.rs: a kernel with two tasks, and the theorems on authority at it.
pub mod Charges
pub mod Talk
pub mod Calls
use Prim.Native.String.{String}
use panda_gen.Prelude.{
  ℕ, ◌≡◌, refl, Bool, true, false, List, [], ◌∷◌, ◌++◌, Option, none, some, ok, err, arith, put,
  empty_map, if◌then◌else◌, ◌==◌,
}
use panda_gen.Prelude.Tables.{get, insert, update}
use panda_gen.Resources.{unlimited, zero_usage}
use panda_gen.Scheduler.Types.{TaskId}
use panda_gen.Scheduler.State as State
use panda_gen.Identity.{IdentityMetadata, component, user_domain, new_identity, ExitReason}
use panda_gen.Memory.Spaces.{create_address_space}
use panda_gen.Kernel.{SimulatedKernel, new_kernel, evaluate_policy}
use panda_gen.Kernel.Authority.{
  is_valid, is_capability_valid, validate_capability, record_capability_grant, grant_capability,
  change_capability, revoke_capability, delegate_capability, identities_of, approve_delegation,
  invalidate_task_capabilities, invalidate_all,
}
use panda_gen.Kernel.Authority.Moves.{holder}
use panda_gen.Kernel.Authority.Ledger.{told}
use panda_gen.Kernel.Authority.Delegation.{delegate_capability-moves}
use panda_gen.Kernel.Tasks.{spawn_task, install_task, terminate_task_with_reason, release_identity}
use panda_gen.Kernel.Steps.{Steps, idle, then_step, spawns, grants, delegates, drops}
use panda_gen.Kernel.Steps.Histories.{
  Steps-told, revoke_capability-forever, terminate_task_with_reason-powerless,
}

-- Tasks 1 and 2 run as executions 11 and 12, in address spaces 21 and 22; task 1 holds capability 5.
abbrev pub start : SimulatedKernel
start = new_kernel none 64

abbrev pub one_task : SimulatedKernel
one_task = spawn_task start 1 11 21 "one"

abbrev pub two_tasks : SimulatedKernel
two_tasks = spawn_task one_task 2 12 22 "two"

abbrev pub holding : SimulatedKernel
holding = (grant_capability two_tasks 1 5).0

abbrev anything : ℕ → Bool
anything n = true

holding-Steps : Steps anything anything start holding
holding-Steps =
    then_step
      (then_step (then_step idle (spawns start 1 11 21 "one" refl))
        (spawns one_task 2 12 22 "two" refl))
      (grants two_tasks 1 5 refl)

Steps-told_example :
    told empty_map (delegate_capability holding 5 1 2).0.capability_audit 5
    ≡ holder (get (delegate_capability holding 5 1 2).0.capability_table 5)
Steps-told_example =
    Steps-told none 64 anything anything (delegate_capability holding 5 1 2).0
      (then_step holding-Steps (delegates holding 5 1 2)) 5

revoke_capability-forever_example :
    is_capability_valid (delegate_capability (revoke_capability holding 5 1 "over").0 5 1 2).0 5 2
    ≡ false
unfolding revoke_capability validate_capability get grant_capability record_capability_grant insert
    spawn_task install_task
revoke_capability-forever_example =
    revoke_capability-forever holding
      (delegate_capability (revoke_capability holding 5 1 "over").0 5 1 2).0 5 1 2 "over" anything
      (λ c. false) refl refl
      (then_step idle (delegates (revoke_capability holding 5 1 "over").0 5 1 2))

terminate_task_with_reason-powerless_example :
    is_capability_valid
      (grant_capability (terminate_task_with_reason holding 1 ExitReason.normal 99) 1 5).0
      5
      1
    ≡ false
terminate_task_with_reason-powerless_example =
    terminate_task_with_reason-powerless holding
      (grant_capability (terminate_task_with_reason holding 1 ExitReason.normal 99) 1 5).0 1
      ExitReason.normal 99 5 (λ t. false) anything refl
      (then_step idle (grants (terminate_task_with_reason holding 1 ExitReason.normal 99) 1 5 refl))

delegate_capability-moves_example :
    is_capability_valid (delegate_capability holding 5 1 2).0 5 1 ≡ (2 == 1)
unfolding delegate_capability validate_capability get grant_capability record_capability_grant
    insert spawn_task install_task approve_delegation identities_of evaluate_policy
delegate_capability-moves_example = delegate_capability-moves holding 5 1 2 1 refl
