-- ===== src/Kernel/Examples/Charges.antt =====
-- sim_kernel/src/lib.rs: the theorems on budgets at the kernel with two tasks.
use Prim.Native.String.{String}
use panda_gen.Prelude.{◌≡◌, ◌⊎◌, refl, true, false, none, some, ok, err, arith, empty_map, u64_max}
use panda_gen.Prelude.Tables.{get, insert}
use panda_gen.Resources.{
  ResourceBudget, unlimited, zero_usage, exceeds, consume_cpu_ticks, consume_pipeline_stage,
}
use panda_gen.Resources.Enforcement.{IsWithin}
use panda_gen.Scheduler.State.{is_current}
use panda_gen.Scheduler.Counting.{count}
use panda_gen.Identity.{IdentityMetadata, component, user_domain, new_identity, with_budget}
use panda_gen.Memory.{
  AddressSpaceCap, MemoryBacking, read_only, address_space_not_found, budget_exhausted,
}
use panda_gen.Memory.Spaces.{open_space, create_address_space}
use panda_gen.Kernel.{SimulatedKernel}
use panda_gen.Kernel.Types.{KernelError, MessageOperation, insufficient_authority, words_text}
use panda_gen.Kernel.Tasks.{create_identity, install_task, spawn_task, clear_exit_notifications}
use panda_gen.Kernel.Tasks.Inheriting.{spawned, IsFreeChild, spawn_task_with_identity-unlimited}
use panda_gen.Kernel.Budgets.{
  try_consume, is_identity_cancelled, cpu_meter, stage_meter, cancel_identity,
  try_consume_cpu_ticks, try_consume_pipeline_stage, consume,
}
use panda_gen.Kernel.Budgets.Enforced.{idle, then_call, charges_stage, Calls-exceeds}
use panda_gen.Kernel.Budgets.Limits.{IsEnforced, cpu_used, put-Obeys}
use panda_gen.Kernel.Budgets.Consumption.{Consumption, message, charge, charge-cancels}
use panda_gen.Kernel.Steps.{then_step, clears_exits}
use panda_gen.Kernel.Steps as Calls
use panda_gen.Kernel.Steps.Cancelled.{charge-refused}
use panda_gen.Kernel.Budgets.Overflow.{try_consume_cpu_ticks-wraps}
use panda_gen.Kernel.Memory.{allocate_region, memory_limit, pages}
use panda_gen.Kernel.Memory.Drained.{requests, allocate_region-drained}
use panda_gen.Kernel.Examples.{two_tasks, one_task}

-- Nine processor ticks, two units of memory and one stage.
abbrev small : ResourceBudget
unfolding unlimited
small = record unlimited { cpu_ticks = some 9; memory_units = some 2; pipeline_stages = some 1 }

abbrev worker : IdentityMetadata
worker = with_budget (new_identity 11 component user_domain "one" 0) small

-- Task 1 under that budget.
abbrev budgeted : SimulatedKernel
budgeted = create_identity two_tasks worker

abbrev one_stage : SimulatedKernel
one_stage = (try_consume_pipeline_stage budgeted 11 "sort").0

abbrev no_space : AddressSpaceCap
no_space = record { space_id = 200; cap_id = 9 }

worker-IsWithin : IsWithin worker.usage small
unfolding worker small unlimited new_identity zero_usage
worker-IsWithin = record {
  cpu = ground arith;
  memory = ground arith;
  messages = tt;
  packets = tt;
  storage = tt;
  stages = ground arith;
}

budgeted-IsEnforced : IsEnforced budgeted
unfolding create_identity two_tasks one_task spawn_task install_task new_identity
budgeted-IsEnforced = record {
  obeys =
      put-Obeys two_tasks.identity_table 11 worker worker-IsWithin
        (put-Obeys one_task.identity_table 12 _ tt (put-Obeys empty_map 11 _ tt (λ e. tt)));
}

Calls-exceeds_example : exceeds (consume_pipeline_stage worker.usage) small ≡ none
unfolding create_identity two_tasks one_task spawn_task install_task try_consume_pipeline_stage
    try_consume stage_meter consume worker small unlimited new_identity zero_usage
    consume_pipeline_stage
Calls-exceeds_example =
    Calls-exceeds budgeted one_stage budgeted-IsEnforced
      (then_call idle (charges_stage budgeted 11 "sort")) 11
      (record worker { usage = consume_pipeline_stage worker.usage }) small refl refl

charge-cancels_example :
    ((x : KernelError) × ((charge budgeted 1 11 (Consumption.cpu_ticks 10)).1 ≡ err x))
    × (is_identity_cancelled (charge budgeted 1 11 (Consumption.cpu_ticks 10)).0 11 ≡ true)
    × (count 1 (charge budgeted 1 11 (Consumption.cpu_ticks 10)).0.scheduler.run_queue ≡ 0)
    × (is_current (charge budgeted 1 11 (Consumption.cpu_ticks 10)).0.scheduler.current_task 1
        ≡ false)
unfolding create_identity two_tasks one_task spawn_task install_task insert get new_identity small
    unlimited zero_usage
charge-cancels_example =
    charge-cancels budgeted (Consumption.cpu_ticks 10) 11 worker small 9 1 refl refl refl refl
      (ground arith) (ground arith) refl tt

-- The execution of task 1 is cancelled.
abbrev stopped : SimulatedKernel
stopped = cancel_identity budgeted 11 "over"

charge-refused_example :
    ((x : KernelError) × (charge
          (clear_exit_notifications stopped)
          1
          11
          (message MessageOperation.send)
        ≡ (clear_exit_notifications stopped, err x)))
unfolding cancel_identity create_identity two_tasks one_task spawn_task install_task insert get
    clear_exit_notifications
charge-refused_example =
    charge-refused stopped (clear_exit_notifications stopped) 11 (λ t. false) (λ c. false) refl
      (then_step Calls.idle (clears_exits stopped)) (message MessageOperation.send) 1 refl

allocate_region-drained_example :
    ((requests no_space 7 read_only MemoryBacking.anonymous 11 2 budgeted).address_space_manager
      ≡ budgeted.address_space_manager)
    × ((allocate_region
          (requests no_space 7 read_only MemoryBacking.anonymous 11 2 budgeted)
          no_space
          8
          5000
          read_only
          MemoryBacking.anonymous
          11).1
        ≡ err (budget_exhausted (pages 5000) 0))
unfolding memory_limit small unlimited open_space create_identity two_tasks one_task spawn_task
    install_task create_address_space worker new_identity zero_usage
allocate_region-drained_example =
    allocate_region-drained budgeted no_space no_space 7 8 read_only read_only
      MemoryBacking.anonymous MemoryBacking.anonymous 11 worker 2 2 5000
      (address_space_not_found 200) refl refl refl refl (ground arith) refl

-- One tick was used, and the largest number of ticks is asked for.
abbrev busy : IdentityMetadata
unfolding consume_cpu_ticks
busy = record worker { usage = consume_cpu_ticks worker.usage 1 }

try_consume_cpu_ticks-wraps_example :
    ((try_consume_cpu_ticks (create_identity two_tasks busy) 11 u64_max).1 ≡ ok tt)
    × (cpu_used (try_consume_cpu_ticks (create_identity two_tasks busy) 11 u64_max).0 11 ≡ u64_max)
unfolding create_identity two_tasks one_task spawn_task install_task busy worker new_identity small
    unlimited zero_usage consume_cpu_ticks
try_consume_cpu_ticks-wraps_example =
    try_consume_cpu_ticks-wraps (create_identity two_tasks busy) 11 u64_max busy small 9 refl refl
      refl refl (ground arith) (ground arith) (ground arith) (ground arith)

spawn_task_with_identity-unlimited_example :
    ((text : String) × (spawned budgeted 3 13 23 "child" component user_domain (some 11) none).1
        ≡ err (insufficient_authority (words_text "Policy denied spawn: " text)))
    ⊎ (((text : String) × (spawned budgeted 3 13 23 "child" component user_domain (some 11) none).1
            ≡ err
                (insufficient_authority (words_text "Policy requires action before spawn: " text)))
        ⊎ (((spawned budgeted 3 13 23 "child" component user_domain (some 11) none).1 ≡ ok 13)
            × IsFreeChild budgeted 3 13 23 "child" component user_domain
                (some 11)
                none
                (spawned budgeted 3 13 23 "child" component user_domain (some 11) none).0
            × (try_consume
                  (spawned budgeted 3 13 23 "child" component user_domain (some 11) none).0
                  (cpu_meter 10)
                  13
                ≡ (
                  (spawned budgeted 3 13 23 "child" component user_domain (some 11) none).0,
                  ok tt,
                ))))
unfolding create_identity two_tasks one_task spawn_task install_task
spawn_task_with_identity-unlimited_example =
    spawn_task_with_identity-unlimited budgeted 3 13 23 "child" component user_domain (some 11) none
      (cpu_meter 10) refl
