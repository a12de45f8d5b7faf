-- ===== src/Lib.antt =====
-- PandaGen: an operating system whose authority is held in capabilities and budgets.
--
-- The program is a Rust workspace. Its kernel (sim_kernel) schedules tasks, hands out address
-- spaces and passes messages through bounded queues; what an execution may consume is its budget
-- (resources); services run above the kernel, among them the journaled storage (services_storage),
-- which asks the kernel's budget before each operation, and the manager of input focus
-- (services_focus_manager). This library models these parts:
--
-- Storage: services_storage/src. Storage.Transaction is transaction.rs (`Transaction::new`,
-- `modify`, `commit`, `rollback`). Storage.Journal is `JournaledStorage` of journaled_storage.rs:
-- the state is a record of the objects, the journal and the pending writes, and the operations are
-- `begin_transaction`, `read`, `read_data`, `write`, `commit`, `rollback`, `recover` and
-- `from_journal`. Storage.Service is `StorageService` over any `StorageBudget`.
-- Scheduler: sim_kernel/src/scheduler.rs. Types and Tasks hold the data, RunQueue the queue and
-- its choice by deadline, Deadlines `refresh_deadlines`, State the scheduler with `enqueue`,
-- `dequeue_next` and `unblock_task`, Clock `on_tick_advanced` and `wake_ready_tasks`, Admission
-- `set_real_time_params` and the utilization, Switching `preempt_current`, `block_task`,
-- `exit_task` and `cancel_task`. The other modules are proofs, named for what they prove.
-- Memory: core_types/src/memory.rs (Memory), sim_kernel/src/address_space.rs (Memory.Spaces), the
-- manager without page tables.
-- Kernel: sim_kernel/src/lib.rs, the calls of `SimulatedKernel`. The record in Kernel holds its
-- tables, the Scheduler's state and the manager of Memory.Spaces. Kernel.Types has the errors and
-- events (kernel_api/src/error.rs, core_types/src/capability.rs, resource_audit.rs), Authority the
-- table of capabilities (`grant_capability`, `delegate_capability`, `revoke_capability`), Budgets
-- the five `try_consume_*` calls, which share one body that a `Meter` specialises, and
-- `cancel_identity`, Tasks spawning and termination, Channels the channels with their access
-- lists, over the queue of Queue, Services the registry of services and their schema policies,
-- Memory the call `allocate_region` with its charge and, in Memory.Operation, `allocate_region_op`,
-- which the gate asks for. Kernel.Steps is the step relation of all these calls; Authority.Moves
-- splits each into elementary moves, and an invariant is proved for the moves alone.
-- Kernel.Gate is syscall_gate.rs over any kernel with the operations of the traits `KernelApi` and
-- `MemoryOps`.
-- Identity: identity/src/lib.rs, `IdentityMetadata` and budget inheritance.
-- Policy: policy/src/lib.rs, the engines that the kernel asks before a spawn or a delegation, and
-- their composition `evaluate_all`. The kernel's engine is a parameter of its state.
-- Ipc: ipc/src/message.rs, schema versions and envelopes.
-- Lifecycle: lifecycle/src/lib.rs, cancellation sources and tokens over a store of shared cells,
-- deadlines and timeouts.
-- Jobs: services_job_scheduler/src/lib.rs, the queue of background jobs; the code of a job is a
-- parameter.
-- Resources: resources/src/lib.rs, budgets and usage (`exceeds`, `is_subset_of`, `min`,
-- `remaining`, `ResourceDelta::from`). The kernel's charges use these budgets.
-- Focus: services_focus_manager/src/lib.rs, the focus stack and its audit trail.
-- Queue: sim_kernel/src/message_queue.rs, the bounded queue of a channel.
-- Prelude: names and helpers that the parts share.
--
-- A method that changes `self` is a function from the state to the new state, with its result
-- beside it; an error is a value of `Result`. Numbers are native numbers; an operation on a `u64`
-- saturates, or wraps as a release build compiles it, where the source does. Identifiers are
-- numbers, and where the source draws a fresh one it is an argument; a history of the storage
-- requires that it was never drawn before, which is what random identifiers promise, and that no
-- transaction goes on after a reboot or a recovery. A map that the source walks
-- through is a list in iteration order, and a step of the scheduler may permute it; any other map
-- is a function. Histories are step relations, over which the invariants are proved by induction.
--
-- The only loop without a structural bound is the `while` of `refresh_deadlines`. It runs on fuel:
-- with `now` the clock and `deadline` the next deadline, `now + 1 - deadline + 1` rounds are
-- given, and a deadline moves on by at least one tick each round, so that they are enough while
-- the deadline can pass the clock.
--
-- Not modelled: the page tables behind an address space, whose results the manager drops; the
-- printing of values and errors, which are data (a formatted text is its words and values); the
-- block device, the serializer and the other storage back ends; the rest of the kernel (timers and
-- run loops, the multi-core scheduler, fault injection, user tasks; the kernel of the model runs
-- on one core without faults), the pipeline safety policy and the reports of policies, the editor,
-- pipelines and the other services; drivers, boot code and consoles; test suites and tools.
mod Prelude
pub mod Storage
pub mod Scheduler
pub mod Resources
pub mod Identity
pub mod Policy
pub mod Ipc
pub mod Kernel
pub mod Lifecycle
pub mod Jobs
pub mod Memory
pub mod Focus
pub mod Queue
