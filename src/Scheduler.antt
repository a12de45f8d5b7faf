-- ===== src/Scheduler.antt =====
-- sim_kernel/src/scheduler.rs: the preemptive scheduler. The children below define it (Types, Tasks,
-- RunQueue, Deadlines, State, Clock, Admission, Switching) and prove it.
pub mod Types
pub mod Tasks
pub mod RunQueue
pub mod Deadlines
pub mod State
pub mod Clock
pub mod Admission
pub mod Switching
pub mod Counting
pub mod Placement
pub mod Histories
pub mod Waking
pub mod Soundness
pub mod RoundRobin
pub mod Examples
