-- ===== src/Scheduler/Tasks.antt =====
-- sim_kernel/src/scheduler.rs: the field `tasks`, a `HashMap<TaskId, TaskInfo>`. The source walks
-- through it, so it is a list of entries, in the order in which an iteration would meet them.
use panda_gen.Prelude.Tables.{Table}
unfoldable pub use panda_gen.Prelude.Tables.{get, update, insert}
pub use panda_gen.Prelude.Tables.{map_some, get-update, get-insert}
use panda_gen.Scheduler.Types.{TaskInfo}

abbrev pub Tasks : Type 0
Tasks = Table TaskInfo
