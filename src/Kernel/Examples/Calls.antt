-- ===== src/Kernel/Examples/Calls.antt =====
-- sim_kernel/src/syscall_gate.rs: the gate in front of the kernel with two tasks.
use panda_gen.Prelude.{some, none, ◌+◌, ◌≡◌, [], ◌∷◌, ok}
use panda_gen.Kernel.{SimulatedKernel}
use panda_gen.Kernel.Authority as Authority
use panda_gen.Kernel.Channels as Channels
use panda_gen.Kernel.Services as Services
use panda_gen.Kernel.Memory.Operation as Operation
use panda_gen.Kernel.Tasks as Tasks
use panda_gen.Kernel.Gate.{
  KernelApi, MemoryOps, SyscallGate, done, invoked, completed, yield_now, execute, dispatch,
  execute_with_memory,
}
use panda_gen.Kernel.Gate.Audit.{fresh_gate, executes, executes_memory, History-written}
use panda_gen.Kernel.Examples.{two_tasks}

-- The calls of the kernel, with 7 as the fresh identifier. Sleeping moves the clock alone.
abbrev simulated : KernelApi SimulatedKernel
simulated = record {
  spawn_task = λ k name. (Tasks.spawn_task k 7 7 7 name, ok 7);
  create_channel = λ k. (Channels.create_channel k 7, ok 7);
  send_message = Channels.send_message;
  receive_message = Channels.receive_message;
  now = λ k. k.current_time;
  sleep = λ k duration. (Tasks.sync_time k (k.current_time + duration), ok tt);
  grant_capability = Authority.grant_capability;
  register_service = Services.register_service;
  lookup_service = Services.lookup_service;
}

abbrev simulated_memory : MemoryOps SimulatedKernel
simulated_memory = record {
  create_address_space_op = λ k e. (k, ok (record { space_id = 7; cap_id = 7 }));
  allocate_region_op = λ k cap size_bytes permissions backing e.
      Operation.allocate_region_op k cap 7 size_bytes permissions backing e;
  access_region_op = λ k cap access_type e. (k, ok tt);
}

abbrev empty_gate : SyscallGate
empty_gate = record { audit_log = [] }

-- A yield at the right entry, and then one at the entry for memory.
abbrev one_call : SyscallGate
one_call = (execute simulated empty_gate two_tasks 11 yield_now 0).0

abbrev two_calls : SyscallGate
two_calls = (execute_with_memory simulated_memory one_call two_tasks 11 yield_now 5 9).0

-- The second call shows no answer.
History-written_example :
    two_calls.audit_log ≡ invoked 11 "Yield" 0 ∷ completed 11 "Yield" 0 ∷ invoked 11 "Yield" 5 ∷ []
unfolding dispatch execute
History-written_example =
    History-written simulated simulated_memory two_calls
      (record { caller = 11; syscall = yield_now; at = 5; answer = none }
        ∷ record { caller = 11; syscall = yield_now; at = 0; answer = some (ok done) }
        ∷ [])
      (executes_memory one_call
        (record { caller = 11; syscall = yield_now; at = 0; answer = some (ok done) } ∷ [])
        two_tasks 11 yield_now 5 9 (executes empty_gate [] two_tasks 11 yield_now 0 fresh_gate))
