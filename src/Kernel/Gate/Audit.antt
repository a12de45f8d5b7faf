-- ===== src/Kernel/Gate/Audit.antt =====
-- sim_kernel/src/syscall_gate.rs: what the gate records of system calls.
use mathlib.Core.List.{append_assoc}
use Prim.Native.String.{String}
use panda_gen.Prelude.{
  ℕ, ◌≡◌, refl, ap, ◌∙◌, Bool, true, false, List, [], ◌∷◌, ◌++◌, Option, none, some, Result, ok,
  err, if◌then◌else◌,
}
use panda_gen.Identity.{ExecutionId}
use panda_gen.Memory.{MemoryRegionId}
use panda_gen.Kernel.Gate.{
  KernelApi, MemoryOps, Syscall, SyscallResult, Reason, SyscallEvent, invoked, completed, rejected,
  SyscallGate, record_event, syscall_name, finish, dispatch, execute, dispatch_memory,
  execute_with_memory, kernel_reason, memory_reason, spawn_task, create_channel, send, recv, sleep,
  now, yield_now, grant, register_service, lookup_service, create_address_space, allocate_region,
  access_region,
}

-- The calls about memory.
abbrev pub is_memory_call : Syscall → Bool
is_memory_call create_address_space = true
is_memory_call (allocate_region space_cap size_bytes permissions backing) = true
is_memory_call (access_region region_cap access_type) = true
is_memory_call _ = false

abbrev pub reasoned :
    {E : Type 0} → (E → Reason) → Result E SyscallResult → Result Reason SyscallResult
reasoned f (ok result) = ok result
reasoned f (err e) = err (f e)

-- A call as its caller sees it, with the answer that the log has to show, if any.
pub record Entry : Type 0 where
  pub caller : ExecutionId
  pub syscall : Syscall
  pub at : ℕ
  pub answer : Option (Result Reason SyscallResult)

abbrev pub answer_events :
    ExecutionId → String → ℕ → Option (Result Reason SyscallResult) → List SyscallEvent
answer_events caller name at none = []
answer_events caller name at (some (ok result)) = completed caller name at ∷ []
answer_events caller name at (some (err reason)) = rejected caller name reason at ∷ []

abbrev pub events_of : Entry → List SyscallEvent
events_of e =
    invoked e.caller (syscall_name e.syscall) e.at
    ∷ answer_events e.caller (syscall_name e.syscall) e.at e.answer

-- The log of the calls, the newest first.
abbrev pub transcript : List Entry → List SyscallEvent
transcript [] = []
transcript (e ∷ entries) = transcript entries ++ events_of e

-- Calls at a gate, on any states of the kernel, with their answers, the newest first. An answer of
-- `execute_with_memory` to a call that is not about memory is not shown.
pub data History {K : Type 0} (api : KernelApi K) (ops : MemoryOps K)
    : SyscallGate → List Entry → Type 0 where
  fresh_gate : History api ops (record { audit_log = [] }) []
  executes :
      (gate : SyscallGate) (entries : List Entry) (k : K) (caller : ExecutionId) (syscall : Syscall)
      (at : ℕ)
      → History api ops gate entries
      → History api ops (execute api gate k caller syscall at).0 (
          record {
            caller = caller;
            syscall = syscall;
            at = at;
            answer = some (reasoned kernel_reason (execute api gate k caller syscall at).1.1);
          }
          ∷ entries)
  executes_memory :
      (gate : SyscallGate) (entries : List Entry) (k : K) (caller : ExecutionId) (syscall : Syscall)
      (at : ℕ) (fresh : MemoryRegionId)
      → History api ops gate entries
      → History api ops (execute_with_memory ops gate k caller syscall at fresh).0 (
          record {
            caller = caller;
            syscall = syscall;
            at = at;
            answer =
                if is_memory_call syscall
                then some (
                    reasoned memory_reason
                      (execute_with_memory ops gate k caller syscall at fresh).1.1)
                else none;
          }
          ∷ entries)

-- An answered call is written down whole.
finish-log :
    {E : Type 0} (gate : SyscallGate) (caller : ExecutionId) (name : String) (at : ℕ)
    (reason : E → Reason) (r : Result E SyscallResult)
    → (finish (record_event gate (invoked caller name at)) caller name at reason r).audit_log
      ≡ gate.audit_log
        ++ invoked caller name at ∷ answer_events caller name at (some (reasoned reason r))
finish-log gate caller name at reason (ok result) =
    append_assoc gate.audit_log (invoked caller name at ∷ []) (completed caller name at ∷ [])
finish-log gate caller name at reason (err e) =
    append_assoc gate.audit_log (invoked caller name at ∷ [])
      (rejected caller name (reason e) at ∷ [])

module _ {K : Type 0} (api : KernelApi K) (ops : MemoryOps K) where
  -- One call at `execute_with_memory`.
  memory-log :
      (gate : SyscallGate) (k : K) (caller : ExecutionId) (syscall : Syscall) (at : ℕ)
      (fresh : MemoryRegionId)
      → (execute_with_memory ops gate k caller syscall at fresh).0.audit_log
        ≡ gate.audit_log
          ++ invoked caller (syscall_name syscall) at
            ∷ answer_events caller (syscall_name syscall) at (
                if is_memory_call syscall
                then some (
                    reasoned memory_reason
                      (execute_with_memory ops gate k caller syscall at fresh).1.1)
                else none)
  unfolding execute_with_memory dispatch_memory
  memory-log gate k caller create_address_space at fresh =
      finish-log gate caller "CreateAddressSpace" at memory_reason _
  memory-log gate k caller (allocate_region space_cap size_bytes permissions backing) at fresh =
      finish-log gate caller "AllocateRegion" at memory_reason _
  memory-log gate k caller (access_region region_cap access_type) at fresh =
      finish-log gate caller "AccessRegion" at memory_reason _
  memory-log gate k caller (spawn_task descriptor) at fresh = refl
  memory-log gate k caller create_channel at fresh = refl
  memory-log gate k caller (send channel envelope) at fresh = refl
  memory-log gate k caller (recv channel) at fresh = refl
  memory-log gate k caller (sleep duration) at fresh = refl
  memory-log gate k caller now at fresh = refl
  memory-log gate k caller yield_now at fresh = refl
  memory-log gate k caller (grant task capability) at fresh = refl
  memory-log gate k caller (register_service service channel) at fresh = refl
  memory-log gate k caller (lookup_service service) at fresh = refl

  execute-log :
      (gate : SyscallGate) (k : K) (caller : ExecutionId) (syscall : Syscall) (at : ℕ)
      → (execute api gate k caller syscall at).0.audit_log
        ≡ gate.audit_log
          ++ invoked caller (syscall_name syscall) at
            ∷ answer_events caller
                (syscall_name syscall)
                at
                (some (reasoned kernel_reason (execute api gate k caller syscall at).1.1))
  unfolding execute
  execute-log gate k caller syscall at =
      finish-log gate caller (syscall_name syscall) at kernel_reason (dispatch api k syscall).1

  written :
      {gate : SyscallGate} {entries : List Entry}
      → History api ops gate entries
      → gate.audit_log ≡ transcript entries
  written fresh_gate = refl
  written (executes gate entries k caller syscall at h) =
      execute-log gate k caller syscall at
      ∙ ap
          (λ log.
            log
            ++ invoked caller (syscall_name syscall) at
              ∷ answer_events caller (syscall_name syscall) at
                  (some (reasoned kernel_reason (execute api gate k caller syscall at).1.1)))
          (written h)
  written (executes_memory gate entries k caller syscall at fresh h) =
      memory-log gate k caller syscall at fresh
      ∙ ap
          (λ log.
            log
            ++ invoked caller (syscall_name syscall) at
              ∷ answer_events caller (syscall_name syscall) at (
                  if is_memory_call syscall
                  then some (
                      reasoned memory_reason
                        (execute_with_memory ops gate k caller syscall at fresh).1.1)
                  else none))
          (written h)

-- In every history of `execute` and `execute_with_memory` at a gate, over any kernel, the log is the
-- transcript of the calls: each is shown invoked, with its caller, name and time, and directly
-- behind that completed when its caller got a result, or rejected with the reason when its caller
-- got an error. Only a call that is not about memory shows no answer when it is made through
-- `execute_with_memory`.
pub History-written :
    {K : Type 0} (api : KernelApi K) (ops : MemoryOps K) (gate : SyscallGate) (entries : List Entry)
    → History api ops gate entries
    → gate.audit_log ≡ transcript entries
History-written api ops gate entries h = written api ops h
