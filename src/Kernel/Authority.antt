-- ===== src/Kernel/Authority.antt =====
-- sim_kernel/src/lib.rs: the table of capabilities. A failed `validate_capability` gives the reason that
-- the source prints.
pub mod Validity
pub mod Moves
pub mod Ledger
pub mod Delegation
use Prim.Native.String.{String}
use panda_gen.Prelude.{
  ℕ, ◌≡◌, Bool, true, false, ◌&&◌, not, List, [], ◌∷◌, Option, none, some, Result, ok, err,
  if◌then◌else◌, ◌==◌, leb, map, select, saturating_add,
}
use panda_gen.Prelude.Tables.{Table, get, update, insert}
use panda_gen.Scheduler.Types.{TaskId}
use panda_gen.Identity.{IdentityMetadata, same_domain}
use panda_gen.Policy.{on_capability_delegate, allow, deny, require, for_capability_delegation}
use panda_gen.Kernel.{SimulatedKernel, audit_capability, evaluate_policy}
use panda_gen.Kernel.Types.{
  CapabilityMetadata, CapabilityStatus, valid, transferred, invalid, CapabilityInvalidReason,
  owner_dead, never_granted, transferred_away, was_revoked, lease_expired, CapabilityEvent, granted,
  delegated, cross_domain_delegation, dropped, invalidated, revoked_event, lease_expired_event,
  KernelError, invalid_capability, send_failed, insufficient_authority, words, words_reason,
  words_text,
}

abbrev pub is_valid : CapabilityStatus → Bool
is_valid valid = true
is_valid transferred = false
is_valid invalid = false

abbrev pub is_transferred : CapabilityStatus → Bool
is_transferred valid = false
is_transferred transferred = true
is_transferred invalid = false

abbrev pub is_expired : CapabilityMetadata → ℕ → Bool
is_expired meta now = elim meta.lease_expires_at_nanos [
  | none ↦ false
  | some expires_at ↦ leb expires_at now
]

-- `tasks.contains_key`
abbrev pub is_task : SimulatedKernel → TaskId → Bool
is_task k t = elim (k.tasks t) [ none ↦ false | some info ↦ true ]

unfoldable pub validate_capability :
    SimulatedKernel → ℕ → TaskId → Result CapabilityInvalidReason Unit
validate_capability k cap_id task_id = elim (get k.capability_table cap_id) [
  | none ↦ err never_granted
  | some meta ↦
      if is_expired meta k.current_time
      then err lease_expired
      else if meta.revoked
      then err was_revoked
      else if not (is_valid meta.status)
      then (if is_transferred meta.status then err transferred_away else err owner_dead)
      else if not (is_task k meta.owner)
      then err owner_dead
      else if not (meta.owner == task_id)
      then err never_granted
      else ok tt
]

-- `is_capability_valid`
abbrev pub is_capability_valid : SimulatedKernel → ℕ → TaskId → Bool
is_capability_valid k cap_id task_id = elim (validate_capability k cap_id task_id) [
  | ok _ ↦ true
  | err reason ↦ false
]

unfoldable pub record_capability_grant :
    SimulatedKernel → ℕ → TaskId → String → Option TaskId → Option ℕ → SimulatedKernel
record_capability_grant k cap_id grantee cap_type grantor lease_expires_at_nanos =
    audit_capability
      (record k {
        capability_table = insert k.capability_table cap_id (record {
          cap_id = cap_id;
          owner = grantee;
          cap_type = cap_type;
          status = valid;
          grantor = grantor;
          revoked = false;
          lease_expires_at_nanos = lease_expires_at_nanos;
        });
      })
      (granted cap_id grantor grantee cap_type)

unfoldable pub grant_capability :
    SimulatedKernel → TaskId → ℕ → SimulatedKernel × Result KernelError Unit
unfolding record_capability_grant
grant_capability k task capability =
    if is_task k task
    then (record_capability_grant k capability task "Generic" none none, ok tt)
    else (k, err (send_failed (words "Task not found")))

unfoldable pub grant_capability_with_lease :
    SimulatedKernel → TaskId → ℕ → ℕ → SimulatedKernel × Result KernelError Unit
unfolding record_capability_grant
grant_capability_with_lease k task capability lease =
    if is_task k task
    then (
      record_capability_grant k capability task "Generic" none
          (some (saturating_add k.current_time lease)),
      ok tt,
    )
    else (k, err (send_failed (words "Target task not found")))

-- A change of one entry, with the event that tells of it.
unfoldable pub change_capability :
    SimulatedKernel
    → ℕ
    → (CapabilityMetadata → CapabilityMetadata)
    → (CapabilityMetadata → CapabilityEvent)
    → SimulatedKernel
change_capability k cap_id change event = elim (get k.capability_table cap_id) [
  | none ↦ k
  | some meta ↦
      audit_capability (record k { capability_table = update k.capability_table cap_id change })
        (event meta)
]

abbrev pub set_invalid : CapabilityMetadata → CapabilityMetadata
set_invalid meta = record meta { status = invalid }

unfoldable pub revoke_capability :
    SimulatedKernel → ℕ → TaskId → String → SimulatedKernel × Result KernelError Unit
unfolding validate_capability change_capability
revoke_capability k cap_id owner reason = elim (validate_capability k cap_id owner) [
  | err invalid_reason ↦ (k, err (invalid_capability (words_reason "Cannot revoke" invalid_reason)))
  | ok _ ↦ (
    change_capability k cap_id (λ meta. record meta { status = invalid; revoked = true })
        (λ meta. revoked_event cap_id owner meta.cap_type reason),
    ok tt,
  )
]

unfoldable pub drop_capability :
    SimulatedKernel → ℕ → TaskId → SimulatedKernel × Result KernelError Unit
unfolding validate_capability change_capability
drop_capability k cap_id owner = elim (validate_capability k cap_id owner) [
  | err reason ↦ (k, err (invalid_capability (words_reason "Cannot drop" reason)))
  | ok _ ↦
      (change_capability k cap_id set_invalid (λ meta. dropped cap_id owner meta.cap_type), ok tt)
]

-- The identities of both tasks, when the kernel knows both.
unfoldable pub identities_of :
    SimulatedKernel → TaskId → TaskId → Option (IdentityMetadata × IdentityMetadata)
identities_of k from_task to_task = elim (get k.task_to_identity from_task) [
  | none ↦ none
  | some from_exec_id ↦ elim (get k.task_to_identity to_task) [
    | none ↦ none
    | some to_exec_id ↦ elim (k.identity_table from_exec_id) [
      | none ↦ none
      | some from_id ↦ elim (k.identity_table to_exec_id) [
        | none ↦ none
        | some to_id ↦ some (from_id, to_id)
      ]
    ]
  ]
]

-- The policy's answer and the record of a crossed boundary, before the transfer.
unfoldable pub approve_delegation :
    SimulatedKernel
    → ℕ
    → TaskId
    → TaskId
    → Option (IdentityMetadata × IdentityMetadata)
    → SimulatedKernel × Result KernelError Unit
unfolding evaluate_policy
approve_delegation k cap_id from_task to_task none = (k, ok tt)
approve_delegation k cap_id from_task to_task (some (from_id, to_id)) =
    let context = for_capability_delegation from_id to_id cap_id in
    let k' = (evaluate_policy k on_capability_delegate context).0 in
    elim (evaluate_policy k on_capability_delegate context).1 [
      | deny reason ↦ (
        k',
        err (insufficient_authority (words_text "Policy denied capability delegation: " reason)),
      )
      | require action ↦ (
        k',
        err (
            insufficient_authority
              (words_text "Policy requires action before delegation: " action)),
      )
      | allow derived ↦ (
        if same_domain from_id to_id
            then k'
            else audit_capability k' (
                cross_domain_delegation cap_id from_task from_id.trust_domain to_task
                  to_id.trust_domain),
        ok tt,
      )
    ]

unfoldable pub delegate_capability :
    SimulatedKernel → ℕ → TaskId → TaskId → SimulatedKernel × Result KernelError Unit
unfolding validate_capability identities_of approve_delegation change_capability
delegate_capability k cap_id from_task to_task = elim (validate_capability k cap_id from_task) [
  | err reason ↦ (k, err (invalid_capability (words_reason "Cannot delegate" reason)))
  | ok _ ↦
      if not (is_task k to_task)
      then (k, err (send_failed (words "Target task not found")))
      else let approved =
          approve_delegation k cap_id from_task to_task (identities_of k from_task to_task) in
        elim approved.1 [
          | err e ↦ (approved.0, err e)
          | ok _ ↦ (
            change_capability approved.0 cap_id (λ meta. record meta { owner = to_task })
                (λ meta. delegated cap_id from_task to_task meta.cap_type),
            ok tt,
          )
        ]
]

-- The capabilities of the table that pass a test, in the order of the walk.
abbrev pub ids_where : (CapabilityMetadata → Bool) → Table CapabilityMetadata → List ℕ
ids_where p [] = []
ids_where p ((cap_id, meta) ∷ m) = if p meta then cap_id ∷ ids_where p m else ids_where p m

-- The loop over the collected identifiers: each entry is made invalid.
unfoldable pub invalidate_all :
    SimulatedKernel → List ℕ → (ℕ → CapabilityMetadata → CapabilityEvent) → SimulatedKernel
unfolding change_capability
invalidate_all k [] event = k
invalidate_all k (cap_id ∷ ids) event =
    invalidate_all (change_capability k cap_id set_invalid (event cap_id)) ids event

unfoldable pub invalidate_task_capabilities : SimulatedKernel → TaskId → SimulatedKernel
unfolding invalidate_all
invalidate_task_capabilities k task_id =
    invalidate_all k (ids_where (λ meta. meta.owner == task_id) k.capability_table)
      (λ cap_id meta. invalidated cap_id task_id meta.cap_type)

unfoldable pub expire_capability_leases : SimulatedKernel → SimulatedKernel
unfolding invalidate_all
expire_capability_leases k =
    invalidate_all k
      (ids_where (λ meta. is_valid meta.status && is_expired meta k.current_time)
        k.capability_table)
      (λ cap_id meta. lease_expired_event cap_id meta.owner meta.cap_type k.current_time)
