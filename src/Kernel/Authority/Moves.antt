-- ===== src/Kernel/Authority/Moves.antt =====
-- sim_kernel/src/lib.rs: the elementary moves of the log of capabilities, of their table and of the
-- tasks, and the calls on capabilities, which are made of them.
use Prim.Native.String.{String}
use panda_gen.Prelude.{
  ℕ, ◌≡◌, refl, inl, inr, Bool, true, false, ◌&&◌, List, [], ◌∷◌, Option, none, some, Bool-cases,
  Result-cases, if◌then◌else◌, ◌==◌, put, delete, Map, saturating_add,
}
use panda_gen.Prelude.Tables.{get}
use panda_gen.Scheduler.Types.{TaskId}
use panda_gen.Identity.{TrustDomain, ExecutionId}
use panda_gen.Kernel.{SimulatedKernel, TaskInfo, audit_capability}
use panda_gen.Kernel.Types.{
  CapabilityMetadata, CapabilityEvent, granted, delegated, dropped, invalidated, revoked_event,
  lease_expired_event, cross_domain_delegation, invalid,
}
use panda_gen.Kernel.Budgets.{is_identity_cancelled}
use panda_gen.Kernel.Authority.{
  is_valid, is_expired, is_task, validate_capability, record_capability_grant, grant_capability,
  grant_capability_with_lease, change_capability, set_invalid, revoke_capability, drop_capability,
  ids_where, invalidate_all, invalidate_task_capabilities, expire_capability_leases,
}

-- What an event says of the holders.
abbrev pub tell : Map TaskId → CapabilityEvent → Map TaskId
tell holders (granted c grantor grantee cap_type) = put holders c grantee
tell holders (delegated c from to cap_type) = put holders c to
tell holders (dropped c owner cap_type) = delete holders c
tell holders (invalidated c owner cap_type) = delete holders c
tell holders (revoked_event c owner cap_type reason) = delete holders c
tell holders (lease_expired_event c owner cap_type at) = delete holders c
tell holders _ = holders

-- The owner of a capability that is valid.
abbrev pub holder : Option CapabilityMetadata → Option TaskId
holder none = none
holder (some meta) = if is_valid meta.status then some meta.owner else none

-- A change of an entry that its event tells of, and that makes nothing valid again.
pub record IsChange (k : SimulatedKernel) (c : ℕ) (change : CapabilityMetadata → CapabilityMetadata)
    (event : CapabilityMetadata → CapabilityEvent) : Type 0 where
  pub told :
      (meta : CapabilityMetadata) (holders : Map TaskId) (d : ℕ)
      → get k.capability_table c ≡ some meta
      → tell holders (event meta) d ≡ (if c == d then holder (some (change meta)) else holders d)
  pub stays_invalid :
      (meta : CapabilityMetadata)
      → is_valid meta.status ≡ false
      → is_valid (change meta).status ≡ false

-- Whoever was cancelled before is cancelled after.
abbrev pub StaysCancelled : SimulatedKernel → SimulatedKernel → Type 0
StaysCancelled k n =
    (e : ExecutionId) → is_identity_cancelled k e ≡ true → is_identity_cancelled n e ≡ true

-- `begun` are the tasks that may begin, and `given` the capabilities that may be granted.
pub data Move (begun : TaskId → Bool) (given : ℕ → Bool)
    : SimulatedKernel → SimulatedKernel → Type 0 where
  unmoved :
      (k n : SimulatedKernel)
      → n.capability_audit ≡ k.capability_audit
      → n.capability_table ≡ k.capability_table
      → n.tasks ≡ k.tasks
      → StaysCancelled k n
      → Move begun given k n
  begins :
      (k n : SimulatedKernel) (t : TaskId) (info : TaskInfo)
      → begun t ≡ true
      → n.capability_audit ≡ k.capability_audit
      → n.capability_table ≡ k.capability_table
      → n.tasks ≡ put k.tasks t info
      → StaysCancelled k n
      → Move begun given k n
  ends :
      (k : SimulatedKernel) (t : TaskId)
      → Move begun given k (record k { tasks = delete k.tasks t })
  gives :
      (k : SimulatedKernel) (c : ℕ) (t : TaskId) (cap_type : String) (grantor : Option TaskId)
      (lease : Option ℕ)
      → given c ≡ true
      → Move begun given k (record_capability_grant k c t cap_type grantor lease)
  crosses :
      (k : SimulatedKernel) (c : ℕ) (from to : TaskId) (d d' : TrustDomain)
      → Move begun given k (audit_capability k (cross_domain_delegation c from d to d'))
  changes :
      (k : SimulatedKernel) (c : ℕ) (change : CapabilityMetadata → CapabilityMetadata)
      (event : CapabilityMetadata → CapabilityEvent)
      → IsChange k c change event
      → Move begun given k (change_capability k c change event)

-- What every move keeps.
pub record IsKept {ℓ} (begun : TaskId → Bool) (given : ℕ → Bool) (P : SimulatedKernel → Type ℓ)
    : Type ℓ where
  pub keeps : {k n : SimulatedKernel} → Move begun given k n → P k → P n

module _ {ℓ} {begun : TaskId → Bool} {given : ℕ → Bool} {P : SimulatedKernel → Type ℓ}
    (kept : IsKept begun given P) where
  pub grant_capability-keeps :
      (k : SimulatedKernel) (t : TaskId) (c : ℕ)
      → given c ≡ true
      → P k
      → P (grant_capability k t c).0
  unfolding grant_capability
  grant_capability-keeps k t c g i = elim (Bool-cases (is_task k t)) [
    | inl h ↦ rw (grant_capability, h) (kept.keeps (gives k c t "Generic" none none g) i)
    | inr h ↦ rw (grant_capability, h) i
  ]

  pub grant_capability_with_lease-keeps :
      (k : SimulatedKernel) (t : TaskId) (c lease : ℕ)
      → given c ≡ true
      → P k
      → P (grant_capability_with_lease k t c lease).0
  unfolding grant_capability_with_lease
  grant_capability_with_lease-keeps k t c lease g i = elim (Bool-cases (is_task k t)) [
    | inl h ↦
        rw (grant_capability_with_lease, h)
          (kept.keeps (gives k c t "Generic" none (some (saturating_add k.current_time lease)) g) i)
    | inr h ↦ rw (grant_capability_with_lease, h) i
  ]

  pub revoke_capability-keeps :
      (k : SimulatedKernel) (c : ℕ) (t : TaskId) (reason : String)
      → P k
      → P (revoke_capability k c t reason).0
  unfolding revoke_capability
  revoke_capability-keeps k c t reason i = elim (Result-cases (validate_capability k c t)) [
    | inr (x, h) ↦ rw (revoke_capability, h) i
    | inl (u, h) ↦
        rw (revoke_capability, h)
          (kept.keeps
            (changes k c (λ meta. record meta { status = invalid; revoked = true })
              (λ meta. revoked_event c t meta.cap_type reason)
              (record { told = λ meta holders d q. refl; stays_invalid = λ meta q. refl }))
            i)
  ]

  pub drop_capability-keeps :
      (k : SimulatedKernel) (c : ℕ) (t : TaskId) → P k → P (drop_capability k c t).0
  unfolding drop_capability
  drop_capability-keeps k c t i = elim (Result-cases (validate_capability k c t)) [
    | inr (x, h) ↦ rw (drop_capability, h) i
    | inl (u, h) ↦
        rw (drop_capability, h)
          (kept.keeps
            (changes k c set_invalid (λ meta. dropped c t meta.cap_type)
              (record { told = λ meta holders d q. refl; stays_invalid = λ meta q. refl }))
            i)
  ]

  invalidate_all-keeps :
      (k : SimulatedKernel) (ids : List ℕ) (event : ℕ → CapabilityMetadata → CapabilityEvent)
      → ((c : ℕ) (meta : CapabilityMetadata) (holders : Map TaskId) (d : ℕ)
          → tell holders (event c meta) d ≡ (if c == d then none else holders d))
      → P k
      → P (invalidate_all k ids event)
  unfolding invalidate_all
  invalidate_all-keeps k [] event h i = i
  invalidate_all-keeps k (c ∷ ids) event h i =
      invalidate_all-keeps (change_capability k c set_invalid (event c)) ids event h (
        kept.keeps
          (changes k c set_invalid (event c) (record {
            told = λ meta holders d q. h c meta holders d;
            stays_invalid = λ meta q. refl;
          }))
          i)

  pub invalidate_task_capabilities-keeps :
      (k : SimulatedKernel) (t : TaskId) → P k → P (invalidate_task_capabilities k t)
  unfolding invalidate_task_capabilities
  invalidate_task_capabilities-keeps k t i =
      invalidate_all-keeps k (ids_where (λ meta. meta.owner == t) k.capability_table)
        (λ c meta. invalidated c t meta.cap_type) (λ c meta holders d. refl) i

  pub expire_capability_leases-keeps : (k : SimulatedKernel) → P k → P (expire_capability_leases k)
  unfolding expire_capability_leases
  expire_capability_leases-keeps k i =
      invalidate_all-keeps k
        (ids_where (λ meta. is_valid meta.status && is_expired meta k.current_time)
          k.capability_table)
        (λ c meta. lease_expired_event c meta.owner meta.cap_type k.current_time)
        (λ c meta holders d. refl) i
