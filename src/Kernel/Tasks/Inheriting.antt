-- ===== src/Kernel/Tasks/Inheriting.antt =====
-- sim_kernel/src/lib.rs: the budget that a spawned task inherits.
use Prim.Native.String.{String}
use panda_gen.Prelude.{
  ℕ, ◌≡◌, ◌⊎◌, refl, false, Option, none, some, inl, inr, Result, ok, err, arith,
}
use panda_gen.Scheduler.Types.{TaskId}
use panda_gen.Policy.{DerivedAuthority, deny, require, allow}
use panda_gen.Policy.Composition.{PolicyDecision-cases}
use panda_gen.Identity.{
  ExecutionId, IdentityKind, TrustDomain, IdentityMetadata, new_identity, budget_inherits_from,
}
use panda_gen.Memory.{AddressSpaceId}
use panda_gen.Kernel.{SimulatedKernel, evaluate_policy}
use panda_gen.Kernel.Types.{KernelError, insufficient_authority, words_text}
use panda_gen.Kernel.Budgets.{Meter, try_consume}
use panda_gen.Kernel.Tasks.{
  install_task, child_identity, violates_inheritance, ask_spawn, spawn_task_with_identity,
}

-- What the kernel makes for a child.
module _ (e : ExecutionId) (kind : IdentityKind) (trust_domain : TrustDomain) (name : String)
    (now : ℕ) (t : TaskId) (parent_id creator_id : Option ExecutionId) where
  child_identity-unbudgeted :
      (child_identity e kind trust_domain name now t parent_id creator_id).budget ≡ none
  unfolding child_identity new_identity
  child_identity-unbudgeted = ground arith

  child_identity-named :
      (child_identity e kind trust_domain name now t parent_id creator_id).execution_id ≡ e
  unfolding child_identity new_identity
  child_identity-named = ground arith

  child_identity-unviolated :
      (k : SimulatedKernel)
      → violates_inheritance k
          (child_identity e kind trust_domain name now t parent_id creator_id)
          parent_id
        ≡ false
  unfolding violates_inheritance budget_inherits_from
  child_identity-unviolated k = ground (arith, child_identity-unbudgeted)

ask_spawn-cancelled :
    (k : SimulatedKernel) (metadata : IdentityMetadata) (creator_id : Option ExecutionId)
    → (ask_spawn k metadata creator_id).0.cancelled_identities ≡ k.cancelled_identities
unfolding ask_spawn evaluate_policy
ask_spawn-cancelled k metadata creator_id = ground arith

installed-uncharged :
    (k : SimulatedKernel) (t : TaskId) (name : String) (metadata : IdentityMetadata)
    (space : AddressSpaceId) (m : Meter) (e : ExecutionId)
    → metadata.execution_id ≡ e
    → metadata.budget ≡ none
    → k.cancelled_identities e ≡ none
    → try_consume (install_task k t name metadata space) m e
      ≡ (install_task k t name metadata space, ok tt)
unfolding try_consume install_task
installed-uncharged k t name metadata space m e named b c = ground (arith, named, b, c)

installed-identity :
    (k : SimulatedKernel) (t : TaskId) (name : String) (metadata : IdentityMetadata)
    (space : AddressSpaceId) (e : ExecutionId)
    → metadata.execution_id ≡ e
    → (install_task k t name metadata space).identity_table e ≡ some metadata
unfolding install_task
installed-identity k t name metadata space e named = ground (arith, named)

child_identity-parent :
    (e : ExecutionId) (kind : IdentityKind) (trust_domain : TrustDomain) (name : String) (now : ℕ)
    (t : TaskId) (parent_id creator_id : Option ExecutionId)
    → (child_identity e kind trust_domain name now t parent_id creator_id).parent_id ≡ parent_id
unfolding child_identity new_identity
child_identity-parent e kind trust_domain name now t parent_id creator_id = ground arith

module _ (k : SimulatedKernel) (t : TaskId) (e : ExecutionId) (space : AddressSpaceId)
    (name : String) (kind : IdentityKind) (trust_domain : TrustDomain)
    (parent_id creator_id : Option ExecutionId) where
  -- What `spawn_task_with_identity` leaves and answers.
  abbrev pub spawned : SimulatedKernel × Result KernelError ExecutionId
  spawned = spawn_task_with_identity k t e space name kind trust_domain parent_id creator_id

  abbrev pub IsFreeChild : SimulatedKernel → Type 0
  IsFreeChild n =
      ((identity : IdentityMetadata) × (n.identity_table e ≡ some identity)
        × (identity.parent_id ≡ parent_id)
        × (identity.budget ≡ none))

  abbrev child : IdentityMetadata
  child = child_identity e kind trust_domain name k.current_time t parent_id creator_id

  abbrev installed : SimulatedKernel
  installed = install_task (ask_spawn k child creator_id).0 t name child space

  spawned-denied :
      (reason : String)
      → (ask_spawn k child creator_id).1 ≡ deny reason
      → spawned.1 ≡ err (insufficient_authority (words_text "Policy denied spawn: " reason))
  unfolding spawn_task_with_identity
  spawned-denied reason q =
      rw
        (
          spawn_task_with_identity,
          child_identity-unviolated e kind trust_domain name k.current_time t parent_id creator_id
              k,
          q,
        )
        refl

  spawned-required :
      (action : String)
      → (ask_spawn k child creator_id).1 ≡ require action
      → spawned.1
        ≡ err (insufficient_authority (words_text "Policy requires action before spawn: " action))
  unfolding spawn_task_with_identity
  spawned-required action q =
      rw
        (
          spawn_task_with_identity,
          child_identity-unviolated e kind trust_domain name k.current_time t parent_id creator_id
              k,
          q,
        )
        refl

  spawned-allowed :
      (derived : Option DerivedAuthority)
      → (ask_spawn k child creator_id).1 ≡ allow derived
      → spawned ≡ (installed, ok e)
  unfolding spawn_task_with_identity
  spawned-allowed derived q =
      rw
        (
          spawn_task_with_identity,
          child_identity-unviolated e kind trust_domain name k.current_time t parent_id creator_id
              k,
          q,
        )
        refl

  installed-IsFreeChild : IsFreeChild installed
  installed-IsFreeChild = (
    child,
    installed-identity (ask_spawn k child creator_id).0 t name child space e
        (child_identity-named e kind trust_domain name k.current_time t parent_id creator_id),
    child_identity-parent e kind trust_domain name k.current_time t parent_id creator_id,
    child_identity-unbudgeted e kind trust_domain name k.current_time t parent_id creator_id,
  )

  -- When the new execution is not among the cancelled ones, `spawn_task_with_identity` never refuses for
  -- want of budget, whatever the parent's budget is: its only errors say that the policy denied the
  -- spawn or required an action. When it succeeds, the new identity has the parent and no budget,
  -- and a charge to it right after the spawn, for anything of any amount, succeeds and leaves the
  -- kernel as it was.
  pub spawn_task_with_identity-unlimited :
      (m : Meter)
      → k.cancelled_identities e ≡ none
      → ((text : String) × (spawned.1
            ≡ err (insufficient_authority (words_text "Policy denied spawn: " text))))
        ⊎ (((text : String) × (spawned.1
                ≡ err (
                    insufficient_authority
                      (words_text "Policy requires action before spawn: " text))))
            ⊎ ((spawned.1 ≡ ok e)
                × IsFreeChild spawned.0
                × (try_consume spawned.0 m e ≡ (spawned.0, ok tt))))
  spawn_task_with_identity-unlimited m c =
      elim (PolicyDecision-cases (ask_spawn k child creator_id).1) [
        | inl (reason, q) ↦ inl (reason, spawned-denied reason q)
        | inr (inl (action, q)) ↦ inr (inl (action, spawned-required action q))
        | inr (inr (derived, q)) ↦ inr (
            inr (
              rw (spawned-allowed derived q) (
                refl,
                installed-IsFreeChild,
                installed-uncharged (ask_spawn k child creator_id).0 t name child space m e
                    (child_identity-named e kind trust_domain name k.current_time t parent_id
                      creator_id)
                    (child_identity-unbudgeted e kind trust_domain name k.current_time t parent_id
                      creator_id)
                    (rw (ask_spawn-cancelled k child creator_id) c),
              )))
      ]
