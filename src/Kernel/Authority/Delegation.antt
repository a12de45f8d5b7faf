-- ===== src/Kernel/Authority/Delegation.antt =====
-- sim_kernel/src/lib.rs: `delegate_capability` moves a capability to another task.
use panda_gen.Prelude.{
  ℕ, ◌≡◌, ◌∙◌, Bool, true, Option, none, some, Bool-cases, Result-cases, inl, inr, ok, ◌==◌, arith,
}
use panda_gen.Scheduler.Types.{TaskId}
use panda_gen.Identity.{IdentityMetadata, same_domain}
use panda_gen.Policy.Composition.{PolicyDecision-cases}
use panda_gen.Policy.{PolicyEvent, PolicyContext, on_capability_delegate, for_capability_delegation}
use panda_gen.Kernel.{SimulatedKernel, evaluate_policy}
use panda_gen.Kernel.Types.{CapabilityMetadata, CapabilityEvent, delegated}
use panda_gen.Kernel.Authority.{
  is_task, is_capability_valid, validate_capability, change_capability, identities_of,
  approve_delegation, delegate_capability,
}
use panda_gen.Kernel.Authority.Validity.{
  Holds, validate_capability-Holds, is_capability_valid-owner, change_capability-get,
  change_capability-tasks, change_capability-time,
}
use panda_gen.Kernel.Authority.Moves.{IsKept, IsChange, Move, unmoved, crosses, changes}

-- What the policy's answer leaves as it was.
record Unmoved (k n : SimulatedKernel) : Type 0 where
  pub same_table : n.capability_table ≡ k.capability_table
  pub same_tasks : n.tasks ≡ k.tasks
  pub same_time : n.current_time ≡ k.current_time

approve_delegation-Unmoved :
    (k : SimulatedKernel) (c : ℕ) (from to : TaskId)
    (ids : Option (IdentityMetadata × IdentityMetadata))
    → Unmoved k (approve_delegation k c from to ids).0
unfolding approve_delegation evaluate_policy
approve_delegation-Unmoved k c from to ids = record {
  same_table = ground arith;
  same_tasks = ground arith;
  same_time = ground arith;
}

pub evaluate_policy-Move :
    (begun : TaskId → Bool) (given : ℕ → Bool) (k : SimulatedKernel) (event : PolicyEvent)
    (context : PolicyContext)
    → Move begun given k (evaluate_policy k event context).0
unfolding evaluate_policy
evaluate_policy-Move begun given k event context =
    unmoved k (evaluate_policy k event context).0 (ground arith) (ground arith) (ground arith)
      (λ f q. ground arith)

delegated-IsChange :
    (k : SimulatedKernel) (c : ℕ) (from to : TaskId)
    (ids : Option (IdentityMetadata × IdentityMetadata))
    → Holds k c from
    → IsChange
        (approve_delegation k c from to ids).0
        c
        (λ meta. record meta { owner = to })
        (λ meta. delegated c from to meta.cap_type)
delegated-IsChange k c from to ids held = record {
  told = λ meta holders d p. ground (
    arith,
    held.found,
    held.valid_status,
    p,
    (approve_delegation-Unmoved k c from to ids).same_table,
  );
  stays_invalid = λ meta v. v;
}

module _ {ℓ} {begun : TaskId → Bool} {given : ℕ → Bool} {P : SimulatedKernel → Type ℓ}
    (kept : IsKept begun given P) where
  approve_delegation-keeps :
      (k : SimulatedKernel) (c : ℕ) (from to : TaskId)
      (ids : Option (IdentityMetadata × IdentityMetadata))
      → P k
      → P (approve_delegation k c from to ids).0
  unfolding approve_delegation
  approve_delegation-keeps k c from to none i = i
  approve_delegation-keeps k c from to (some (from_id, to_id)) i =
      let context = for_capability_delegation from_id to_id c in
      let u = kept.keeps (evaluate_policy-Move begun given k on_capability_delegate context) i in
      elim (PolicyDecision-cases (evaluate_policy k on_capability_delegate context).1) [
        | inl (reason, q) ↦ rw (approve_delegation, q) u
        | inr (inl (action, q)) ↦ rw (approve_delegation, q) u
        | inr (inr (derived, q)) ↦ elim (Bool-cases (same_domain from_id to_id)) [
          | inl d ↦ rw (approve_delegation, q, d) u
          | inr d ↦
              rw (approve_delegation, q, d)
                (kept.keeps
                  (crosses (evaluate_policy k on_capability_delegate context).0 c from to
                    from_id.trust_domain to_id.trust_domain)
                  u)
        ]
      ]

  pub delegate_capability-keeps :
      (k : SimulatedKernel) (c : ℕ) (from to : TaskId) → P k → P (delegate_capability k c from to).0
  unfolding delegate_capability
  delegate_capability-keeps k c from to i =
      let ids = identities_of k from to in
      let approved = approve_delegation k c from to ids in
      let kept_approved = approve_delegation-keeps k c from to ids i in
      elim (Result-cases (validate_capability k c from)) [
        | inr (x, h) ↦ rw (delegate_capability, h) i
        | inl (u, h) ↦ elim (Bool-cases (is_task k to)) [
          | inr n ↦ rw (delegate_capability, h, n) i
          | inl y ↦ elim (Result-cases approved.1) [
            | inr (e, q) ↦ rw (delegate_capability, h, y, q) kept_approved
            | inl (v, q) ↦
                rw (delegate_capability, h, y, q)
                  (kept.keeps
                    (changes approved.0 c (λ meta. record meta { owner = to })
                      (λ meta. delegated c from to meta.cap_type)
                      (delegated-IsChange k c from to ids (validate_capability-Holds k c from h)))
                    kept_approved)
          ]
        ]
      ]

-- The entry of the capability after the policy has agreed and the owner has changed.
module _ (k : SimulatedKernel) (c : ℕ) (from to u : TaskId) (n : SimulatedKernel)
    (event : CapabilityMetadata → CapabilityEvent) where
  moved :
      Holds k c from
      → is_task k to ≡ true
      → Unmoved k n
      → is_capability_valid (change_capability n c (λ meta. record meta { owner = to }) event) c u
        ≡ (to == u)
  moved held y same =
      is_capability_valid-owner (change_capability n c (λ meta. record meta { owner = to }) event) c
        u (record held.meta { owner = to })
        (change_capability-get n c (λ meta. record meta { owner = to }) event c
          ∙ ground (arith, same.same_table, held.found))
        (ground (
          arith,
          change_capability-time n c (λ meta. record meta { owner = to }) event,
          same.same_time,
          held.unexpired,
        ))
        held.unrevoked held.valid_status
        (ground (
          arith,
          change_capability-tasks n c (λ meta. record meta { owner = to }) event,
          same.same_tasks,
          y,
        ))

-- A delegation that succeeds leaves the capability valid for the task it was delegated to, and
-- for no other task.
pub delegate_capability-moves :
    (k : SimulatedKernel) (c : ℕ) (from to u : TaskId)
    → (delegate_capability k c from to).1 ≡ ok tt
    → is_capability_valid (delegate_capability k c from to).0 c u ≡ (to == u)
unfolding delegate_capability
delegate_capability-moves k c from to u h =
    let approved = approve_delegation k c from to (identities_of k from to) in
    elim (Result-cases (validate_capability k c from)) [
      | inr (x, v) ↦ ground (arith, h, v)
      | inl (x, v) ↦ elim (Bool-cases (is_task k to)) [
        | inr n ↦ ground (arith, h, v, n)
        | inl y ↦ elim (Result-cases approved.1) [
          | inr (e, q) ↦ ground (arith, h, v, y, q)
          | inl (z, q) ↦
              rw (delegate_capability, v, y, q)
                (moved k c from to u approved.0 (λ meta. delegated c from to meta.cap_type)
                  (validate_capability-Holds k c from v) y
                  (approve_delegation-Unmoved k c from to (identities_of k from to)))
        ]
      ]
    ]
