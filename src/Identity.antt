-- ===== src/Identity.antt =====
-- identity/src/lib.rs: who runs. An execution identifier is a number, and a fresh one is an argument.
use Prim.Native.String.{String}
use text.Mathlib.Text.{◌==◌ as ◌same◌}
use panda_gen.Prelude.{ℕ, Bool, true, false, Option, none, some, ◌==◌}
use panda_gen.Resources.{ResourceBudget, ResourceUsage, zero_usage, is_subset_of}
use panda_gen.Scheduler.Types.{TaskId}

abbrev pub ExecutionId : Type 0
ExecutionId = ℕ

pub data IdentityKind : Type 0 where
  system service component pipeline_stage : IdentityKind

-- The struct around a name.
abbrev pub TrustDomain : Type 0
TrustDomain = String

abbrev pub core_domain : TrustDomain
core_domain = "core"

abbrev pub user_domain : TrustDomain
user_domain = "user"

abbrev pub sandbox_domain : TrustDomain
sandbox_domain = "sandbox"

pub record IdentityMetadata : Type 0 where
  pub execution_id : ExecutionId
  pub kind : IdentityKind
  pub task_id : Option TaskId
  pub parent_id : Option ExecutionId
  pub creator_id : Option ExecutionId
  pub created_at_nanos : ℕ
  pub trust_domain : TrustDomain
  pub name : String
  pub budget : Option ResourceBudget
  pub usage : ResourceUsage

-- `IdentityMetadata::new`
unfoldable pub new_identity :
    ExecutionId → IdentityKind → TrustDomain → String → ℕ → IdentityMetadata
unfolding zero_usage
new_identity fresh kind trust_domain name created_at_nanos = record {
  execution_id = fresh;
  kind = kind;
  task_id = none;
  parent_id = none;
  creator_id = none;
  created_at_nanos = created_at_nanos;
  trust_domain = trust_domain;
  name = name;
  budget = none;
  usage = zero_usage;
}

abbrev pub with_task_id : IdentityMetadata → TaskId → IdentityMetadata
with_task_id identity task_id = record identity { task_id = some task_id }

abbrev pub with_parent : IdentityMetadata → ExecutionId → IdentityMetadata
with_parent identity parent_id = record identity { parent_id = some parent_id }

abbrev pub with_creator : IdentityMetadata → ExecutionId → IdentityMetadata
with_creator identity creator_id = record identity { creator_id = some creator_id }

abbrev pub with_budget : IdentityMetadata → ResourceBudget → IdentityMetadata
with_budget identity budget = record identity { budget = some budget }

abbrev pub same_domain : IdentityMetadata → IdentityMetadata → Bool
same_domain identity other = identity.trust_domain same other.trust_domain

abbrev pub is_child_of : IdentityMetadata → ExecutionId → Bool
is_child_of identity parent_id = elim identity.parent_id [ none ↦ false | some p ↦ p == parent_id ]

unfoldable pub budget_inherits_from : IdentityMetadata → IdentityMetadata → Bool
budget_inherits_from identity parent = elim identity.budget [
  | none ↦ true
  | some child_budget ↦ elim parent.budget [
    | none ↦ true
    | some parent_budget ↦ is_subset_of child_budget parent_budget
  ]
]

pub data ExitReason : Type 0 where
  normal timeout : ExitReason
  failure cancelled : String → ExitReason

pub record ExitNotification : Type 0 where
  pub execution_id : ExecutionId
  pub task_id : Option TaskId
  pub reason : ExitReason
  pub terminated_at_nanos : ℕ
