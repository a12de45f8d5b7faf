-- ===== src/Policy.antt =====
-- policy/src/lib.rs: what a policy is asked and answers, the policies that the source gives, and their
-- composition. A set of capabilities is a test on their numbers.
pub mod Composition
pub mod Examples
use Prim.Native.String
use Prim.Native.String.{String}
use text.Mathlib.Text.{◌==◌ as ◌same◌}
use panda_gen.Prelude.{
  ℕ, Bool, true, false, ◌&&◌, not, List, [], ◌∷◌, ◌++◌, Option, none, some, if◌then◌else◌,
}
use panda_gen.Identity.{
  IdentityMetadata, IdentityKind, system, same_domain, sandbox_domain, core_domain, user_domain,
}

-- `BTreeSet<u64>`, by `contains`.
abbrev pub CapabilitySet : Type 0
CapabilitySet = ℕ → Bool

abbrev pub intersection : CapabilitySet → CapabilitySet → CapabilitySet
intersection a b c = a c && b c

abbrev pub difference : CapabilitySet → CapabilitySet → CapabilitySet
difference a b c = a c && not (b c)

pub record DerivedAuthority : Type 0 where
  pub capabilities : CapabilitySet
  pub constraints : List String

-- `DerivedAuthority::new`
abbrev pub new_authority : CapabilitySet → DerivedAuthority
new_authority capabilities = record { capabilities = capabilities; constraints = [] }

abbrev pub with_constraint : DerivedAuthority → String → DerivedAuthority
with_constraint d constraint = record d { constraints = d.constraints ++ constraint ∷ [] }

pub data PolicyDecision : Type 0 where
  allow : Option DerivedAuthority → PolicyDecision
  deny : String → PolicyDecision
  require : String → PolicyDecision

abbrev pub is_allow : PolicyDecision → Bool
is_allow (allow derived) = true
is_allow (deny reason) = false
is_allow (require action) = false

abbrev pub is_deny : PolicyDecision → Bool
is_deny (allow derived) = false
is_deny (deny reason) = true
is_deny (require action) = false

abbrev pub is_require : PolicyDecision → Bool
is_require (allow derived) = false
is_require (deny reason) = false
is_require (require action) = true

abbrev pub derived_authority : PolicyDecision → Option DerivedAuthority
derived_authority (allow derived) = derived
derived_authority (deny reason) = none
derived_authority (require action) = none

pub record PolicyContext : Type 0 where
  pub actor_identity : IdentityMetadata
  pub target_identity : Option IdentityMetadata
  pub capability_id : Option ℕ
  pub pipeline_id : Option ℕ
  pub stage_id : Option ℕ
  pub metadata : List (String × String)

abbrev pub for_spawn : IdentityMetadata → IdentityMetadata → PolicyContext
for_spawn actor target = record {
  actor_identity = actor;
  target_identity = some target;
  capability_id = none;
  pipeline_id = none;
  stage_id = none;
  metadata = [];
}

abbrev pub for_capability_delegation : IdentityMetadata → IdentityMetadata → ℕ → PolicyContext
for_capability_delegation from to cap_id = record {
  actor_identity = from;
  target_identity = some to;
  capability_id = some cap_id;
  pipeline_id = none;
  stage_id = none;
  metadata = [];
}

abbrev pub is_same_domain : PolicyContext → Bool
is_same_domain context = elim context.target_identity [
  | none ↦ true
  | some target ↦ same_domain context.actor_identity target
]

abbrev pub is_cross_domain : PolicyContext → Bool
is_cross_domain context = not (is_same_domain context)

pub data PolicyEvent : Type 0 where
  on_spawn on_terminate on_capability_delegate : PolicyEvent
  on_pipeline_start on_pipeline_stage_start on_pipeline_stage_end : PolicyEvent

-- The trait `PolicyEngine`.
pub record PolicyEngine : Type 0 where
  pub evaluate : PolicyEvent → PolicyContext → PolicyDecision
  pub name : String

abbrev pub no_op_policy : PolicyEngine
no_op_policy = record { evaluate = λ event context. allow none; name = "NoOpPolicy" }

abbrev is_system : Option IdentityMetadata → Bool
is_system none = false
is_system (some target) = elim target.kind [ system ↦ true | _ ↦ false ]

abbrev is_core : Option IdentityMetadata → Bool
is_core none = false
is_core (some target) = target.trust_domain same core_domain

unfoldable pub evaluate_trust_domain : PolicyEvent → PolicyContext → PolicyDecision
evaluate_trust_domain on_spawn context =
    if (context.actor_identity.trust_domain same sandbox_domain)
      && is_system context.target_identity
    then deny "Sandbox domain cannot spawn System services"
    else if (context.actor_identity.trust_domain same sandbox_domain)
        && is_core context.target_identity
    then deny "Sandbox domain cannot spawn services in core domain"
    else allow none
evaluate_trust_domain on_capability_delegate context =
    if is_cross_domain context
    then require "Cross-domain capability delegation requires explicit approval"
    else allow none
evaluate_trust_domain _ context = allow none

abbrev pub trust_domain_policy : PolicyEngine
unfolding evaluate_trust_domain
trust_domain_policy = record { evaluate = evaluate_trust_domain; name = "TrustDomainPolicy" }

-- The policies in the order in which they were added.
abbrev pub ComposedPolicy : Type 0
ComposedPolicy = List PolicyEngine

abbrev pub narrow : Option DerivedAuthority → Option DerivedAuthority → Option DerivedAuthority
narrow most_restrictive none = most_restrictive
narrow none (some new) = some new
narrow (some existing) (some new) =
    some (new_authority (intersection existing.capabilities new.capabilities))

-- `requires.join("; ")`
unfoldable pub join : List String → String
join [] = ""
join (s ∷ []) = s
join (s ∷ t ∷ texts) = String.◌++◌ s (String.◌++◌ "; " (join (t ∷ texts)))

-- `evaluate_all` with `requires` and `most_restrictive_derived` as collected so far.
unfoldable pub evaluate_from :
    ComposedPolicy
    → List String
    → Option DerivedAuthority
    → PolicyEvent
    → PolicyContext
    → PolicyDecision
unfolding join
evaluate_from [] [] derived event context = allow derived
evaluate_from [] (r ∷ requires) derived event context = require (join (r ∷ requires))
evaluate_from (policy ∷ policies) requires derived event context =
    elim (policy.evaluate event context) [
      | deny reason ↦ deny reason
      | require action ↦ evaluate_from policies (requires ++ action ∷ []) derived event context
      | allow new ↦ evaluate_from policies requires (narrow derived new) event context
    ]

unfoldable pub evaluate_all : ComposedPolicy → PolicyEvent → PolicyContext → PolicyDecision
unfolding evaluate_from
evaluate_all policies event context = evaluate_from policies [] none event context
