-- ===== src/Policy/Examples.antt =====
-- policy/src/lib.rs: the theorems at concrete policies.
use panda_gen.Prelude.{◌&&◌, ◌≡◌, refl, true, false, [], ◌∷◌, some, ◌==◌}
use panda_gen.Identity.{IdentityMetadata, component, new_identity, sandbox_domain, user_domain}
use panda_gen.Policy.{
  PolicyEngine, PolicyContext, on_capability_delegate, with_constraint, new_authority, allow,
  is_deny, is_require, is_allow, for_capability_delegation, evaluate_all, evaluate_from,
  trust_domain_policy, no_op_policy,
}
use panda_gen.Policy.Composition.{
  all_grant, constraints_of, evaluate_all-verdict, evaluate_all-derived, evaluate_all-unconstrained,
}

abbrev editor : IdentityMetadata
unfolding new_identity
editor = new_identity 1 component user_domain "editor" 0

abbrev plugin : IdentityMetadata
unfolding new_identity
plugin = new_identity 2 component sandbox_domain "plugin" 0

abbrev across : PolicyContext
across = for_capability_delegation editor plugin 7

-- Both grant capability 7, the first under a constraint.
abbrev constrained : PolicyEngine
constrained = record {
  evaluate =
      λ event context. allow (some (with_constraint (new_authority (λ cap. cap == 7)) "read only"));
  name = "seven";
}

abbrev seven : PolicyEngine
seven = record {
  evaluate = λ event context. allow (some (new_authority (λ cap. cap == 7)));
  name = "seven";
}

evaluate_all-verdict_example :
    (is_deny (evaluate_all (seven ∷ trust_domain_policy ∷ []) on_capability_delegate across)
      ≡ false)
    × (is_require (evaluate_all (seven ∷ trust_domain_policy ∷ []) on_capability_delegate across)
        ≡ true)
    × (is_allow (evaluate_all (seven ∷ trust_domain_policy ∷ []) on_capability_delegate across)
        ≡ false)
unfolding trust_domain_policy editor
evaluate_all-verdict_example =
    evaluate_all-verdict (seven ∷ trust_domain_policy ∷ []) on_capability_delegate across

evaluate_all-derived_example :
    (7 == 7) ≡ all_grant (seven ∷ no_op_policy ∷ []) on_capability_delegate across 7
unfolding evaluate_all evaluate_from
evaluate_all-derived_example =
    evaluate_all-derived (seven ∷ no_op_policy ∷ []) on_capability_delegate across
      (new_authority (λ cap. cap == 7)) refl 7

-- The authority that is derived has lost the first policy's constraint.
evaluate_all-unconstrained_example :
    constraints_of (some (new_authority (λ cap. (cap == 7) && (cap == 7)))) ≡ some []
unfolding evaluate_all evaluate_from
evaluate_all-unconstrained_example =
    evaluate_all-unconstrained (constrained ∷ seven ∷ []) on_capability_delegate across
      (some (new_authority (λ cap. (cap == 7) && (cap == 7)))) refl
