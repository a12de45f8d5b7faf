-- ===== src/Policy/Composition.antt =====
-- policy/src/lib.rs: `ComposedPolicy`. The verdict and the authority of a composition, each read off its
-- members.
use Prim.Native.String.{String}
use panda_gen.Prelude.{
  ℕ, ◌≡◌, refl, ◌⊎◌, inl, inr, Bool, true, false, ◌&&◌, ◌||◌, not, List, [], ◌∷◌, ◌++◌, Option,
  none, some, arith,
}
use panda_gen.Policy.{
  PolicyDecision, allow, deny, require, is_allow, is_deny, is_require, DerivedAuthority,
  PolicyContext, PolicyEvent, ComposedPolicy, narrow, evaluate_from, evaluate_all,
}

-- Some answer passes the test.
abbrev pub any_answer :
    (PolicyDecision → Bool) → ComposedPolicy → PolicyEvent → PolicyContext → Bool
any_answer p [] event context = false
any_answer p (policy ∷ policies) event context =
    p (policy.evaluate event context) || any_answer p policies event context

-- What an answer says of one capability: an authority grants it or not, any other answer does not
-- speak of it.
abbrev pub grants : PolicyDecision → ℕ → Bool
grants (allow none) cap = true
grants (allow (some derived)) cap = derived.capabilities cap
grants (deny reason) cap = true
grants (require action) cap = true

abbrev pub all_grant : ComposedPolicy → PolicyEvent → PolicyContext → ℕ → Bool
all_grant [] event context cap = true
all_grant (policy ∷ policies) event context cap =
    grants (policy.evaluate event context) cap && all_grant policies event context cap

pub PolicyDecision-cases :
    (d : PolicyDecision)
    → ((reason : String) × (d ≡ deny reason))
      ⊎ (((action : String) × (d ≡ require action))
          ⊎ ((derived : Option DerivedAuthority) × (d ≡ allow derived)))
PolicyDecision-cases (deny reason) = inl (reason, refl)
PolicyDecision-cases (require action) = inr (inl (action, refl))
PolicyDecision-cases (allow derived) = inr (inr (derived, refl))

abbrev is_filled : List String → Bool
is_filled [] = false
is_filled (s ∷ texts) = true

is_filled-append : (xs : List String) (s : String) → is_filled (xs ++ s ∷ []) ≡ true
is_filled-append [] s = refl
is_filled-append (x ∷ xs) s = refl

module _ (event : PolicyEvent) (context : PolicyContext) where
  abbrev IsTheirs : ComposedPolicy → Bool → PolicyDecision → Type 0
  IsTheirs ps asked d =
      (is_deny d ≡ any_answer is_deny ps event context)
      × (is_require d ≡ (
          not (any_answer is_deny ps event context)
          && (asked || any_answer is_require ps event context)))
      × (is_allow d ≡ (
          not (any_answer is_deny ps event context)
          && not (asked || any_answer is_require ps event context)))

  evaluate_from-verdict :
      (ps : ComposedPolicy) (requires : List String) (derived : Option DerivedAuthority)
      → IsTheirs ps (is_filled requires) (evaluate_from ps requires derived event context)
  unfolding evaluate_from
  evaluate_from-verdict [] [] derived = (refl, refl, refl)
  evaluate_from-verdict [] (r ∷ requires) derived = (refl, refl, refl)
  evaluate_from-verdict (p ∷ ps) requires derived =
      elim (PolicyDecision-cases (p.evaluate event context)) [
        | inl (reason, h) ↦ ground (arith, h)
        | inr (inl (action, h)) ↦ ground (
          arith,
          h,
          is_filled-append requires action,
          evaluate_from-verdict ps (requires ++ action ∷ []) derived,
        )
        | inr (inr (new, h)) ↦
            ground (arith, h, evaluate_from-verdict ps requires (narrow derived new))
      ]

-- A composition denies exactly when some member denies; else it requires an action exactly when some
-- member requires one; else it allows.
pub evaluate_all-verdict :
    (ps : ComposedPolicy) (event : PolicyEvent) (context : PolicyContext)
    → (is_deny (evaluate_all ps event context) ≡ any_answer is_deny ps event context)
      × (is_require (evaluate_all ps event context)
          ≡ (not (any_answer is_deny ps event context) && any_answer is_require ps event context))
      × (is_allow (evaluate_all ps event context) ≡ (
          not (any_answer is_deny ps event context)
          && not (any_answer is_require ps event context)))
unfolding evaluate_all
evaluate_all-verdict ps event context = evaluate_from-verdict event context ps [] none

-- What an authority collected so far grants; without one, everything.
abbrev bound : Option DerivedAuthority → ℕ → Bool
bound none cap = true
bound (some d) cap = d.capabilities cap

module _ (event : PolicyEvent) (context : PolicyContext) where
  bound-narrow :
      (existing new : Option DerivedAuthority) (cap : ℕ)
      → bound (narrow existing new) cap ≡ (bound existing cap && grants (allow new) cap)
  bound-narrow none none cap = refl
  bound-narrow (some e) none cap = ground arith
  bound-narrow none (some n) cap = refl
  bound-narrow (some e) (some n) cap = refl

  evaluate_from-bound :
      (ps : ComposedPolicy) (requires : List String) (derived : Option DerivedAuthority)
      (d : Option DerivedAuthority) (cap : ℕ)
      → evaluate_from ps requires derived event context ≡ allow d
      → bound d cap ≡ (bound derived cap && all_grant ps event context cap)
  unfolding evaluate_from
  evaluate_from-bound [] [] derived d cap h = ground arith
  evaluate_from-bound [] (r ∷ requires) derived d cap h = ground arith
  evaluate_from-bound (p ∷ ps) requires derived d cap h =
      elim (PolicyDecision-cases (p.evaluate event context)) [
        | inl (reason, q) ↦ ground (arith, q)
        | inr (inl (action, q)) ↦
            ground (arith, q, evaluate_from-bound ps (requires ++ action ∷ []) derived d cap)
        | inr (inr (new, q)) ↦ ground (
          arith,
          q,
          evaluate_from-bound ps requires (narrow derived new) d cap,
          bound-narrow derived new cap,
        )
      ]

-- The authority that a composition derives grants a capability exactly when every authority that a
-- member derives grants it.
pub evaluate_all-derived :
    (ps : ComposedPolicy) (event : PolicyEvent) (context : PolicyContext) (d : DerivedAuthority)
    → evaluate_all ps event context ≡ allow (some d)
    → (cap : ℕ) → d.capabilities cap ≡ all_grant ps event context cap
unfolding evaluate_all
evaluate_all-derived ps event context d h cap =
    evaluate_from-bound event context ps [] none (some d) cap h

-- The authorities that the members derive, in the order of the members.
abbrev pub of_answer : PolicyDecision → List DerivedAuthority → List DerivedAuthority
of_answer (allow (some derived)) others = derived ∷ others
of_answer (allow none) others = others
of_answer (deny reason) others = others
of_answer (require action) others = others

abbrev pub authorities : ComposedPolicy → PolicyEvent → PolicyContext → List DerivedAuthority
authorities [] event context = []
authorities (policy ∷ policies) event context =
    of_answer (policy.evaluate event context) (authorities policies event context)

-- The constraints that are left of those of several authorities: none of two or more.
abbrev pub constraints_left : List DerivedAuthority → Option (List String)
constraints_left [] = none
constraints_left (a ∷ []) = some a.constraints
constraints_left (a ∷ b ∷ others) = some []

abbrev pub constraints_of : Option DerivedAuthority → Option (List String)
constraints_of none = none
constraints_of (some d) = some d.constraints

-- The authority collected so far, in front of the others.
abbrev and_so_far : Option DerivedAuthority → List DerivedAuthority → List DerivedAuthority
and_so_far none others = others
and_so_far (some d) others = d ∷ others

module _ (event : PolicyEvent) (context : PolicyContext) where
  constraints_left-narrow :
      (existing new : Option DerivedAuthority) (others : List DerivedAuthority)
      → constraints_left (and_so_far (narrow existing new) others)
        ≡ constraints_left (and_so_far existing (of_answer (allow new) others))
  constraints_left-narrow none none others = refl
  constraints_left-narrow none (some n) others = refl
  constraints_left-narrow (some e) none others = refl
  constraints_left-narrow (some e) (some n) [] = refl
  constraints_left-narrow (some e) (some n) (a ∷ others) = refl

  constraints_of-so_far :
      (d : Option DerivedAuthority) → constraints_of d ≡ constraints_left (and_so_far d [])
  constraints_of-so_far none = refl
  constraints_of-so_far (some d) = refl

  evaluate_from-constraints :
      (ps : ComposedPolicy) (requires : List String) (derived d : Option DerivedAuthority)
      → evaluate_from ps requires derived event context ≡ allow d
      → constraints_of d ≡ constraints_left (and_so_far derived (authorities ps event context))
  unfolding evaluate_from
  evaluate_from-constraints [] [] derived d h = ground (arith, h, constraints_of-so_far derived)
  evaluate_from-constraints [] (r ∷ requires) derived d h = ground (arith, h)
  evaluate_from-constraints (p ∷ ps) requires derived d h =
      elim (PolicyDecision-cases (p.evaluate event context)) [
        | inl (reason, q) ↦ ground (arith, h, q)
        | inr (inl (action, q)) ↦
            ground (arith, h, q, evaluate_from-constraints ps (requires ++ action ∷ []) derived d)
        | inr (inr (new, q)) ↦ ground (
          arith,
          h,
          q,
          evaluate_from-constraints ps requires (narrow derived new) d,
          constraints_left-narrow derived new (authorities ps event context),
        )
      ]

-- When a composition of any policies allows, it derives an authority exactly when some member derives
-- one. The constraints of that authority are those of the member's, when there is one such
-- member, and none at all, when there are two or more, whatever constraints they set.
pub evaluate_all-unconstrained :
    (ps : ComposedPolicy) (event : PolicyEvent) (context : PolicyContext)
    (d : Option DerivedAuthority)
    → evaluate_all ps event context ≡ allow d
    → constraints_of d ≡ constraints_left (authorities ps event context)
unfolding evaluate_all
evaluate_all-unconstrained ps event context d h =
    evaluate_from-constraints event context ps [] none d h
