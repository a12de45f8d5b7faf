-- ===== src/Focus/Stacking.antt =====
-- services_focus_manager/src/lib.rs: who has the focus after a call.
use panda_gen.Prelude.{
  ℕ, ◌+◌, ◌<◌, ◌≡◌, refl, true, List, [], ◌∷◌, none, some, ok, if◌then◌else◌, ◌==◌, arith,
  Option-cases, inl, inr,
}
use panda_gen.Focus.{
  InputSubscriptionCap, FocusManager, request_focus, release_focus, remove_position,
  remove_subscription, has_focus,
}

-- How often the stack holds an identifier.
abbrev pub occurrences : ℕ → List InputSubscriptionCap → ℕ
occurrences id [] = 0
occurrences id (c ∷ cs) = (if c.id == id then 1 else 0) + occurrences id cs

-- After `request_focus` the subscription has the focus; and when another one had it before, the
-- next `release_focus` gives back the whole stack as it was.
pub request_focus-release_focus :
    (m : FocusManager) (c : InputSubscriptionCap)
    → (has_focus (request_focus m c).0 c ≡ true)
      × ((if has_focus m c
            then m.focus_stack
            else (release_focus (request_focus m c).0).0.focus_stack)
          ≡ m.focus_stack)
unfolding request_focus release_focus
request_focus-release_focus m c = go m.focus_stack refl
  where
    go :
        (s : List InputSubscriptionCap)
        → m.focus_stack ≡ s
        → (has_focus (request_focus m c).0 c ≡ true)
          × ((if has_focus m c
                then m.focus_stack
                else (release_focus (request_focus m c).0).0.focus_stack)
              ≡ m.focus_stack)
    go [] q = ground arith
    go (d ∷ ds) q = ground arith

remove_position-occurrences :
    (cs : List InputSubscriptionCap) (id i : ℕ)
    → occurrences i cs ≡ elim (remove_position cs id) [
      | none ↦ occurrences i cs
      | some rest ↦ (if id == i then 1 else 0) + occurrences i rest
    ]
remove_position-occurrences [] id i = refl
remove_position-occurrences (c ∷ cs) id i = elim (Option-cases (remove_position cs id)) [
  | inl n ↦ ground arith
  | inr (r, q) ↦ ground (arith, remove_position-occurrences cs id i)
]

remove_position-missing :
    (cs : List InputSubscriptionCap) (id : ℕ) → remove_position cs id ≡ none → occurrences id cs ≡ 0
remove_position-missing [] id h = refl
remove_position-missing (c ∷ cs) id h = elim (Option-cases (remove_position cs id)) [
  | inl n ↦ ground (arith, remove_position-missing cs id n)
  | inr (r, q) ↦ ground arith
]

-- When the stack holds the subscription, `remove_subscription` succeeds and takes one occurrence of it
-- from the stack, however often it is there, and no occurrence of any other.
pub remove_subscription-occurrences :
    (m : FocusManager) (c : InputSubscriptionCap)
    → 0 < occurrences c.id m.focus_stack
    → (i : ℕ)
    → ((remove_subscription m c).1 ≡ ok tt)
      × (occurrences i m.focus_stack
          ≡ (if c.id == i then 1 else 0) + occurrences i (remove_subscription m c).0.focus_stack)
unfolding remove_subscription
remove_subscription-occurrences m c h i = elim (Option-cases (remove_position m.focus_stack c.id)) [
  | inl n ↦ ground (arith, remove_position-missing m.focus_stack c.id n)
  | inr (rest, q) ↦ ground (arith, remove_position-occurrences m.focus_stack c.id i)
]
