-- ===== src/Focus/Audit.antt =====
-- services_focus_manager/src/lib.rs: the audit trail tells the whole focus stack.
use panda_gen.Prelude.{
  ℕ, ◌≡◌, refl, sym, ap, ◌∙◌, List, [], ◌∷◌, ◌++◌, some, if◌then◌else◌, ◌==◌, arith, Option-cases,
  Bool-cases, inl, inr,
}
use panda_gen.Focus.{
  InputSubscriptionCap, FocusEvent, granted, released, transferred, denied, FocusManager, new,
  request_focus, release_focus, remove_position, remove_subscription,
}

abbrev pub drop_first : List ℕ → ℕ → List ℕ
drop_first [] id = []
drop_first (i ∷ is) id = if i == id then is else i ∷ drop_first is id

-- What an event says of the identifiers on the stack, top first.
abbrev pub apply_event : List ℕ → FocusEvent → List ℕ
apply_event ids (granted id t) = id ∷ ids
apply_event ids (released id t) = drop_first ids id
apply_event ids (transferred from to t) = to ∷ ids
apply_event ids (denied id reason t) = ids

abbrev pub told : List ℕ → List FocusEvent → List ℕ
told ids [] = ids
told ids (e ∷ es) = told (apply_event ids e) es

abbrev pub stack_ids : List InputSubscriptionCap → List ℕ
stack_ids [] = []
stack_ids (c ∷ cs) = c.id ∷ stack_ids cs

pub data Step : FocusManager → FocusManager → Type 0 where
  requests : (m : FocusManager) (c : InputSubscriptionCap) → Step m (request_focus m c).0
  releases : (m : FocusManager) → Step m (release_focus m).0
  removes : (m : FocusManager) (c : InputSubscriptionCap) → Step m (remove_subscription m c).0

pub data Reach (m : FocusManager) : FocusManager → Type 0 where
  here : Reach m m
  next : {n o : FocusManager} → Reach m n → Step n o → Reach m o

told-append_one :
    (ids : List ℕ) (es : List FocusEvent) (e : FocusEvent)
    → told ids (es ++ e ∷ []) ≡ apply_event (told ids es) e
told-append_one ids [] e = refl
told-append_one ids (x ∷ es) e = told-append_one (apply_event ids x) es e

-- Taking a position out takes the first occurrence of its identifier out.
remove_position-drop_first :
    (cs rest : List InputSubscriptionCap) (id : ℕ)
    → remove_position cs id ≡ some rest
    → stack_ids rest ≡ drop_first (stack_ids cs) id
remove_position-drop_first [] rest id h = ground arith
remove_position-drop_first (c ∷ cs) rest id h = elim (Option-cases (remove_position cs id)) [
  | inl n ↦ ground arith
  | inr (r, q) ↦ ground (arith, remove_position-drop_first cs r id q)
]

abbrev IsTold : FocusManager → Type 0
IsTold m = told [] m.audit_trail ≡ stack_ids m.focus_stack

request_focus-IsTold :
    (m : FocusManager) (c : InputSubscriptionCap) → IsTold m → IsTold (request_focus m c).0
unfolding request_focus
request_focus-IsTold m c h = go m.focus_stack refl
  where
    go : (s : List InputSubscriptionCap) → m.focus_stack ≡ s → IsTold (request_focus m c).0
    go [] q =
        rw (request_focus, q)
          (told-append_one [] m.audit_trail (granted c.id m.timestamp) ∙ ground (arith, h, q))
    go (d ∷ ds) q = elim (Bool-cases (d.id == c.id)) [
      | inl e ↦ rw (request_focus, q, e) h
      | inr e ↦
          rw (request_focus, q, e)
            (told-append_one [] m.audit_trail (transferred d.id c.id m.timestamp)
              ∙ ap (λ ids. c.id ∷ ids) (h ∙ ap stack_ids q))
    ]

release_focus-IsTold : (m : FocusManager) → IsTold m → IsTold (release_focus m).0
unfolding release_focus
release_focus-IsTold m h = go m.focus_stack refl
  where
    go : (s : List InputSubscriptionCap) → m.focus_stack ≡ s → IsTold (release_focus m).0
    go [] q = rw (release_focus, q) h
    go (d ∷ ds) q =
        rw (release_focus, q)
          (told-append_one [] m.audit_trail (released d.id m.timestamp)
            ∙ ap (λ ids. drop_first ids d.id) (h ∙ ap stack_ids q)
            ∙ ground arith)

remove_subscription-IsTold :
    (m : FocusManager) (c : InputSubscriptionCap) → IsTold m → IsTold (remove_subscription m c).0
unfolding remove_subscription
remove_subscription-IsTold m c h = elim (Option-cases (remove_position m.focus_stack c.id)) [
  | inl n ↦ rw (remove_subscription, n) h
  | inr (rest, q) ↦
      rw (remove_subscription, q)
        (told-append_one [] m.audit_trail (released c.id m.timestamp)
          ∙ ap (λ ids. drop_first ids c.id) h
          ∙ sym (remove_position-drop_first m.focus_stack rest c.id q))
]

Step-IsTold : {m n : FocusManager} → Step m n → IsTold m → IsTold n
Step-IsTold (requests m c) h = request_focus-IsTold m c h
Step-IsTold (releases m) h = release_focus-IsTold m h
Step-IsTold (removes m c) h = remove_subscription-IsTold m c h

-- In every history of requests, releases and removals from a new manager, the audit trail alone
-- gives the identifiers on the focus stack, in their order: a grant or a transfer puts its
-- subscription on top, and a release takes the topmost one of that identifier away.
pub Reach-told : (m : FocusManager) → Reach new m → told [] m.audit_trail ≡ stack_ids m.focus_stack
Reach-told m p = keeps p refl
  where
    keeps : {n o : FocusManager} → Reach n o → IsTold n → IsTold o
    keeps here h = h
    keeps (next q s) h = Step-IsTold s (keeps q h)
