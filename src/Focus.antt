-- ===== src/Focus.antt =====
-- services_focus_manager/src/lib.rs: the stack of input subscriptions, whose top has the focus.
pub mod Audit
pub mod Stacking
pub mod Examples
use Prim.Native.String.{String}
use panda_gen.Prelude.{
  ℕ, Bool, true, false, List, [], ◌∷◌, ◌++◌, Option, none, some, Result, ok, err, if◌then◌else◌,
  ◌==◌, u64_add, length,
}

-- services_input/src/lib.rs
pub record InputSubscriptionCap : Type 0 where
  pub id : ℕ
  pub task_id : ℕ
  pub channel : ℕ

pub data FocusError : Type 0 where
  focus_denied : String → FocusError
  no_focus subscription_not_found empty_stack : FocusError

pub data FocusEvent : Type 0 where
  granted released : ℕ → ℕ → FocusEvent
  transferred : ℕ → ℕ → ℕ → FocusEvent
  denied : ℕ → String → ℕ → FocusEvent

pub record FocusManager : Type 0 where
  pub focus_stack : List InputSubscriptionCap
  pub audit_trail : List FocusEvent
  pub timestamp : ℕ

abbrev pub new : FocusManager
new = record { focus_stack = []; audit_trail = []; timestamp = 0 }

-- `next_timestamp`: the manager with the counter moved on; the timestamp is the counter before.
abbrev pub next_timestamp : FocusManager → FocusManager
next_timestamp m = record m { timestamp = u64_add m.timestamp 1 }

abbrev pub log_event : FocusManager → FocusEvent → FocusManager
log_event m event = record m { audit_trail = m.audit_trail ++ event ∷ [] }

unfoldable pub request_focus :
    FocusManager → InputSubscriptionCap → FocusManager × Result FocusError Unit
request_focus m cap = elim m.focus_stack [
  | [] ↦ (
    record (log_event (next_timestamp m) (granted cap.id m.timestamp)) { focus_stack = cap ∷ [] },
    ok tt,
  )
  | current ∷ below ↦ if current.id == cap.id then (next_timestamp m, ok tt) else (
    record (log_event (next_timestamp m) (transferred current.id cap.id m.timestamp)) {
      focus_stack = cap ∷ current ∷ below;
    },
    ok tt,
  )
]

unfoldable pub release_focus : FocusManager → FocusManager × Result FocusError InputSubscriptionCap
release_focus m = elim m.focus_stack [
  | [] ↦ (m, err empty_stack)
  | cap ∷ below ↦ (
    record (log_event (next_timestamp m) (released cap.id m.timestamp)) { focus_stack = below },
    ok cap,
  )
]

-- The stack without the first subscription of that identifier, if there is one: `position`, then
-- `remove`.
abbrev pub remove_position : List InputSubscriptionCap → ℕ → Option (List InputSubscriptionCap)
remove_position [] id = none
remove_position (c ∷ cs) id =
    if c.id == id
    then some cs
    else elim (remove_position cs id) [ none ↦ none | some rest ↦ some (c ∷ rest) ]

unfoldable pub remove_subscription :
    FocusManager → InputSubscriptionCap → FocusManager × Result FocusError Unit
remove_subscription m cap = elim (remove_position m.focus_stack cap.id) [
  | none ↦ (m, err subscription_not_found)
  | some rest ↦ (
    record (log_event (next_timestamp m) (released cap.id m.timestamp)) { focus_stack = rest },
    ok tt,
  )
]

abbrev pub top : List InputSubscriptionCap → Option InputSubscriptionCap
top [] = none
top (c ∷ cs) = some c

abbrev pub current_focus : FocusManager → Option InputSubscriptionCap
current_focus m = top m.focus_stack

abbrev pub has_focus : FocusManager → InputSubscriptionCap → Bool
has_focus m cap = elim (current_focus m) [ none ↦ false | some c ↦ c.id == cap.id ]

unfoldable pub route_event : FocusManager → Result FocusError (Option InputSubscriptionCap)
route_event m = ok (current_focus m)

unfoldable pub stack_depth : FocusManager → ℕ
stack_depth m = length m.focus_stack
