-- ===== src/Lifecycle.antt =====
-- lifecycle/src/lib.rs: cancellation, deadlines and timeouts; and kernel_api/src/time.rs, whose instants
-- and durations are numbers of nanoseconds. Sums and products wrap as a release build compiles them.
pub mod Sharing
pub mod Timing
pub mod Examples
use Prim.Native.String.{String}
use panda_gen.Prelude.{
  ℕ, ◌+◌, ◌*◌, ◌%◌, ◌/◌, Bool, true, false, Option, none, some, Map, put, Result, ok, err,
  if◌then◌else◌, ltb, leb, u64_add, saturating_sub, ◌==◌,
}

abbrev pub Instant : Type 0
Instant = ℕ

abbrev pub Duration : Type 0
Duration = ℕ

abbrev pub duration_since : Instant → Instant → Duration
duration_since instant earlier = saturating_sub instant earlier

abbrev pub instant_add : Instant → Duration → Instant
instant_add instant duration = u64_add instant duration

abbrev pub instant_sub : Instant → Duration → Instant
instant_sub instant duration = saturating_sub instant duration

abbrev pub from_millis : ℕ → Duration
from_millis millis = (millis * 1000000) % 18446744073709551616

abbrev pub from_secs : ℕ → Duration
from_secs secs = (secs * 1000000000) % 18446744073709551616

abbrev pub as_millis : Duration → ℕ
as_millis duration = duration / 1000000

pub data CancellationReason : Type 0 where
  user_cancel timed_out supervisor_cancel dependency_failed : CancellationReason
  custom : String → CancellationReason

pub data CancellationState : Type 0 where
  active : CancellationState
  cancelled : CancellationReason → CancellationState

-- `LifecycleError`
pub data LifecycleError : Type 0 where
  cancelled_error : CancellationReason → LifecycleError
  timeout_error : LifecycleError

-- The cells behind `Rc<RefCell<CancellationState>>`, and the number of the next one.
pub record Cells : Type 0 where
  pub next : ℕ
  pub state : ℕ → CancellationState

abbrev pub no_cells : Cells
no_cells = record { next = 0; state = λ c. active }

-- A token and a source refer to a shared cell. A clone is the same reference.
pub record CancellationToken : Type 0 where
  pub cell : ℕ

pub record CancellationSource : Type 0 where
  pub cell : ℕ

abbrev pub set_state : Cells → ℕ → CancellationState → ℕ → CancellationState
set_state cells cell state c = if cell == c then state else cells.state c

-- `SharedCancellationState::new`
unfoldable pub allocate : Cells → Cells
allocate cells = record { next = cells.next + 1; state = set_state cells cells.next active }

-- `CancellationToken::none`
unfoldable pub none_token : Cells → Cells × CancellationToken
unfolding allocate
none_token cells = (allocate cells, record { cell = cells.next })

-- `CancellationSource::new`
unfoldable pub new_source : Cells → Cells × CancellationSource
unfolding allocate
new_source cells = (allocate cells, record { cell = cells.next })

-- `CancellationSource::token`
abbrev pub token : CancellationSource → CancellationToken
token source = record { cell = source.cell }

unfoldable pub cancel : Cells → CancellationSource → CancellationReason → Cells
cancel cells source reason = record cells { state = set_state cells source.cell (cancelled reason) }

abbrev reason_of : CancellationState → Option CancellationReason
reason_of active = none
reason_of (cancelled reason) = some reason

-- `CancellationToken::reason`
unfoldable pub reason_for : Cells → CancellationToken → Option CancellationReason
reason_for cells t = reason_of (cells.state t.cell)

abbrev is_cancelled_state : CancellationState → Bool
is_cancelled_state active = false
is_cancelled_state (cancelled reason) = true

unfoldable pub is_cancelled : Cells → CancellationToken → Bool
is_cancelled cells t = is_cancelled_state (cells.state t.cell)

unfoldable pub throw_if_cancelled : Cells → CancellationToken → Result LifecycleError Unit
unfolding reason_for
throw_if_cancelled cells t = elim (reason_for cells t) [
  | none ↦ ok tt
  | some reason ↦ err (cancelled_error reason)
]

-- A deadline is its instant, and a timeout its duration.
abbrev pub Deadline : Type 0
Deadline = Instant

abbrev pub Timeout : Type 0
Timeout = Duration

unfoldable pub has_passed : Deadline → Instant → Bool
has_passed deadline now = leb deadline now

unfoldable pub time_remaining : Deadline → Instant → Option Duration
time_remaining deadline now = if ltb now deadline then some (duration_since deadline now) else none

unfoldable pub to_deadline : Timeout → Instant → Deadline
to_deadline timeout now = instant_add now timeout
