-- ===== src/Lifecycle/Timing.antt =====
-- lifecycle/src/lib.rs: timeouts and the deadlines made of them.
use panda_gen.Prelude.{
  ◌||◌, ℕ, ◌+◌, ◌-◌, ◌≤◌, ◌≡◌, none, some, arith, if◌then◌else◌, ltb, leb, u64_max,
}
use panda_gen.Lifecycle.{Timeout, has_passed, time_remaining, to_deadline}

-- A timeout that starts at `now`, when `elapsed` nanoseconds have gone by: the deadline has passed
-- exactly when the duration has gone by or the end of the timeout is not representable in a `u64`;
-- until it has passed, what remains is the rest of the duration.
pub to_deadline-elapsed :
    (timeout : Timeout) (now elapsed : ℕ)
    → now ≤ u64_max
    → timeout ≤ u64_max
    → (has_passed (to_deadline timeout now) (now + elapsed)
        ≡ (ltb u64_max (now + timeout) || leb timeout elapsed))
      × (time_remaining (to_deadline timeout now) (now + elapsed) ≡ (
          if ltb u64_max (now + timeout) || leb timeout elapsed
          then none
          else some (timeout - elapsed)))
unfolding has_passed time_remaining to_deadline
to_deadline-elapsed timeout now elapsed n t = (ground arith, ground arith)
