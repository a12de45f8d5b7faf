-- ===== src/Lifecycle/Examples.antt =====
-- lifecycle/src/lib.rs: the theorems at one source, its token and a token of no source.
use panda_gen.Prelude.{◌+◌, ◌≡◌, refl, true, false, [], ◌∷◌, some, arith}
use panda_gen.Lifecycle.{
  Cells, no_cells, CancellationSource, user_cancel, timed_out, new_source, none_token, token,
  cancel, reason_for, is_cancelled, has_passed, time_remaining, to_deadline,
}
use panda_gen.Lifecycle.Sharing.{History, begin, makes_source, makes_none, cancels, History-told}
use panda_gen.Lifecycle.Timing.{to_deadline-elapsed}

-- A source behind cell 0 and a token of no source behind cell 1; the source is cancelled twice.
abbrev source : CancellationSource
source = record { cell = 0 }

abbrev two_cells : Cells
two_cells = (none_token (new_source no_cells).0).0

abbrev cancelled_twice : Cells
cancelled_twice = cancel (cancel two_cells source timed_out) source user_cancel

cancelled_twice-History : History cancelled_twice (0 ∷ []) ((0, user_cancel) ∷ (0, timed_out) ∷ [])
cancelled_twice-History =
    cancels (cancel two_cells source timed_out) (0 ∷ []) ((0, timed_out) ∷ []) source user_cancel
      refl
      (cancels two_cells (0 ∷ []) [] source timed_out refl
        (makes_none (new_source no_cells).0 (0 ∷ []) [] (makes_source no_cells [] [] begin)))

History-told_example :
    (reason_for cancelled_twice (token source) ≡ some user_cancel)
    × (is_cancelled cancelled_twice (token source) ≡ true)
History-told_example =
    History-told cancelled_twice (0 ∷ []) ((0, user_cancel) ∷ (0, timed_out) ∷ []) (token source)
      cancelled_twice-History

to_deadline-elapsed_example :
    (has_passed (to_deadline 100 1000) (1000 + 40) ≡ false)
    × (time_remaining (to_deadline 100 1000) (1000 + 40) ≡ some 60)
to_deadline-elapsed_example = to_deadline-elapsed 100 1000 40 (ground arith) (ground arith)
