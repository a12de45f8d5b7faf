-- ===== src/Lifecycle/Sharing.antt =====
-- lifecycle/src/lib.rs: what a token tells, over all sources and tokens that share cells.
use panda_gen.Prelude.{
  ℕ, ◌≤◌, ◌≡◌, refl, Bool, true, false, ◌||◌, List, [], ◌∷◌, Option, none, some, arith,
  if◌then◌else◌, ◌==◌, ok,
}
use panda_gen.Lifecycle.{
  Cells, no_cells, CancellationReason, CancellationToken, CancellationSource, allocate, none_token,
  new_source, cancel, reason_for, is_cancelled, throw_if_cancelled,
}

abbrev pub is_among : List ℕ → ℕ → Bool
is_among [] c = false
is_among (s ∷ sources) c = s == c || is_among sources c

-- The newest cancellation of a cell, in a list with the newest first.
abbrev pub last_cancel : List (ℕ × CancellationReason) → ℕ → Option CancellationReason
last_cancel [] c = none
last_cancel ((s, reason) ∷ log) c = if s == c then some reason else last_cancel log c

abbrev pub is_some : Option CancellationReason → Bool
is_some none = false
is_some (some reason) = true

-- A history: the cells, the cells of the sources that were created, and the cancellations, the newest
-- first. Only a source that was created can be cancelled.
pub data History : Cells → List ℕ → List (ℕ × CancellationReason) → Type 0 where
  begin : History no_cells [] []
  makes_source :
      (cells : Cells) (sources : List ℕ) (log : List (ℕ × CancellationReason))
      → History cells sources log
      → History (new_source cells).0 (cells.next ∷ sources) log
  makes_none :
      (cells : Cells) (sources : List ℕ) (log : List (ℕ × CancellationReason))
      → History cells sources log
      → History (none_token cells).0 sources log
  cancels :
      (cells : Cells) (sources : List ℕ) (log : List (ℕ × CancellationReason))
      (source : CancellationSource) (reason : CancellationReason)
      → is_among sources source.cell ≡ true
      → History cells sources log
      → History (cancel cells source reason) sources ((source.cell, reason) ∷ log)

record IsTold (cells : Cells) (sources : List ℕ) (log : List (ℕ × CancellationReason))
    : Type 0 where
  pub fresh : (c : ℕ) → cells.next ≤ c → is_among sources c ≡ false
  pub unsourced : (c : ℕ) → is_among sources c ≡ false → last_cancel log c ≡ none
  pub told : (c : ℕ) → reason_for cells (record { cell = c }) ≡ last_cancel log c

History-IsTold :
    {cells : Cells} {sources : List ℕ} {log : List (ℕ × CancellationReason)}
    → History cells sources log
    → IsTold cells sources log
unfolding new_source none_token allocate cancel reason_for
History-IsTold begin = record { fresh = λ c l. refl; unsourced = λ c n. refl; told = λ c. refl }
History-IsTold (makes_source cells sources log h) =
    let i = History-IsTold h in
    record {
      fresh = λ c l. ground (arith, i.fresh c);
      unsourced = λ c n. i.unsourced c (ground (arith, n));
      told = λ c. ground (arith, i.told c, i.fresh c, i.unsourced c);
    }
History-IsTold (makes_none cells sources log h) =
    let i = History-IsTold h in
    record {
      fresh = λ c l. i.fresh c (ground arith);
      unsourced = i.unsourced;
      told = λ c. ground (arith, i.told c, i.fresh c, i.unsourced c);
    }
History-IsTold (cancels cells sources log source reason a h) =
    let i = History-IsTold h in
    record {
      fresh = i.fresh;
      unsourced = λ c n. ground (arith, a, n, i.unsourced c n);
      told = λ c. ground (arith, i.told c);
    }

-- In every history of sources, tokens and cancellations, a token gives the reason of the newest
-- cancellation of its source, and none when there was none, and it is cancelled exactly in the
-- first case.
pub History-told :
    (cells : Cells) (sources : List ℕ) (log : List (ℕ × CancellationReason)) (t : CancellationToken)
    → History cells sources log
    → (reason_for cells t ≡ last_cancel log t.cell)
      × (is_cancelled cells t ≡ is_some (last_cancel log t.cell))
unfolding reason_for is_cancelled
History-told cells sources log t h =
    ((History-IsTold h).told t.cell, ground (arith, (History-IsTold h).told t.cell))

-- In every history a token that belongs to no source, as those of `CancellationToken::none`, is not
-- cancelled, and `throw_if_cancelled` lets the operation go on.
pub History-unsourced :
    (cells : Cells) (sources : List ℕ) (log : List (ℕ × CancellationReason)) (t : CancellationToken)
    → History cells sources log
    → is_among sources t.cell ≡ false
    → (is_cancelled cells t ≡ false) × (throw_if_cancelled cells t ≡ ok tt)
unfolding throw_if_cancelled
History-unsourced cells sources log t h n =
    let i = History-IsTold h in
    let told = History-told cells sources log t h in
    let never = i.unsourced t.cell n in (ground (arith, told, never), ground (arith, told, never))
