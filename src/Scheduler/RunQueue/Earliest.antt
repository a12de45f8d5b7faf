-- ===== src/Scheduler/RunQueue/Earliest.antt =====
-- sim_kernel/src/scheduler.rs, `dequeue_earliest_deadline`: it picks the first task whose deadline
-- is the least.
use panda_gen.Prelude.{
  ℕ, suc, ◌+◌, ◌≤◌, ◌<◌, ◌≡◌, refl, ap, sym, ◌∙◌, ◌⊎◌, inl, inr, [], ◌∷◌, ◌++◌, Option, none, some,
  arith, ltb, length, u64_max, Option-cases, Bool-cases, ltb→lt,
}
use panda_gen.Scheduler.Types.{TaskId}
use panda_gen.Scheduler.RunQueue.{
  RunQueue, better, find_best, dequeue, remove_at, dequeue_earliest_deadline,
}

module _ (deadline_of : TaskId → Option ℕ) where
  -- The task has no deadline, or one no earlier than `n`.
  abbrev pub NotBefore : ℕ → TaskId → Type 0
  NotBefore n t = elim (deadline_of t) [ none ↦ Unit {0} | some d ↦ n ≤ d ]

  abbrev pub AllNotBefore : ℕ → RunQueue → Type 0
  AllNotBefore n [] = Unit {0}
  AllNotBefore n (t ∷ q) = NotBefore n t × AllNotBefore n q

  -- `t` stands at `index` in the queue, with the deadline `d`; those before it are later, and
  -- those behind it are no earlier.
  pub record IsEarliest (q : RunQueue) (index : ℕ) (t : TaskId) (rest : RunQueue) : Type 0 where
    pub d : ℕ
    pub before : RunQueue
    pub behind : RunQueue
    pub splits : q ≡ before ++ t ∷ behind
    pub leaves : rest ≡ before ++ behind
    pub placed : length before ≡ index
    pub due : deadline_of t ≡ some d
    pub later : AllNotBefore (suc d) before
    pub no_earlier : AllNotBefore d behind

  AllNotBefore-mono : (m n : ℕ) (q : RunQueue) → m ≤ n → AllNotBefore n q → AllNotBefore m q
  AllNotBefore-mono m n [] h a = tt
  AllNotBefore-mono m n (t ∷ q) h a = ground (arith, AllNotBefore-mono m n q h a.1)

  -- What the scan of `q` from `index` finds, from the best so far.
  abbrev Found : RunQueue → ℕ → Option ℕ → ℕ → Option ℕ × ℕ → Type 0
  Found q index best bound r =
      ((r ≡ (best, bound)) × AllNotBefore bound q)
      ⊎ ((i : ℕ) × (t : TaskId) × (rest : RunQueue) × (e : IsEarliest q i t rest) × (r
            ≡ (some (index + i), e.d))
          × (e.d < bound))

  module _ (t : TaskId) (q : RunQueue) where
    abbrev head_earliest :
        (d : ℕ) → deadline_of t ≡ some d → AllNotBefore d q → IsEarliest (t ∷ q) 0 t q
    head_earliest d e a = record {
      d = d;
      before = [];
      behind = q;
      splits = refl;
      leaves = refl;
      placed = refl;
      due = e;
      later = tt;
      no_earlier = a;
    }

    abbrev cons_earliest :
        (i : ℕ) (u : TaskId) (rest : RunQueue) (e : IsEarliest q i u rest)
        → NotBefore (suc e.d) t
        → IsEarliest (t ∷ q) (suc i) u (t ∷ rest)
    cons_earliest i u rest e n = record {
      d = e.d;
      before = t ∷ e.before;
      behind = e.behind;
      splits = ap (◌∷◌ t) e.splits;
      leaves = ap (◌∷◌ t) e.leaves;
      placed = ap suc e.placed;
      due = e.due;
      later = (n, e.later);
      no_earlier = e.no_earlier;
    }

    -- A task that is no earlier than the best so far changes nothing.
    skip-Found :
        (index : ℕ) (best : Option ℕ) (bound : ℕ) (r : Option ℕ × ℕ)
        → NotBefore bound t
        → Found q (suc index) best bound r
        → Found (t ∷ q) index best bound r
    skip-Found index best bound r n (inl (e, a)) = inl (e, (n, a))
    skip-Found index best bound r n (inr (i, u, rest, e, p, l)) = inr (
      suc i,
      u,
      t ∷ rest,
      cons_earliest i u rest e (ground (arith, n)),
      p ∙ ap (λ k. (some k, e.d)) (omega arith),
      l,
    )

    take-Found :
        (index : ℕ) (best : Option ℕ) (bound d : ℕ) (r : Option ℕ × ℕ)
        → deadline_of t ≡ some d
        → d < bound
        → Found q (suc index) (some index) d r
        → Found (t ∷ q) index best bound r
    take-Found index best bound d r h l (inl (e, a)) =
        inr (0, t, q, head_earliest d h a, e ∙ ap (λ k. (some k, d)) (omega arith), l)
    take-Found index best bound d r h l (inr (i, u, rest, e, p, l')) = inr (
      suc i,
      u,
      t ∷ rest,
      cons_earliest i u rest e (ground arith),
      p ∙ ap (λ k. (some k, e.d)) (omega arith),
      omega arith,
    )

  find_best-Found :
      (q : RunQueue) (index : ℕ) (best : Option ℕ) (bound : ℕ)
      → Found q index best bound (find_best deadline_of index (best, bound) q)
  unfolding find_best
  find_best-Found [] index best bound = inl (refl, tt)
  find_best-Found (t ∷ q) index best bound = elim (Option-cases (deadline_of t)) [
    | inl e ↦
        rw (e, better)
          (skip-Found t q index best bound _ (rw (e, NotBefore) tt)
            (find_best-Found q (suc index) best bound))
    | inr (d, e) ↦ elim (Bool-cases (ltb d bound)) [
      | inl b ↦
          rw (e, better)
            (rw b (
              take-Found t q index best bound d _ e (ltb→lt d bound b)
                (find_best-Found q (suc index) (some index) d)))
      | inr b ↦
          rw (e, better)
            (rw b (
              skip-Found t q index best bound _ (rw (e, NotBefore) (ground arith))
                (find_best-Found q (suc index) best bound)))
    ]
  ]

  remove_at-splits :
      (before behind : RunQueue) (t : TaskId) (i : ℕ)
      → length before ≡ i
      → remove_at i (before ++ t ∷ behind) ≡ some (t, before ++ behind)
  unfolding remove_at
  remove_at-splits [] behind t i h = rw (← h)
  remove_at-splits (u ∷ before) behind t i h =
      rw (← h) (rw (remove_at-splits before behind t (length before) refl))

  -- Either no queued task has a deadline below the last value of a `u64`, and the queue is served
  -- from its front; or the task taken has a deadline below that value and is the first of those
  -- whose deadline is the least of all in the queue, and the others stay in their order.
  pub dequeue_earliest_deadline-IsEarliest :
      (q : RunQueue)
      → (AllNotBefore u64_max q × (dequeue_earliest_deadline deadline_of q ≡ dequeue q))
        ⊎ ((i : ℕ) × (t : TaskId) × (rest : RunQueue) × (e : IsEarliest q i t rest) × (e.d
              < u64_max)
            × (dequeue_earliest_deadline deadline_of q ≡ some (t, rest)))
  unfolding dequeue_earliest_deadline
  dequeue_earliest_deadline-IsEarliest q = elim (find_best-Found q 0 none u64_max) [
    | inl (e, a) ↦ inl (a, rw (e, dequeue_earliest_deadline))
    | inr (i, t, rest, e, p, l) ↦ inr (
      i,
      t,
      rest,
      e,
      l,
      rw (p, dequeue_earliest_deadline)
          (ap (λ k. remove_at k q) (let z : 0 + i ≡ i = omega arith in z)
            ∙ ap (remove_at i) e.splits
            ∙ remove_at-splits e.before e.behind t i e.placed
            ∙ ap (λ r. some (t, r)) (sym e.leaves)),
    )
  ]
