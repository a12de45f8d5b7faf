-- ===== src/Scheduler/RoundRobin.antt =====
-- sim_kernel/src/scheduler.rs: without real-time tasks the scheduler is round robin.
use mathlib.Core.List.{append-nil, append_assoc}
use panda_gen.Prelude.{
  ℕ, zero, suc, ◌≡◌, refl, sym, ap, ◌∙◌, subst, inl, inr, false, List, [], ◌∷◌, ◌++◌, none, some,
  arith, Option-cases, length,
}
use panda_gen.Scheduler.Types.{
  TaskId, TaskInfo, ScheduleEvent, task_selected, task_preempted, quantum_expired, no_policy,
}
use panda_gen.Scheduler.Tasks.{Tasks, get, update, get-update}
use panda_gen.Scheduler.RunQueue
use panda_gen.Scheduler.State.{Scheduler, take_next, dequeue_next, enqueue_runnable}
use panda_gen.Scheduler.Switching.{preempt_current, preempt_runnable, preempt_quantum}
use panda_gen.Scheduler.Placement.{IsPlaced, dequeue_next-IsPlaced}
use panda_gen.Scheduler.Placement.Switches.{preempt_current-IsPlaced}
use panda_gen.Scheduler.Soundness.Ticking.{has_realtime}

-- One turn: the next task is selected and preempted, with no tick in between.
unfoldable pub turn : Scheduler → Scheduler
turn s = (preempt_current (dequeue_next s).0).0

unfoldable pub turns : ℕ → Scheduler → Scheduler
turns zero s = s
turns (suc n) s = turns n (turn s)

abbrev pub turn_events : ℕ → List TaskId → List ScheduleEvent
turn_events now [] = []
turn_events now (t ∷ ts) =
    task_selected t now ∷ task_preempted t quantum_expired now ∷ turn_events now ts

-- Between turns: no task is current, the policy is plain, no task has real-time parameters.
pub record IsPlain (s : Scheduler) : Type 0 where
  pub placed : IsPlaced s
  pub idle : s.current_task ≡ none
  pub plain : s.config.realtime_policy ≡ no_policy
  pub no_realtime : has_realtime s.tasks ≡ false

get-no_realtime :
    (m : Tasks) (t : TaskId) (info : TaskInfo)
    → has_realtime m ≡ false
    → get m t ≡ some info
    → info.realtime ≡ none
unfolding get
get-no_realtime [] t info h e = cc
get-no_realtime ((u, i) ∷ m) t info h e = elim (Option-cases i.realtime) [
  | inl n ↦ ground (arith, get-no_realtime m t info)
  | inr (rt, n) ↦ ground arith
]

has_realtime-reset :
    (m : Tasks) (t : TaskId)
    → has_realtime (update m t (λ info. record info { ticks_in_quantum = 0 })) ≡ has_realtime m
unfolding update
has_realtime-reset [] t = refl
has_realtime-reset ((u, i) ∷ m) t = ground (arith, has_realtime-reset m t)

-- The scheduler after a turn of the task at the front.
abbrev after_turn : Scheduler → TaskId → List TaskId → Scheduler
after_turn s t q = record s {
  run_queue = q ++ t ∷ [];
  tasks =
      update (update s.tasks t (λ info. record info { ticks_in_quantum = 0 })) t
        (λ info. record info { ticks_in_quantum = 0 });
  current_task = none;
  audit_log =
      (s.audit_log ++ task_selected t s.current_ticks ∷ [])
      ++ task_preempted t quantum_expired s.current_ticks ∷ [];
}

turn_lem :
    (s : Scheduler) (t : TaskId) (q : List TaskId)
    → IsPlain s
    → s.run_queue ≡ t ∷ q
    → turn s ≡ after_turn s t q
unfolding turn dequeue_next take_next preempt_current preempt_runnable preempt_quantum
    RunQueue.dequeue enqueue_runnable RunQueue.enqueue
turn_lem s t q p e = elim (Option-cases (get s.tasks t)) [
  | inl n ↦ ground (arith, p.placed.at t)
  | inr (info, n) ↦ ground (
    arith,
    p.placed.at t,
    p.plain,
    get-no_realtime s.tasks t info p.no_realtime n,
    get-update s.tasks t t (λ i. record i { ticks_in_quantum = 0 }),
  )
]

turn-IsPlaced : (s : Scheduler) → IsPlain s → IsPlaced (turn s)
unfolding turn
turn-IsPlaced s p = preempt_current-IsPlaced _ (dequeue_next-IsPlaced s p.idle p.placed)

after_turn-IsPlain :
    (s : Scheduler) (t : TaskId) (q : List TaskId)
    → IsPlain s
    → s.run_queue ≡ t ∷ q
    → IsPlain (after_turn s t q)
after_turn-IsPlain s t q p e = record {
  placed = subst IsPlaced (turn_lem s t q p e) (turn-IsPlaced s p);
  idle = refl;
  plain = p.plain;
  no_realtime =
      has_realtime-reset (update s.tasks t (λ info. record info { ticks_in_quantum = 0 })) t
      ∙ has_realtime-reset s.tasks t
      ∙ p.no_realtime;
}

-- Without a real-time policy and with no task that has real-time parameters, from a scheduler in which
-- no task is current, each runnable task stands once in the queue and the queue is `xs ++ ys`: as
-- many turns, each a selection and a preemption with no tick in between, as there are tasks in
-- `xs` select and preempt just these, each once and in the order of the queue, and leave them
-- behind `ys`.
pub turns_round_robin :
    (xs ys : List TaskId) (s : Scheduler)
    → IsPlain s
    → s.run_queue ≡ xs ++ ys
    → ((turns (length xs) s).run_queue ≡ ys ++ xs)
      × ((turns (length xs) s).audit_log ≡ s.audit_log ++ turn_events s.current_ticks xs)
unfolding turns
turns_round_robin [] ys s p e = (e ∙ sym (append-nil ys), sym (append-nil s.audit_log))
turns_round_robin (x ∷ xs) ys s p e =
    let ih =
      turns_round_robin xs (ys ++ x ∷ []) (after_turn s x (xs ++ ys))
        (after_turn-IsPlain s x (xs ++ ys) p e) (append_assoc xs ys (x ∷ [])) in
    let first = turn_lem s x (xs ++ ys) p e in
    (
      ap (λ (u : Scheduler). (turns (length xs) u).run_queue) first
          ∙ ih.0
          ∙ append_assoc ys (x ∷ []) xs,
      ap (λ (u : Scheduler). (turns (length xs) u).audit_log) first ∙ ih.1 ∙ simp append_assoc,
    )
