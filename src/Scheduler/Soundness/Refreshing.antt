-- ===== src/Scheduler/Soundness/Refreshing.antt =====
-- sim_kernel/src/scheduler.rs, `refresh_deadlines`: it keeps the map of tasks sound.
use panda_gen.Prelude.{
  ℕ, zero, suc, ◌≡◌, inl, inr, List, [], ◌∷◌, none, some, arith, leb, Option-cases, Bool-cases,
}
use panda_gen.Scheduler.Types.{TaskId, TaskInfo, RealTimeTask, ScheduleEvent}
use panda_gen.Scheduler.Tasks.{Tasks, get}
use panda_gen.Scheduler.Deadlines.{
  refresh_task, refresh_tasks, catch_up, next_period, catch_up_fuel,
}
use panda_gen.Scheduler.Deadlines.Loop.{IsValid, next_period-IsValid, next_period-params}
use panda_gen.Scheduler.Admission.{task_ppm, total_ppm}
use panda_gen.Scheduler.Waking.{DistinctKeys}
use panda_gen.Scheduler.Soundness.{ValidInfo, AllValid, IsSound}

catch_up-valid :
    (fuel now : ℕ) (t : TaskId) (rt rt' : RealTimeTask) (es : List ScheduleEvent)
    → catch_up fuel now t rt ≡ some (rt', es)
    → IsValid rt
    → IsValid rt' × (rt'.params ≡ rt.params)
unfolding catch_up
catch_up-valid zero now t rt rt' es h v = cc
catch_up-valid (suc fuel) now t rt rt' es h v = elim (Bool-cases (leb rt.next_deadline now)) [
  | inr b ↦ ground (arith, v)
  | inl b ↦ elim (Option-cases (catch_up fuel now t (next_period now t rt).0)) [
    | inl e ↦ ground arith
    | inr ((r, fs), e) ↦
        let ih =
          catch_up-valid fuel now t (next_period now t rt).0 r fs e
            (next_period-IsValid now t rt v) in
        ground (arith, ih, next_period-params now t rt)
  ]
]

refresh_task-valid :
    (now : ℕ) (t : TaskId) (info info' : TaskInfo) (es : List ScheduleEvent)
    → refresh_task now t info ≡ some (info', es)
    → ValidInfo info
    → ValidInfo info' × (task_ppm info' ≡ task_ppm info)
unfolding refresh_task task_ppm
refresh_task-valid now t info info' es h v = elim (Option-cases info.realtime) [
  | inl e ↦ ground arith
  | inr (rt, e) ↦
      let ok_rt : IsValid rt = rw (e, ValidInfo) at v in
      elim (Option-cases (catch_up (catch_up_fuel now rt) now t rt)) [
        | inl n ↦ ground arith
        | inr ((rt', fs), n) ↦
            let ih = catch_up-valid (catch_up_fuel now rt) now t rt rt' fs n ok_rt in
            ground (arith, ih)
      ]
]

refresh_tasks-absent :
    (now : ℕ) (m m' : Tasks) (es : List ScheduleEvent) (t : TaskId)
    → refresh_tasks now m ≡ some (m', es)
    → get m t ≡ none
    → get m' t ≡ none
unfolding refresh_tasks get
refresh_tasks-absent now [] m' es t h n = ground arith
refresh_tasks-absent now ((u, info) ∷ m) m' es t h n =
    elim (Option-cases (refresh_task now u info)) [
      | inl e ↦ cc
      | inr ((info', fs), e) ↦ elim (Option-cases (refresh_tasks now m)) [
        | inl e' ↦ cc
        | inr ((r, gs), e') ↦ ground (arith, refresh_tasks-absent now m r gs t e')
      ]
    ]

refresh_tasks-valid :
    (now : ℕ) (m m' : Tasks) (es : List ScheduleEvent)
    → refresh_tasks now m ≡ some (m', es)
    → AllValid m
    → DistinctKeys m
    → AllValid m' × DistinctKeys m' × (total_ppm m' ≡ total_ppm m)
unfolding refresh_tasks total_ppm
refresh_tasks-valid now [] m' es h a d = ground arith
refresh_tasks-valid now ((u, info) ∷ m) m' es h (v, a) (n, d) =
    elim (Option-cases (refresh_task now u info)) [
      | inl e ↦ cc
      | inr ((info', fs), e) ↦ elim (Option-cases (refresh_tasks now m)) [
        | inl e' ↦ cc
        | inr ((r, gs), e') ↦ ground (
          arith,
          refresh_task-valid now u info info' fs e v,
          refresh_tasks-valid now m r gs e' a d,
          refresh_tasks-absent now m r gs u e' n,
        )
      ]
    ]

pub refresh_tasks-IsSound :
    (now : ℕ) (m m' : Tasks) (es : List ScheduleEvent)
    → refresh_tasks now m ≡ some (m', es)
    → IsSound m
    → IsSound m'
refresh_tasks-IsSound now m m' es h s =
    let (a, d, p) = refresh_tasks-valid now m m' es h s.valid s.distinct in
    record { distinct = d; valid = a; admitted = omega (arith, s.admitted, p) }
