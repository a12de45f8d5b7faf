-- ===== src/Scheduler/Soundness/Admitting.antt =====
-- sim_kernel/src/scheduler.rs, `set_real_time_params`: admission keeps the map of tasks sound.
use panda_gen.Prelude.{
  ◌≤◌, ◌<◌, ◌≡◌, refl, inl, inr, ◌&&◌, ◌||◌, not, some, arith, ◌==◌, ltb, Option-cases, Bool-cases,
}
use panda_gen.Scheduler.Types.{TaskId, TaskInfo, RealTimeParams, new_realtime}
use panda_gen.Scheduler.Tasks.{get, update}
use panda_gen.Scheduler.State.{Scheduler, is_runnable, is_current, enqueue_runnable}
use panda_gen.Scheduler.Admission.{set_real_time_params, admit, utilization_ppm_with}
use panda_gen.Scheduler.Soundness.{IsSound, DistinctKeys-update, AllValid-update}
use panda_gen.Scheduler.Soundness.Reserving.{total_ppm-update_params, total_ppm_with-le, ppm_le}

-- Parameters that pass both tests.
record IsAdmissible (s : Scheduler) (t : TaskId) (p : RealTimeParams) : Type 0 where
  period_pos : 0 < p.period_ticks
  budget_pos : 0 < p.budget_ticks
  within : p.budget_ticks ≤ p.period_ticks
  affordable : utilization_ppm_with s t p ≤ 1000000

update_params-IsSound :
    (s : Scheduler) (t : TaskId) (p : RealTimeParams)
    → IsAdmissible s t p
    → IsSound s.tasks
    → IsSound
        (update s.tasks t (λ i. record i { realtime = some (new_realtime p s.current_ticks) }))
unfolding utilization_ppm_with new_realtime
update_params-IsSound s t p a h = record {
  distinct = DistinctKeys-update s.tasks t _ h.distinct;
  valid = AllValid-update s.tasks t _ (λ i v. ground arith) h.valid;
  admitted = omega (
    arith,
    total_ppm-update_params s.tasks t (new_realtime p s.current_ticks),
    total_ppm_with-le s.tasks t p h.distinct,
    ppm_le p a.within,
    a.affordable,
    h.admitted,
  );
}

admit-tasks :
    (s : Scheduler) (t : TaskId) (p : RealTimeParams) (info : TaskInfo)
    → (admit s t p info).tasks
      ≡ update s.tasks t (λ i. record i { realtime = some (new_realtime p s.current_ticks) })
unfolding admit enqueue_runnable
admit-tasks s t p info =
    elim (Bool-cases (is_runnable info.state && not (is_current s.current_task t))) [
      | inl b ↦ rw b refl
      | inr b ↦ rw b refl
    ]

pub set_real_time_params-IsSound :
    (s : Scheduler) (t : TaskId) (p : RealTimeParams)
    → IsSound s.tasks
    → IsSound (set_real_time_params s t p).0.tasks
unfolding set_real_time_params
set_real_time_params-IsSound s t p h =
    elim (Bool-cases
      (p.period_ticks == 0 || (p.budget_ticks == 0 || ltb p.period_ticks p.budget_ticks))) [
        | inl a ↦ rw a h
        | inr a ↦ rw a (elim (Bool-cases (ltb 1000000 (utilization_ppm_with s t p))) [
          | inl b ↦ rw b h
          | inr b ↦ rw b (elim (Option-cases (get s.tasks t)) [
            | inl e ↦ rw e h
            | inr (info, e) ↦ rw e (
                rw admit-tasks (
                  update_params-IsSound s t p
                    (record {
                      period_pos = ground arith;
                      budget_pos = ground arith;
                      within = ground arith;
                      affordable = ground arith;
                    })
                    h))
          ])
        ])
      ]
