-- ===== src/Turnaround/Calls/Whole.antt =====
-- The pieces of a call (turnaround/turnaround.service.ts) without others between them.
pub mod Creation
use microservices_practice.Common.{
  ℕ, zero, suc, String, ◌≡◌, refl, ap, ◌∙◌, none, some, arith, Option-cases, inl, inr, Bool, List,
  map,
}
use microservices_practice.Common.Int.{pos}
use microservices_practice.Turnaround.Schema.{Turnaround, Date, time, MilestoneKey}
use microservices_practice.Turnaround.Dto.{CreateTurnaroundDto, UpdateTaskDto, UpdateMilestonesDto}
use microservices_practice.Turnaround.Store.{
  Result, ok, err, Error, not_found, failed_to_update_milestones,
}
use microservices_practice.Turnaround.Store.Laws.{Result-cases}
use microservices_practice.Turnaround.World.{
  Env, World, Action, counted, date_now, pure, ◌>>=◌, ◌>>◌,
}
use microservices_practice.Turnaround.Repository
use microservices_practice.Turnaround.Publisher
use microservices_practice.Turnaround.Weather
use microservices_practice.Turnaround.Templates.{get_tasks_for_aircraft}
use microservices_practice.Turnaround.Service.{
  tasks_of, cached, new_turnaround, with_de_icing, key_of, create_turnaround, create_new,
  update_task, update_milestones,
}
use microservices_practice.Turnaround.Concurrent.{Stage, stage_of, next}
use microservices_practice.Turnaround.Concurrent
use microservices_practice.Turnaround.Concurrent.Alone.{returning, alone-update_task}
use microservices_practice.Turnaround.Concurrent.Milestones.{accept, store, accept-store}
use microservices_practice.Turnaround.Calls.{
  CreateStage, MilestoneStage, Call, creation, task_update, milestone_update, Process, creating,
  updating_task, updating_milestones, start, handle, advance, alone, create_next, milestone_next,
}
use microservices_practice.Turnaround.Calls.Whole.Creation.{create_end, alone-creating}

abbrev task_end :
    (id task_id : String) → UpdateTaskDto → Result Turnaround × World → Process × World
task_end id task_id dto (ok t, w) = (updating_task id task_id dto (Stage.returned t), w)
task_end id task_id dto (err x, w) = (updating_task id task_id dto (Stage.failed x), w)

abbrev milestone_end : String → UpdateMilestonesDto → Result Turnaround × World → Process × World
milestone_end id dto (ok t, w) = (updating_milestones id dto (MilestoneStage.returned t), w)
milestone_end id dto (err x, w) = (updating_milestones id dto (MilestoneStage.failed x), w)

abbrev pub ended : Call → Result Turnaround × World → Process × World
ended (creation dto) = create_end dto
ended (task_update id task_id dto) = task_end id task_id dto
ended (milestone_update id dto) = milestone_end id dto

module _ (e : Env) where
  alone-milestone_end :
      (n : ℕ) (id : String) (dto : UpdateMilestonesDto) (r : Result Turnaround) (w : World)
      → alone e n (milestone_end id dto (r, w)).0 w ≡ milestone_end id dto (r, w)
  unfolding alone advance milestone_next
  alone-milestone_end zero id dto (ok t) w = refl
  alone-milestone_end zero id dto (err x) w = refl
  alone-milestone_end (suc n) id dto (ok t) w = alone-milestone_end n id dto (ok t) w
  alone-milestone_end (suc n) id dto (err x) w = alone-milestone_end n id dto (err x) w

  alone-updated :
      (n : ℕ) (id : String) (dto : UpdateMilestonesDto) (ms : List (MilestoneKey × Date))
      (t : Turnaround) (w : World)
      → alone e (suc n) (updating_milestones id dto (MilestoneStage.updated ms t)) w
        ≡ milestone_end id dto
            ((Publisher.publish_milestone_updated e t (map key_of ms) >> pure t) w)
  unfolding alone advance milestone_next
  alone-updated n id dto ms t w =
      let r = Publisher.publish_milestone_updated e t (map key_of ms) w in
      elim (Result-cases r.0) [
        | inl (u, done) ↦ ground (arith, alone-milestone_end n id dto (ok t) r.1)
        | inr (x, thrown) ↦ ground (arith, alone-milestone_end n id dto (err x) r.1)
      ]

  alone-accepted :
      (n : ℕ) (id : String) (dto : UpdateMilestonesDto) (ms : List (MilestoneKey × Date))
      (w : World)
      → alone e (suc (suc n)) (updating_milestones id dto (MilestoneStage.accepted ms)) w
        ≡ milestone_end id dto (store e id ms w)
  unfolding alone advance milestone_next store
  alone-accepted n id dto ms w =
      let r = Repository.update_milestones e id ms w in
      elim (Result-cases r.0) [
        | inl (found, done) ↦ elim (Option-cases found) [
          | inl empty ↦ ground (
            arith,
            alone-milestone_end (suc n) id dto (err (not_found failed_to_update_milestones)) r.1,
          )
          | inr (t, there) ↦ ground (arith, alone-updated n id dto ms t r.1)
        ]
        | inr (x, thrown) ↦ ground (arith, alone-milestone_end (suc n) id dto (err x) r.1)
      ]

  alone-updating_milestones :
      (n : ℕ) (id : String) (dto : UpdateMilestonesDto) (w : World)
      → alone e (suc (suc (suc n))) (updating_milestones id dto MilestoneStage.received) w
        ≡ milestone_end id dto (update_milestones e id dto w)
  unfolding alone advance milestone_next
  alone-updating_milestones n id dto w =
      let r = accept e id dto w in
      let whole = accept-store e id dto w in
      elim (Result-cases r.0) [
        | inl (ms, done) ↦ ground (arith, whole, alone-accepted n id dto ms r.1)
        | inr (x, thrown) ↦
            ground (arith, whole, alone-milestone_end (suc (suc n)) id dto (err x) r.1)
      ]

  -- `updateTask` from a stage on, as a process.
  abbrev task_process :
      (id task_id : String) → UpdateTaskDto → Result Stage × World → Process × World
  task_process id task_id dto r = (updating_task id task_id dto (stage_of r.0), r.1)

  alone_failed :
      (n : ℕ) (id task_id : String) (dto : UpdateTaskDto) (x : Error) (w : World)
      → alone e n (updating_task id task_id dto (Stage.failed x)) w
        ≡ (updating_task id task_id dto (Stage.failed x), w)
  unfolding alone advance next
  alone_failed zero id task_id dto x w = refl
  alone_failed (suc n) id task_id dto x w = alone_failed n id task_id dto x w

  alone-task_process :
      (n : ℕ) (id task_id : String) (dto : UpdateTaskDto) (s : Stage) (w : World)
      → alone e n (updating_task id task_id dto s) w
        ≡ task_process id task_id dto (Concurrent.alone e n id task_id dto s w)
  unfolding alone advance Concurrent.alone
  alone-task_process zero id task_id dto s w = refl
  alone-task_process (suc n) id task_id dto s w =
      let r = next e id task_id dto s w in
      elim (Result-cases r.0) [
        | inl (s', done) ↦ ground (arith, alone-task_process n id task_id dto s' r.1)
        | inr (x, thrown) ↦ ground (arith, alone_failed n id task_id dto x r.1)
      ]

  alone-updating_task :
      (id task_id : String) (dto : UpdateTaskDto) (w : World)
      → alone e 8 (updating_task id task_id dto Stage.received) w
        ≡ task_end id task_id dto (update_task e id task_id dto w)
  alone-updating_task id task_id dto w =
      alone-task_process 8 id task_id dto Stage.received w
      ∙ ap (task_process id task_id dto) (alone-update_task e id task_id dto w)
      ∙ elim (Result-cases (update_task e id task_id dto w).0) [
        | inl (t, done) ↦ ground arith
        | inr (x, thrown) ↦ ground arith
      ]

  -- A call of any kind whose pieces run with nothing between them, from its start for eight pieces,
  -- is the call: it ends in what that returns or throws, and leaves the same state.
  alone-handle : (call : Call) (w : World) → alone e 8 (start call) w ≡ ended call (handle e call w)
  unfolding handle
  alone-handle (creation dto) w = alone-creating e 3 dto w
  alone-handle (task_update id task_id dto) w = alone-updating_task id task_id dto w
  alone-handle (milestone_update id dto) w = alone-updating_milestones 5 id dto w
