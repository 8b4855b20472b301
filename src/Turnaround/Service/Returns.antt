-- ===== src/Turnaround/Service/Returns.antt =====
-- When `updateTask` does return.
use mathlib.Core.Option
use microservices_practice.Common.{
  ℕ, String, ◌≡◌, ◌∙◌, ap, some, List, [], ◌∷◌, map, length, ◌==◌, Bool-cases, arith, inl, inr,
}
use microservices_practice.Common.Int.{pos}
use microservices_practice.Turnaround.Schema.{
  Date, time, TurnaroundStatus, MilestoneKey, Turnaround, Task,
}
use microservices_practice.Turnaround.Dto.{UpdateTaskDto}
use microservices_practice.Turnaround.Store.{
  ok, fine, SetField, assign_all, modify, find_by_id, find_task, having_task, set_positional,
  IsMongo,
}
use microservices_practice.Turnaround.Store.Laws.{
  find_by_id-modify_self, find_task-set_positional, set_positional-id,
}
use microservices_practice.Turnaround.World.{Env, World, counted}
use microservices_practice.Turnaround.Repository.{set_field}
use microservices_practice.Turnaround.Repository.Laws.{
  find_by_id_run, update_status_run, update_milestones_run, update_task_run,
}
use microservices_practice.Turnaround.Publisher
use microservices_practice.Turnaround.Publisher.Laws.{publish_turnaround_completed-IsQuiet}
use microservices_practice.Turnaround.Service.{
  get_turnaround, complete_turnaround, finish_update, change_task, update_task, when,
  asks_completion,
}
use microservices_practice.Turnaround.Service.Update.{
  time_read, time_taken, found-assign_all, complete_turnaround_ok, when_publishing-db, finished,
  progressed,
}
use microservices_practice.Turnaround.Tasks.{completed_count, progress_of, task_updates}

module _ (e : Env) (laws : IsMongo e.mongo) (up : (k : ℕ) → laws.fault k ≡ fine) (id : String) where
  get_turnaround_returns :
      (w : World) (d : Turnaround)
      → find_by_id id w.db ≡ some d
      → get_turnaround e id w ≡ (ok d, counted w)
  unfolding get_turnaround
  get_turnaround_returns w d found = ground (arith, find_by_id_run e laws w id, up w.calls)

  complete_turnaround_returns :
      (w : World) (d : Turnaround)
      → find_by_id id w.db ≡ some d
      → (complete_turnaround e id w).0 ≡ ok tt
  unfolding complete_turnaround
  complete_turnaround_returns w d found =
      let now = e.now w.calls in
      let ardt : List (MilestoneKey × Date) = (MilestoneKey.ardt, time (pos now)) ∷ [] in
      let fields : List SetField =
        SetField.completed_at (time (pos now)) ∷ SetField.progress_percent 100 ∷ [] in
      let w₁ : World = counted w in
      let c₁ = modify id (assign_all (map set_field ardt)) w.db in
      let w₂ : World = record (counted w₁) { db = c₁ } in
      let d₁ = assign_all (map set_field ardt) d in
      let set = SetField.status TurnaroundStatus.completed ∷ fields in
      let w₃ : World = record (counted w₂) { db = modify id (assign_all set) c₁ } in
      ground (
        arith,
        up w₁.calls,
        up w₂.calls,
        update_milestones_run e laws w₁ id ardt,
        update_status_run e laws w₂ id TurnaroundStatus.completed fields,
        found-assign_all e laws id (map set_field ardt) w.db d found,
        found-assign_all e laws id set c₁ d₁,
        publish_turnaround_completed-IsQuiet e (assign_all set d₁) w₃,
      )

  finish_update_returns :
      (task_id : String) (dto : UpdateTaskDto) (u : Turnaround) (w : World)
      → find_by_id id w.db ≡ some u
      → (t : Turnaround) × ((finish_update e id task_id dto u w).0 ≡ ok t)
  unfolding finish_update assign_all
  finish_update_returns task_id dto u w found =
      let fields : List SetField =
        SetField.progress_percent (progress_of (completed_count u.tasks) (length u.tasks)) ∷ [] in
      let set = SetField.status u.status ∷ fields in
      let w₁ : World = record (counted w) { db = modify id (assign_all set) w.db } in
      let asked = asks_completion dto.status in
      let w₂ = (when asked (Publisher.publish_task_completed e u task_id) w₁).1 in
      let w₃ = (complete_turnaround e id w₂).1 in
      elim (Bool-cases (completed_count u.tasks == length u.tasks)) [
        | inl all ↦ (
          finished (e.now w₂.calls) (progressed u),
          ground (
            arith,
            up w.calls,
            update_status_run e laws w id u.status fields,
            found-assign_all e laws id set w.db u found,
            when_publishing-db e laws asked u task_id w₁,
            complete_turnaround_returns w₂ (progressed u),
            complete_turnaround_ok e laws id w₂ {w' = w₃} (progressed u),
            get_turnaround_returns w₃ (finished (e.now w₂.calls) (progressed u)),
          ),
        )
        | inr part ↦ (
          progressed u,
          ground (
            arith,
            up w.calls,
            update_status_run e laws w id u.status fields,
            found-assign_all e laws id set w.db u found,
            when_publishing-db e laws asked u task_id w₁,
            get_turnaround_returns w₂ (progressed u),
          ),
        )
      ]

  change_task_returns :
      (task_id : String) (dto : UpdateTaskDto) (task : Task) (d : Turnaround) (w : World)
      → find_by_id id w.db ≡ some d
      → find_task task_id d.tasks ≡ some task
      → (t : Turnaround) × ((change_task e id task_id dto task w).0 ≡ ok t)
  unfolding change_task having_task
  change_task_returns task_id dto task d w found there =
      let now = time_read e dto task w in
      let w₁ = time_taken e dto task w in
      let fields = task_updates dto task now in
      let c = modify id (set_positional task_id fields) w.db in
      let d' = set_positional task_id fields d in
      let w₂ : World = record (counted w₁) { db = c } in
      let found' : find_by_id id c ≡ some d' =
        find_by_id-modify_self id (set_positional task_id fields) (set_positional-id task_id fields)
          w.db
        ∙ ap (Option.map (set_positional task_id fields)) found in
      let (t, run) = finish_update_returns task_id dto d' w₂ found' in
      (
        t,
        ground (
          arith,
          up w₁.calls,
          update_task_run e laws w₁ id task_id fields,
          find_task-set_positional task_id fields d task there,
          found',
          run,
        ),
      )

  -- Where the turnaround and its task are there and the store answers every call, `updateTask`
  -- returns a turnaround, whatever it is asked and whatever the broker does.
  pub update_task_returns :
      (task_id : String) (dto : UpdateTaskDto) (task : Task) (d : Turnaround) (w : World)
      → find_by_id id w.db ≡ some d
      → find_task task_id d.tasks ≡ some task
      → (t : Turnaround) × ((update_task e id task_id dto w).0 ≡ ok t)
  unfolding update_task
  update_task_returns task_id dto task d w found there =
      let (t, run) = change_task_returns task_id dto task d (counted w) found there in
      (
        t,
        ground (arith, get_turnaround_returns w d found, laws.task_by_id_lem d.tasks task_id, run),
      )
