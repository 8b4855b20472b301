-- ===== src/Turnaround/Service/Frame.antt =====
-- What a call of the service leaves alone: the other documents, however the call ends, and
-- everything where it does not find what it is to change.
use microservices_practice.Common.{
  String, ◌≡◌, ◌≢◌, Option, none, some, List, [], ◌∷◌, map, length, arith, Option-cases, inl, inr,
  is_some, if◌then◌else◌,
}
use microservices_practice.Common.Int.{pos}
use microservices_practice.Turnaround.Schema.{
  Date, time, TurnaroundStatus, MilestoneKey, Milestones, Turnaround, Task,
}
use microservices_practice.Turnaround.Dto.{UpdateTaskDto, UpdateMilestonesDto}
use microservices_practice.Turnaround.Store.{
  Collection, err, not_found, NotFound, turnaround_not_found, task_not_found, fine, SetField,
  assign_all, modify, find_by_id, find_task, set_positional, having_task, IsMongo,
}
use microservices_practice.Turnaround.Store.Laws.{
  find_by_id-modify_ne, assign_all-id, set_positional-id,
}
use microservices_practice.Turnaround.World.{Env, World, counted, Action}
use microservices_practice.Turnaround.Repository.{set_field}
use microservices_practice.Turnaround.Repository.Laws.{
  find_by_id_run, update_status_run, update_milestones_run, update_task_run,
}
use microservices_practice.Turnaround.Publisher
use microservices_practice.Turnaround.Publisher.Laws.{
  publish_task_completed-IsQuiet, publish_turnaround_completed-IsQuiet,
  publish_milestone_updated-IsQuiet,
}
use microservices_practice.Turnaround.Service.{
  get_turnaround, complete_turnaround, finish_update, change_task, update_task, when,
  asks_completion, update_milestones, parse_milestones, validate, key_of,
}
use microservices_practice.Turnaround.Tasks.{completed_count, progress_of, task_updates}
use microservices_practice.Turnaround.Service.Update.{time_read, time_taken}

-- No other document is touched, whether the action returns or throws.
abbrev pub LeavesOthers : {A : Type 0} → String → Action A → World → Type 0
LeavesOthers id m w = (j : String) → j ≢ id → find_by_id j (m w).1.db ≡ find_by_id j w.db

-- The task with an id, in the turnaround with an id, and which of the two is missing.
abbrev pub task_in : (id task_id : String) → Collection → Option Task
task_in id task_id c = elim (find_by_id id c) [ none ↦ none | some d ↦ find_task task_id d.tasks ]

abbrev pub missing_part : (id task_id : String) → Collection → NotFound
missing_part id task_id c =
    if is_some (find_by_id id c) then task_not_found task_id id else turnaround_not_found id

validate_world :
    (ms : List (MilestoneKey × Date)) (existing : Milestones) (w : World)
    → (validate ms existing w).1 ≡ w
unfolding validate
validate_world ms existing w = ground arith

module _ (e : Env) (laws : IsMongo e.mongo) (id : String) where
  get_turnaround-db : (w : World) → (get_turnaround e id w).1.db ≡ w.db
  unfolding get_turnaround
  get_turnaround-db w = ground (arith, find_by_id_run e laws w id)

  assigned_others :
      (fs : List SetField) (c : Collection) (j : String)
      → j ≢ id
      → find_by_id j (modify id (assign_all fs) c) ≡ find_by_id j c
  assigned_others fs c j h = find_by_id-modify_ne id (assign_all fs) (assign_all-id fs) j c h

  complete_turnaround-LeavesOthers : (w : World) → LeavesOthers id (complete_turnaround e id) w
  unfolding complete_turnaround
  complete_turnaround-LeavesOthers w j h =
      let now = e.now w.calls in
      let ardt : List (MilestoneKey × Date) = (MilestoneKey.ardt, time (pos now)) ∷ [] in
      let fields : List SetField =
        SetField.completed_at (time (pos now)) ∷ SetField.progress_percent 100 ∷ [] in
      let w₁ : World = counted w in
      let c₁ = modify id (assign_all (map set_field ardt)) w.db in
      let w₂ : World = record (counted w₁) { db = c₁ } in
      let set = SetField.status TurnaroundStatus.completed ∷ fields in
      let c₂ = modify id (assign_all set) c₁ in
      let w₃ : World = record (counted w₂) { db = c₂ } in
      elim (Option-cases (find_by_id id c₂)) [
        | inl missing ↦ ground (
          arith,
          update_milestones_run e laws w₁ id ardt,
          update_status_run e laws w₂ id TurnaroundStatus.completed fields,
          assigned_others (map set_field ardt) w.db j h,
          assigned_others set c₁ j h,
        )
        | inr (d, found) ↦ ground (
          arith,
          update_milestones_run e laws w₁ id ardt,
          update_status_run e laws w₂ id TurnaroundStatus.completed fields,
          assigned_others (map set_field ardt) w.db j h,
          assigned_others set c₁ j h,
          publish_turnaround_completed-IsQuiet e d w₃,
        )
      ]

  finish_update-LeavesOthers :
      (task_id : String) (dto : UpdateTaskDto) (u : Turnaround) (w : World)
      → LeavesOthers id (finish_update e id task_id dto u) w
  unfolding finish_update
  finish_update-LeavesOthers task_id dto u w j h =
      let fields : List SetField =
        SetField.progress_percent (progress_of (completed_count u.tasks) (length u.tasks)) ∷ [] in
      let set = SetField.status u.status ∷ fields in
      let w₁ : World = record (counted w) { db = modify id (assign_all set) w.db } in
      let w₂ =
        (when (asks_completion dto.status) (Publisher.publish_task_completed e u task_id) w₁).1 in
      let w₃ = (complete_turnaround e id w₂).1 in
      ground (
        arith,
        update_status_run e laws w id u.status fields,
        assigned_others set w.db j h,
        publish_task_completed-IsQuiet e u task_id w₁,
        complete_turnaround-LeavesOthers w₂ j h,
        get_turnaround-db w₂,
        get_turnaround-db w₃,
      )

  change_task-LeavesOthers :
      (task_id : String) (dto : UpdateTaskDto) (task : Task) (w : World)
      → LeavesOthers id (change_task e id task_id dto task) w
  unfolding change_task
  change_task-LeavesOthers task_id dto task w j h =
      let w₁ = time_taken e dto task w in
      let fields = task_updates dto task (time_read e dto task w) in
      let set = set_positional task_id fields in
      let c = modify id set w.db in
      let w₂ : World = record (counted w₁) { db = c } in
      elim (Option-cases (having_task task_id (find_by_id id c))) [
        | inl missing ↦ ground (
          arith,
          update_task_run e laws w₁ id task_id fields,
          find_by_id-modify_ne id set (set_positional-id task_id fields) j w.db h,
        )
        | inr (d, found) ↦ ground (
          arith,
          update_task_run e laws w₁ id task_id fields,
          find_by_id-modify_ne id set (set_positional-id task_id fields) j w.db h,
          finish_update-LeavesOthers task_id dto d w₂ j h,
        )
      ]

  update_task-LeavesOthers :
      (task_id : String) (dto : UpdateTaskDto) (w : World)
      → LeavesOthers id (update_task e id task_id dto) w
  unfolding update_task get_turnaround
  update_task-LeavesOthers task_id dto w j h = elim (Option-cases (find_by_id id w.db)) [
    | inl missing ↦ ground (arith, find_by_id_run e laws w id)
    | inr (d, found) ↦ elim (Option-cases (e.mongo.task_by_id d.tasks task_id)) [
      | inl missing ↦ ground (arith, find_by_id_run e laws w id)
      | inr (task, there) ↦ ground (
        arith,
        find_by_id_run e laws w id,
        change_task-LeavesOthers task_id dto task (counted w) j h,
      )
    ]
  ]

  update_milestones-LeavesOthers :
      (dto : UpdateMilestonesDto) (w : World) → LeavesOthers id (update_milestones e id dto) w
  unfolding update_milestones get_turnaround
  update_milestones-LeavesOthers dto w j h =
      let ms = parse_milestones e.parse_date dto in
      let set = assign_all (map set_field ms) in
      let c = modify id set w.db in
      let w₁ : World = counted w in
      let w₂ : World = record (counted w₁) { db = c } in
      elim (Option-cases (find_by_id id w.db)) [
        | inl missing ↦ ground (arith, find_by_id_run e laws w id)
        | inr (d, found) ↦ elim (Option-cases (find_by_id id c)) [
          | inl missing ↦ ground (
            arith,
            find_by_id_run e laws w id,
            validate_world ms d.milestones w₁,
            update_milestones_run e laws w₁ id ms,
            assigned_others (map set_field ms) w.db j h,
          )
          | inr (t, there) ↦ ground (
            arith,
            find_by_id_run e laws w id,
            validate_world ms d.milestones w₁,
            update_milestones_run e laws w₁ id ms,
            assigned_others (map set_field ms) w.db j h,
            publish_milestone_updated-IsQuiet e t (map key_of ms) w₂,
          )
        ]
      ]

  -- Whatever it is asked and however it ends, `updateTask` changes no other turnaround.
  pub update_task_others :
      (task_id : String) (dto : UpdateTaskDto) (w : World) (j : String)
      → j ≢ id
      → find_by_id j (update_task e id task_id dto w).1.db ≡ find_by_id j w.db
  update_task_others task_id dto w j h = update_task-LeavesOthers task_id dto w j h

  -- Whatever it is asked and however it ends, `updateMilestones` changes no other turnaround.
  update_milestones_others :
      (dto : UpdateMilestonesDto) (w : World) (j : String)
      → j ≢ id
      → find_by_id j (update_milestones e id dto w).1.db ≡ find_by_id j w.db
  update_milestones_others dto w j h = update_milestones-LeavesOthers dto w j h

  -- Where the turnaround or its task is missing and the store answers, `updateTask` throws a
  -- `NotFoundException` that says which, and neither the collection nor the messages change.
  pub update_task_missing :
      (task_id : String) (dto : UpdateTaskDto) (w : World)
      → laws.fault w.calls ≡ fine
      → task_in id task_id w.db ≡ none
      → update_task e id task_id dto w ≡ (err (not_found (missing_part id task_id w.db)), counted w)
  unfolding update_task get_turnaround
  update_task_missing task_id dto w up missing = elim (Option-cases (find_by_id id w.db)) [
    | inl gone ↦ ground (arith, find_by_id_run e laws w id)
    | inr (d, found) ↦
        ground (arith, find_by_id_run e laws w id, laws.task_by_id_lem d.tasks task_id)
  ]
