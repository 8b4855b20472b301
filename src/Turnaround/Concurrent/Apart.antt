-- ===== src/Turnaround/Concurrent/Apart.antt =====
-- Tasks that no request names.
use microservices_practice.Common.{
  ℕ, zero, suc, All, String, ◌≡◌, ◌≢◌, refl, ◌∙◌, ◌⊎◌, List, [], ◌∷◌, map, arith, length,
  Bool-cases, Option-cases, inl, inr, str_eq, eq_iff,
}
use microservices_practice.Common.Int.{pos}
use microservices_practice.Turnaround.Schema.{Date, time, TurnaroundStatus, MilestoneKey}
use microservices_practice.Turnaround.Dto.{UpdateTaskDto}
use microservices_practice.Turnaround.Store.{
  Collection, SetField, TaskField, IsMongo, assign_all, assign_all_task, modify, set_positional,
  find_by_id,
}
use microservices_practice.Turnaround.Store.Laws.{
  find_by_id-modify_self, find_by_id-modify_ne, assign_all-id, set_positional-id, assign_all-tasks,
  find_task-modify_task_ne, assign_all_task-id,
}
use microservices_practice.Turnaround.World.{Env, World, counted}
use microservices_practice.Turnaround.Repository.{set_field}
use microservices_practice.Turnaround.Repository.Laws.{
  find_by_id_run, update_status_run, update_milestones_run, update_task_run,
}
use microservices_practice.Turnaround.Publisher.Laws.{
  publish_task_completed-IsQuiet, publish_turnaround_completed-IsQuiet,
}
use microservices_practice.Turnaround.Service.{get_turnaround}
use microservices_practice.Turnaround.Service.Frame.{task_in}
use microservices_practice.Turnaround.Tasks.{task_updates, completed_count, progress_of}
use microservices_practice.Turnaround.Service.Update.{time_read, time_taken}
use microservices_practice.Turnaround.Concurrent.{Stage, Request, next, turn, run}

-- Another turnaround, or another task of the same one.
abbrev pub Differs : (j k id task_id : String) → Type 0
Differs j k id task_id = (j ≢ id) ⊎ (k ≢ task_id)

module _ (j k : String) where
  pub task_in-assign_all :
      (id : String) (fs : List SetField) (c : Collection)
      → task_in j k (modify id (assign_all fs) c) ≡ task_in j k c
  task_in-assign_all id fs c = elim (Bool-cases (str_eq j id)) [
    | inl same ↦ elim (Option-cases (find_by_id id c)) [
      | inl missing ↦
          ground
            (arith, eq_iff j id, find_by_id-modify_self id (assign_all fs) (assign_all-id fs) c)
      | inr (d, there) ↦ ground (
        arith,
        eq_iff j id,
        find_by_id-modify_self id (assign_all fs) (assign_all-id fs) c,
        assign_all-tasks fs d,
      )
    ]
    | inr other ↦
        ground (arith, eq_iff j id, find_by_id-modify_ne id (assign_all fs) (assign_all-id fs) j c)
  ]

  pub task_in-set_positional :
      (id task_id : String) (fs : List TaskField) (c : Collection)
      → Differs j k id task_id
      → task_in j k (modify id (set_positional task_id fs) c) ≡ task_in j k c
  unfolding set_positional
  task_in-set_positional id task_id fs c h = elim (Bool-cases (str_eq j id)) [
    | inl same ↦ elim (Option-cases (find_by_id id c)) [
      | inl missing ↦ ground (
        arith,
        eq_iff j id,
        find_by_id-modify_self id (set_positional task_id fs) (set_positional-id task_id fs) c,
      )
      | inr (d, there) ↦ ground (
        arith,
        eq_iff j id,
        find_by_id-modify_self id (set_positional task_id fs) (set_positional-id task_id fs) c,
        find_task-modify_task_ne task_id (assign_all_task fs) k d.tasks (assign_all_task-id fs),
      )
    ]
    | inr other ↦ ground (
      arith,
      eq_iff j id,
      find_by_id-modify_ne id (set_positional task_id fs) (set_positional-id task_id fs) j c,
    )
  ]

module _ (e : Env) (laws : IsMongo e.mongo) (j k id task_id : String) (dto : UpdateTaskDto) where
  -- One piece of a request keeps every task that the request does not name.
  next-keeps :
      (stage : Stage) (w : World)
      → Differs j k id task_id
      → task_in j k (next e id task_id dto stage w).1.db ≡ task_in j k w.db
  unfolding next get_turnaround
  next-keeps Stage.received w h = ground (arith, find_by_id_run e laws w id)
  next-keeps (Stage.found task) w h =
      let fields = task_updates dto task (time_read e dto task w) in
      ground (
        arith,
        update_task_run e laws (time_taken e dto task w) id task_id fields,
        task_in-set_positional j k id task_id fields w.db h,
      )
  next-keeps (Stage.changed u) w h =
      let fields : List SetField =
        SetField.progress_percent (progress_of (completed_count u.tasks) (length u.tasks)) ∷ [] in
      ground (
        arith,
        update_status_run e laws w id u.status fields,
        task_in-assign_all j k id (SetField.status u.status ∷ fields) w.db,
      )
  next-keeps (Stage.progressed u) w h = ground (arith, publish_task_completed-IsQuiet e u task_id w)
  next-keeps (Stage.announced u) w h =
      let ardt : List (MilestoneKey × Date) =
        (MilestoneKey.ardt, time (pos (e.now w.calls))) ∷ [] in
      ground (
        arith,
        update_milestones_run e laws (counted w) id ardt,
        task_in-assign_all j k id (map set_field ardt) w.db,
      )
  next-keeps (Stage.ready ardt) w h =
      let fields : List SetField =
        SetField.completed_at (time (pos ardt)) ∷ SetField.progress_percent 100 ∷ [] in
      ground (
        arith,
        update_status_run e laws w id TurnaroundStatus.completed fields,
        task_in-assign_all j k id (SetField.status TurnaroundStatus.completed ∷ fields) w.db,
      )
  next-keeps (Stage.completed t) w h = ground (arith, publish_turnaround_completed-IsQuiet e t w)
  next-keeps Stage.last w h = ground (arith, find_by_id_run e laws w id)
  next-keeps (Stage.returned t) w h = refl
  next-keeps (Stage.failed x) w h = refl

-- No request names the task `k` of the turnaround `j`.
abbrev pub AreApart : (j k : String) → List Request → Type 0
AreApart j k rs = All (λ (r : Request). Differs j k r.turnaround_id r.task_id) rs

module _ (e : Env) (laws : IsMongo e.mongo) (j k : String) where
  turn-keeps :
      (i : ℕ) (rs : List Request) (w : World)
      → AreApart j k rs
      → AreApart j k (turn e i rs w).0 × (task_in j k (turn e i rs w).1.db ≡ task_in j k w.db)
  unfolding turn
  turn-keeps i [] w h = (tt, refl)
  turn-keeps zero (r ∷ rs) w (a, h) =
      ((a, h), next-keeps e laws j k r.turnaround_id r.task_id r.dto r.stage w a)
  turn-keeps (suc i) (r ∷ rs) w (a, h) = let (h', same) = turn-keeps i rs w h in ((a, h'), same)

  -- However the pieces of any number of `updateTask` requests are interleaved, and whatever the
  -- store and the broker answer, a task that none of them names stays as it was.
  pub run-keeps_task :
      (schedule : List ℕ) (rs : List Request) (w : World)
      → AreApart j k rs
      → task_in j k (run e schedule rs w).1.db ≡ task_in j k w.db
  unfolding run
  run-keeps_task [] rs w h = refl
  run-keeps_task (i ∷ schedule) rs w h =
      let (h', same) = turn-keeps i rs w h in
      run-keeps_task schedule (turn e i rs w).0 (turn e i rs w).1 h' ∙ same
