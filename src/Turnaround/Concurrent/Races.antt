-- ===== src/Turnaround/Concurrent/Races.antt =====
-- What two requests do to each other.
use microservices_practice.Common.{◌<◌, String, ◌≡◌, some, List, [], ◌∷◌, arith, length}
use microservices_practice.Turnaround.Schema.{Turnaround, TurnaroundStatus}
use microservices_practice.Turnaround.Dto.{UpdateTaskDto}
use microservices_practice.Turnaround.Store.{fine, SetField, IsMongo, assign_all, find_by_id}
use microservices_practice.Turnaround.World.{Env, World}
use microservices_practice.Turnaround.Repository.Laws.{update_status_run}
use microservices_practice.Turnaround.Service.Update.{found-assign_all}
use microservices_practice.Turnaround.Tasks.{completed_count, progress_of}
use microservices_practice.Turnaround.Tasks.Progress.{progress_of-lt}
use microservices_practice.Turnaround.Concurrent.{Stage, next}

module _ (e : Env) (laws : IsMongo e.mongo) where
  -- A request that changed its task while another task was open, on a turnaround in progress of
  -- fewer than 40 tasks, goes on when the stored turnaround has meanwhile been completed, with every
  -- task done. Where the store answers, the turnaround is in progress again, below 100 percent,
  -- though every task is still done.
  pub stale_progress :
      (id task_id : String) (dto : UpdateTaskDto) (u d : Turnaround) (w : World)
      → laws.fault w.calls ≡ fine
      → u.status ≡ TurnaroundStatus.in_progress
      → completed_count u.tasks < length u.tasks
      → length u.tasks < 40
      → find_by_id id w.db ≡ some d
      → d.status ≡ TurnaroundStatus.completed
      → completed_count d.tasks ≡ length d.tasks
      → let w' = (next e id task_id dto (Stage.changed u) w).1 in
        (t : Turnaround) × (find_by_id id w'.db ≡ some t)
        × (completed_count t.tasks ≡ length t.tasks)
        × (t.status ≡ TurnaroundStatus.in_progress)
        × (t.progress_percent < 100)
  unfolding next assign_all
  stale_progress id task_id dto u d w up running part small found closed all =
      let progress = progress_of (completed_count u.tasks) (length u.tasks) in
      let fields : List SetField = SetField.progress_percent progress ∷ [] in
      let set = SetField.status u.status ∷ fields in
      (
        assign_all set d,
        ground (
          arith,
          update_status_run e laws w id u.status fields,
          found-assign_all e laws id set w.db d found,
        ),
        all,
        running,
        progress_of-lt (completed_count u.tasks) (length u.tasks) part (omega arith),
      )
