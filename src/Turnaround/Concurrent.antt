-- ===== src/Turnaround/Concurrent.antt =====
-- Requests that run at the same time (turnaround/turnaround.service.ts): `updateTask` is cut at its
-- `await`s. Node runs one piece of code at a time, so a run of several requests is a sequence of
-- pieces: each goes on from a reply, up to and with the effect of the next external call. A publish
-- is one piece, since it touches no document.
pub mod Alone
pub mod Apart
pub mod Leaves
pub mod Progress
pub mod Milestones
pub mod Races
pub mod Flights
use microservices_practice.Common.{
  ℕ, zero, suc, String, Bool, true, false, Option, none, some, List, [], ◌∷◌, length, ◌==◌,
}
use microservices_practice.Common.Int.{pos}
use microservices_practice.Turnaround.Schema.{
  time, Task, TurnaroundStatus, MilestoneKey, Turnaround,
}
use microservices_practice.Turnaround.Dto.{UpdateTaskDto}
use microservices_practice.Turnaround.Store.{
  Error, not_found, task_not_found, failed_to_update_task, Result, ok, err, SetField,
}
use microservices_practice.Turnaround.World.{Env, World, Action, pure, throw, ◌>>=◌, ◌>>◌, date_now}
use microservices_practice.Turnaround.Repository
use microservices_practice.Turnaround.Publisher
use microservices_practice.Turnaround.Service.{get_turnaround, update_time, when, asks_completion}
use microservices_practice.Turnaround.Tasks.{task_updates, completed_count, progress_of}

-- Where a call of `updateTask` stands, with what it still holds: the task that it read, the
-- document that its update returned (`updated`), the time of completion, the completed document.
pub data Stage : Type 0 where
  received : Stage
  found : Task → Stage
  changed progressed announced : Turnaround → Stage
  ready : ℕ → Stage
  completed : Turnaround → Stage
  last : Stage
  returned : Turnaround → Stage
  failed : Error → Stage

pub record Request : Type 0 where
  pub turnaround_id : String
  pub task_id : String
  pub dto : UpdateTaskDto
  pub stage : Stage

abbrev pub stage_of : Result Stage → Stage
stage_of (ok stage) = stage
stage_of (err x) = Stage.failed x

module _ (e : Env) where
  -- The next piece of a call of `updateTask`.
  unfoldable pub next : (turnaround_id task_id : String) → UpdateTaskDto → Stage → Action Stage
  next turnaround_id task_id dto Stage.received = do
    turnaround ← get_turnaround e turnaround_id
    λ (w : World). elim (e.mongo.task_by_id turnaround.tasks task_id) [
      | some task ↦ pure (Stage.found task) w
      | none ↦ throw (not_found (task_not_found task_id turnaround_id)) w
    ]
  next turnaround_id task_id dto (Stage.found task) = do
    now ← update_time e dto task
    updated ← Repository.update_task e turnaround_id task_id (task_updates dto task now)
    λ (w : World). elim updated [
      | some turnaround ↦ pure (Stage.changed turnaround) w
      | none ↦ throw (not_found failed_to_update_task) w
    ]
  next turnaround_id task_id dto (Stage.changed updated) = do
    let progress = progress_of (completed_count updated.tasks) (length updated.tasks)
    Repository.update_status e turnaround_id updated.status
        (SetField.progress_percent progress ∷ [])
    pure (Stage.progressed updated)
  next turnaround_id task_id dto (Stage.progressed updated) = do
    when (asks_completion dto.status) (Publisher.publish_task_completed e updated task_id)
    pure (Stage.announced updated)
  next turnaround_id task_id dto (Stage.announced updated) = λ (w : World).
      elim (completed_count updated.tasks == length updated.tasks) [
        | true ↦
            (do
              ardt ← date_now e
              Repository.update_milestones e turnaround_id
                  ((MilestoneKey.ardt, time (pos ardt)) ∷ [])
              pure (Stage.ready ardt))
              w
        | false ↦ pure Stage.last w
      ]
  next turnaround_id task_id dto (Stage.ready ardt) = do
    closed ←
        Repository.update_status e turnaround_id TurnaroundStatus.completed
          (SetField.completed_at (time (pos ardt)) ∷ SetField.progress_percent 100 ∷ [])
    λ (w : World). elim closed [
      | some turnaround ↦ pure (Stage.completed turnaround) w
      | none ↦ pure Stage.last w
    ]
  next turnaround_id task_id dto (Stage.completed turnaround) = do
    Publisher.publish_turnaround_completed e turnaround
    pure Stage.last
  next turnaround_id task_id dto Stage.last = do
    turnaround ← get_turnaround e turnaround_id
    pure (Stage.returned turnaround)
  next turnaround_id task_id dto (Stage.returned turnaround) = pure (Stage.returned turnaround)
  next turnaround_id task_id dto (Stage.failed x) = pure (Stage.failed x)

  -- A number of pieces of one call, with nothing between them.
  unfoldable pub alone : ℕ → (turnaround_id task_id : String) → UpdateTaskDto → Stage → Action Stage
  alone zero turnaround_id task_id dto stage = pure stage
  alone (suc n) turnaround_id task_id dto stage = do
    stage' ← next turnaround_id task_id dto stage
    alone n turnaround_id task_id dto stage'

  unfoldable pub advance : Request → World → Request × World
  unfolding next
  advance r w =
      let (reply, w') = next r.turnaround_id r.task_id r.dto r.stage w in
      (record r { stage = stage_of reply }, w')

  -- One piece of the request at a position.
  unfoldable pub turn : ℕ → List Request → World → List Request × World
  unfolding advance
  turn i [] w = ([], w)
  turn zero (r ∷ rs) w = let (r', w') = advance r w in (r' ∷ rs, w')
  turn (suc i) (r ∷ rs) w = let (rs', w') = turn i rs w in (r ∷ rs', w')

  -- A run in which the event loop takes the requests in the order of a schedule.
  unfoldable pub run : List ℕ → List Request → World → List Request × World
  unfolding turn
  run [] rs w = (rs, w)
  run (i ∷ schedule) rs w = let (rs', w') = turn i rs w in run schedule rs' w'
