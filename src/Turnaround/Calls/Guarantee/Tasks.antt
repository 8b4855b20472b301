-- ===== src/Turnaround/Calls/Guarantee/Tasks.antt =====
-- The pieces of `updateTask` (turnaround/turnaround.service.ts) as writes of the store.
use microservices_practice.Common.{
  ◌-◌, ◌≤◌, String, ◌≡◌, refl, some, List, [], ◌∷◌, map, length, arith, inl, inr, All, Option-cases,
  Bool-cases, ◌==◌,
}
use microservices_practice.Common.Int.{pos}
use microservices_practice.Turnaround.Schema.{Date, time, Task, TurnaroundStatus, MilestoneKey}
use microservices_practice.Turnaround.Dto.{UpdateTaskDto}
use microservices_practice.Turnaround.Store.{
  Collection, SetField, after, IsMongo, assign_all, modify, set_positional, find_by_id,
}
use microservices_practice.Turnaround.Store.Laws.{Result-cases}
use microservices_practice.Turnaround.World.{Env, World, counted}
use microservices_practice.Turnaround.Repository.{set_field}
use microservices_practice.Turnaround.Repository.Laws.{
  find_by_id_run, update_status_run, update_milestones_run, update_task_run,
}
use microservices_practice.Turnaround.Publisher.Laws.{
  publish_task_completed-IsQuiet, publish_turnaround_completed-IsQuiet,
}
use microservices_practice.Turnaround.Service.{get_turnaround}
use microservices_practice.Turnaround.Service.Frame.{task_in}
use microservices_practice.Turnaround.Service.Update.{time_read, time_taken}
use microservices_practice.Turnaround.Tasks.{task_updates, completed_count, progress_of}
use microservices_practice.Turnaround.Tasks.Progress.{completed_count-le-length, progress_of-le}
use microservices_practice.Turnaround.Concurrent.{Stage, stage_of, next}
use microservices_practice.Turnaround.Concurrent.Leaves.{Leaves}
use microservices_practice.Turnaround.Concurrent.Progress.{rank, next-rank}
use microservices_practice.Turnaround.Calls.Effect.{
  IsAllowed, Update, same, set, set_task, task_updates-IsTimed,
}
use microservices_practice.Turnaround.Calls.Effect.Keeps.{Follows}
use microservices_practice.Turnaround.Calls.Effect.Writes.{after-Update, milestones-IsAllowed}

-- The task that a call of `updateTask` has read is there, started if it was.
abbrev pub Knows : (id task_id : String) → Stage → Collection → Type 0
Knows id task_id (Stage.found task) c =
    (t : Task) × (task_in id task_id c ≡ some t) × Follows task t
Knows id task_id _ c = Unit

module _ (e : Env) (laws : IsMongo e.mongo) (id task_id : String) (dto : UpdateTaskDto) where
  -- The updates of a task that was found in progress or not.
  found-Update :
      (task : Task) (w : World)
      → Knows id task_id (Stage.found task) w.db
      → Update w.db (next e id task_id dto (Stage.found task) w).1.db
  unfolding next
  found-Update task w (t, there, follows) =
      let now = time_read e dto task w in
      let fields = task_updates dto task now in
      let c = modify id (set_positional task_id fields) w.db in
      after-Update (laws.fault (time_taken e dto task w).calls) w.db c
        (next e id task_id dto (Stage.found task) w).1.db
        (ground (arith, update_task_run e laws (time_taken e dto task w) id task_id fields))
        (set_task id task_id fields
          (λ u found timed.
            task_updates-IsTimed dto task u now (λ s. cc (follows.started s, there, found)) timed)
          refl)

  status-Update :
      (s : TurnaroundStatus) (fields : List SetField) (w : World) (c₁ : Collection)
      → All IsAllowed fields
      → c₁
        ≡ after (laws.fault w.calls) (modify id (assign_all (SetField.status s ∷ fields)) w.db) w.db
      → Update w.db c₁
  status-Update s fields w c₁ a p =
      after-Update (laws.fault w.calls) w.db _ c₁ p
        (set id (SetField.status s ∷ fields) (tt, a) refl)

  pub next-Update :
      (s : Stage) (w : World)
      → Knows id task_id s w.db
      → Update w.db (next e id task_id dto s w).1.db
  unfolding next get_turnaround
  next-Update Stage.received w h = same (ground (arith, find_by_id_run e laws w id))
  next-Update (Stage.found task) w h = found-Update task w h
  next-Update (Stage.changed u) w h =
      let progress = progress_of (completed_count u.tasks) (length u.tasks) in
      let fields : List SetField = SetField.progress_percent progress ∷ [] in
      status-Update u.status fields w _
        (
          progress_of-le (completed_count u.tasks) (length u.tasks)
              (completed_count-le-length u.tasks),
          tt,
        )
        (ground (arith, update_status_run e laws w id u.status fields))
  next-Update (Stage.progressed u) w h =
      same (ground (arith, publish_task_completed-IsQuiet e u task_id w))
  next-Update (Stage.announced u) w h =
      let ardt : List (MilestoneKey × Date) =
        (MilestoneKey.ardt, time (pos (e.now w.calls))) ∷ [] in
      elim (Bool-cases (completed_count u.tasks == length u.tasks)) [
        | inl all ↦
            after-Update (laws.fault (counted w).calls) w.db
              (modify id (assign_all (map set_field ardt)) w.db) _
              (ground (arith, update_milestones_run e laws (counted w) id ardt))
              (set id (map set_field ardt) (milestones-IsAllowed ardt) refl)
        | inr part ↦ same (ground arith)
      ]
  next-Update (Stage.ready ardt) w h =
      let fields : List SetField =
        SetField.completed_at (time (pos ardt)) ∷ SetField.progress_percent 100 ∷ [] in
      status-Update TurnaroundStatus.completed fields w _ (tt, (omega arith, tt))
        (ground (arith, update_status_run e laws w id TurnaroundStatus.completed fields))
  next-Update (Stage.completed t) w h =
      same (ground (arith, publish_turnaround_completed-IsQuiet e t w))
  next-Update Stage.last w h = same (ground (arith, find_by_id_run e laws w id))
  next-Update (Stage.returned t) w h = same refl
  next-Update (Stage.failed x) w h = same refl

  -- What a call has found it knows.
  received_found :
      (w : World) (task : Task)
      → stage_of (next e id task_id dto Stage.received w).0 ≡ Stage.found task
      → task_in id task_id (next e id task_id dto Stage.received w).1.db ≡ some task
  unfolding next get_turnaround
  received_found w task h = elim (Option-cases (find_by_id id w.db)) [
    | inl missing ↦ absurd (ground (arith, find_by_id_run e laws w id))
    | inr (d, there) ↦
        ground (arith, find_by_id_run e laws w id, laws.task_by_id_lem d.tasks task_id)
  ]

  Knows-found :
      (s : Stage) (c : Collection)
      → rank s ≤ 7
      → ((task : Task) → s ≡ Stage.found task → task_in id task_id c ≡ some task)
      → Knows id task_id s c
  Knows-found Stage.received c h found = absurd (omega arith)
  Knows-found (Stage.found task) c h found = (task, found task refl, record { started = λ x. x })
  Knows-found (Stage.changed u) c h found = tt
  Knows-found (Stage.progressed u) c h found = tt
  Knows-found (Stage.announced u) c h found = tt
  Knows-found (Stage.ready n) c h found = tt
  Knows-found (Stage.completed t) c h found = tt
  Knows-found Stage.last c h found = tt
  Knows-found (Stage.returned t) c h found = tt
  Knows-found (Stage.failed x) c h found = tt

  Knows-rank : (s : Stage) (c : Collection) → rank s ≤ 6 → Knows id task_id s c
  Knows-rank s c h = Knows-found s c (omega arith) (λ task p. absurd (ground (arith, h, p)))

  next-stage_rank :
      (s : Stage) (w : World) → rank (stage_of (next e id task_id dto s w).0) ≤ rank s - 1
  unfolding Leaves
  next-stage_rank s w = elim (Result-cases (next e id task_id dto s w).0) [
    | inl (s', done) ↦ ground (arith, next-rank e id task_id dto s w)
    | inr (x, thrown) ↦ ground arith
  ]

  pub next-Knows :
      (s : Stage) (w : World)
      → Knows id task_id (stage_of (next e id task_id dto s w).0) (next e id task_id dto s w).1.db
  next-Knows Stage.received w =
      Knows-found _ _ (next-stage_rank Stage.received w) (received_found w)
  next-Knows (Stage.found task) w =
      Knows-rank _ _ (omega (arith, next-stage_rank (Stage.found task) w))
  next-Knows (Stage.changed u) w =
      Knows-rank _ _ (omega (arith, next-stage_rank (Stage.changed u) w))
  next-Knows (Stage.progressed u) w =
      Knows-rank _ _ (omega (arith, next-stage_rank (Stage.progressed u) w))
  next-Knows (Stage.announced u) w =
      Knows-rank _ _ (omega (arith, next-stage_rank (Stage.announced u) w))
  next-Knows (Stage.ready n) w = Knows-rank _ _ (omega (arith, next-stage_rank (Stage.ready n) w))
  next-Knows (Stage.completed t) w =
      Knows-rank _ _ (omega (arith, next-stage_rank (Stage.completed t) w))
  next-Knows Stage.last w = Knows-rank _ _ (omega (arith, next-stage_rank Stage.last w))
  next-Knows (Stage.returned t) w =
      Knows-rank _ _ (omega (arith, next-stage_rank (Stage.returned t) w))
  next-Knows (Stage.failed x) w = Knows-rank _ _ (omega (arith, next-stage_rank (Stage.failed x) w))
