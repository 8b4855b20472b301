-- ===== src/Turnaround/Service/Events.antt =====
-- The event that the completion of a task publishes.
use microservices_practice.Common.{
  suc, String, ◌≡◌, refl, ap, ◌∙◌, false, some, List, [], ◌∷◌, ◌++◌, length, arith, ◌==◌,
}
use microservices_practice.Turnaround.Schema.{TaskStatus, Turnaround, Task}
use microservices_practice.Turnaround.Dto.{UpdateTaskDto}
use microservices_practice.Turnaround.Event.{task_completed, Publication}
use microservices_practice.Turnaround.Event
use microservices_practice.Turnaround.Store.{
  ok, fine, SetField, TaskField, find_by_id, find_task, set_positional, modify, assign_all,
  assign_all_task, assign_task, having_task, IsMongo,
}
use microservices_practice.Turnaround.Store.Laws.{
  find_by_id-modify_self, set_positional-id, find_task-set_positional,
}
use mathlib.Core.Option
use microservices_practice.Turnaround.World.{Env, World, counted}
use microservices_practice.Turnaround.Repository.Laws.{
  find_by_id_run, update_status_run, update_task_run,
}
use microservices_practice.Turnaround.Publisher
use microservices_practice.Turnaround.Publisher.Laws.{event_message, publish_delivery}
use microservices_practice.Turnaround.Service.{
  get_turnaround, finish_update, change_task, update_task,
}
use microservices_practice.Turnaround.Tasks.{
  completed_count, progress_of, task_updates, reads_clock,
}

-- Assignments leave the name of a task alone.
assign_all_task-name : (fs : List TaskField) (t : Task) → (assign_all_task fs t).name ≡ t.name
unfolding assign_all_task
assign_all_task-name [] t = refl
assign_all_task-name (TaskField.status s ∷ fs) t = assign_all_task-name fs (record t { status = s })
assign_all_task-name (f ∷ fs) t = assign_all_task-name fs (assign_task f t)

found-set_positional :
    (id task_id : String) (fs : List TaskField) (c : List Turnaround) (d : Turnaround)
    → find_by_id id c ≡ some d
    → find_by_id id (modify id (set_positional task_id fs) c) ≡ some (set_positional task_id fs d)
found-set_positional id task_id fs c d h =
    find_by_id-modify_self id (set_positional task_id fs) (set_positional-id task_id fs) c
    ∙ ap (Option.map (set_positional task_id fs)) h

module _ (e : Env) (laws : IsMongo e.mongo) where
  -- A task of the updated turnaround `u` was completed and others are open.
  finish_update-published :
      (id task_id : String) (dto : UpdateTaskDto) (u t : Turnaround) (task : Task) (w w' : World)
      → finish_update e id task_id dto u w ≡ (ok t, w')
      → dto.status ≡ some TaskStatus.completed
      → (completed_count u.tasks == length u.tasks) ≡ false
      → find_task task_id u.tasks ≡ some task
      → e.broker (suc (suc (suc (suc (suc w.calls))))) ≡ fine
      → w'.published
        ≡ w.published
          ++ event_message e
              (suc w.calls)
              Event.RoutingKey.task_completed
              u.id
              u.flight_id
              (task_completed u.id u.flight_id task_id (some task.name) u.progress_percent)
            ∷ []
  unfolding finish_update Publisher.publish_task_completed get_turnaround
  finish_update-published id task_id dto u t task w w' h done part there up =
      let fields : List SetField =
        SetField.progress_percent (progress_of (completed_count u.tasks) (length u.tasks)) ∷ [] in
      let set = SetField.status u.status ∷ fields in
      let w₁ : World = record (counted w) { db = modify id (assign_all set) w.db } in
      let payload : Event.Payload =
        task_completed u.id u.flight_id task_id (some task.name) u.progress_percent in
      let w₂ =
        (Publisher.publish e Event.RoutingKey.task_completed u.id u.flight_id payload w₁).1 in
      ground (
        arith,
        update_status_run e laws w id u.status fields,
        laws.task_by_id_lem u.tasks task_id,
        publish_delivery e Event.RoutingKey.task_completed u.id u.flight_id payload w₁,
        find_by_id_run e laws w₂ id,
      )

  -- A status of completed always asks for the clock.
  change_task-published :
      (id task_id : String) (dto : UpdateTaskDto) (d t : Turnaround) (task : Task) (w w' : World)
      → change_task e id task_id dto task w ≡ (ok t, w')
      → dto.status ≡ some TaskStatus.completed
      → find_by_id id w.db ≡ some d
      → find_task task_id d.tasks ≡ some task
      → let u = set_positional task_id (task_updates dto task (e.now w.calls)) d in
        (completed_count u.tasks == length u.tasks) ≡ false
        → e.broker (suc (suc (suc (suc (suc (suc (suc w.calls))))))) ≡ fine
        → w'.published
          ≡ w.published
            ++ event_message e
                (suc (suc (suc w.calls)))
                Event.RoutingKey.task_completed
                d.id
                d.flight_id
                (task_completed d.id d.flight_id task_id (some task.name) d.progress_percent)
              ∷ []
  unfolding set_positional
  change_task-published id task_id dto d t task w w' h done found there part up =
      let fields = task_updates dto task (e.now w.calls) in
      let u = set_positional task_id fields d in
      let c = modify id (set_positional task_id fields) w.db in
      let w₂ : World = record (counted (counted w)) { db = c } in
      let task' = assign_all_task fields task in
      let run : finish_update e id task_id dto u w₂ ≡ (ok t, w') =
        unfold change_task having_task reads_clock in
        ground (
          arith,
          update_task_run e laws (counted w) id task_id fields,
          found-set_positional id task_id fields w.db d found,
        ) in
      let there' : find_task task_id u.tasks ≡ some task' =
        find_task-set_positional task_id fields d task there in
      finish_update-published id task_id dto u t task' w₂ w' run done part there' up
      ∙ ap
          (λ (n : String).
            w.published
            ++ event_message e (suc (suc (suc w.calls))) Event.RoutingKey.task_completed d.id
                d.flight_id
                (Event.Payload.task_completed d.id d.flight_id task_id (some n) d.progress_percent)
              ∷ [])
          (assign_all_task-name fields task)

  -- When a request completes a task while others stay open, and the broker takes the message,
  -- exactly one message is published: turnaround.task.completed with the task's id and name, and
  -- with the progress that was stored before the request, not the one that the request leads to.
  pub task_completed_message :
      (id task_id : String) (dto : UpdateTaskDto) (d t : Turnaround) (task : Task) (w w' : World)
      → update_task e id task_id dto w ≡ (ok t, w')
      → dto.status ≡ some TaskStatus.completed
      → find_by_id id w.db ≡ some d
      → find_task task_id d.tasks ≡ some task
      → let u = set_positional task_id (task_updates dto task (e.now (suc w.calls))) d in
        (completed_count u.tasks == length u.tasks) ≡ false
        → e.broker (suc (suc (suc (suc (suc (suc (suc (suc w.calls)))))))) ≡ fine
        → w'.published
          ≡ w.published
            ++ event_message e
                (suc (suc (suc (suc w.calls))))
                Event.RoutingKey.task_completed
                d.id
                d.flight_id
                (task_completed d.id d.flight_id task_id (some task.name) d.progress_percent)
              ∷ []
  unfolding update_task get_turnaround
  task_completed_message id task_id dto d t task w w' h done found there part up =
      let run : change_task e id task_id dto task (counted w) ≡ (ok t, w') =
        ground (arith, find_by_id_run e laws w id, laws.task_by_id_lem d.tasks task_id) in
      change_task-published id task_id dto d t task (counted w) w' run done found there part up
