-- ===== src/Turnaround/Service/Update.antt =====
-- `updateTask`: what is stored when it returns.
use microservices_practice.Common.{
  ℕ, suc, String, ◌≡◌, ap, ◌∙◌, Bool, some, List, [], ◌∷◌, map, length, arith, ◌==◌, Option-cases,
  Bool-cases, inl, inr, if◌then◌else◌,
}
use mathlib.Core.Option
use mathlib.Core.Path.{subst}
use microservices_practice.Common.Int.{pos}
use microservices_practice.Turnaround.Schema.{
  Date, time, TurnaroundStatus, MilestoneKey, Turnaround, Task,
}
use microservices_practice.Turnaround.Dto.{UpdateTaskDto}
use microservices_practice.Turnaround.Store.{
  Collection, ok, TaskField, SetField, assign_all, modify, find_by_id, find_task, having_task,
  set_positional, IsMongo,
}
use microservices_practice.Turnaround.Store.Laws.{
  find_by_id-modify_self, assign_all-id, set_positional-id,
}
use microservices_practice.Turnaround.World.{Env, World, counted}
use microservices_practice.Turnaround.Repository.{set_field}
use microservices_practice.Turnaround.Repository.Laws.{
  find_by_id_run, update_status_run, update_milestones_run, update_task_run,
}
use microservices_practice.Turnaround.Publisher
use microservices_practice.Turnaround.Publisher.Laws.{
  publish_task_completed-IsQuiet, publish_turnaround_completed-IsQuiet,
}
use microservices_practice.Turnaround.Service.{
  get_turnaround, complete_turnaround, finish_update, change_task, update_task, when,
  asks_completion,
}
use microservices_practice.Turnaround.Tasks.{
  completed_count, progress_of, task_updates, reads_clock,
}

-- A turnaround whose last task was finished at a time.
abbrev pub finished : ℕ → Turnaround → Turnaround
finished now d = record d {
  status = TurnaroundStatus.completed;
  completed_at = some (time (pos now));
  progress_percent = 100;
  milestones = record d.milestones { ardt = some (time (pos now)) };
}

-- A turnaround with its progress recalculated, and what the last part of `updateTask` makes of
-- it, which finishes it at the time `now` if every task is done.
abbrev pub progressed : Turnaround → Turnaround
progressed u = record u {
  progress_percent = progress_of (completed_count u.tasks) (length u.tasks);
}

abbrev pub settled : ℕ → Turnaround → Turnaround
settled now u =
    if completed_count u.tasks == length u.tasks then finished now (progressed u) else progressed u

-- The time and the world after `updateTask` has read the clock, if it does.
abbrev pub time_read : Env → UpdateTaskDto → Task → World → ℕ
time_read e dto task w = if reads_clock dto task then e.now w.calls else 0

abbrev pub time_taken : Env → UpdateTaskDto → Task → World → World
time_taken e dto task w = if reads_clock dto task then counted w else w

-- The updates hold the time that was read for them, or none.
updates_at_time :
    (e : Env) (dto : UpdateTaskDto) (task : Task) (w : World)
    → task_updates dto task (time_read e dto task w) ≡ task_updates dto task (e.now w.calls)
unfolding task_updates reads_clock
updates_at_time e dto task w = ground arith

module _ (e : Env) (laws : IsMongo e.mongo) where
  pub get_turnaround_ok :
      (id : String) (w : World) {t : Turnaround} {w' : World}
      → get_turnaround e id w ≡ (ok t, w')
      → (find_by_id id w.db ≡ some t) × (w' ≡ counted w)
  unfolding get_turnaround
  get_turnaround_ok id w h = ground (arith, find_by_id_run e laws w id)

  -- After assignments to the document with an id, that document is found with them.
  pub found-assign_all :
      (id : String) (fs : List SetField) (c : Collection) (d : Turnaround)
      → find_by_id id c ≡ some d
      → find_by_id id (modify id (assign_all fs) c) ≡ some (assign_all fs d)
  found-assign_all id fs c d h =
      find_by_id-modify_self id (assign_all fs) (assign_all-id fs) c
      ∙ ap (Option.map (assign_all fs)) h

  pub complete_turnaround_ok :
      (id : String) (w : World) {w' : World} (d : Turnaround)
      → complete_turnaround e id w ≡ (ok tt, w')
      → find_by_id id w.db ≡ some d
      → find_by_id id w'.db ≡ some (finished (e.now w.calls) d)
  unfolding complete_turnaround assign_all
  complete_turnaround_ok id w {w'} d h found =
      let now = e.now w.calls in
      let ardt : List (MilestoneKey × Date) = (MilestoneKey.ardt, time (pos now)) ∷ [] in
      let fields : List SetField =
        SetField.completed_at (time (pos now)) ∷ SetField.progress_percent 100 ∷ [] in
      let w₁ : World = counted w in
      let c₁ = modify id (assign_all (map set_field ardt)) w.db in
      let w₂ : World = record (counted w₁) { db = c₁ } in
      let d₁ = assign_all (map set_field ardt) d in
      let set = SetField.status TurnaroundStatus.completed ∷ fields in
      let w₃ : World = record (counted w₂) { db = modify id (assign_all set) c₁ } in
      ground (
        arith,
        update_milestones_run e laws w₁ id ardt,
        update_status_run e laws w₂ id TurnaroundStatus.completed fields,
        found-assign_all id (map set_field ardt) w.db d found,
        found-assign_all id set c₁ d₁,
        publish_turnaround_completed-IsQuiet e (assign_all set d₁) w₃,
      )

  pub when_publishing-db :
      (b : Bool) (u : Turnaround) (task_id : String) (w : World)
      → ((when b (Publisher.publish_task_completed e u task_id) w).0 ≡ ok tt)
        × ((when b (Publisher.publish_task_completed e u task_id) w).1.db ≡ w.db)
  when_publishing-db b u task_id w = ground (arith, publish_task_completed-IsQuiet e u task_id w)

  finish_update_ok :
      (id task_id : String) (dto : UpdateTaskDto) (u t : Turnaround) (w : World) {w' : World}
      → finish_update e id task_id dto u w ≡ (ok t, w')
      → find_by_id id w.db ≡ some u
      → (k : ℕ) × (t ≡ settled (e.now k) u) × (find_by_id id w'.db ≡ some t)
  unfolding finish_update assign_all
  finish_update_ok id task_id dto u t w {w'} h found =
      let fields : List SetField =
        SetField.progress_percent (progress_of (completed_count u.tasks) (length u.tasks)) ∷ [] in
      let set = SetField.status u.status ∷ fields in
      let w₁ : World = record (counted w) { db = modify id (assign_all set) w.db } in
      let asked = asks_completion dto.status in
      let w₂ = (when asked (Publisher.publish_task_completed e u task_id) w₁).1 in
      let w₃ = (complete_turnaround e id w₂).1 in
      elim (Bool-cases (completed_count u.tasks == length u.tasks)) [
        | inl all ↦ (
          w₂.calls,
          ground (
            arith,
            update_status_run e laws w id u.status fields,
            found-assign_all id set w.db u found,
            when_publishing-db asked u task_id w₁,
            complete_turnaround_ok id w₂ {w' = w₃} (progressed u),
            get_turnaround_ok id w₃ {t = t} {w' = w'},
          ),
          ground (
            arith,
            update_status_run e laws w id u.status fields,
            found-assign_all id set w.db u found,
            when_publishing-db asked u task_id w₁,
            get_turnaround_ok id w₃ {t = t} {w' = w'},
          ),
        )
        | inr part ↦ (
          0,
          ground (
            arith,
            update_status_run e laws w id u.status fields,
            found-assign_all id set w.db u found,
            when_publishing-db asked u task_id w₁,
            get_turnaround_ok id w₂ {t = t} {w' = w'},
          ),
          ground (
            arith,
            update_status_run e laws w id u.status fields,
            found-assign_all id set w.db u found,
            when_publishing-db asked u task_id w₁,
            get_turnaround_ok id w₂ {t = t} {w' = w'},
          ),
        )
      ]

  settled_at_time :
      (k : ℕ) (task_id : String) (dto : UpdateTaskDto) (task : Task) (d t : Turnaround) (w : World)
      → t
        ≡ settled
            (e.now k)
            (set_positional task_id (task_updates dto task (time_read e dto task w)) d)
      → t ≡ settled (e.now k) (set_positional task_id (task_updates dto task (e.now w.calls)) d)
  settled_at_time k task_id dto task d t w h =
      subst (λ (fs : List TaskField). t ≡ settled (e.now k) (set_positional task_id fs d))
        (updates_at_time e dto task w) h

  change_task_ok :
      (id task_id : String) (dto : UpdateTaskDto) (task : Task) (d t : Turnaround) (w : World)
      {w' : World}
      → change_task e id task_id dto task w ≡ (ok t, w')
      → find_by_id id w.db ≡ some d
      → (k : ℕ) × (t
          ≡ settled (e.now k) (set_positional task_id (task_updates dto task (e.now w.calls)) d))
        × (find_by_id id w'.db ≡ some t)
  unfolding change_task having_task
  change_task_ok id task_id dto task d t w {w'} h found =
      let now = time_read e dto task w in
      let w₁ = time_taken e dto task w in
      let fields = task_updates dto task now in
      let c = modify id (set_positional task_id fields) w.db in
      let d' = set_positional task_id fields d in
      let w₂ : World = record (counted w₁) { db = c } in
      let found' : find_by_id id c ≡ some d' =
        find_by_id-modify_self id (set_positional task_id fields) (set_positional-id task_id fields)
          w.db
        ∙ ap (Option.map (set_positional task_id fields)) found in
      let p : finish_update e id task_id dto d' w₂ ≡ (ok t, w') =
        ground (arith, update_task_run e laws w₁ id task_id fields, found') in
      let (k, a, b) = finish_update_ok id task_id dto d' t w₂ p found' in
      (k, settled_at_time k task_id dto task d t w a, b)

  -- When `updateTask` returns, the turnaround and the task were there; what it returns is the
  -- stored document, with the updates that task_updates makes of the request on that task as of the
  -- clock, the progress as progress_of rounds it and, if every task is now done, finished at a later
  -- reading of the clock.
  pub update_task_ok :
      (id task_id : String) (dto : UpdateTaskDto) (t : Turnaround) (w w' : World)
      → update_task e id task_id dto w ≡ (ok t, w')
      → (d : Turnaround) × (task : Task) × (k : ℕ) × (find_by_id id w.db ≡ some d)
        × (find_task task_id d.tasks ≡ some task)
        × (t
            ≡ settled
                (e.now k)
                (set_positional task_id (task_updates dto task (e.now (suc w.calls))) d))
        × (find_by_id id w'.db ≡ some t)
  unfolding update_task get_turnaround
  update_task_ok id task_id dto t w w' h = elim (Option-cases (find_by_id id w.db)) [
    | inl missing ↦ absurd (ground (arith, find_by_id_run e laws w id))
    | inr (d, found) ↦ elim (Option-cases (find_task task_id d.tasks)) [
      | inl missing ↦
          absurd (ground (arith, find_by_id_run e laws w id, laws.task_by_id_lem d.tasks task_id))
      | inr (task, there) ↦
          let p : change_task e id task_id dto task (counted w) ≡ (ok t, w') =
            ground (arith, find_by_id_run e laws w id, laws.task_by_id_lem d.tasks task_id) in
          let (k, a, b) = change_task_ok id task_id dto task d t (counted w) p found in
          (d, task, k, found, there, a, b)
    ]
  ]
