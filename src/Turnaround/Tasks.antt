-- ===== src/Turnaround/Tasks.antt =====
-- The pure parts of `TurnaroundService` (turnaround/turnaround.service.ts): the tasks of a new
-- turnaround, and the updates and the progress of a task.
pub mod Orders
pub mod Placement
pub mod Slots
pub mod Progress
use Prim.Native.Nat.{max}
use microservices_practice.Common.{
  ℕ, ◌+◌, ◌*◌, ◌/◌, String, Bool, true, false, ◌||◌, Option, none, some, List, [], ◌∷◌, ◌++◌, map,
  length, find, count_if, is_some, leb, str_eq, if◌then◌else◌,
}
use microservices_practice.Common.Int.{pos}
use microservices_practice.Turnaround.Schema.{
  Date, time, TaskStatus, is_completed, is_in_progress, is_skipped, Task, NewTask,
}
use microservices_practice.Turnaround.Dto.{UpdateTaskDto}
use microservices_practice.Turnaround.Templates.{TaskTemplate, scale_minutes}
use microservices_practice.Turnaround.Weather.{DeIcingTask}
use microservices_practice.Turnaround.Store.{TaskField}

-- The object that `taskTemplates.map` builds for a template, with the factor in hundredths.
unfoldable pub new_task : ℕ → TaskTemplate → NewTask
unfolding scale_minutes
new_task duration_factor t = record {
  name = t.name;
  status = TaskStatus.pending;
  estimated_duration_minutes = scale_minutes t.estimated_duration_minutes duration_factor;
  required_certification = t.required_certification;
  required_equipment = t.required_equipment;
  order = t.order;
}

-- `Math.max(...tasks.map((t) => t.order))`; a template is never empty.
unfoldable pub max_order : List NewTask → ℕ
max_order [] = 0
max_order (t ∷ ts) = max t.order (max_order ts)

abbrev pub is_boarding : NewTask → Bool
is_boarding t = str_eq t.name "boarding"

-- `boardingTask.order += 1`, on the first task with that name.
unfoldable pub delay_boarding : List NewTask → List NewTask
delay_boarding [] = []
delay_boarding (t ∷ ts) =
    if is_boarding t then record t { order = t.order + 1 } ∷ ts else t ∷ delay_boarding ts

-- `tasks.sort((a, b) => a.order - b.order)`, which is stable.
unfoldable pub insert_by_order : NewTask → List NewTask → List NewTask
insert_by_order t [] = t ∷ []
insert_by_order t (u ∷ us) = if leb t.order u.order then t ∷ u ∷ us else u ∷ insert_by_order t us

unfoldable pub sort_by_order : List NewTask → List NewTask
unfolding insert_by_order
sort_by_order [] = []
sort_by_order (t ∷ ts) = insert_by_order t (sort_by_order ts)

unfoldable pub de_icing_at : DeIcingTask → ℕ → NewTask
de_icing_at d order = record {
  name = d.name;
  status = TaskStatus.pending;
  estimated_duration_minutes = d.estimated_duration_minutes;
  required_certification = some d.required_certification;
  required_equipment = some d.required_equipment;
  order = order;
}

-- The `if (deIcingRequired)` block: de-icing takes the place of boarding, which moves one back.
unfoldable pub inject_de_icing : DeIcingTask → List NewTask → List NewTask
unfolding delay_boarding sort_by_order de_icing_at
inject_de_icing d tasks = elim (find is_boarding tasks) [
  | some boarding ↦ sort_by_order (delay_boarding tasks ++ de_icing_at d boarding.order ∷ [])
  | none ↦ sort_by_order (tasks ++ de_icing_at d d.order ∷ [])
]

-- The fields that the status of a request sets, at the time `now` if one is read.
abbrev status_updates : TaskStatus → Option Date → ℕ → List TaskField
status_updates s started now =
    TaskField.status s
    ∷ (if is_in_progress s
        then (if is_some started then [] else TaskField.started_at (time (pos now)) ∷ [])
        else if is_completed s
        then TaskField.completed_at (time (pos now)) ∷ []
        else [])

abbrev given : {A : Type 0} → (A → TaskField) → Option A → List TaskField
given field none = []
given field (some value) = field value ∷ []

-- The `updates` object of `updateTask`, in the order of its keys.
unfoldable pub task_updates : UpdateTaskDto → Task → ℕ → List TaskField
task_updates dto task now =
    elim dto.status [ none ↦ [] | some s ↦ status_updates s task.started_at now ]
    ++ (given TaskField.notes dto.notes
        ++ (given TaskField.assigned_crew_id dto.assigned_crew_id
            ++ given TaskField.assigned_equipment_id dto.assigned_equipment_id))

-- Whether `updateTask` reads the clock: `new Date()` for a start or a completion.
unfoldable pub reads_clock : UpdateTaskDto → Task → Bool
reads_clock dto task = elim dto.status [
  | none ↦ false
  | some s ↦
      if is_in_progress s then (if is_some task.started_at then false else true) else is_completed s
]

abbrev pub is_done : Task → Bool
is_done t = is_completed t.status || is_skipped t.status

unfoldable pub completed_count : List Task → ℕ
completed_count = count_if is_done

-- `Math.round((completedCount / tasks.length) * 100)`; the tasks are not empty there. The doubles of
-- the source round to this number for up to 39 tasks; at 23 of 40 they round down.
unfoldable pub progress_of : ℕ → ℕ → ℕ
progress_of completed total = (200 * completed + total) / (2 * total)
