-- ===== src/Turnaround/Service.antt =====
-- `TurnaroundService` (turnaround/turnaround.service.ts), method by method. Logging is left out.
pub mod Update
pub mod Outcome
pub mod Frame
pub mod Merge
pub mod Answers
pub mod Arrivals
pub mod Returns
pub mod Creation
pub mod Completion
pub mod Events
pub mod Schedule
pub mod Document
use microservices_practice.Common.{
  ℕ, suc, String, Bool, true, false, Option, none, some, List, [], ◌∷◌, ◌++◌, map, length, or_else,
  ◌&&◌, ◌==◌, str_eq, if◌then◌else◌,
}
use microservices_practice.Common.Int.{pos}
use microservices_practice.Turnaround.Schema.{
  Date, time, date_lt, TaskStatus, is_completed, Task, TurnaroundStatus, Milestones, MilestoneKey,
  no_milestones, Turnaround, NewTask, NewTurnaround,
}
use microservices_practice.Turnaround.Dto.{CreateTurnaroundDto, UpdateTaskDto, UpdateMilestonesDto}
use microservices_practice.Turnaround.Templates.{Entry, own, inherited, get_tasks_for_aircraft}
use microservices_practice.Turnaround.Store.{
  Mongo, Error, not_found, type_error, NotFound, turnaround_not_found, task_not_found,
  failed_to_update_task, failed_to_update_milestones, tsat_before_tobt, aobt_before_tsat, Result,
  ok, err, TaskField, SetField,
}
use microservices_practice.Turnaround.World.{
  WeatherData, Env, World, Action, pure, throw, ◌>>=◌, ◌>>◌, counted, date_now,
}
use microservices_practice.Turnaround.Repository
use microservices_practice.Turnaround.Repository.{ListTurnaroundsParams}
use microservices_practice.Turnaround.Weather
use microservices_practice.Turnaround.Publisher
use microservices_practice.Turnaround.Tasks.{
  new_task, max_order, inject_de_icing, task_updates, reads_clock, completed_count, progress_of,
}

-- `taskTemplates.map(…)`
abbrev pub tasks_of : Entry → ℕ → Action (List NewTask)
tasks_of (own templates) factor = pure (map (new_task factor) templates)
tasks_of inherited factor = throw type_error

abbrev pub cached : Action (Option WeatherData)
cached w = (ok w.cached_weather, w)

-- The tasks of a new turnaround, with de-icing where it is required.
unfoldable pub with_de_icing : Bool → Option WeatherData → List NewTask → List NewTask
with_de_icing required weather tasks =
    if required
    then inject_de_icing (Weather.get_de_icing_task weather (max_order tasks)) tasks
    else tasks

-- The document that `createTurnaround` hands to the repository.
unfoldable pub new_turnaround : CreateTurnaroundDto → List NewTask → Date → NewTurnaround
new_turnaround dto tasks now = record {
  flight_id = dto.flight_id;
  flight_number = dto.flight_number;
  aircraft_type = dto.aircraft_type;
  aircraft_reg = dto.aircraft_reg;
  gate_id = dto.gate_id;
  status = TurnaroundStatus.in_progress;
  tasks = tasks;
  started_at = now;
  progress_percent = 0;
  milestones = record no_milestones { aibt = some now };
}

-- `milestones[key]`: what was assigned to the key last.
abbrev pub same_key : MilestoneKey → MilestoneKey → Bool
same_key MilestoneKey.eibt MilestoneKey.eibt = true
same_key MilestoneKey.aibt MilestoneKey.aibt = true
same_key MilestoneKey.tobt MilestoneKey.tobt = true
same_key MilestoneKey.tsat MilestoneKey.tsat = true
same_key MilestoneKey.ardt MilestoneKey.ardt = true
same_key MilestoneKey.aobt MilestoneKey.aobt = true
same_key MilestoneKey.atot MilestoneKey.atot = true
same_key _ _ = false

unfoldable pub assigned : MilestoneKey → List (MilestoneKey × Date) → Option Date
assigned key [] = none
assigned key ((k, d) ∷ rest) = or_else (assigned key rest) (if same_key k key then some d else none)

-- The loop over `Object.entries(dto)`: null and the empty string are passed over.
unfoldable pub parse_milestones : (String → Date) → UpdateMilestonesDto → List (MilestoneKey × Date)
parse_milestones parse [] = []
parse_milestones parse ((key, none) ∷ rest) = parse_milestones parse rest
parse_milestones parse ((key, some value) ∷ rest) =
    let others = parse_milestones parse rest in
    if str_eq value "" then others else (key, parse value) ∷ others

-- `a && b && a < b`
abbrev pub before : Option Date → Option Date → Bool
before (some a) (some b) = date_lt a b
before (some a) none = false
before none b = false

-- The two validations of `updateMilestones`, on the new values or else the stored ones.
unfoldable pub validate : List (MilestoneKey × Date) → Milestones → Action (Unit {0})
unfolding assigned
validate milestones existing =
    let tobt = or_else (assigned MilestoneKey.tobt milestones) existing.tobt in
    let tsat = or_else (assigned MilestoneKey.tsat milestones) existing.tsat in
    let aobt = or_else (assigned MilestoneKey.aobt milestones) existing.aobt in
    if before tsat tobt
    then throw (not_found tsat_before_tobt)
    else if before aobt tsat
    then throw (not_found aobt_before_tsat)
    else pure tt

-- `if (test) action`
abbrev pub when : Bool → Action (Unit {0}) → Action (Unit {0})
when test action w = elim test [ true ↦ action w | false ↦ pure tt w ]

-- `dto.status === TaskStatus.COMPLETED`
abbrev pub asks_completion : Option TaskStatus → Bool
asks_completion none = false
asks_completion (some s) = is_completed s

abbrev pub key_of : MilestoneKey × Date → MilestoneKey
key_of (key, value) = key

module _ (e : Env) where
  unfoldable pub create_new : CreateTurnaroundDto → Action Turnaround
  unfolding with_de_icing new_turnaround
  create_new dto = do
    required ← Weather.is_de_icing_required e
    factor ← Weather.get_duration_factor e
    tasks ← tasks_of (get_tasks_for_aircraft dto.aircraft_type) factor
    weather ← cached
    now ← date_now e
    turnaround ←
        Repository.create e
          (new_turnaround dto (with_de_icing required weather tasks) (time (pos now)))
    Publisher.publish_turnaround_started e turnaround
    pure turnaround

  unfoldable pub create_turnaround : CreateTurnaroundDto → Action Turnaround
  create_turnaround dto = do
    existing ← Repository.find_by_flight_id e dto.flight_id
    λ (w : World). elim existing [ some turnaround ↦ pure turnaround w | none ↦ create_new dto w ]

  unfoldable pub get_turnaround : String → Action Turnaround
  get_turnaround id = do
    found ← Repository.find_by_id e id
    λ (w : World). elim found [
      | some turnaround ↦ pure turnaround w
      | none ↦ throw (not_found (turnaround_not_found id)) w
    ]

  unfoldable pub list_turnarounds : ListTurnaroundsParams → Action (List Turnaround)
  list_turnarounds = Repository.list e

  -- The `if (completedCount === updated.tasks.length)` block.
  unfoldable pub complete_turnaround : String → Action (Unit {0})
  complete_turnaround id = do
    ardt ← date_now e
    Repository.update_milestones e id ((MilestoneKey.ardt, time (pos ardt)) ∷ [])
    completed ←
        Repository.update_status e id TurnaroundStatus.completed
          (SetField.completed_at (time (pos ardt)) ∷ SetField.progress_percent 100 ∷ [])
    λ (w : World). elim completed [
      | some turnaround ↦ Publisher.publish_turnaround_completed e turnaround w
      | none ↦ pure tt w
    ]

  -- `updateTask` from the recalculation of the progress on.
  unfoldable pub finish_update : String → String → UpdateTaskDto → Turnaround → Action Turnaround
  finish_update turnaround_id task_id dto updated = do
    let completed = completed_count updated.tasks
    let total = length updated.tasks
    Repository.update_status e turnaround_id updated.status
        (SetField.progress_percent (progress_of completed total) ∷ [])
    when (asks_completion dto.status) (Publisher.publish_task_completed e updated task_id)
    when (completed == total) (complete_turnaround turnaround_id)
    get_turnaround turnaround_id

  -- `new Date()`, where the updates hold one.
  abbrev pub update_time : UpdateTaskDto → Task → Action ℕ
  update_time dto task w = elim (reads_clock dto task) [ true ↦ date_now e w | false ↦ pure 0 w ]

  unfoldable pub change_task : String → String → UpdateTaskDto → Task → Action Turnaround
  change_task turnaround_id task_id dto task = do
    now ← update_time dto task
    updated ← Repository.update_task e turnaround_id task_id (task_updates dto task now)
    λ (w : World). elim updated [
      | some turnaround ↦ finish_update turnaround_id task_id dto turnaround w
      | none ↦ throw (not_found failed_to_update_task) w
    ]

  unfoldable pub update_task : String → String → UpdateTaskDto → Action Turnaround
  update_task turnaround_id task_id dto = do
    turnaround ← get_turnaround turnaround_id
    λ (w : World). elim (e.mongo.task_by_id turnaround.tasks task_id) [
      | some task ↦ change_task turnaround_id task_id dto task w
      | none ↦ throw (not_found (task_not_found task_id turnaround_id)) w
    ]

  unfoldable pub update_milestones : String → UpdateMilestonesDto → Action Turnaround
  update_milestones turnaround_id dto = do
    turnaround ← get_turnaround turnaround_id
    let milestones = parse_milestones e.parse_date dto
    validate milestones turnaround.milestones
    updated ← Repository.update_milestones e turnaround_id milestones
    λ (w : World). elim updated [
      | none ↦ throw (not_found failed_to_update_milestones) w
      | some t ↦ (do Publisher.publish_milestone_updated e t (map key_of milestones); pure t) w
    ]
