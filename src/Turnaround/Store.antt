-- ===== src/Turnaround/Store.antt =====
-- The MongoDB collection that turnaround/turnaround.repository.ts calls through Mongoose. The
-- driver is not part of the repository: `Mongo` is the interface that is used of it, and `IsMongo`
-- what its documentation says of each call. A collection is the list of its documents, in natural
-- order.
pub mod Laws
pub mod Memory
use microservices_practice.Common.{
  ℕ, zero, suc, String, ◌≡◌, ◌≢◌, Bool, true, false, Option, none, some, List, [], ◌∷◌, ◌++◌, map,
  str_eq, is_some, if◌then◌else◌, find,
}
use microservices_practice.Common.Number.{Number}
use microservices_practice.Turnaround.Schema.{
  Date, TaskStatus, Task, TurnaroundStatus, Milestones, MilestoneKey, eibt, aibt, tobt, tsat, ardt,
  aobt, atot, Turnaround, NewTask, NewTurnaround, pending,
}

abbrev pub Collection : Type 0
Collection = List Turnaround

-- What a call may throw: `NotFoundException` with its message, a `TypeError`, or an error of a
-- library or service that the call reached.
pub data NotFound : Type 0 where
  turnaround_not_found : String → NotFound
  task_not_found : String → String → NotFound
  failed_to_update_task failed_to_update_milestones : NotFound
  tsat_before_tobt aobt_before_tsat : NotFound

pub data Error : Type 0 where
  not_found : NotFound → Error
  type_error : Error
  external : String → Error

pub data Result {ℓ} (A : Type ℓ) : Type ℓ where
  ok : A → Result A
  err : Error → Result A

-- How the call of an external system ends: it succeeds, it is refused and has no effect, or its
-- effect takes place and the answer is lost.
pub data Fault : Type 0 where
  fine : Fault
  refused : String → Fault
  lost : String → Fault

-- One assignment of a `$set` document: a field of a task of the document, or of the document.
pub data TaskField : Type 0 where
  status : TaskStatus → TaskField
  started_at : Date → TaskField
  completed_at : Date → TaskField
  notes : Option String → TaskField
  assigned_crew_id : Option String → TaskField
  assigned_equipment_id : Option String → TaskField

pub data SetField : Type 0 where
  status : TurnaroundStatus → SetField
  progress_percent : ℕ → SetField
  completed_at : Date → SetField
  milestone : MilestoneKey → Date → SetField

abbrev pub set_milestone : MilestoneKey → Date → Milestones → Milestones
set_milestone eibt d m = record m { eibt = some d }
set_milestone aibt d m = record m { aibt = some d }
set_milestone tobt d m = record m { tobt = some d }
set_milestone tsat d m = record m { tsat = some d }
set_milestone ardt d m = record m { ardt = some d }
set_milestone aobt d m = record m { aobt = some d }
set_milestone atot d m = record m { atot = some d }

abbrev pub assign_task : TaskField → Task → Task
assign_task (TaskField.status s) t = record t { status = s }
assign_task (TaskField.started_at d) t = record t { started_at = some d }
assign_task (TaskField.completed_at d) t = record t { completed_at = some d }
assign_task (TaskField.notes n) t = record t { notes = n }
assign_task (TaskField.assigned_crew_id c) t = record t { assigned_crew_id = c }
assign_task (TaskField.assigned_equipment_id q) t = record t { assigned_equipment_id = q }

abbrev pub assign : SetField → Turnaround → Turnaround
assign (SetField.status s) d = record d { status = s }
assign (SetField.progress_percent p) d = record d { progress_percent = p }
assign (SetField.completed_at t) d = record d { completed_at = some t }
assign (SetField.milestone k t) d = record d { milestones = set_milestone k t d.milestones }

-- Assignments take effect in their order.
unfoldable pub assign_all_task : List TaskField → Task → Task
assign_all_task [] t = t
assign_all_task (f ∷ fs) t = assign_all_task fs (assign_task f t)

unfoldable pub assign_all : List SetField → Turnaround → Turnaround
assign_all [] d = d
assign_all (f ∷ fs) d = assign_all fs (assign f d)

-- The document with an id, the first document of a flight, the task with an id.
unfoldable pub find_by_id : String → Collection → Option Turnaround
find_by_id id = find (λ d. str_eq d.id id)

unfoldable pub find_by_flight : String → Collection → Option Turnaround
find_by_flight flight_id = find (λ d. str_eq d.flight_id flight_id)

unfoldable pub find_task : String → List Task → Option Task
find_task id = find (λ t. str_eq t.id id)

-- Changes the document with an id, or the task with an id, where there is one.
unfoldable pub modify : String → (Turnaround → Turnaround) → Collection → Collection
modify id f [] = []
modify id f (d ∷ c) = if str_eq d.id id then f d ∷ c else d ∷ modify id f c

unfoldable pub modify_task : String → (Task → Task) → List Task → List Task
modify_task id f [] = []
modify_task id f (t ∷ ts) = if str_eq t.id id then f t ∷ ts else t ∷ modify_task id f ts

-- The effect of `{ $set: { 'tasks.$.key': value, … } }` on the matched task of a document.
unfoldable pub set_positional : String → List TaskField → Turnaround → Turnaround
set_positional task_id fields d = record d {
  tasks = modify_task task_id (assign_all_task fields) d.tasks;
}

-- The filter `{ _id: id, 'tasks._id': taskId }` on the document with the id.
unfoldable pub having_task : String → Option Turnaround → Option Turnaround
having_task task_id none = none
having_task task_id (some d) = if is_some (find_task task_id d.tasks) then some d else none

-- A document with the schema's defaults, made of what `create` is given.
unfoldable pub new_tasks : (ℕ → String) → ℕ → List NewTask → List Task
new_tasks task_id i [] = []
new_tasks task_id i (t ∷ ts) =
    record {
      id = task_id i;
      name = t.name;
      status = t.status;
      estimated_duration_minutes = t.estimated_duration_minutes;
      required_certification = t.required_certification;
      order = t.order;
      required_equipment = t.required_equipment;
      assigned_crew_id = none;
      assigned_equipment_id = none;
      started_at = none;
      completed_at = none;
      notes = none;
    }
    ∷ new_tasks task_id (suc i) ts

unfoldable pub hydrate : String → (ℕ → String) → ℕ → NewTurnaround → Turnaround
hydrate id task_id created_at d = record {
  id = id;
  flight_id = d.flight_id;
  flight_number = d.flight_number;
  aircraft_type = d.aircraft_type;
  aircraft_reg = d.aircraft_reg;
  gate_id = d.gate_id;
  status = d.status;
  tasks = new_tasks task_id 0 d.tasks;
  started_at = some d.started_at;
  completed_at = none;
  progress_percent = d.progress_percent;
  milestones = d.milestones;
  created_at = created_at;
}

-- The calls of the model. The first argument numbers the external calls of a run, so that each
-- call may end in its own way.
pub record Mongo : Type 0 where
  pub create : ℕ → NewTurnaround → Collection → Result Turnaround × Collection
  pub find_by_id : ℕ → String → Collection → Result (Option Turnaround)
  pub find_one : ℕ → String → Collection → Result (Option Turnaround)
  pub find : ℕ → Option String → (offset limit : Number) → Collection → Result (List Turnaround)
  pub find_by_id_and_update :
      ℕ → String → List SetField → Collection → Result (Option Turnaround) × Collection
  pub find_one_and_update :
      ℕ
      → (id task_id : String) → List TaskField
      → Collection
      → Result (Option Turnaround) × Collection
  pub task_by_id : List Task → String → Option Task

abbrev pub answer : {A : Type 0} → Fault → A → Result A
answer fine a = ok a
answer (refused e) a = err (external e)
answer (lost e) a = err (external e)

abbrev pub after : Fault → Collection → Collection → Collection
after fine c' c = c'
after (refused e) c' c = c
after (lost e) c' c = c'

abbrev pub write : {A : Type 0} → Fault → A → Collection → Collection → Result A × Collection
write f a c' c = (answer f a, after f c' c)

-- What MongoDB and Mongoose document of these calls. An update with `new: true` returns the
-- document as it is afterwards; an id that `create` gives to a document is not yet in use. Whether a call is
-- answered depends on its number: a call whose id or date Mongoose cannot cast (CastError) is a refused one.
pub record IsMongo (m : Mongo) : Type 0 where
  pub fault : ℕ → Fault
  pub insert_fault : ℕ → Collection → Fault
  pub new_id : ℕ → String
  pub new_task_id : ℕ → ℕ → String
  pub clock : ℕ → ℕ
  pub new_id_fresh :
      (k : ℕ) (c : Collection) (d : Turnaround)
      → find_by_id (new_id k) c ≡ some d
      → (e : String) × (insert_fault k c ≡ refused e)
  pub create_lem :
      (k : ℕ) (d : NewTurnaround) (c : Collection)
      → let doc = hydrate (new_id k) (new_task_id k) (clock k) d in
        m.create k d c ≡ write (insert_fault k c) doc (c ++ doc ∷ []) c
  pub find_by_id_lem :
      (k : ℕ) (id : String) (c : Collection)
      → m.find_by_id k id c ≡ answer (fault k) (find_by_id id c)
  pub find_one_lem :
      (k : ℕ) (flight_id : String) (c : Collection)
      → m.find_one k flight_id c ≡ answer (fault k) (find_by_flight flight_id c)
  pub find_by_id_and_update_lem :
      (k : ℕ) (id : String) (fields : List SetField) (c : Collection)
      → let c' = modify id (assign_all fields) c in
        m.find_by_id_and_update k id fields c ≡ write (fault k) (find_by_id id c') c' c
  pub find_one_and_update_lem :
      (k : ℕ) (id task_id : String) (fields : List TaskField) (c : Collection)
      → let c' = modify id (set_positional task_id fields) c in
        m.find_one_and_update k id task_id fields c
        ≡ write (fault k) (having_task task_id (find_by_id id c')) c' c
  pub task_by_id_lem :
      (ts : List Task) (task_id : String) → m.task_by_id ts task_id ≡ find_task task_id ts
