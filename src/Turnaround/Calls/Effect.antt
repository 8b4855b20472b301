-- ===== src/Turnaround/Calls/Effect.antt =====
-- The steps that a piece of a call (turnaround/turnaround.service.ts) may make on the collection, and
-- one such step after another.
pub mod Keeps
pub mod Fresh
pub mod Writes
pub mod Identity
use microservices_practice.Common.{
  ℕ, ◌≤◌, String, ◌≡◌, refl, Bool, true, Option, none, some, List, [], ◌∷◌, ◌++◌, All, arith,
  is_some,
}
use microservices_practice.Turnaround.Schema.{TaskStatus, Task, Turnaround}
use microservices_practice.Turnaround.Dto.{UpdateTaskDto}
use microservices_practice.Turnaround.Store.{
  Collection, TaskField, SetField, assign_all, assign_all_task, modify, set_positional, find_by_id,
}
use microservices_practice.Turnaround.Service.Frame.{task_in}
use microservices_practice.Turnaround.Tasks.{task_updates}

-- A task in progress has a start, and a completed one a completion time.
abbrev pub is_timed : Task → Bool
is_timed t = elim t.status [
  | TaskStatus.in_progress ↦ is_some t.started_at
  | TaskStatus.completed ↦ is_some t.completed_at
  | _ ↦ true
]

abbrev pub IsTimed : Task → Type 0
IsTimed t = is_timed t ≡ true

pub record IsSound (d : Turnaround) : Type 0 where
  pub bounded : d.progress_percent ≤ 100
  pub timed : All IsTimed d.tasks

-- The progress that a write stores is a percentage.
abbrev pub IsAllowed : SetField → Type 0
IsAllowed (SetField.progress_percent p) = p ≤ 100
IsAllowed _ = Unit

-- From one collection to the next with the same documents: nothing, fields of a document, or fields of
-- a task.
pub data Update (c c' : Collection) : Type 0 where
  same : c' ≡ c → Update c c'
  set :
      (id : String) (fs : List SetField)
      → All IsAllowed fs
      → c' ≡ modify id (assign_all fs) c
      → Update c c'
  set_task :
      (id task_id : String) (fs : List TaskField)
      → ((t : Task) → task_in id task_id c ≡ some t → IsTimed t → IsTimed (assign_all_task fs t))
      → c' ≡ modify id (set_positional task_id fs) c
      → Update c c'

-- Or with one document more, with an id that was not in use.
pub data Effect (c c' : Collection) : Type 0 where
  update : Update c c' → Effect c c'
  add : (d : Turnaround) → find_by_id d.id c ≡ none → IsSound d → c' ≡ c ++ d ∷ [] → Effect c c'

-- One such step after another.
pub data Effects : (c c' : Collection) → Type 0 where
  done : {c : Collection} → Effects c c
  step : {c c' c'' : Collection} → Effect c c' → Effects c' c'' → Effects c c''

-- What every step keeps is kept.
pub Effects-keep :
    (P : Collection → Type 0)
    → ((c c' : Collection) → Effect c c' → P c → P c')
    → (c c' : Collection) → Effects c c'
    → P c
    → P c'
Effects-keep P keeps c c' done p = p
Effects-keep P keeps c c' (step {c' = c₁} effect rest) p =
    Effects-keep P keeps c₁ c' rest (keeps c c₁ effect p)

-- The updates of `updateTask` keep a task timed, if it had started when the task that they were made
-- of had.
pub task_updates-IsTimed :
    (dto : UpdateTaskDto) (task t : Task) (now : ℕ)
    → (is_some task.started_at ≡ true → is_some t.started_at ≡ true)
    → IsTimed t
    → IsTimed (assign_all_task (task_updates dto task now) t)
unfolding task_updates assign_all_task
task_updates-IsTimed dto task t now h timed = ground arith
