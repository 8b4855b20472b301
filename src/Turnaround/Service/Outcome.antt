-- ===== src/Turnaround/Service/Outcome.antt =====
-- `updateTask` (turnaround/turnaround.service.ts): the task that it leaves, field by field.
use microservices_practice.Common.{ℕ, String, Option, none, some}
use microservices_practice.Common.Int.{pos}
use microservices_practice.Turnaround.Schema.{Date, time, TaskStatus, Task, Turnaround}
use microservices_practice.Turnaround.Dto.{UpdateTaskDto}
use microservices_practice.Turnaround.Store.{modify_task}
use microservices_practice.Turnaround.World.{World}

-- The start that a request gives a task at a time: the first change to in progress sets it.
abbrev pub start_after : Option TaskStatus → Option Date → Date → Option Date
start_after (some TaskStatus.in_progress) none now = some now
start_after _ started now = started

-- The completion that it gives: every change to completed sets it.
abbrev pub completion_after : Option TaskStatus → Option Date → Date → Option Date
completion_after (some TaskStatus.completed) completed now = some now
completion_after _ completed now = completed

-- What a request gives, or else what was there. It may give a text or null.
abbrev pub given_or : {A : Type 0} → Option A → A → A
given_or none old = old
given_or (some new) old = new

-- A task after a request: what the request gives replaces what the task has.
abbrev pub requested : UpdateTaskDto → ℕ → Task → Task
requested dto now t = record {
  id = t.id;
  name = t.name;
  status = given_or dto.status t.status;
  estimated_duration_minutes = t.estimated_duration_minutes;
  required_certification = t.required_certification;
  order = t.order;
  required_equipment = t.required_equipment;
  assigned_crew_id = given_or dto.assigned_crew_id t.assigned_crew_id;
  assigned_equipment_id = given_or dto.assigned_equipment_id t.assigned_equipment_id;
  started_at = start_after dto.status t.started_at (time (pos now));
  completed_at = completion_after dto.status t.completed_at (time (pos now));
  notes = given_or dto.notes t.notes;
}

-- A turnaround with a request's change to one of its tasks.
abbrev pub changed : String → UpdateTaskDto → ℕ → Turnaround → Turnaround
changed task_id dto now d = record d { tasks = modify_task task_id (requested dto now) d.tasks }
