-- ===== src/Turnaround/Tests.antt =====
-- What the concrete runs of the turnaround service share: a store in memory, and some documents.
mod Updates
mod Creation
mod Messages
mod Interleavings
mod Addresses
mod Milestones
mod Calls
use microservices_practice.Common.{ℕ, ◌*◌, String, ◌≡◌, true, none, some, [], ◌∷◌}
use microservices_practice.Common.Int.{pos, negsuc}
use microservices_practice.Turnaround.Schema.{
  time, TaskStatus, Task, TurnaroundStatus, MilestoneKey, no_milestones, Turnaround,
}
use microservices_practice.Turnaround.Dto.{CreateTurnaroundDto, UpdateTaskDto, UpdateMilestonesDto}
use microservices_practice.Turnaround.Templates
use microservices_practice.Turnaround.Store.{
  IsMongo, Result, ok, err, fine, find_by_id, find_by_flight, find_task, set_positional, modify,
  assign_all, assign_all_task, modify_task, having_task, hydrate, new_tasks,
}
use microservices_practice.Turnaround.Store.Memory.{memory, memory-IsMongo, memory-fault, unary}
use microservices_practice.Turnaround.World.{WeatherData, weather, Env, World}
use microservices_practice.Turnaround.Repository
use microservices_practice.Turnaround.Weather
use microservices_practice.Turnaround.Publisher
use microservices_practice.Turnaround.Tasks
use microservices_practice.Turnaround.Service

abbrev icy : WeatherData
icy = record {
  icao = "OMDB";
  temperature_c = some (negsuc 40);
  visibility_m = some 400;
  conditions = "SN" ∷ [];
  is_icing = true;
  is_lvp = true;
}

abbrev env : Env
env = record {
  mongo = memory (λ k. fine);
  now = λ k. 1000 * k;
  uuid = unary;
  fetch = λ k. weather icy;
  broker = λ k. fine;
  parse_date = λ s. time (pos 5);
}

abbrev empty_world : World
empty_world = record {
  db = [];
  cached_weather = none;
  last_fetch_at = 0;
  published = [];
  calls = 0;
}

abbrev arrival : CreateTurnaroundDto
arrival = record {
  flight_id = "f1";
  flight_number = "EK201";
  aircraft_type = "A380";
  aircraft_reg = some "A6-EDA";
  gate_id = none;
}

abbrev a_task : String → TaskStatus → Task
a_task id status = record {
  id = id;
  name = id;
  status = status;
  estimated_duration_minutes = 20;
  required_certification = none;
  order = 1;
  required_equipment = none;
  assigned_crew_id = none;
  assigned_equipment_id = none;
  started_at = none;
  completed_at = none;
  notes = none;
}

abbrev busy : Turnaround
busy = record {
  id = "x";
  flight_id = "f1";
  flight_number = "EK201";
  aircraft_type = "B737";
  aircraft_reg = none;
  gate_id = none;
  status = TurnaroundStatus.in_progress;
  tasks = a_task "a" TaskStatus.skipped ∷ a_task "b" TaskStatus.in_progress ∷ [];
  started_at = some (time (pos 1));
  completed_at = none;
  progress_percent = 50;
  milestones = record no_milestones { tobt = some (time (pos 3)) };
  created_at = 1;
}

abbrev busy_world : World
busy_world = record empty_world { db = busy ∷ [] }

abbrev completion : UpdateTaskDto
completion = record {
  status = some TaskStatus.completed;
  notes = none;
  assigned_crew_id = none;
  assigned_equipment_id = none;
}

abbrev value_or : {A : Type 0} → A → Result A → A
value_or d (ok a) = a
value_or d (err x) = d

abbrev later : UpdateMilestonesDto
later = (MilestoneKey.tsat, some "2024-05-01T10:00:00Z") ∷ (MilestoneKey.aobt, none) ∷ []

-- Everything that a run computes with.
service : Unit {0}
unfolding Service.create_turnaround Service.create_new Service.with_de_icing Service.new_turnaround
    Service.get_turnaround Service.update_task Service.change_task Service.finish_update
    Service.complete_turnaround Service.update_milestones Service.validate Service.parse_milestones
    Service.assigned Repository.create Repository.find_by_id Repository.find_by_flight_id
    Repository.update_task Repository.update_status Repository.update_milestones
    Publisher.publish_turnaround_started Publisher.publish_task_completed
    Publisher.publish_turnaround_completed Publisher.publish_milestone_updated
    Weather.is_de_icing_required Weather.get_duration_factor Weather.is_lvp_active
    Weather.get_de_icing_task Tasks.new_task Tasks.max_order Tasks.inject_de_icing
    Tasks.task_updates Tasks.reads_clock Tasks.completed_count Tasks.progress_of
    Templates.get_tasks_for_aircraft memory find_by_id find_by_flight find_task set_positional
    modify assign_all assign_all_task modify_task having_task hydrate new_tasks
service = tt

abbrev laws : IsMongo env.mongo
laws = memory-IsMongo (λ k. fine)

no_fault : (k : ℕ) → laws.fault k ≡ fine
no_fault k = memory-fault (λ k. fine) k
