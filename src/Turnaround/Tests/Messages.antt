-- ===== src/Turnaround/Tests/Messages.antt =====
-- Runs of the consumers and the publisher.
use microservices_practice.Common.{String, ◌≡◌, refl, true, none, some, [], ◌∷◌}
use microservices_practice.Turnaround.Schema.{TaskStatus, Task, Turnaround}
use microservices_practice.Turnaround.Templates
use microservices_practice.Turnaround.Store.{
  Result, ok, find_by_id, find_by_flight, find_task, set_positional, assign_all_task, modify_task,
}
use microservices_practice.Turnaround.World.{World, counted}
use microservices_practice.Turnaround.Tasks
use microservices_practice.Turnaround.Service
use microservices_practice.Turnaround.Service.Frame.{task_in}
use microservices_practice.Turnaround.Service.Events.{task_completed_message}
use microservices_practice.Turnaround.Consumers
use microservices_practice.Turnaround.Consumers.{FlightEvent, CrewEvent, ack, nack}
use microservices_practice.Turnaround.Event
use microservices_practice.Turnaround.Publisher.Laws.{event_message}
use microservices_practice.Turnaround.Consumers.Delivery.{
  arrival_redelivered, crew_event_assigns, arrival_poisoned,
}
use microservices_practice.Turnaround.Tests.{
  env, empty_world, a_task, busy, busy_world, completion, value_or, service, laws, no_fault,
}

abbrev arrived : String → FlightEvent
arrived aircraft_type = record {
  id = "m1";
  type = "flight.arrived";
  flight_id = "f1";
  flight = record {
    id = "f1";
    flight_number = "EK201";
    aircraft_reg = "A6-EDA";
    aircraft_type = aircraft_type;
    gate_id = none;
  };
  old_gate_id = none;
  new_gate_id = none;
}

abbrev arrival_world : World
arrival_world = (Consumers.handle_flight_event env (arrived "A380") empty_world).1

arrival_acknowledged :
    Consumers.handle_flight_event env (arrived "A380") empty_world ≡ (ok ack, arrival_world)
unfolding service Consumers.handle_flight_event
arrival_acknowledged = refl

arrival_redelivered_example :
    Consumers.handle_flight_event env (arrived "A380") arrival_world
    ≡ (ok ack, counted arrival_world)
arrival_redelivered_example =
    arrival_redelivered env laws (arrived "A380") empty_world arrival_world arrival_world refl
      arrival_acknowledged refl (no_fault arrival_world.calls)

arrival_poisoned_example :
    ((Consumers.handle_flight_event env (arrived "constructor") empty_world).0 ≡ ok (nack true))
    × ((Consumers.handle_flight_event env (arrived "constructor") empty_world).1.db ≡ [])
    × ((Consumers.handle_flight_event env (arrived "constructor") empty_world).1.published ≡ [])
unfolding find_by_flight Templates.get_tasks_for_aircraft
arrival_poisoned_example =
    arrival_poisoned env laws (arrived "constructor") empty_world refl (no_fault empty_world.calls)
      refl refl

abbrev crew_message : String → CrewEvent
crew_message task_id = record {
  id = "m2";
  type = "crew.assigned";
  turnaround_id = "x";
  flight_id = "f1";
  task_id = task_id;
  crew_member_id = "c7";
}

abbrev crew_world : World
crew_world = (Consumers.handle_crew_event env (crew_message "b") busy_world).1

crew_acknowledged :
    Consumers.handle_crew_event env (crew_message "b") busy_world ≡ (ok ack, crew_world)
unfolding service Consumers.handle_crew_event
crew_acknowledged = refl

crew_event_assigns_example :
    (task : Task) × (task_in "x" "b" busy_world.db ≡ some task)
    × (task_in "x" "b" crew_world.db ≡ some (record task { assigned_crew_id = some "c7" }))
crew_event_assigns_example =
    crew_event_assigns env laws (crew_message "b") busy_world crew_world refl crew_acknowledged

-- Two open tasks, of which one is completed.
abbrev open_turnaround : Turnaround
open_turnaround = record busy {
  tasks = a_task "a" TaskStatus.pending ∷ a_task "b" TaskStatus.in_progress ∷ [];
  progress_percent = 0;
}

abbrev open_world : World
open_world = record empty_world { db = open_turnaround ∷ [] }

abbrev half_run : Result Turnaround × World
half_run = Service.update_task env "x" "b" completion open_world

half_returned : half_run ≡ (ok (value_or busy half_run.0), half_run.1)
unfolding service
half_returned = refl

-- The stored progress is 50, and the message below says 0.
half_progress : (value_or busy half_run.0).progress_percent ≡ 50
unfolding service
half_progress = refl

task_completed_message_example :
    half_run.1.published
    ≡ event_message env 4 Event.RoutingKey.task_completed "x" "f1"
        (Event.Payload.task_completed "x" "f1" "b" (some "b") 0)
      ∷ []
unfolding find_by_id find_task Tasks.completed_count Tasks.task_updates set_positional modify_task
    assign_all_task
task_completed_message_example =
    task_completed_message env laws "x" "b" completion open_turnaround (value_or busy half_run.0)
      (a_task "b" TaskStatus.in_progress) open_world half_run.1 half_returned refl refl refl refl
      refl
