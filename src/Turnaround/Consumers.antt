-- ===== src/Turnaround/Consumers.antt =====
-- The consumers of the broker's queues (events/flight-event.consumer.ts, crew-event.consumer.ts,
-- equipment-event.consumer.ts). A handler returns nothing, which acknowledges the message, or a
-- `Nack`, with whether the message is to be queued again. Messages have the shape that the
-- interfaces of the source declare.
pub mod Delivery
use microservices_practice.Common.{
  String, Bool, true, false, Option, none, some, List, str_eq, if◌then◌else◌,
}
use microservices_practice.Turnaround.Schema.{Turnaround}
use microservices_practice.Turnaround.Dto.{CreateTurnaroundDto, UpdateTaskDto}
use microservices_practice.Turnaround.Store.{Result, ok, err}
use microservices_practice.Turnaround.World.{Env, World, Action, pure, throw, catch, ◌>>=◌}
use microservices_practice.Turnaround.Service

pub data Reply : Type 0 where
  ack : Reply
  nack : Bool → Reply

-- The fields of a flight event that the service reads.
pub record Flight : Type 0 where
  pub id : String
  pub flight_number : String
  pub aircraft_reg : String
  pub aircraft_type : String
  pub gate_id : Option String

pub record FlightEvent : Type 0 where
  pub id : String
  pub type : String
  pub flight_id : String
  pub flight : Flight
  pub old_gate_id : Option String
  pub new_gate_id : Option String

-- `CrewEvent` and `EquipmentEvent`
pub record CrewEvent : Type 0 where
  pub id : String
  pub type : String
  pub turnaround_id : String
  pub flight_id : String
  pub task_id : String
  pub crew_member_id : String

pub record EquipmentEvent : Type 0 where
  pub id : String
  pub type : String
  pub turnaround_id : String
  pub flight_id : String
  pub task_id : String
  pub equipment_id : String

-- `try { await action } catch { return new Nack(requeue) }`
abbrev pub acknowledge : {A : Type 0} → Bool → Action A → Action Reply
acknowledge requeue action = catch (action >>= λ done. pure ack) (pure (nack requeue))

abbrev pub arrival : Flight → CreateTurnaroundDto
arrival flight = record {
  flight_id = flight.id;
  flight_number = flight.flight_number;
  aircraft_type = flight.aircraft_type;
  aircraft_reg = some flight.aircraft_reg;
  gate_id = flight.gate_id;
}

abbrev pub crew_assignment : String → UpdateTaskDto
crew_assignment crew_member_id = record {
  status = none;
  notes = none;
  assigned_crew_id = some (some crew_member_id);
  assigned_equipment_id = none;
}

abbrev pub equipment_assignment : String → UpdateTaskDto
equipment_assignment equipment_id = record {
  status = none;
  notes = none;
  assigned_crew_id = none;
  assigned_equipment_id = some (some equipment_id);
}

module _ (e : Env) where
  unfoldable pub handle_flight_arrived : FlightEvent → Action Reply
  handle_flight_arrived msg = acknowledge true (Service.create_turnaround e (arrival msg.flight))

  -- Logs the change, and does nothing else.
  unfoldable pub handle_gate_changed : FlightEvent → Action Reply
  handle_gate_changed msg = acknowledge false (pure tt)

  unfoldable pub handle_flight_event : FlightEvent → Action Reply
  unfolding handle_flight_arrived handle_gate_changed
  handle_flight_event msg =
      if str_eq msg.type "flight.arrived"
      then handle_flight_arrived msg
      else if str_eq msg.type "flight.gate.changed"
      then handle_gate_changed msg
      else pure ack

  unfoldable pub handle_crew_assigned : CrewEvent → Action Reply
  handle_crew_assigned msg =
      acknowledge true
        (Service.update_task e msg.turnaround_id msg.task_id (crew_assignment msg.crew_member_id))

  unfoldable pub handle_crew_event : CrewEvent → Action Reply
  unfolding handle_crew_assigned
  handle_crew_event msg =
      if str_eq msg.type "crew.assigned" then handle_crew_assigned msg else pure ack

  unfoldable pub handle_equipment_assigned : EquipmentEvent → Action Reply
  handle_equipment_assigned msg =
      acknowledge true (
        Service.update_task e msg.turnaround_id msg.task_id (equipment_assignment msg.equipment_id))

  unfoldable pub handle_equipment_event : EquipmentEvent → Action Reply
  unfolding handle_equipment_assigned
  handle_equipment_event msg =
      if str_eq msg.type "equipment.assigned" then handle_equipment_assigned msg else pure ack
