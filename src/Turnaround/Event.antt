-- ===== src/Turnaround/Event.antt =====
-- The envelope and the payloads of the turnaround events (events/turnaround-event.publisher.ts).
use microservices_practice.Common.{ℕ, String, Bool, Option, List}
use microservices_practice.Turnaround.Schema.{Date, Milestones, MilestoneKey}

pub data RoutingKey : Type 0 where
  started task_completed completed milestone_updated : RoutingKey

-- An entry of the `tasks` array of turnaround.started.
pub record TaskSummary : Type 0 where
  pub id : String
  pub name : String
  pub order : ℕ
  pub required_certification : Option String

-- The `data` object of each event, in the order of its keys.
pub data Payload : Type 0 where
  turnaround_started :
      (turnaround_id flight_id flight_number aircraft_type : String) (task_count : ℕ)
      (tasks : List TaskSummary)
      → Payload
  task_completed :
      (turnaround_id flight_id task_id : String) (task_name : Option String) (progress_percent : ℕ)
      → Payload
  turnaround_completed :
      (turnaround_id flight_id flight_number : String) (completed_at : Option Date) → Payload
  milestone_updated :
      (turnaround_id flight_id flight_number : String) (updated_milestones : List MilestoneKey)
      (milestones : Milestones)
      → Payload

pub record TurnaroundEvent : Type 0 where
  pub id : String
  pub type : RoutingKey
  pub turnaround_id : String
  pub flight_id : String
  pub correlation_id : String
  pub timestamp : ℕ
  pub payload : Payload

-- A message at the broker: the exchange, the routing key, the event and the message options.
pub record Publication : Type 0 where
  pub exchange : String
  pub routing_key : RoutingKey
  pub event : TurnaroundEvent
  pub persistent : Bool
  pub content_type : String
  pub message_id : String
  pub correlation_id : String
  pub timestamp : ℕ
