-- ===== src/Turnaround/Publisher.antt =====
-- `TurnaroundEventPublisher` (events/turnaround-event.publisher.ts).
pub mod Laws
use microservices_practice.Common.{
  ℕ, ◌/◌, String, true, Option, none, some, List, [], ◌∷◌, ◌++◌, map, length,
}
use microservices_practice.Turnaround.Schema.{Task, Turnaround, MilestoneKey}
use microservices_practice.Turnaround.Event.{
  RoutingKey, Payload, turnaround_started, task_completed, turnaround_completed, milestone_updated,
  TaskSummary, TurnaroundEvent, Publication,
}
use microservices_practice.Turnaround.Store.{
  Mongo, Result, ok, err, Fault, fine, refused, lost, external,
}
use microservices_practice.Turnaround.World.{
  Env, World, Action, pure, catch, counted, date_now, uuidv4, ◌>>=◌,
}

abbrev pub exchange : String
exchange = "turnaround.events"

-- `amqpConnection.publish`: the message reaches the broker unless the call is refused.
abbrev pub delivered : Fault → Publication → World → World
delivered fine p w = record w { published = w.published ++ p ∷ [] }
delivered (refused e) p w = w
delivered (lost e) p w = record w { published = w.published ++ p ∷ [] }

abbrev pub outcome : Fault → Result (Unit {0})
outcome fine = ok tt
outcome (refused e) = err (external e)
outcome (lost e) = err (external e)

abbrev pub amqp_publish : Env → Publication → Action (Unit {0})
amqp_publish e p w = (outcome (e.broker w.calls), delivered (e.broker w.calls) p (counted w))

-- The message that `publish` builds of the ids and times that it draws.
unfoldable pub message :
    RoutingKey
    → (turnaround_id flight_id : String) → Payload
    → (correlation_id id : String) → (at now : ℕ) → Publication
message key turnaround_id flight_id payload correlation_id id at now = record {
  exchange = exchange;
  routing_key = key;
  event = record {
    id = id;
    type = key;
    turnaround_id = turnaround_id;
    flight_id = flight_id;
    correlation_id = correlation_id;
    timestamp = at;
    payload = payload;
  };
  persistent = true;
  content_type = "application/json";
  message_id = id;
  correlation_id = correlation_id;
  timestamp = now / 1000;
}

summary : Task → TaskSummary
summary t = record {
  id = t.id;
  name = t.name;
  order = t.order;
  required_certification = t.required_certification;
}

module _ (e : Env) where
  -- A failure is logged and not thrown.
  unfoldable pub publish :
      RoutingKey → (turnaround_id flight_id : String) → Payload → Action (Unit {0})
  unfolding message
  publish key turnaround_id flight_id payload = do
    correlation_id ← uuidv4 e
    id ← uuidv4 e
    at ← date_now e
    now ← date_now e
    catch (amqp_publish e (message key turnaround_id flight_id payload correlation_id id at now))
        (pure tt)

  unfoldable pub publish_turnaround_started : Turnaround → Action (Unit {0})
  unfolding publish summary
  publish_turnaround_started t = publish RoutingKey.started t.id t.flight_id (
      turnaround_started t.id t.flight_id t.flight_number t.aircraft_type (length t.tasks)
        (map summary t.tasks))

  abbrev name_of : Option Task → Option String
  name_of none = none
  name_of (some t) = some t.name

  unfoldable pub publish_task_completed : Turnaround → String → Action (Unit {0})
  unfolding publish
  publish_task_completed t task_id = publish RoutingKey.task_completed t.id t.flight_id (
      task_completed t.id t.flight_id task_id (name_of (e.mongo.task_by_id t.tasks task_id))
        t.progress_percent)

  unfoldable pub publish_turnaround_completed : Turnaround → Action (Unit {0})
  unfolding publish
  publish_turnaround_completed t =
      publish RoutingKey.completed t.id t.flight_id
        (turnaround_completed t.id t.flight_id t.flight_number t.completed_at)

  unfoldable pub publish_milestone_updated : Turnaround → List MilestoneKey → Action (Unit {0})
  unfolding publish
  publish_milestone_updated t updated_fields =
      publish RoutingKey.milestone_updated t.id t.flight_id
        (milestone_updated t.id t.flight_id t.flight_number updated_fields t.milestones)
