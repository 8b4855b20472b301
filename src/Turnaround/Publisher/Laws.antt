-- ===== src/Turnaround/Publisher/Laws.antt =====
-- Publishing never throws, and touches only the messages at the broker.
use microservices_practice.Common.{
  ℕ, suc, String, ◌≡◌, Bool, true, false, List, [], ◌∷◌, ◌++◌, arith, if◌then◌else◌,
}
use microservices_practice.Turnaround.Schema.{Turnaround, MilestoneKey}
use microservices_practice.Turnaround.Event.{RoutingKey, Payload, Publication}
use microservices_practice.Turnaround.Store.{ok, Fault, fine, refused, lost}
use microservices_practice.Turnaround.World.{Env, World, Action}
use microservices_practice.Turnaround.Publisher.{
  publish, message, publish_turnaround_started, publish_task_completed,
  publish_turnaround_completed, publish_milestone_updated,
}

-- The action returns, and leaves the collection and the weather cache as they were.
abbrev pub IsQuiet : Action (Unit {0}) → World → Type 0
IsQuiet m w =
    ((m w).0 ≡ ok tt)
    × ((m w).1.db ≡ w.db)
    × ((m w).1.cached_weather ≡ w.cached_weather)
    × ((m w).1.last_fetch_at ≡ w.last_fetch_at)

module _ (e : Env) where
  pub publish-IsQuiet :
      (key : RoutingKey) (id flight_id : String) (p : Payload) (w : World)
      → IsQuiet (publish e key id flight_id p) w
  unfolding publish
  publish-IsQuiet key id flight_id p w = ground arith

  pub publish_turnaround_started-IsQuiet :
      (t : Turnaround) (w : World) → IsQuiet (publish_turnaround_started e t) w
  unfolding publish_turnaround_started
  publish_turnaround_started-IsQuiet t w = ground arith

  pub publish_task_completed-IsQuiet :
      (t : Turnaround) (task_id : String) (w : World)
      → IsQuiet (publish_task_completed e t task_id) w
  unfolding publish_task_completed
  publish_task_completed-IsQuiet t task_id w = ground arith

  pub publish_turnaround_completed-IsQuiet :
      (t : Turnaround) (w : World) → IsQuiet (publish_turnaround_completed e t) w
  unfolding publish_turnaround_completed
  publish_turnaround_completed-IsQuiet t w = ground arith

  pub publish_milestone_updated-IsQuiet :
      (t : Turnaround) (fields : List MilestoneKey) (w : World)
      → IsQuiet (publish_milestone_updated e t fields) w
  unfolding publish_milestone_updated
  publish_milestone_updated-IsQuiet t fields w = ground arith

-- Whether a message reaches the broker.
abbrev pub reaches : Fault → Bool
reaches fine = true
reaches (refused x) = false
reaches (lost x) = true

-- The message of an event, of the ids and times that are read after `k` calls.
abbrev pub event_message : Env → ℕ → RoutingKey → (id flight_id : String) → Payload → Publication
event_message e k key id flight_id p =
    message key id flight_id p (e.uuid k) (e.uuid (suc k)) (e.now (suc (suc k)))
      (e.now (suc (suc (suc k))))

-- Publishing returns however the broker answers; it adds exactly one message, or none if the broker
-- refuses it.
pub publish_delivery :
    (e : Env) (key : RoutingKey) (id flight_id : String) (p : Payload) (w : World)
    → let r = publish e key id flight_id p w in
      (r.0 ≡ ok tt)
      × (r.1.published ≡ (
          if reaches (e.broker (suc (suc (suc (suc w.calls)))))
          then w.published ++ event_message e w.calls key id flight_id p ∷ []
          else w.published))
unfolding publish
publish_delivery e key id flight_id p w = ground arith
