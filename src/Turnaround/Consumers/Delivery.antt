-- ===== src/Turnaround/Consumers/Delivery.antt =====
-- What redelivery by the broker does.
use microservices_practice.Common.{ℕ, suc, ◌≡◌, true, none, some, inl, inr, arith, eq_iff}
use microservices_practice.Turnaround.Schema.{Turnaround, Task}
use microservices_practice.Turnaround.Store.{
  ok, fine, IsMongo, find_by_flight, set_positional, assign_all_task,
}
use microservices_practice.Turnaround.Store.Laws.{Result-cases, find_task-set_positional}
use microservices_practice.Turnaround.Repository.Laws.{find_by_flight_id_run}
use microservices_practice.Turnaround.Weather.Laws.{
  is_de_icing_required-Observes, get_duration_factor-Observes,
}
use microservices_practice.Turnaround.World.{Env, World, counted}
use microservices_practice.Turnaround.Templates.{inherited, get_tasks_for_aircraft}
use microservices_practice.Turnaround.Service.{create_turnaround, create_new, update_task}
use microservices_practice.Turnaround.Service.Creation.{create_turnaround_again}
use microservices_practice.Turnaround.Service.Frame.{task_in, update_task_missing}
use microservices_practice.Turnaround.Service.Update.{update_task_ok, settled}
use microservices_practice.Turnaround.Tasks.{task_updates}
use microservices_practice.Turnaround.Consumers.{
  ack, nack, FlightEvent, CrewEvent, arrival, crew_assignment, handle_flight_event,
  handle_crew_event,
}

module _ (e : Env) (laws : IsMongo e.mongo) where
  -- An acknowledged arrival created or found the flight's turnaround.
  arrival_run :
      (msg : FlightEvent) (w w' : World)
      → msg.type ≡ "flight.arrived"
      → handle_flight_event e msg w ≡ (ok ack, w')
      → (t : Turnaround) × (create_turnaround e (arrival msg.flight) w ≡ (ok t, w'))
  unfolding handle_flight_event
  arrival_run msg w w' kind h = elim (Result-cases (create_turnaround e (arrival msg.flight) w).0) [
    | inl (t, done) ↦ (t, ground (arith, eq_iff msg.type "flight.arrived"))
    | inr (x, failed) ↦ absurd (ground (arith, eq_iff msg.type "flight.arrived"))
  ]

  -- The broker may deliver an arrival again: once acknowledged, it is acknowledged again, at any
  -- time at which the collection is as the first delivery left it, and nothing is created, fetched
  -- or published.
  pub arrival_redelivered :
      (msg : FlightEvent) (w w' w₂ : World)
      → msg.type ≡ "flight.arrived"
      → handle_flight_event e msg w ≡ (ok ack, w')
      → w₂.db ≡ w'.db
      → laws.fault w₂.calls ≡ fine
      → handle_flight_event e msg w₂ ≡ (ok ack, counted w₂)
  unfolding handle_flight_event
  arrival_redelivered msg w w' w₂ kind h same up =
      let (t, run) = arrival_run msg w w' kind h in
      ground (
        arith,
        eq_iff msg.type "flight.arrived",
        create_turnaround_again e laws (arrival msg.flight) w t w' w₂ run same up,
      )

  crew_run :
      (msg : CrewEvent) (w w' : World)
      → msg.type ≡ "crew.assigned"
      → handle_crew_event e msg w ≡ (ok ack, w')
      → (t : Turnaround) × (update_task e msg.turnaround_id msg.task_id
            (crew_assignment msg.crew_member_id)
            w
          ≡ (ok t, w'))
  unfolding handle_crew_event
  crew_run msg w w' kind h =
      let run =
        update_task e msg.turnaround_id msg.task_id (crew_assignment msg.crew_member_id) w in
      elim (Result-cases run.0) [
        | inl (t, done) ↦ (t, ground (arith, eq_iff msg.type "crew.assigned"))
        | inr (x, failed) ↦ absurd (ground (arith, eq_iff msg.type "crew.assigned"))
      ]

  -- The task of a settled turnaround.
  settled-tasks : (now : ℕ) (u : Turnaround) → (settled now u).tasks ≡ u.tasks
  settled-tasks now u = ground arith

  -- When a crew.assigned event is acknowledged, the crew member stands on the stored task, whose
  -- other fields are as they were.
  pub crew_event_assigns :
      (msg : CrewEvent) (w w' : World)
      → msg.type ≡ "crew.assigned"
      → handle_crew_event e msg w ≡ (ok ack, w')
      → (task : Task) × (task_in msg.turnaround_id msg.task_id w.db ≡ some task)
        × (task_in msg.turnaround_id msg.task_id w'.db
            ≡ some (record task { assigned_crew_id = some msg.crew_member_id }))
  unfolding task_updates assign_all_task
  crew_event_assigns msg w w' kind h =
      let (t, run) = crew_run msg w w' kind h in
      let dto = crew_assignment msg.crew_member_id in
      let (d, task, k, found, there, same, stored) =
        update_task_ok e laws msg.turnaround_id msg.task_id dto t w w' run in
      let fields = task_updates dto task (e.now (suc w.calls)) in
      (
        task,
        ground (arith, found, there),
        ground (
          arith,
          stored,
          same,
          settled-tasks (e.now k) (set_positional msg.task_id fields d),
          find_task-set_positional msg.task_id fields d task there,
        ),
      )

  -- A crew.assigned event for a turnaround or a task that is not there is queued again each time
  -- that the store answers, and changes nothing.
  crew_event_missing :
      (msg : CrewEvent) (w : World)
      → msg.type ≡ "crew.assigned"
      → laws.fault w.calls ≡ fine
      → task_in msg.turnaround_id msg.task_id w.db ≡ none
      → handle_crew_event e msg w ≡ (ok (nack true), counted w)
  unfolding handle_crew_event
  crew_event_missing msg w kind up missing = ground (
    arith,
    eq_iff msg.type "crew.assigned",
    update_task_missing e laws msg.turnaround_id msg.task_id (crew_assignment msg.crew_member_id) w
        up missing,
  )

  -- An arrival whose aircraft type names a member that every JavaScript object inherits, of a
  -- flight with no turnaround, never creates one: while the store answers it is queued again.
  pub arrival_poisoned :
      (msg : FlightEvent) (w : World)
      → msg.type ≡ "flight.arrived"
      → laws.fault w.calls ≡ fine
      → find_by_flight msg.flight.id w.db ≡ none
      → get_tasks_for_aircraft msg.flight.aircraft_type ≡ inherited
      → ((handle_flight_event e msg w).0 ≡ ok (nack true))
        × ((handle_flight_event e msg w).1.db ≡ w.db)
        × ((handle_flight_event e msg w).1.published ≡ w.published)
  unfolding handle_flight_event create_turnaround create_new
  arrival_poisoned msg w kind up missing odd =
      let (required, w₁, p₁, d₁, m₁) = is_de_icing_required-Observes e (counted w) in
      let (factor, w₂, p₂, d₂, m₂) = get_duration_factor-Observes e w₁ in
      ground (arith, eq_iff msg.type "flight.arrived", find_by_flight_id_run e laws w msg.flight.id)
