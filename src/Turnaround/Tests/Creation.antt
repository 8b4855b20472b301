-- ===== src/Turnaround/Tests/Creation.antt =====
-- Runs of `createTurnaround`, and task lists.
use microservices_practice.Common.{◌≡◌, refl, arith, ◌⊎◌, true, none, some, List, map, length}
use microservices_practice.Turnaround.Schema.{Turnaround, NewTask}
use microservices_practice.Turnaround.Templates
use microservices_practice.Turnaround.Store.{Result, ok, fine, find_by_flight}
use microservices_practice.Turnaround.Store.Memory.{memory-insert_fault}
use microservices_practice.Turnaround.World.{World, counted}
use microservices_practice.Turnaround.Weather
use microservices_practice.Turnaround.Tasks
use microservices_practice.Turnaround.Service
use microservices_practice.Turnaround.Service.Arrivals.{create_turnaround_returns}
use microservices_practice.Turnaround.Service.Creation.{create_turnaround_again, IsCreation}
use microservices_practice.Turnaround.Service.Document.{IsStarted, create_turnaround-IsStarted}
use microservices_practice.Turnaround.Service.Schedule.{IsScheduled, with_de_icing-IsScheduled}
use microservices_practice.Turnaround.Tasks.Placement.{placed, inject_de_icing-placed}
use microservices_practice.Turnaround.Tests.{
  icy, env, empty_world, arrival, busy, value_or, service, laws, no_fault,
}

abbrev first_run : Result Turnaround × World
first_run = Service.create_turnaround env arrival empty_world

first_returned : first_run ≡ (ok (value_or busy first_run.0), first_run.1)
unfolding service
first_returned = refl

-- An A380 in icing weather: seven tasks and de-icing.
first_tasks : length (value_or busy first_run.0).tasks ≡ 8
unfolding service
first_tasks = refl

create_turnaround_returns_example :
    (t : Turnaround) × ((Service.create_turnaround env arrival empty_world).0 ≡ ok t)
unfolding find_by_flight Templates.get_tasks_for_aircraft
create_turnaround_returns_example =
    create_turnaround_returns env laws arrival Templates.wide_body_tasks empty_world
      (no_fault empty_world.calls) (memory-insert_fault (λ k. fine)) refl refl

create_turnaround-IsStarted_example :
    ((find_by_flight "f1" empty_world.db ≡ some (value_or busy first_run.0))
      × (first_run.1 ≡ counted empty_world))
    ⊎ ((find_by_flight "f1" empty_world.db ≡ none)
        × ((c : IsCreation env laws arrival
              (counted empty_world)
              (value_or busy first_run.0)
              first_run.1)
            × IsStarted arrival c.templates c.factor c.required c.after_factor.cached_weather
                (env.now c.after_factor.calls)
                (value_or busy first_run.0)))
create_turnaround-IsStarted_example =
    create_turnaround-IsStarted env laws arrival empty_world (value_or busy first_run.0) first_run.1
      first_returned

create_turnaround_again_example :
    Service.create_turnaround env arrival first_run.1
    ≡ (ok (value_or busy first_run.0), counted first_run.1)
create_turnaround_again_example =
    create_turnaround_again env laws arrival empty_world (value_or busy first_run.0) first_run.1
      first_run.1 first_returned refl (no_fault first_run.1.calls)

with_de_icing-IsScheduled_example :
    IsScheduled Templates.narrow_body_tasks 120 true
      (some icy)
      (Service.with_de_icing true (some icy) (map (Tasks.new_task 120) Templates.narrow_body_tasks))
unfolding Templates.get_tasks_for_aircraft
with_de_icing-IsScheduled_example =
    with_de_icing-IsScheduled "C172" Templates.narrow_body_tasks true (some icy) 120 refl

abbrev plain_tasks : List NewTask
plain_tasks = map (Tasks.new_task 100) Templates.narrow_body_tasks

inject_de_icing-placed_example :
    Tasks.inject_de_icing (Weather.get_de_icing_task none 5) plain_tasks
    ≡ placed (Weather.get_de_icing_task none 5) plain_tasks
unfolding Tasks.new_task Weather.get_de_icing_task
inject_de_icing-placed_example =
    inject_de_icing-placed (Weather.get_de_icing_task none 5) plain_tasks
      (
        (omega arith, (omega arith, (omega arith, (omega arith, tt)))),
        (
          (omega arith, (omega arith, (omega arith, tt))),
          ((omega arith, (omega arith, tt)), ((omega arith, tt), (tt, tt))),
        ),
      )
      (omega arith, (omega arith, (omega arith, (omega arith, (omega arith, tt)))))
