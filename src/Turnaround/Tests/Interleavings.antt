-- ===== src/Turnaround/Tests/Interleavings.antt =====
-- Runs of requests at the same time.
use microservices_practice.Common.{
  ℕ, ◌≡◌, ◌≤◌, ◌<◌, refl, inr, none, some, List, [], ◌∷◌, arith, length, eq_iff,
}
use microservices_practice.Turnaround.Schema.{TaskStatus, TurnaroundStatus, Turnaround}
use microservices_practice.Turnaround.Store.{Result, ok, find_by_id}
use microservices_practice.Turnaround.World.{World}
use microservices_practice.Turnaround.Repository
use microservices_practice.Turnaround.Service
use microservices_practice.Turnaround.Service.Frame.{task_in}
use microservices_practice.Turnaround.Tasks
use microservices_practice.Turnaround.Concurrent
use microservices_practice.Turnaround.Concurrent.{Stage, Request}
use microservices_practice.Turnaround.Concurrent.Apart.{run-keeps_task}
use microservices_practice.Turnaround.Concurrent.Races.{stale_progress}
use microservices_practice.Turnaround.Concurrent.Flights.{
  turnarounds_of, create_turnaround-count, create_new_race,
}
use microservices_practice.Turnaround.Tests.{
  env, empty_world, arrival, a_task, busy, busy_world, completion, value_or, service, laws,
  no_fault,
}

-- Two open tasks beside one that is skipped.
abbrev pair : Turnaround
pair = record busy {
  tasks =
      a_task "a" TaskStatus.in_progress
      ∷ a_task "b" TaskStatus.in_progress
      ∷ a_task "c" TaskStatus.skipped
      ∷ [];
}

abbrev pair_world : World
pair_world = record empty_world { db = pair ∷ [] }

abbrev both : List Request
both =
    record { turnaround_id = "x"; task_id = "a"; dto = completion; stage = Stage.received }
    ∷ record { turnaround_id = "x"; task_id = "b"; dto = completion; stage = Stage.received }
    ∷ []

-- The second request runs whole after the first has changed its task.
abbrev overtaken : List ℕ
overtaken = 0 ∷ 0 ∷ 1 ∷ 1 ∷ 1 ∷ 1 ∷ 1 ∷ 1 ∷ 1 ∷ 1 ∷ 0 ∷ 0 ∷ 0 ∷ 0 ∷ []

abbrev left : Turnaround
left = elim (find_by_id "x" (Concurrent.run env overtaken both pair_world).1.db) [
  | none ↦ pair
  | some t ↦ t
]

-- Every task is done, and the turnaround is in progress at 67 percent.
left_open :
    (Tasks.completed_count left.tasks ≡ 3)
    × (left.status ≡ TurnaroundStatus.in_progress)
    × (left.progress_percent ≡ 67)
unfolding service Concurrent.run
left_open = (refl, refl, refl)

run-keeps_task_example :
    task_in "x" "c" (Concurrent.run env overtaken both pair_world).1.db
    ≡ task_in "x" "c" pair_world.db
run-keeps_task_example =
    run-keeps_task env laws "x" "c" overtaken both pair_world
      (inr (ground (arith, eq_iff "c" "a")), (inr (ground (arith, eq_iff "c" "b")), tt))

abbrev changed_pair : Turnaround
changed_pair = record pair {
  tasks =
      a_task "a" TaskStatus.completed
      ∷ a_task "b" TaskStatus.in_progress
      ∷ a_task "c" TaskStatus.skipped
      ∷ [];
}

abbrev closed_pair : Turnaround
closed_pair = record pair {
  status = TurnaroundStatus.completed;
  tasks =
      a_task "a" TaskStatus.completed
      ∷ a_task "b" TaskStatus.completed
      ∷ a_task "c" TaskStatus.skipped
      ∷ [];
}

abbrev closed_world : World
closed_world = record empty_world { db = closed_pair ∷ [] }

stale_progress_example :
    let w' = (Concurrent.next env "x" "a" completion (Stage.changed changed_pair) closed_world).1 in
    (t : Turnaround) × (find_by_id "x" w'.db ≡ some t)
    × (Tasks.completed_count t.tasks ≡ length t.tasks)
    × (t.status ≡ TurnaroundStatus.in_progress)
    × (t.progress_percent < 100)
unfolding find_by_id Tasks.completed_count
stale_progress_example =
    stale_progress env laws "x" "a" completion changed_pair closed_pair closed_world
      (no_fault closed_world.calls) refl (omega arith) (omega arith) refl refl refl

create_turnaround-count_example :
    turnarounds_of "f1" (Service.create_turnaround env arrival busy_world).1.db ≤ 1
create_turnaround-count_example = create_turnaround-count env laws arrival busy_world (omega arith)

abbrev first_search : World
first_search = (Repository.find_by_flight_id env "f1" empty_world).1

abbrev second_search : World
second_search = (Repository.find_by_flight_id env "f1" first_search).1

abbrev first_creation : Result Turnaround × World
first_creation = Service.create_new env arrival second_search

abbrev second_creation : Result Turnaround × World
second_creation = Service.create_new env arrival first_creation.1

searched_first : Repository.find_by_flight_id env "f1" empty_world ≡ (ok none, first_search)
unfolding service
searched_first = refl

searched_second : Repository.find_by_flight_id env "f1" first_search ≡ (ok none, second_search)
unfolding service
searched_second = refl

created_first : first_creation ≡ (ok (value_or busy first_creation.0), first_creation.1)
unfolding service
created_first = refl

created_second : second_creation ≡ (ok (value_or busy second_creation.0), second_creation.1)
unfolding service
created_second = refl

create_new_race_example : turnarounds_of "f1" second_creation.1.db ≡ 2
create_new_race_example =
    create_new_race env laws arrival empty_world first_search second_search first_creation.1
      second_creation.1 (value_or busy first_creation.0) (value_or busy second_creation.0)
      searched_first searched_second created_first created_second
