-- ===== src/Turnaround/Tests/Calls.antt =====
-- Runs of calls of every kind at the same time.
use microservices_practice.Common.{
  ℕ, ◌+◌, ◌≤◌, count_if, ◌≡◌, refl, true, some, List, [], ◌∷◌, map, All, arith,
}
use microservices_practice.Common.Int.{pos}
use microservices_practice.Turnaround.Schema.{time, TaskStatus, Turnaround}
use microservices_practice.Turnaround.Store.{find_by_id}
use microservices_practice.Turnaround.World.{World}
use microservices_practice.Turnaround.Calls
use microservices_practice.Turnaround.Calls.{Call, creation, task_update, milestone_update, start}
use microservices_practice.Turnaround.Calls.Ends.{has_ended_at, run-has_ended}
use microservices_practice.Turnaround.Calls.Effect.{IsSound, Effects}
use microservices_practice.Turnaround.Calls.Effect.Identity.{identity}
use microservices_practice.Turnaround.Calls.Invariant.{
  run-Effects, run-IsSound, run-keeps_turnaround,
}
use microservices_practice.Turnaround.Concurrent.Flights.{turnarounds_of}
use microservices_practice.Turnaround.Calls.Counts.{is_creation_for, run-turnarounds_of}
use microservices_practice.Turnaround.Tests.{
  env, empty_world, arrival, a_task, busy, completion, later, laws,
}

-- One task is skipped, the other has started.
abbrev under_way : Turnaround
under_way = record busy {
  tasks =
      a_task "a" TaskStatus.skipped
      ∷ record (a_task "b" TaskStatus.in_progress) { started_at = some (time (pos 2)) }
      ∷ [];
}

abbrev one_under_way : World
one_under_way = record empty_world { db = under_way ∷ [] }

abbrev mixed : List Call
mixed =
    creation (record arrival { flight_id = "f2" })
    ∷ task_update "x" "b" completion
    ∷ milestone_update "x" later
    ∷ []

-- The creation ends, the others are left on their way.
abbrev woven : List ℕ
woven = 0 ∷ 1 ∷ 2 ∷ 0 ∷ 1 ∷ 0 ∷ 2 ∷ 1 ∷ 0 ∷ 0 ∷ 0 ∷ 0 ∷ 1 ∷ 0 ∷ []

run-has_ended_example :
    has_ended_at 0 (Calls.run env woven (map start mixed) one_under_way).0 ≡ true
run-has_ended_example = run-has_ended env 0 woven (map start mixed) one_under_way (omega arith)

run-Effects_example :
    Effects one_under_way.db (Calls.run env woven (map start mixed) one_under_way).1.db
run-Effects_example = run-Effects env laws woven mixed one_under_way

under_way-IsSound : All IsSound one_under_way.db
under_way-IsSound = (record { bounded = omega arith; timed = (refl, (refl, tt)) }, tt)

run-IsSound_example : All IsSound (Calls.run env woven (map start mixed) one_under_way).1.db
run-IsSound_example = run-IsSound env laws woven mixed one_under_way under_way-IsSound

found_under_way : find_by_id "x" one_under_way.db ≡ some under_way
unfolding find_by_id
found_under_way = refl

run-keeps_turnaround_example :
    (d' : Turnaround) × (find_by_id "x" (Calls.run env woven (map start mixed) one_under_way).1.db
      ≡ some d')
    × (identity d' ≡ identity under_way)
run-keeps_turnaround_example =
    run-keeps_turnaround env laws woven mixed one_under_way "x" under_way found_under_way

run-turnarounds_of_example :
    turnarounds_of "f2" (Calls.run env woven (map start mixed) one_under_way).1.db
    ≤ turnarounds_of "f2" one_under_way.db + count_if (is_creation_for "f2") mixed
run-turnarounds_of_example = run-turnarounds_of env laws "f2" woven mixed one_under_way
