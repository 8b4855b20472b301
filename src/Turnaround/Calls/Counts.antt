-- ===== src/Turnaround/Calls/Counts.antt =====
-- How many turnarounds a flight gets from `createTurnaround` (turnaround/turnaround.service.ts) calls
-- that run at the same time.
use microservices_practice.Common.{
  ℕ, zero, suc, ◌+◌, ◌-◌, ◌≤◌, ◌≡◌, refl, leb, Bool, false, String, List, [], ◌∷◌, map, count_if,
  arith, str_eq, if◌then◌else◌, inl, inr,
}
use microservices_practice.Turnaround.Dto.{CreateTurnaroundDto}
use microservices_practice.Turnaround.Store.{IsMongo}
use microservices_practice.Turnaround.Store.Laws.{Result-cases}
use microservices_practice.Turnaround.World.{Env, World}
use microservices_practice.Turnaround.Concurrent.Leaves.{Leaves}
use microservices_practice.Turnaround.Concurrent.Flights.{turnarounds_of, turnarounds_of-append}
use microservices_practice.Turnaround.Calls.{
  CreateStage, create_stage_of, Call, creation, task_update, milestone_update, Process, creating,
  updating_task, updating_milestones, start, create_next, advance, turn, run,
}
use microservices_practice.Turnaround.Calls.Ends.Sizes.{create_rank, create_next-rank}
use microservices_practice.Turnaround.Calls.Effect.Identity.{Update-turnarounds_of}
use microservices_practice.Turnaround.Calls.Guarantee.{Relies}
use microservices_practice.Turnaround.Calls.Guarantee.Tasks.{next-Update}
use microservices_practice.Turnaround.Calls.Guarantee.Others.{
  create_next_cases, milestone_next-Update,
}
use microservices_practice.Turnaround.Calls.Invariant.{AllRely, started-AllRely, turn-Effect}

-- The insertions that a creation may still make.
abbrev insertions : CreateStage → ℕ
insertions s = if leb 2 (create_rank s) then 1 else 0

-- For a flight, by one call and by all.
abbrev to_come : String → Process → ℕ
to_come flight_id (creating dto s) = if str_eq dto.flight_id flight_id then insertions s else 0
to_come flight_id (updating_task id task_id dto s) = 0
to_come flight_id (updating_milestones id dto s) = 0

abbrev all_to_come : String → List Process → ℕ
all_to_come flight_id [] = 0
all_to_come flight_id (p ∷ ps) = to_come flight_id p + all_to_come flight_id ps

-- A call that asks for a turnaround of a flight.
abbrev pub is_creation_for : String → Call → Bool
is_creation_for flight_id (creation dto) = str_eq dto.flight_id flight_id
is_creation_for flight_id (task_update id task_id dto) = false
is_creation_for flight_id (milestone_update id dto) = false

started_to_come :
    (flight_id : String) (calls : List Call)
    → all_to_come flight_id (map start calls) ≡ count_if (is_creation_for flight_id) calls
started_to_come flight_id [] = refl
started_to_come flight_id (creation dto ∷ calls) = ground (arith, started_to_come flight_id calls)
started_to_come flight_id (task_update id task_id dto ∷ calls) =
    omega (arith, started_to_come flight_id calls)
started_to_come flight_id (milestone_update id dto ∷ calls) =
    omega (arith, started_to_come flight_id calls)

module _ (e : Env) (laws : IsMongo e.mongo) (flight_id : String) where
  create_next-create_rank :
      (dto : CreateTurnaroundDto) (s : CreateStage) (w : World)
      → create_rank (create_stage_of (create_next e dto s w).0) ≤ create_rank s - 1
  unfolding Leaves
  create_next-create_rank dto s w = elim (Result-cases (create_next e dto s w).0) [
    | inl (s', done) ↦ ground (arith, create_next-rank e dto s w)
    | inr (x, thrown) ↦ ground arith
  ]

  -- A piece that adds a turnaround of the flight has none to come after it.
  advance-to_come :
      (p : Process) (w : World)
      → Relies p w.db
      → turnarounds_of flight_id (advance e p w).1.db + to_come flight_id (advance e p w).0
        ≤ turnarounds_of flight_id w.db + to_come flight_id p
  unfolding advance
  advance-to_come (creating dto s) w h = elim (create_next_cases e laws dto s w) [
    | inl kept ↦ ground (arith, kept, create_next-create_rank dto s w)
    | inr (place, a) ↦ ground (
      arith,
      place,
      a.appended,
      a.of_flight,
      turnarounds_of-append flight_id w.db a.document,
      create_next-create_rank dto s w,
    )
  ]
  advance-to_come (updating_task id task_id dto s) w h =
      omega
        (arith, Update-turnarounds_of w.db _ flight_id (next-Update e laws id task_id dto s w h))
  advance-to_come (updating_milestones id dto s) w h =
      omega
        (arith, Update-turnarounds_of w.db _ flight_id (milestone_next-Update e laws id dto s w))

  turn-to_come :
      (i : ℕ) (ps : List Process) (w : World)
      → AllRely ps w.db
      → turnarounds_of flight_id (turn e i ps w).1.db + all_to_come flight_id (turn e i ps w).0
        ≤ turnarounds_of flight_id w.db + all_to_come flight_id ps
  unfolding turn
  turn-to_come i [] w h = omega arith
  turn-to_come zero (p ∷ ps) w (r, h) = omega (arith, advance-to_come p w r)
  turn-to_come (suc i) (p ∷ ps) w (r, h) = omega (arith, turn-to_come i ps w h)

  run-to_come :
      (schedule : List ℕ) (ps : List Process) (w : World)
      → AllRely ps w.db
      → turnarounds_of flight_id (run e schedule ps w).1.db
        ≤ turnarounds_of flight_id w.db + all_to_come flight_id ps
  unfolding run
  run-to_come [] ps w h = omega arith
  run-to_come (i ∷ schedule) ps w h =
      let (effect, h') = turn-Effect e laws i ps w h in
      omega
        (arith, turn-to_come i ps w h, run-to_come schedule (turn e i ps w).0 (turn e i ps w).1 h')

  -- Any number of calls of any kind that start together, in any order of their pieces, finished or
  -- not: the flight then has at most as many turnarounds more as there are creations for it.
  pub run-turnarounds_of :
      (schedule : List ℕ) (calls : List Call) (w : World)
      → turnarounds_of flight_id (run e schedule (map start calls) w).1.db
        ≤ turnarounds_of flight_id w.db + count_if (is_creation_for flight_id) calls
  run-turnarounds_of schedule calls w = omega (
    arith,
    run-to_come schedule (map start calls) w (started-AllRely calls w.db),
    started_to_come flight_id calls,
  )
