-- ===== src/Turnaround/Calls/Ends.antt =====
-- How long a call of any kind (turnaround/turnaround.service.ts) lasts, in turns.
pub mod Sizes
use microservices_practice.Common.{
  ℕ, zero, suc, ◌+◌, ◌-◌, ◌≤◌, ◌≡◌, refl, Bool, true, false, String, none, some, inl, inr, List, [],
  ◌∷◌, map, arith, ◌==◌, if◌then◌else◌,
}
use microservices_practice.Common.Int.{pos}
use microservices_practice.Turnaround.Schema.{time}
use microservices_practice.Turnaround.Dto.{CreateTurnaroundDto, UpdateTaskDto, UpdateMilestonesDto}
use microservices_practice.Turnaround.Store.{
  Result, ok, err, not_found, failed_to_update_milestones,
}
use microservices_practice.Turnaround.Store.Laws.{Result-cases}
use microservices_practice.Turnaround.World.{Env, World, Action, pure, ◌>>=◌, date_now}
use microservices_practice.Turnaround.Templates.{get_tasks_for_aircraft}
use microservices_practice.Turnaround.Weather
use microservices_practice.Turnaround.Repository
use microservices_practice.Turnaround.Publisher
use microservices_practice.Turnaround.Service.{
  tasks_of, cached, with_de_icing, new_turnaround, key_of,
}
use microservices_practice.Turnaround.Concurrent.{Stage, next}
use microservices_practice.Turnaround.Concurrent.Leaves.{
  Leaves, Leaves-pure, Leaves-throw, Leaves-bind, Leaves-option,
}
use microservices_practice.Turnaround.Concurrent.Progress.{
  rank, next-rank, rank-le, is_over, is_over-rank, turns_of,
}
use microservices_practice.Turnaround.Concurrent.Milestones.{accept}
use microservices_practice.Turnaround.Calls.{
  CreateStage, MilestoneStage, create_stage_of, milestone_stage_of, Process, creating,
  updating_task, updating_milestones, create_next, milestone_next, advance, turn, run,
}
use microservices_practice.Turnaround.Calls.Ends.Sizes.{
  size, has_ended, size-le, has_ended-size, advance-size,
}

-- Those of the call at a position; past the last call there is none.
abbrev size_at : ℕ → List Process → ℕ
size_at i [] = 0
size_at zero (p ∷ ps) = size p
size_at (suc i) (p ∷ ps) = size_at i ps

abbrev pub has_ended_at : ℕ → List Process → Bool
has_ended_at i [] = true
has_ended_at zero (p ∷ ps) = has_ended p
has_ended_at (suc i) (p ∷ ps) = has_ended_at i ps

size_at-le : (i : ℕ) (ps : List Process) → size_at i ps ≤ 8
size_at-le i [] = omega arith
size_at-le zero (p ∷ ps) = size-le p
size_at-le (suc i) (p ∷ ps) = size_at-le i ps

has_ended_at-size_at : (i : ℕ) (ps : List Process) → size_at i ps ≤ 0 → has_ended_at i ps ≡ true
has_ended_at-size_at i [] h = refl
has_ended_at-size_at zero (p ∷ ps) h = has_ended-size p h
has_ended_at-size_at (suc i) (p ∷ ps) h = has_ended_at-size_at i ps h

module _ (e : Env) where
  turn-size_at :
      (i j : ℕ) (ps : List Process) (w : World)
      → size_at i (turn e j ps w).0 ≤ size_at i ps - (if i == j then 1 else 0)
  unfolding turn
  turn-size_at i j [] w = omega arith
  turn-size_at zero zero (p ∷ ps) w = advance-size e p w
  turn-size_at zero (suc j) (p ∷ ps) w = ground arith
  turn-size_at (suc i) zero (p ∷ ps) w = ground arith
  turn-size_at (suc i) (suc j) (p ∷ ps) w = ground (arith, turn-size_at i j ps w)

  run-size_at :
      (i : ℕ) (schedule : List ℕ) (ps : List Process) (w : World)
      → size_at i (run e schedule ps w).0 ≤ size_at i ps - turns_of i schedule
  unfolding run
  run-size_at i [] ps w = omega arith
  run-size_at i (j ∷ schedule) ps w =
      let one = turn-size_at i j ps w in
      let others = run-size_at i schedule (turn e j ps w).0 (turn e j ps w).1 in
      omega (arith, one, others)

  -- Whatever kinds of calls run at the same time and whatever the store, the weather service and the
  -- broker answer, a call that had eight turns has returned or thrown.
  pub run-has_ended :
      (i : ℕ) (schedule : List ℕ) (ps : List Process) (w : World)
      → 8 ≤ turns_of i schedule
      → has_ended_at i (run e schedule ps w).0 ≡ true
  run-has_ended i schedule ps w h =
      has_ended_at-size_at i (run e schedule ps w).0
        (omega (arith, run-size_at i schedule ps w, size_at-le i ps, h))
