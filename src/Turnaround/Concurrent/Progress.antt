-- ===== src/Turnaround/Concurrent/Progress.antt =====
-- How long a call of `updateTask` lasts, in turns.
use microservices_practice.Common.{
  ℕ, zero, suc, ◌+◌, ◌-◌, ◌≤◌, ◌≡◌, refl, Bool, true, false, List, [], ◌∷◌, length, arith, ◌==◌,
  if◌then◌else◌, String,
}
use microservices_practice.Common.Int.{pos}
use microservices_practice.Turnaround.Schema.{TurnaroundStatus, MilestoneKey, time}
use microservices_practice.Turnaround.Dto.{UpdateTaskDto}
use microservices_practice.Turnaround.Store.{
  Result, ok, err, SetField, not_found, task_not_found, failed_to_update_task,
}
use microservices_practice.Turnaround.World.{Env, World, pure, date_now}
use microservices_practice.Turnaround.Repository
use microservices_practice.Turnaround.Publisher
use microservices_practice.Turnaround.Service.{get_turnaround, update_time, when, asks_completion}
use microservices_practice.Turnaround.Tasks.{task_updates, completed_count, progress_of}
use microservices_practice.Turnaround.Concurrent.Leaves.{
  Leaves, Leaves-pure, Leaves-throw, Leaves-bind, Leaves-option, Leaves-if, left,
}
use microservices_practice.Turnaround.Concurrent.{Stage, Request, stage_of, next, turn, run}

-- The turns that a stage has left at most.
abbrev pub rank : Stage → ℕ
rank Stage.received = 8
rank (Stage.found task) = 7
rank (Stage.changed u) = 6
rank (Stage.progressed u) = 5
rank (Stage.announced u) = 4
rank (Stage.ready n) = 3
rank (Stage.completed t) = 2
rank Stage.last = 1
rank (Stage.returned t) = 0
rank (Stage.failed x) = 0

-- Whether a call has returned or thrown.
abbrev pub is_over : Stage → Bool
is_over (Stage.returned t) = true
is_over (Stage.failed x) = true
is_over _ = false

module _ (e : Env) (id task_id : String) (dto : UpdateTaskDto) where
  pub next-rank : (s : Stage) → Leaves rank (rank s - 1) (next e id task_id dto s)
  unfolding next
  next-rank Stage.received =
      Leaves-bind rank 7 _
        (λ t.
          Leaves-option rank 7 _ _ (Leaves-throw rank 7 (not_found (task_not_found task_id id)))
            (λ a. Leaves-pure rank 7 (Stage.found a) (omega arith))
            (e.mongo.task_by_id t.tasks task_id))
        (get_turnaround e id)
  next-rank (Stage.found task) =
      Leaves-bind rank 6 _
        (λ now.
          Leaves-bind rank 6 _
            (λ u.
              Leaves-option rank 6 _ _ (Leaves-throw rank 6 (not_found failed_to_update_task))
                (λ a. Leaves-pure rank 6 (Stage.changed a) (omega arith)) u)
            (Repository.update_task e id task_id (task_updates dto task now)))
        (update_time e dto task)
  next-rank (Stage.changed u) =
      Leaves-bind rank 5 _ (λ a. Leaves-pure rank 5 (Stage.progressed u) (omega arith))
        (Repository.update_status e id u.status
          (SetField.progress_percent (progress_of (completed_count u.tasks) (length u.tasks)) ∷ []))
  next-rank (Stage.progressed u) =
      Leaves-bind rank 4 _ (λ a. Leaves-pure rank 4 (Stage.announced u) (omega arith))
        (when (asks_completion dto.status) (Publisher.publish_task_completed e u task_id))
  next-rank (Stage.announced u) =
      Leaves-if rank 3 _ (pure Stage.last)
        (Leaves-bind rank 3 _
          (λ ardt.
            Leaves-bind rank 3 _ (λ a. Leaves-pure rank 3 (Stage.ready ardt) (omega arith))
              (Repository.update_milestones e id ((MilestoneKey.ardt, time (pos ardt)) ∷ [])))
          (date_now e))
        (Leaves-pure rank 3 Stage.last (omega arith)) (completed_count u.tasks == length u.tasks)
  next-rank (Stage.ready ardt) =
      Leaves-bind rank 2 _
        (λ u.
          Leaves-option rank 2 _ _ (Leaves-pure rank 2 Stage.last (omega arith))
            (λ a. Leaves-pure rank 2 (Stage.completed a) (omega arith)) u)
        (Repository.update_status e id TurnaroundStatus.completed
          (SetField.completed_at (time (pos ardt)) ∷ SetField.progress_percent 100 ∷ []))
  next-rank (Stage.completed t) =
      Leaves-bind rank 1 _ (λ a. Leaves-pure rank 1 Stage.last (omega arith))
        (Publisher.publish_turnaround_completed e t)
  next-rank Stage.last =
      Leaves-bind rank 0 _ (λ t. Leaves-pure rank 0 (Stage.returned t) (omega arith))
        (get_turnaround e id)
  next-rank (Stage.returned t) = Leaves-pure rank 0 (Stage.returned t) (omega arith)
  next-rank (Stage.failed x) = Leaves-pure rank 0 (Stage.failed x) (omega arith)

-- The rank of the request at a position; past the last request there is none.
abbrev rank_at : ℕ → List Request → ℕ
rank_at i [] = 0
rank_at zero (r ∷ rs) = rank r.stage
rank_at (suc i) (r ∷ rs) = rank_at i rs

abbrev pub is_over_at : ℕ → List Request → Bool
is_over_at i [] = true
is_over_at zero (r ∷ rs) = is_over r.stage
is_over_at (suc i) (r ∷ rs) = is_over_at i rs

-- How many turns of a schedule a position has.
abbrev pub turns_of : ℕ → List ℕ → ℕ
turns_of i [] = 0
turns_of i (j ∷ schedule) = (if i == j then 1 else 0) + turns_of i schedule

rank-stage_of : (r : Result Stage) → rank (stage_of r) ≡ left rank r
rank-stage_of (ok s) = refl
rank-stage_of (err x) = refl

pub rank-le : (s : Stage) → rank s ≤ 8
rank-le Stage.received = omega arith
rank-le (Stage.found task) = omega arith
rank-le (Stage.changed u) = omega arith
rank-le (Stage.progressed u) = omega arith
rank-le (Stage.announced u) = omega arith
rank-le (Stage.ready n) = omega arith
rank-le (Stage.completed t) = omega arith
rank-le Stage.last = omega arith
rank-le (Stage.returned t) = omega arith
rank-le (Stage.failed x) = omega arith

rank_at-le : (i : ℕ) (rs : List Request) → rank_at i rs ≤ 8
rank_at-le i [] = omega arith
rank_at-le zero (r ∷ rs) = rank-le r.stage
rank_at-le (suc i) (r ∷ rs) = rank_at-le i rs

pub is_over-rank : (s : Stage) → rank s ≤ 0 → is_over s ≡ true
is_over-rank Stage.received h = absurd (omega arith)
is_over-rank (Stage.found task) h = absurd (omega arith)
is_over-rank (Stage.changed u) h = absurd (omega arith)
is_over-rank (Stage.progressed u) h = absurd (omega arith)
is_over-rank (Stage.announced u) h = absurd (omega arith)
is_over-rank (Stage.ready n) h = absurd (omega arith)
is_over-rank (Stage.completed t) h = absurd (omega arith)
is_over-rank Stage.last h = absurd (omega arith)
is_over-rank (Stage.returned t) h = refl
is_over-rank (Stage.failed x) h = refl

is_over_at-rank_at : (i : ℕ) (rs : List Request) → rank_at i rs ≤ 0 → is_over_at i rs ≡ true
is_over_at-rank_at i [] h = refl
is_over_at-rank_at zero (r ∷ rs) h = is_over-rank r.stage h
is_over_at-rank_at (suc i) (r ∷ rs) h = is_over_at-rank_at i rs h

module _ (e : Env) where
  turn-rank_at :
      (i j : ℕ) (rs : List Request) (w : World)
      → rank_at i (turn e j rs w).0 ≤ rank_at i rs - (if i == j then 1 else 0)
  unfolding turn Leaves
  turn-rank_at i j [] w = omega arith
  turn-rank_at zero zero (r ∷ rs) w = ground (
    arith,
    rank-stage_of (next e r.turnaround_id r.task_id r.dto r.stage w).0,
    next-rank e r.turnaround_id r.task_id r.dto r.stage w,
  )
  turn-rank_at zero (suc j) (r ∷ rs) w = ground arith
  turn-rank_at (suc i) zero (r ∷ rs) w = ground arith
  turn-rank_at (suc i) (suc j) (r ∷ rs) w = ground (arith, turn-rank_at i j rs w)

  run-rank_at :
      (i : ℕ) (schedule : List ℕ) (rs : List Request) (w : World)
      → rank_at i (run e schedule rs w).0 ≤ rank_at i rs - turns_of i schedule
  unfolding run
  run-rank_at i [] rs w = omega arith
  run-rank_at i (j ∷ schedule) rs w =
      omega
        (arith, turn-rank_at i j rs w, run-rank_at i schedule (turn e j rs w).0 (turn e j rs w).1)

  -- Whatever the other requests do between its pieces, and whatever the store and the broker answer,
  -- a request that had eight turns has returned or thrown.
  run-is_over :
      (i : ℕ) (schedule : List ℕ) (rs : List Request) (w : World)
      → 8 ≤ turns_of i schedule
      → is_over_at i (run e schedule rs w).0 ≡ true
  run-is_over i schedule rs w h =
      is_over_at-rank_at i (run e schedule rs w).0
        (omega (arith, run-rank_at i schedule rs w, rank_at-le i rs, h))
