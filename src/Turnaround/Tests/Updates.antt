-- ===== src/Turnaround/Tests/Updates.antt =====
-- Runs of `updateTask` and `updateMilestones`.
use microservices_practice.Common.{suc, ◌≡◌, refl, some, [], ◌∷◌, arith, eq_iff}
use microservices_practice.Common.Int.{pos}
use microservices_practice.Turnaround.Schema.{time, TaskStatus, no_milestones, Turnaround}
use microservices_practice.Turnaround.Store.{
  Result, ok, err, not_found, tsat_before_tobt, find_by_id, find_task,
}
use microservices_practice.Turnaround.World.{World, counted}
use microservices_practice.Turnaround.Service
use microservices_practice.Turnaround.Service.Frame.{
  update_task_others, update_task_missing, missing_part,
}
use microservices_practice.Turnaround.Service.Merge.{
  merge, IsOrdered, update_milestones_ok, update_milestones_rejected,
}
use microservices_practice.Turnaround.Service.Answers.{update_milestones_accepted}
use microservices_practice.Turnaround.Service.Returns.{update_task_returns}
use microservices_practice.Turnaround.Service.Completion.{IsSettled, update_task-IsSettled}
use microservices_practice.Turnaround.Tests.{
  env, empty_world, a_task, busy, busy_world, completion, value_or, later, service, laws, no_fault,
}

abbrev completed_run : Result Turnaround × World
completed_run = Service.update_task env "x" "b" completion busy_world

completed_progress : (value_or busy completed_run.0).progress_percent ≡ 100
unfolding service
completed_progress = refl

-- The turnaround that a run returned.
returned : completed_run ≡ (ok (value_or busy completed_run.0), completed_run.1)
unfolding service
returned = refl

update_task-IsSettled_example : IsSettled (value_or busy completed_run.0)
unfolding find_by_id
update_task-IsSettled_example =
    update_task-IsSettled env laws "x" "b" completion busy (value_or busy completed_run.0)
      busy_world completed_run.1 refl (omega arith) returned

-- A second turnaround beside the first.
abbrev two_world : World
two_world = record empty_world { db = record busy { id = "y"; flight_id = "f2" } ∷ busy ∷ [] }

update_task_others_example :
    find_by_id "y" (Service.update_task env "x" "b" completion two_world).1.db
    ≡ find_by_id "y" two_world.db
update_task_others_example =
    update_task_others env laws "x" "b" completion two_world "y" (ground (arith, eq_iff "y" "x"))

update_task_missing_example :
    Service.update_task env "x" "z" completion busy_world
    ≡ (err (not_found (missing_part "x" "z" busy_world.db)), counted busy_world)
unfolding find_by_id find_task
update_task_missing_example =
    update_task_missing env laws "x" "z" completion busy_world (no_fault busy_world.calls) refl

update_task_returns_example :
    (t : Turnaround) × ((Service.update_task env "x" "b" completion busy_world).0 ≡ ok t)
unfolding find_by_id find_task
update_task_returns_example =
    update_task_returns env laws no_fault "x" "b" completion (a_task "b" TaskStatus.in_progress)
      busy busy_world refl refl

abbrev merged_run : Result Turnaround × World
merged_run = Service.update_milestones env "x" later busy_world

merged_returned : merged_run ≡ (ok (value_or busy merged_run.0), merged_run.1)
unfolding service
merged_returned = refl

update_milestones_ok_example :
    (d : Turnaround) × (find_by_id "x" busy_world.db ≡ some d)
    × (value_or busy merged_run.0 ≡ record d {
      milestones = merge (Service.parse_milestones env.parse_date later) d.milestones;
    })
    × IsOrdered (value_or busy merged_run.0).milestones
    × (find_by_id "x" merged_run.1.db ≡ some (value_or busy merged_run.0))
update_milestones_ok_example =
    update_milestones_ok env laws "x" later (value_or busy merged_run.0) busy_world merged_run.1
      merged_returned

update_milestones_accepted_example :
    (Service.update_milestones env "x" later busy_world).0
    ≡ ok (record busy {
      milestones = merge (Service.parse_milestones env.parse_date later) busy.milestones;
    })
unfolding find_by_id Service.parse_milestones Service.assigned
update_milestones_accepted_example =
    update_milestones_accepted env laws "x" later busy busy_world (no_fault busy_world.calls)
      (no_fault (suc busy_world.calls)) refl refl

-- TSAT at 5 ms, behind a stored TOBT at 9 ms.
abbrev strict : Turnaround
strict = record busy { milestones = record no_milestones { tobt = some (time (pos 9)) } }

abbrev strict_world : World
strict_world = record empty_world { db = strict ∷ [] }

update_milestones_rejected_example :
    Service.update_milestones env "x" later strict_world
    ≡ (err (not_found tsat_before_tobt), counted strict_world)
unfolding find_by_id Service.parse_milestones Service.assigned
update_milestones_rejected_example =
    update_milestones_rejected env laws "x" later strict strict_world (no_fault strict_world.calls)
      refl refl
