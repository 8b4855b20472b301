-- ===== src/Turnaround/Calls/Guarantee.antt =====
-- The pieces of the calls (turnaround/turnaround.service.ts) against the steps of Effect, and what a
-- call of `updateTask` relies on between its search and its update.
pub mod Tasks
pub mod Others
use microservices_practice.Common.{String, ◌≡◌, ap, ◌∙◌, sym, some, Option, arith}
use mathlib.Core.Path.{subst}
use microservices_practice.Turnaround.Schema.{Task}
use microservices_practice.Turnaround.Dto.{CreateTurnaroundDto, UpdateTaskDto, UpdateMilestonesDto}
use microservices_practice.Turnaround.Store.{Collection, IsMongo}
use microservices_practice.Turnaround.World.{Env, World}
use microservices_practice.Turnaround.Service.Frame.{task_in}
use microservices_practice.Turnaround.Concurrent.{Stage, stage_of, next}
use microservices_practice.Turnaround.Calls.{
  Call, creation, task_update, milestone_update, Process, creating, updating_task,
  updating_milestones, start, advance,
}
use microservices_practice.Turnaround.Calls.Effect.{Effect, update}
use microservices_practice.Turnaround.Calls.Effect.Keeps.{Follows, Effect-task_in}
use microservices_practice.Turnaround.Calls.Guarantee.Tasks.{Knows, next-Update, next-Knows}
use microservices_practice.Turnaround.Calls.Guarantee.Others.{
  create_next-Effect, milestone_next-Update,
}

-- A call relies on what it has found.
abbrev pub Relies : Process → Collection → Type 0
Relies (creating dto s) c = Unit
Relies (updating_task id task_id dto s) c = Knows id task_id s c
Relies (updating_milestones id dto s) c = Unit

-- The writes of the others leave it what it relies on.
stage-Knows :
    (id task_id : String) (s : Stage) (c c' : Collection)
    → Effect c c'
    → Knows id task_id s c
    → Knows id task_id s c'
stage-Knows id task_id (Stage.found task) c c' effect (t, there, follows) =
    let (t', there', follows') = Effect-task_in c c' id task_id t effect there in
    (t', there', record { started = λ s. follows'.started (follows.started s) })
stage-Knows id task_id Stage.received c c' effect h = tt
stage-Knows id task_id (Stage.changed u) c c' effect h = tt
stage-Knows id task_id (Stage.progressed u) c c' effect h = tt
stage-Knows id task_id (Stage.announced u) c c' effect h = tt
stage-Knows id task_id (Stage.ready n) c c' effect h = tt
stage-Knows id task_id (Stage.completed t) c c' effect h = tt
stage-Knows id task_id Stage.last c c' effect h = tt
stage-Knows id task_id (Stage.returned t) c c' effect h = tt
stage-Knows id task_id (Stage.failed x) c c' effect h = tt

pub Effect-Relies : (p : Process) (c c' : Collection) → Effect c c' → Relies p c → Relies p c'
Effect-Relies (creating dto s) c c' effect h = tt
Effect-Relies (updating_task id task_id dto s) c c' effect h =
    stage-Knows id task_id s c c' effect h
Effect-Relies (updating_milestones id dto s) c c' effect h = tt

pub start-Relies : (call : Call) (c : Collection) → Relies (start call) c
start-Relies (creation dto) c = tt
start-Relies (task_update id task_id dto) c = tt
start-Relies (milestone_update id dto) c = tt

-- A piece makes one of the writes, and leaves its call what that relies on.
module _ (e : Env) (laws : IsMongo e.mongo) where
  pub advance-Effect : (p : Process) (w : World) → Relies p w.db → Effect w.db (advance e p w).1.db
  unfolding advance
  advance-Effect (creating dto s) w h = create_next-Effect e laws dto s w
  advance-Effect (updating_task id task_id dto s) w h =
      update (next-Update e laws id task_id dto s w h)
  advance-Effect (updating_milestones id dto s) w h =
      update (milestone_next-Update e laws id dto s w)

  pub advance-Relies : (p : Process) (w : World) → Relies (advance e p w).0 (advance e p w).1.db
  unfolding advance
  advance-Relies (creating dto s) w = tt
  advance-Relies (updating_task id task_id dto s) w = next-Knows e laws id task_id dto s w
  advance-Relies (updating_milestones id dto s) w = tt
