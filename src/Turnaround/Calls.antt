-- ===== src/Turnaround/Calls.antt =====
-- Requests of every kind that run at the same time (turnaround/turnaround.service.ts): `createTurnaround`,
-- `updateTask` and `updateMilestones`, each cut at its `await`s, and runs in the order of a schedule.
-- A publish is one piece, and so is a question to the weather service: neither touches a document.
pub mod Whole
pub mod Ends
pub mod Effect
pub mod Guarantee
pub mod Invariant
pub mod Counts
use microservices_practice.Common.{
  ℕ, zero, suc, Bool, String, Option, none, some, List, [], ◌∷◌, map,
}
use microservices_practice.Common.Int.{pos}
use microservices_practice.Turnaround.Schema.{Date, time, MilestoneKey, Turnaround}
use microservices_practice.Turnaround.Dto.{CreateTurnaroundDto, UpdateTaskDto, UpdateMilestonesDto}
use microservices_practice.Turnaround.Store.{
  Error, not_found, failed_to_update_milestones, Result, ok, err,
}
use microservices_practice.Turnaround.World.{Env, World, Action, pure, throw, ◌>>=◌, ◌>>◌, date_now}
use microservices_practice.Turnaround.Templates.{get_tasks_for_aircraft}
use microservices_practice.Turnaround.Weather
use microservices_practice.Turnaround.Repository
use microservices_practice.Turnaround.Publisher
use microservices_practice.Turnaround.Service.{
  cached, tasks_of, with_de_icing, new_turnaround, key_of, create_turnaround, update_task,
  update_milestones,
}
use microservices_practice.Turnaround.Concurrent.{Stage, stage_of, next}
use microservices_practice.Turnaround.Concurrent.Milestones.{accept}

-- Where a call of `createTurnaround` stands, with what it still holds.
pub data CreateStage : Type 0 where
  received : CreateStage
  missing : CreateStage  -- the flight has no turnaround yet
  weighed : Bool → CreateStage  -- whether de-icing is required
  scaled : Bool → ℕ → CreateStage  -- and the duration factor
  created returned : Turnaround → CreateStage
  failed : Error → CreateStage

pub data MilestoneStage : Type 0 where
  received : MilestoneStage
  accepted : List (MilestoneKey × Date) → MilestoneStage
  updated : List (MilestoneKey × Date) → Turnaround → MilestoneStage
  returned : Turnaround → MilestoneStage
  failed : Error → MilestoneStage

abbrev pub create_stage_of : Result CreateStage → CreateStage
create_stage_of (ok s) = s
create_stage_of (err x) = CreateStage.failed x

abbrev pub milestone_stage_of : Result MilestoneStage → MilestoneStage
milestone_stage_of (ok s) = s
milestone_stage_of (err x) = MilestoneStage.failed x

module _ (e : Env) where
  -- The next piece of a call of `createTurnaround`.
  unfoldable pub create_next : CreateTurnaroundDto → CreateStage → Action CreateStage
  create_next dto CreateStage.received = do
    existing ← Repository.find_by_flight_id e dto.flight_id
    λ (w : World). elim existing [
      | some turnaround ↦ pure (CreateStage.returned turnaround) w
      | none ↦ pure CreateStage.missing w
    ]
  create_next dto CreateStage.missing = do
    required ← Weather.is_de_icing_required e
    pure (CreateStage.weighed required)
  create_next dto (CreateStage.weighed required) = do
    factor ← Weather.get_duration_factor e
    pure (CreateStage.scaled required factor)
  create_next dto (CreateStage.scaled required factor) = do
    tasks ← tasks_of (get_tasks_for_aircraft dto.aircraft_type) factor
    weather ← cached
    now ← date_now e
    turnaround ←
        Repository.create e
          (new_turnaround dto (with_de_icing required weather tasks) (time (pos now)))
    pure (CreateStage.created turnaround)
  create_next dto (CreateStage.created turnaround) = do
    Publisher.publish_turnaround_started e turnaround
    pure (CreateStage.returned turnaround)
  create_next dto (CreateStage.returned turnaround) = pure (CreateStage.returned turnaround)
  create_next dto (CreateStage.failed x) = pure (CreateStage.failed x)

  -- The next piece of a call of `updateMilestones`.
  unfoldable pub milestone_next :
      String → UpdateMilestonesDto → MilestoneStage → Action MilestoneStage
  unfolding accept
  milestone_next id dto MilestoneStage.received = do
    milestones ← accept e id dto
    pure (MilestoneStage.accepted milestones)
  milestone_next id dto (MilestoneStage.accepted milestones) = do
    stored ← Repository.update_milestones e id milestones
    λ (w : World). elim stored [
      | some turnaround ↦ pure (MilestoneStage.updated milestones turnaround) w
      | none ↦ throw (not_found failed_to_update_milestones) w
    ]
  milestone_next id dto (MilestoneStage.updated milestones turnaround) = do
    Publisher.publish_milestone_updated e turnaround (map key_of milestones)
    pure (MilestoneStage.returned turnaround)
  milestone_next id dto (MilestoneStage.returned turnaround) =
      pure (MilestoneStage.returned turnaround)
  milestone_next id dto (MilestoneStage.failed x) = pure (MilestoneStage.failed x)

pub data Call : Type 0 where
  creation : CreateTurnaroundDto → Call
  task_update : (turnaround_id task_id : String) → UpdateTaskDto → Call
  milestone_update : (turnaround_id : String) → UpdateMilestonesDto → Call

-- A call on its way.
pub data Process : Type 0 where
  creating : CreateTurnaroundDto → CreateStage → Process
  updating_task : (turnaround_id task_id : String) → UpdateTaskDto → Stage → Process
  updating_milestones : (turnaround_id : String) → UpdateMilestonesDto → MilestoneStage → Process

abbrev pub start : Call → Process
start (creation dto) = creating dto CreateStage.received
start (task_update id task_id dto) = updating_task id task_id dto Stage.received
start (milestone_update id dto) = updating_milestones id dto MilestoneStage.received

module _ (e : Env) where
  -- The whole call.
  unfoldable pub handle : Call → Action Turnaround
  handle (creation dto) = create_turnaround e dto
  handle (task_update id task_id dto) = update_task e id task_id dto
  handle (milestone_update id dto) = update_milestones e id dto

  unfoldable pub advance : Process → World → Process × World
  unfolding create_next next milestone_next
  advance (creating dto s) w =
      let (reply, w') = create_next e dto s w in (creating dto (create_stage_of reply), w')
  advance (updating_task id task_id dto s) w =
      let (reply, w') = next e id task_id dto s w in
      (updating_task id task_id dto (stage_of reply), w')
  advance (updating_milestones id dto s) w =
      let (reply, w') = milestone_next e id dto s w in
      (updating_milestones id dto (milestone_stage_of reply), w')

  -- A number of pieces of one call, with nothing between them.
  unfoldable pub alone : ℕ → Process → World → Process × World
  unfolding advance
  alone zero p w = (p, w)
  alone (suc n) p w = let (p', w') = advance p w in alone n p' w'

  -- One piece of the call at a position.
  unfoldable pub turn : ℕ → List Process → World → List Process × World
  unfolding advance
  turn i [] w = ([], w)
  turn zero (p ∷ ps) w = let (p', w') = advance p w in (p' ∷ ps, w')
  turn (suc i) (p ∷ ps) w = let (ps', w') = turn i ps w in (p ∷ ps', w')

  -- A run in which the event loop takes the calls in the order of a schedule.
  unfoldable pub run : List ℕ → List Process → World → List Process × World
  unfolding turn
  run [] ps w = (ps, w)
  run (i ∷ schedule) ps w = let (ps', w') = turn i ps w in run schedule ps' w'
