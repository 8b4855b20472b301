-- ===== src/Turnaround/Calls/Ends/Sizes.antt =====
-- The turns that a call (turnaround/turnaround.service.ts) has left at most.
use microservices_practice.Common.{
  ℕ, ◌-◌, ◌≤◌, ◌≡◌, refl, Bool, true, false, String, inl, inr, map, arith,
}
use microservices_practice.Common.Int.{pos}
use microservices_practice.Turnaround.Schema.{time}
use microservices_practice.Turnaround.Dto.{CreateTurnaroundDto, UpdateMilestonesDto}
use microservices_practice.Turnaround.Store.{not_found, failed_to_update_milestones}
use microservices_practice.Turnaround.Store.Laws.{Result-cases}
use microservices_practice.Turnaround.World.{Env, World, date_now}
use microservices_practice.Turnaround.Templates.{get_tasks_for_aircraft}
use microservices_practice.Turnaround.Weather
use microservices_practice.Turnaround.Repository
use microservices_practice.Turnaround.Publisher
use microservices_practice.Turnaround.Service.{
  tasks_of, cached, with_de_icing, new_turnaround, key_of,
}
use microservices_practice.Turnaround.Concurrent.{next}
use microservices_practice.Turnaround.Concurrent.Leaves.{
  Leaves, Leaves-pure, Leaves-throw, Leaves-bind, Leaves-option,
}
use microservices_practice.Turnaround.Concurrent.Progress.{
  rank, next-rank, rank-le, is_over, is_over-rank,
}
use microservices_practice.Turnaround.Concurrent.Milestones.{accept}
use microservices_practice.Turnaround.Calls.{
  CreateStage, MilestoneStage, Process, creating, updating_task, updating_milestones, create_next,
  milestone_next, advance,
}

-- The turns that a call has left at most.
abbrev pub create_rank : CreateStage → ℕ
create_rank CreateStage.received = 5
create_rank CreateStage.missing = 4
create_rank (CreateStage.weighed required) = 3
create_rank (CreateStage.scaled required factor) = 2
create_rank (CreateStage.created t) = 1
create_rank (CreateStage.returned t) = 0
create_rank (CreateStage.failed x) = 0

abbrev milestone_rank : MilestoneStage → ℕ
milestone_rank MilestoneStage.received = 3
milestone_rank (MilestoneStage.accepted ms) = 2
milestone_rank (MilestoneStage.updated ms t) = 1
milestone_rank (MilestoneStage.returned t) = 0
milestone_rank (MilestoneStage.failed x) = 0

abbrev pub size : Process → ℕ
size (creating dto s) = create_rank s
size (updating_task id task_id dto s) = rank s
size (updating_milestones id dto s) = milestone_rank s

-- Whether a call has returned or thrown.
abbrev pub has_ended : Process → Bool
has_ended (creating dto (CreateStage.returned t)) = true
has_ended (creating dto (CreateStage.failed x)) = true
has_ended (creating dto s) = false
has_ended (updating_task id task_id dto s) = is_over s
has_ended (updating_milestones id dto (MilestoneStage.returned t)) = true
has_ended (updating_milestones id dto (MilestoneStage.failed x)) = true
has_ended (updating_milestones id dto s) = false

module _ (e : Env) where
  pub create_next-rank :
      (dto : CreateTurnaroundDto) (s : CreateStage)
      → Leaves create_rank (create_rank s - 1) (create_next e dto s)
  unfolding create_next
  create_next-rank dto CreateStage.received =
      Leaves-bind create_rank 4 _
        (λ found.
          Leaves-option create_rank 4 _ _
            (Leaves-pure create_rank 4 CreateStage.missing (omega arith))
            (λ t. Leaves-pure create_rank 4 (CreateStage.returned t) (omega arith)) found)
        (Repository.find_by_flight_id e dto.flight_id)
  create_next-rank dto CreateStage.missing =
      Leaves-bind create_rank 3 _
        (λ required. Leaves-pure create_rank 3 (CreateStage.weighed required) (omega arith))
        (Weather.is_de_icing_required e)
  create_next-rank dto (CreateStage.weighed required) =
      Leaves-bind create_rank 2 _
        (λ factor. Leaves-pure create_rank 2 (CreateStage.scaled required factor) (omega arith))
        (Weather.get_duration_factor e)
  create_next-rank dto (CreateStage.scaled required factor) =
      Leaves-bind create_rank 1 _
        (λ tasks.
          Leaves-bind create_rank 1 _
            (λ weather.
              Leaves-bind create_rank 1 _
                (λ now.
                  Leaves-bind create_rank 1 _
                    (λ t. Leaves-pure create_rank 1 (CreateStage.created t) (omega arith))
                    (Repository.create e
                      (new_turnaround dto (with_de_icing required weather tasks) (time (pos now)))))
                (date_now e))
            cached)
        (tasks_of (get_tasks_for_aircraft dto.aircraft_type) factor)
  create_next-rank dto (CreateStage.created t) =
      Leaves-bind create_rank 0 _
        (λ u. Leaves-pure create_rank 0 (CreateStage.returned t) (omega arith))
        (Publisher.publish_turnaround_started e t)
  create_next-rank dto (CreateStage.returned t) =
      Leaves-pure create_rank 0 (CreateStage.returned t) (omega arith)
  create_next-rank dto (CreateStage.failed x) =
      Leaves-pure create_rank 0 (CreateStage.failed x) (omega arith)

  milestone_next-rank :
      (id : String) (dto : UpdateMilestonesDto) (s : MilestoneStage)
      → Leaves milestone_rank (milestone_rank s - 1) (milestone_next e id dto s)
  unfolding milestone_next
  milestone_next-rank id dto MilestoneStage.received =
      Leaves-bind milestone_rank 2 _
        (λ ms. Leaves-pure milestone_rank 2 (MilestoneStage.accepted ms) (omega arith))
        (accept e id dto)
  milestone_next-rank id dto (MilestoneStage.accepted ms) =
      Leaves-bind milestone_rank 1 _
        (λ stored.
          Leaves-option milestone_rank 1 _ _
            (Leaves-throw milestone_rank 1 (not_found failed_to_update_milestones))
            (λ t. Leaves-pure milestone_rank 1 (MilestoneStage.updated ms t) (omega arith)) stored)
        (Repository.update_milestones e id ms)
  milestone_next-rank id dto (MilestoneStage.updated ms t) =
      Leaves-bind milestone_rank 0 _
        (λ u. Leaves-pure milestone_rank 0 (MilestoneStage.returned t) (omega arith))
        (Publisher.publish_milestone_updated e t (map key_of ms))
  milestone_next-rank id dto (MilestoneStage.returned t) =
      Leaves-pure milestone_rank 0 (MilestoneStage.returned t) (omega arith)
  milestone_next-rank id dto (MilestoneStage.failed x) =
      Leaves-pure milestone_rank 0 (MilestoneStage.failed x) (omega arith)

  pub advance-size : (p : Process) (w : World) → size (advance e p w).0 ≤ size p - 1
  unfolding advance Leaves
  advance-size (creating dto s) w =
      let r = create_next e dto s w in
      elim (Result-cases r.0) [
        | inl (s', done) ↦ ground (arith, create_next-rank dto s w)
        | inr (x, thrown) ↦ ground arith
      ]
  advance-size (updating_task id task_id dto s) w =
      let r = next e id task_id dto s w in
      elim (Result-cases r.0) [
        | inl (s', done) ↦ ground (arith, next-rank e id task_id dto s w)
        | inr (x, thrown) ↦ ground arith
      ]
  advance-size (updating_milestones id dto s) w =
      let r = milestone_next e id dto s w in
      elim (Result-cases r.0) [
        | inl (s', done) ↦ ground (arith, milestone_next-rank id dto s w)
        | inr (x, thrown) ↦ ground arith
      ]

pub size-le : (p : Process) → size p ≤ 8
size-le (creating dto CreateStage.received) = omega arith
size-le (creating dto CreateStage.missing) = omega arith
size-le (creating dto (CreateStage.weighed required)) = omega arith
size-le (creating dto (CreateStage.scaled required factor)) = omega arith
size-le (creating dto (CreateStage.created t)) = omega arith
size-le (creating dto (CreateStage.returned t)) = omega arith
size-le (creating dto (CreateStage.failed x)) = omega arith
size-le (updating_task id task_id dto s) = rank-le s
size-le (updating_milestones id dto MilestoneStage.received) = omega arith
size-le (updating_milestones id dto (MilestoneStage.accepted ms)) = omega arith
size-le (updating_milestones id dto (MilestoneStage.updated ms t)) = omega arith
size-le (updating_milestones id dto (MilestoneStage.returned t)) = omega arith
size-le (updating_milestones id dto (MilestoneStage.failed x)) = omega arith

pub has_ended-size : (p : Process) → size p ≤ 0 → has_ended p ≡ true
has_ended-size (creating dto CreateStage.received) h = absurd (omega arith)
has_ended-size (creating dto CreateStage.missing) h = absurd (omega arith)
has_ended-size (creating dto (CreateStage.weighed required)) h = absurd (omega arith)
has_ended-size (creating dto (CreateStage.scaled required factor)) h = absurd (omega arith)
has_ended-size (creating dto (CreateStage.created t)) h = absurd (omega arith)
has_ended-size (creating dto (CreateStage.returned t)) h = refl
has_ended-size (creating dto (CreateStage.failed x)) h = refl
has_ended-size (updating_task id task_id dto s) h = is_over-rank s h
has_ended-size (updating_milestones id dto MilestoneStage.received) h = absurd (omega arith)
has_ended-size (updating_milestones id dto (MilestoneStage.accepted ms)) h = absurd (omega arith)
has_ended-size (updating_milestones id dto (MilestoneStage.updated ms t)) h = absurd (omega arith)
has_ended-size (updating_milestones id dto (MilestoneStage.returned t)) h = refl
has_ended-size (updating_milestones id dto (MilestoneStage.failed x)) h = refl
