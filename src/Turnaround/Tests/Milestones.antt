-- ===== src/Turnaround/Tests/Milestones.antt =====
-- Two requests that move the milestones towards each other.
use microservices_practice.Common.{
  ◌≡◌, refl, String, true, some, List, [], ◌∷◌, str_eq, if◌then◌else◌,
}
use microservices_practice.Common.Int.{pos}
use microservices_practice.Turnaround.Schema.{time, MilestoneKey, Turnaround, no_milestones, Date}
use microservices_practice.Turnaround.Dto.{UpdateMilestonesDto}
use microservices_practice.Turnaround.Store.{ok, find_by_id}
use microservices_practice.Turnaround.World.{Env, World}
use microservices_practice.Turnaround.Service
use microservices_practice.Turnaround.Service.{before}
use microservices_practice.Turnaround.Service.Merge.{merge}
use microservices_practice.Turnaround.Concurrent.Milestones.{accept, store, milestones_race}
use microservices_practice.Turnaround.Tests.{env, empty_world, busy, laws, no_fault}

abbrev dated : Env
dated = record env { parse_date = λ (s : String). time (pos (if str_eq s "10:04" then 4 else 5)) }

-- TOBT at 3, TSAT at 9.
abbrev planned : Turnaround
planned = record busy {
  milestones = record no_milestones { tobt = some (time (pos 3)); tsat = some (time (pos 9)) };
}

abbrev planned_world : World
planned_world = record empty_world { db = planned ∷ [] }

abbrev later_tobt : UpdateMilestonesDto
later_tobt = (MilestoneKey.tobt, some "10:05") ∷ []

abbrev earlier_tsat : UpdateMilestonesDto
earlier_tsat = (MilestoneKey.tsat, some "10:04") ∷ []

abbrev new_tobt : List (MilestoneKey × Date)
new_tobt = Service.parse_milestones dated.parse_date later_tobt

abbrev new_tsat : List (MilestoneKey × Date)
new_tsat = Service.parse_milestones dated.parse_date earlier_tsat

milestones_race_example :
    let first = accept dated "x" later_tobt planned_world in
    let second = accept dated "x" earlier_tsat first.1 in
    let one = store dated "x" new_tobt second.1 in
    let two = store dated "x" new_tsat one.1 in
    (first.0 ≡ ok new_tobt)
    × (second.0 ≡ ok new_tsat)
    × (one.0 ≡ ok (record planned { milestones = merge new_tobt planned.milestones }))
    × ((t : Turnaround) × (two.0 ≡ ok t)
        × (find_by_id "x" two.1.db ≡ some t)
        × (before t.milestones.tsat t.milestones.tobt ≡ true))
unfolding find_by_id Service.parse_milestones Service.assigned
milestones_race_example =
    milestones_race dated laws "x" later_tobt earlier_tsat planned planned_world no_fault refl refl
      refl refl
