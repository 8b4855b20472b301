-- ===== src/Turnaround/Service/Answers.antt =====
-- When `updateMilestones` does return.
use microservices_practice.Common.{suc, String, ◌≡◌, false, ◌||◌, some, map, arith}
use microservices_practice.Turnaround.Schema.{Turnaround}
use microservices_practice.Turnaround.Dto.{UpdateMilestonesDto}
use microservices_practice.Turnaround.Store.{ok, fine, assign_all, modify, find_by_id, IsMongo}
use microservices_practice.Turnaround.World.{Env, World, counted}
use microservices_practice.Turnaround.Repository.{set_field}
use microservices_practice.Turnaround.Repository.Laws.{find_by_id_run, update_milestones_run}
use microservices_practice.Turnaround.Publisher.Laws.{publish_milestone_updated-IsQuiet}
use microservices_practice.Turnaround.Service.{
  get_turnaround, update_milestones, parse_milestones, before, validate, key_of,
}
use microservices_practice.Turnaround.Service.Merge.{merge, merged_stored}

module _ (e : Env) (laws : IsMongo e.mongo) (id : String) where
  -- Where the turnaround is there, the store answers both calls and the merged milestones are in
  -- order, `updateMilestones` returns the turnaround with the merged milestones, whatever the broker
  -- does.
  pub update_milestones_accepted :
      (dto : UpdateMilestonesDto) (d : Turnaround) (w : World)
      → laws.fault w.calls ≡ fine
      → laws.fault (suc w.calls) ≡ fine
      → find_by_id id w.db ≡ some d
      → let m = merge (parse_milestones e.parse_date dto) d.milestones in
        (before m.tsat m.tobt || before m.aobt m.tsat) ≡ false
        → (update_milestones e id dto w).0 ≡ ok (record d { milestones = m })
  unfolding update_milestones get_turnaround validate
  update_milestones_accepted dto d w up up' found right =
      let ms = parse_milestones e.parse_date dto in
      let d' : Turnaround = record d { milestones = merge ms d.milestones } in
      let c = modify id (assign_all (map set_field ms)) w.db in
      ground (
        arith,
        find_by_id_run e laws w id,
        update_milestones_run e laws (counted w) id ms,
        merged_stored e laws id ms d w found,
        publish_milestone_updated-IsQuiet e d' (map key_of ms)
            (record (counted (counted w)) { db = c }),
      )
