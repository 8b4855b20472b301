-- ===== src/Turnaround/Concurrent/Milestones.antt =====
-- `updateMilestones` cut between its validation and its update (turnaround/turnaround.service.ts), and
-- two requests that both validate before either updates.
use microservices_practice.Common.{
  ℕ, suc, String, ◌≡◌, true, false, ◌||◌, none, some, List, map, arith, inl, inr, refl,
}
use microservices_practice.Turnaround.Schema.{Date, MilestoneKey, Turnaround}
use microservices_practice.Turnaround.Dto.{UpdateMilestonesDto}
use microservices_practice.Turnaround.Store.{
  ok, fine, not_found, failed_to_update_milestones, IsMongo, assign_all, modify, find_by_id,
}
use microservices_practice.Turnaround.Store.Laws.{Result-cases}
use microservices_practice.Turnaround.World.{Env, World, Action, pure, throw, ◌>>=◌, ◌>>◌, counted}
use microservices_practice.Turnaround.Repository
use microservices_practice.Turnaround.Repository.{set_field}
use microservices_practice.Turnaround.Repository.Laws.{find_by_id_run, update_milestones_run}
use microservices_practice.Turnaround.Publisher
use microservices_practice.Turnaround.Publisher.Laws.{publish_milestone_updated-IsQuiet}
use microservices_practice.Turnaround.Service.{
  get_turnaround, update_milestones, parse_milestones, before, validate, key_of,
}
use microservices_practice.Turnaround.Service.Merge.{merge, merged_stored}

module _ (e : Env) (id : String) where
  -- Up to the call of the repository's update, with the milestones that it is given.
  unfoldable pub accept : UpdateMilestonesDto → Action (List (MilestoneKey × Date))
  unfolding get_turnaround validate parse_milestones
  accept dto = do
    turnaround ← get_turnaround e id
    let milestones = parse_milestones e.parse_date dto
    validate milestones turnaround.milestones
    pure milestones

  -- From there on.
  unfoldable pub store : List (MilestoneKey × Date) → Action Turnaround
  store milestones = do
    updated ← Repository.update_milestones e id milestones
    λ (w : World). elim updated [
      | none ↦ throw (not_found failed_to_update_milestones) w
      | some t ↦ (do Publisher.publish_milestone_updated e t (map key_of milestones); pure t) w
    ]

  -- With nothing between them the two parts are the call.
  pub accept-store :
      (dto : UpdateMilestonesDto) (w : World)
      → (accept dto >>= store) w ≡ update_milestones e id dto w
  unfolding accept store update_milestones
  accept-store dto w = elim (Result-cases (get_turnaround e id w).0) [
    | inl (t, found) ↦
        let v =
          validate (parse_milestones e.parse_date dto) t.milestones (get_turnaround e id w).1 in
        elim (Result-cases v.0) [ inl (u, passed) ↦ ground arith | inr (x, refused) ↦ ground arith ]
    | inr (x, thrown) ↦ ground arith
  ]

module _ (e : Env) (laws : IsMongo e.mongo) (id : String) where
  accept_run :
      (dto : UpdateMilestonesDto) (d : Turnaround) (w : World)
      → laws.fault w.calls ≡ fine
      → find_by_id id w.db ≡ some d
      → let ms = parse_milestones e.parse_date dto in
        (before (merge ms d.milestones).tsat (merge ms d.milestones).tobt
            || before (merge ms d.milestones).aobt (merge ms d.milestones).tsat)
          ≡ false
        → accept e id dto w ≡ (ok ms, counted w)
  unfolding accept get_turnaround validate
  accept_run dto d w up found right = ground (arith, find_by_id_run e laws w id)

  store_run :
      (ms : List (MilestoneKey × Date)) (d : Turnaround) (w : World)
      → laws.fault w.calls ≡ fine
      → find_by_id id w.db ≡ some d
      → let d' : Turnaround = record d { milestones = merge ms d.milestones } in
        ((store e id ms w).0 ≡ ok d') × (find_by_id id (store e id ms w).1.db ≡ some d')
  unfolding store
  store_run ms d w up found =
      let d' : Turnaround = record d { milestones = merge ms d.milestones } in
      let c = modify id (assign_all (map set_field ms)) w.db in
      let quiet =
        publish_milestone_updated-IsQuiet e d' (map key_of ms) (record (counted w) { db = c }) in
      (
        ground (
          arith,
          update_milestones_run e laws w id ms,
          merged_stored e laws id ms d w found,
          quiet,
        ),
        ground (
          arith,
          update_milestones_run e laws w id ms,
          merged_stored e laws id ms d w found,
          quiet,
        ),
      )

  -- Two requests whose milestones are each in order with the stored ones, but not with each other's,
  -- both validate before either updates. Where the store answers, both return, and the TSAT that is
  -- then stored and returned is before the TOBT.
  pub milestones_race :
      (dto dto' : UpdateMilestonesDto) (d : Turnaround) (w : World)
      → ((k : ℕ) → laws.fault k ≡ fine)
      → find_by_id id w.db ≡ some d
      → let ms = parse_milestones e.parse_date dto in
        let ms' = parse_milestones e.parse_date dto' in
        let m = merge ms d.milestones in
        let m' = merge ms' d.milestones in
        let both = merge ms' m in
        (before m.tsat m.tobt || before m.aobt m.tsat) ≡ false
        → (before m'.tsat m'.tobt || before m'.aobt m'.tsat) ≡ false
        → before both.tsat both.tobt ≡ true
        → let first = accept e id dto w in
          let second = accept e id dto' first.1 in
          let one = store e id ms second.1 in
          let two = store e id ms' one.1 in
          (first.0 ≡ ok ms)
          × (second.0 ≡ ok ms')
          × (one.0 ≡ ok (record d { milestones = m }))
          × ((t : Turnaround) × (two.0 ≡ ok t)
              × (find_by_id id two.1.db ≡ some t)
              × (before t.milestones.tsat t.milestones.tobt ≡ true))
  milestones_race dto dto' d w up found right right' wrong =
      let ms = parse_milestones e.parse_date dto in
      let ms' = parse_milestones e.parse_date dto' in
      let d' : Turnaround = record d { milestones = merge ms d.milestones } in
      let first = accept_run dto d w (up w.calls) found right in
      let second = accept_run dto' d (counted w) (up (suc w.calls)) found right' in
      let w₂ = counted (counted w) in
      let (one, kept) = store_run ms d w₂ (up w₂.calls) found in
      let w₃ = (store e id ms w₂).1 in
      let (two, kept') = store_run ms' d' w₃ (up w₃.calls) kept in
      rw first (
        rw second (
          refl,
          refl,
          one,
          (record d { milestones = merge ms' (merge ms d.milestones) }, two, kept', wrong),
        ))
