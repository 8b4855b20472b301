-- ===== src/Turnaround/Service/Merge.antt =====
-- `updateMilestones`: the merge of the new milestones, and their order.
use mathlib.Core.Option
use microservices_practice.Common.{
  String, ◌≡◌, refl, ap, ◌∙◌, true, false, none, some, List, [], ◌∷◌, map, arith, or_else,
  Option-cases, Bool-cases, ◌≢◌, ◌⊎◌, inl, inr, if◌then◌else◌, ◌||◌,
}
use microservices_practice.Turnaround.Schema.{
  Date, Milestones, MilestoneKey, eibt, aibt, tobt, tsat, ardt, aobt, atot, Turnaround,
}
use microservices_practice.Turnaround.Dto.{UpdateMilestonesDto}
use microservices_practice.Turnaround.Store.{
  ok, err, not_found, NotFound, tsat_before_tobt, aobt_before_tsat, fine, set_milestone, assign_all,
  modify, find_by_id, IsMongo,
}
use microservices_practice.Turnaround.Store.Laws.{find_by_id-modify_self, assign_all-id}
use microservices_practice.Turnaround.World.{Env, World, counted}
use microservices_practice.Turnaround.Repository.{set_field}
use microservices_practice.Turnaround.Repository.Laws.{find_by_id_run, update_milestones_run}
use microservices_practice.Turnaround.Publisher.Laws.{publish_milestone_updated-IsQuiet}
use microservices_practice.Turnaround.Service.{
  get_turnaround, update_milestones, parse_milestones, assigned, before, validate, key_of,
}

-- Each milestone as it is assigned last, or else as it is stored.
abbrev pub merge : List (MilestoneKey × Date) → Milestones → Milestones
merge ms m = record {
  eibt = or_else (assigned eibt ms) m.eibt;
  aibt = or_else (assigned aibt ms) m.aibt;
  tobt = or_else (assigned tobt ms) m.tobt;
  tsat = or_else (assigned tsat ms) m.tsat;
  ardt = or_else (assigned ardt ms) m.ardt;
  aobt = or_else (assigned aobt ms) m.aobt;
  atot = or_else (assigned atot ms) m.atot;
}

-- TSAT is not before TOBT, and AOBT is not before TSAT, where both are known.
pub record IsOrdered (m : Milestones) : Type 0 where
  pub tsat_after_tobt : before m.tsat m.tobt ≡ false
  pub aobt_after_tsat : before m.aobt m.tsat ≡ false

set_milestones : List (MilestoneKey × Date) → Milestones → Milestones
set_milestones [] m = m
set_milestones ((k, v) ∷ ms) m = set_milestones ms (set_milestone k v m)

set_milestones-eq-merge :
    (ms : List (MilestoneKey × Date)) (m : Milestones) → set_milestones ms m ≡ merge ms m
unfolding set_milestones assigned
set_milestones-eq-merge [] m = refl
set_milestones-eq-merge ((eibt, v) ∷ ms) m =
    ground (arith, set_milestones-eq-merge ms (set_milestone eibt v m))
set_milestones-eq-merge ((aibt, v) ∷ ms) m =
    ground (arith, set_milestones-eq-merge ms (set_milestone aibt v m))
set_milestones-eq-merge ((tobt, v) ∷ ms) m =
    ground (arith, set_milestones-eq-merge ms (set_milestone tobt v m))
set_milestones-eq-merge ((tsat, v) ∷ ms) m =
    ground (arith, set_milestones-eq-merge ms (set_milestone tsat v m))
set_milestones-eq-merge ((ardt, v) ∷ ms) m =
    ground (arith, set_milestones-eq-merge ms (set_milestone ardt v m))
set_milestones-eq-merge ((aobt, v) ∷ ms) m =
    ground (arith, set_milestones-eq-merge ms (set_milestone aobt v m))
set_milestones-eq-merge ((atot, v) ∷ ms) m =
    ground (arith, set_milestones-eq-merge ms (set_milestone atot v m))

-- The `$set` document of the milestones is a merge.
assign_all-set_field :
    (ms : List (MilestoneKey × Date)) (d : Turnaround)
    → assign_all (map set_field ms) d ≡ record d { milestones = set_milestones ms d.milestones }
unfolding set_milestones assign_all
assign_all-set_field [] d = refl
assign_all-set_field ((k, v) ∷ ms) d =
    assign_all-set_field ms (record d { milestones = set_milestone k v d.milestones })

pub assign_milestones-eq-merge :
    (ms : List (MilestoneKey × Date)) (d : Turnaround)
    → assign_all (map set_field ms) d ≡ record d { milestones = merge ms d.milestones }
assign_milestones-eq-merge ms d =
    assign_all-set_field ms d
    ∙ ap (λ (m : Milestones). record d { milestones = m }) (set_milestones-eq-merge ms d.milestones)

-- The validation passes exactly the orders that `IsOrdered` asks for.
pub validate_cases :
    (ms : List (MilestoneKey × Date)) (existing : Milestones) (w : World)
    → ((validate ms existing w ≡ (ok tt, w)) × IsOrdered (merge ms existing))
      ⊎ ((x : NotFound) × (validate ms existing w ≡ (err (not_found x), w)))
unfolding validate
validate_cases ms existing w =
    let m = merge ms existing in
    elim (Bool-cases (before m.tsat m.tobt)) [
      | inl early ↦ inr (tsat_before_tobt, ground arith)
      | inr after ↦ elim (Bool-cases (before m.aobt m.tsat)) [
        | inl early ↦ inr (aobt_before_tsat, ground arith)
        | inr right ↦
            inl (ground arith, record { tsat_after_tobt = after; aobt_after_tsat = right })
      ]
    ]

module _ (e : Env) (laws : IsMongo e.mongo) (id : String) where
  -- The stored document after the repository's update.
  pub merged_stored :
      (ms : List (MilestoneKey × Date)) (d : Turnaround) (w : World)
      → find_by_id id w.db ≡ some d
      → find_by_id id (modify id (assign_all (map set_field ms)) w.db)
        ≡ some (record d { milestones = merge ms d.milestones })
  merged_stored ms d w found =
      find_by_id-modify_self id (assign_all (map set_field ms)) (assign_all-id (map set_field ms))
        w.db
      ∙ (ap (Option.map (assign_all (map set_field ms))) found
          ∙ ap some (assign_milestones-eq-merge ms d))

  -- What is left of a run once the turnaround is found and the validation passed.
  accepted_run :
      (dto : UpdateMilestonesDto) (d t : Turnaround) (w w' : World)
      → update_milestones e id dto w ≡ (ok t, w')
      → find_by_id id w.db ≡ some d
      → let ms = parse_milestones e.parse_date dto in
        validate ms d.milestones (counted w) ≡ (ok tt, counted w)
        → (t ≡ record d { milestones = merge ms d.milestones })
          × (w'.db ≡ modify id (assign_all (map set_field ms)) w.db)
  unfolding update_milestones get_turnaround
  accepted_run dto d t w w' h found passed =
      let ms = parse_milestones e.parse_date dto in
      let d' : Turnaround = record d { milestones = merge ms d.milestones } in
      let c = modify id (assign_all (map set_field ms)) w.db in
      ground (
        arith,
        find_by_id_run e laws w id,
        update_milestones_run e laws (counted w) id ms,
        merged_stored ms d w found,
        publish_milestone_updated-IsQuiet e d' (map key_of ms)
            (record (counted (counted w)) { db = c }),
      )

  -- A request that is out of order does not return.
  refused_run :
      (dto : UpdateMilestonesDto) (d t : Turnaround) (w w' : World) (x : NotFound)
      → update_milestones e id dto w ≡ (ok t, w')
      → find_by_id id w.db ≡ some d
      → validate (parse_milestones e.parse_date dto) d.milestones (counted w)
        ≡ (err (not_found x), counted w)
      → ⊥
  unfolding update_milestones get_turnaround
  refused_run dto d t w w' x h found refused = ground (arith, find_by_id_run e laws w id)

  missing_run :
      (dto : UpdateMilestonesDto) (t : Turnaround) (w w' : World)
      → update_milestones e id dto w ≡ (ok t, w')
      → find_by_id id w.db ≢ none
  unfolding update_milestones get_turnaround
  missing_run dto t w w' h missing = ground (arith, find_by_id_run e laws w id)

  -- When `updateMilestones` returns, the turnaround was there, what is stored and returned differs
  -- from it by the merge of the request's dates alone, and its milestones are in order.
  pub update_milestones_ok :
      (dto : UpdateMilestonesDto) (t : Turnaround) (w w' : World)
      → update_milestones e id dto w ≡ (ok t, w')
      → (d : Turnaround) × (find_by_id id w.db ≡ some d)
        × (t ≡ record d { milestones = merge (parse_milestones e.parse_date dto) d.milestones })
        × IsOrdered t.milestones
        × (find_by_id id w'.db ≡ some t)
  update_milestones_ok dto t w w' h = elim (Option-cases (find_by_id id w.db)) [
    | inl missing ↦ absurd (missing_run dto t w w' h missing)
    | inr (d, found) ↦
        let ms = parse_milestones e.parse_date dto in
        elim (validate_cases ms d.milestones (counted w)) [
          | inr (x, refused) ↦ absurd (refused_run dto d t w w' x h found refused)
          | inl (passed, ordered) ↦
              let (same, kept) = accepted_run dto d t w w' h found passed in
              (d, found, same, rw same ordered, rw (kept, same) (merged_stored ms d w found))
        ]
  ]

  -- Where the merged milestones would be out of order and the store answers, `updateMilestones`
  -- throws, and neither the collection nor the messages change.
  pub update_milestones_rejected :
      (dto : UpdateMilestonesDto) (d : Turnaround) (w : World)
      → laws.fault w.calls ≡ fine
      → find_by_id id w.db ≡ some d
      → let m = merge (parse_milestones e.parse_date dto) d.milestones in
        (before m.tsat m.tobt || before m.aobt m.tsat) ≡ true
        → update_milestones e id dto w ≡ (
          err (not_found (if before m.tsat m.tobt then tsat_before_tobt else aobt_before_tsat)),
          counted w,
        )
  unfolding update_milestones get_turnaround validate
  update_milestones_rejected dto d w up found wrong = ground (arith, find_by_id_run e laws w id)
