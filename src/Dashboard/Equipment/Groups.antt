-- ===== src/Dashboard/Equipment/Groups.antt =====
-- What the groups and the counts of the equipment page add up to.
use microservices_practice.Common.{
  ◌+◌, ◌≡◌, refl, Bool, ◌&&◌, List, [], ◌∷◌, length, count_if, arith, length-filter, if◌then◌else◌,
}
use microservices_practice.Dashboard.Types.{EquipmentType, same_type, EquipmentStatus, Equipment}
use microservices_practice.Dashboard.Equipment.{
  Group, no_group, has_status, counts, counted_in, tally, tally_all, type_groups,
}

-- The group of a type, empty if there is none.
unfoldable pub group_of : EquipmentType → List (EquipmentType × Group) → Group
group_of t [] = no_group
group_of t ((u, g) ∷ rest) = if same_type u t then g else group_of t rest

abbrev pub of_type : EquipmentType → Equipment → Bool
of_type t e = same_type e.equipment_type t

abbrev pub of_type_with : EquipmentType → EquipmentStatus → Equipment → Bool
of_type_with t s e = of_type t e && has_status s e

group_of-tally :
    (t : EquipmentType) (e : Equipment) (acc : List (EquipmentType × Group))
    → group_of t (tally e acc)
      ≡ (if of_type t e then counted_in e (group_of t acc) else group_of t acc)
unfolding group_of tally
group_of-tally t e [] = ground arith
group_of-tally t e ((u, g) ∷ rest) = ground (arith, group_of-tally t e rest)

tally_all_lem :
    (t : EquipmentType) (es : List Equipment) (acc : List (EquipmentType × Group))
    → let g = group_of t acc in
      let h = group_of t (tally_all es acc) in
      (h.total ≡ g.total + count_if (of_type t) es)
      × (h.available ≡ g.available + count_if (of_type_with t EquipmentStatus.available) es)
      × (h.in_use ≡ g.in_use + count_if (of_type_with t EquipmentStatus.in_use) es)
unfolding tally_all
tally_all_lem t [] acc = (omega arith, omega arith, omega arith)
tally_all_lem t (e ∷ es) acc =
    let (p, q, r) = tally_all_lem t es (tally e acc) in
    (
      ground (arith, p, group_of-tally t e acc),
      ground (arith, q, group_of-tally t e acc),
      ground (arith, r, group_of-tally t e acc),
    )

-- The group of a type has as its total the number of items of the type, and beside it the numbers
-- of those that are available and in use.
pub type_groups_lem :
    (t : EquipmentType) (es : List Equipment)
    → let h = group_of t (type_groups es) in
      (h.total ≡ count_if (of_type t) es)
      × (h.available ≡ count_if (of_type_with t EquipmentStatus.available) es)
      × (h.in_use ≡ count_if (of_type_with t EquipmentStatus.in_use) es)
unfolding type_groups group_of
type_groups_lem t es =
    let (p, q, r) = tally_all_lem t es [] in (omega (arith, p), omega (arith, q), omega (arith, r))

statuses_lem :
    (es : List Equipment)
    → count_if (has_status EquipmentStatus.available) es
        + count_if (has_status EquipmentStatus.in_use) es
        + count_if (has_status EquipmentStatus.maintenance) es
        + count_if (has_status EquipmentStatus.out_of_service) es
      ≡ length es
statuses_lem [] = refl
statuses_lem (e ∷ es) = ground (arith, statuses_lem es)

-- The counts of the page, with the items that are out of service, add up to the total.
counts_total :
    (es : List Equipment)
    → (counts es).available
        + (counts es).in_use
        + (counts es).maintenance
        + count_if (has_status EquipmentStatus.out_of_service) es
      ≡ (counts es).total
unfolding counts
counts_total es = omega (
  arith,
  statuses_lem es,
  length-filter (has_status EquipmentStatus.available) es,
  length-filter (has_status EquipmentStatus.in_use) es,
  length-filter (has_status EquipmentStatus.maintenance) es,
)
