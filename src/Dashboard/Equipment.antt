-- ===== src/Dashboard/Equipment.antt =====
-- The summaries of the equipment page (routes/EquipmentPage.tsx).
pub mod Groups
pub mod Page
use microservices_practice.Common.{
  ℕ, suc, ◌+◌, Bool, true, Option, none, some, List, [], ◌∷◌, length, filter, if◌then◌else◌,
}
use microservices_practice.Dashboard.Types.{
  EquipmentType, same_type, EquipmentStatus, same_status, Equipment,
}

-- The filter of the page: "all", or a status.
abbrev pub passes : Option EquipmentStatus → Equipment → Bool
passes none e = true
passes (some wanted) e = same_status e.status wanted

unfoldable pub filtered : Option EquipmentStatus → List Equipment → List Equipment
filtered wanted equipment = filter (passes wanted) equipment

pub record Counts : Type 0 where
  pub total : ℕ
  pub available : ℕ
  pub in_use : ℕ
  pub maintenance : ℕ

abbrev pub has_status : EquipmentStatus → Equipment → Bool
has_status s e = same_status e.status s

unfoldable pub counts : List Equipment → Counts
counts equipment = record {
  total = length equipment;
  available = length (filter (has_status EquipmentStatus.available) equipment);
  in_use = length (filter (has_status EquipmentStatus.in_use) equipment);
  maintenance = length (filter (has_status EquipmentStatus.maintenance) equipment);
}

pub record Group : Type 0 where
  pub total : ℕ
  pub available : ℕ
  pub in_use : ℕ

abbrev pub no_group : Group
no_group = record { total = 0; available = 0; in_use = 0 }

-- One step of the `reduce` on the group of an item.
abbrev pub counted_in : Equipment → Group → Group
counted_in e g = record {
  total = suc g.total;
  available = g.available + (if has_status EquipmentStatus.available e then 1 else 0);
  in_use = g.in_use + (if has_status EquipmentStatus.in_use e then 1 else 0);
}

-- The accumulator, an object, as the list of its entries in the order of their creation.
unfoldable pub tally : Equipment → List (EquipmentType × Group) → List (EquipmentType × Group)
tally e [] = (e.equipment_type, counted_in e no_group) ∷ []
tally e ((t, g) ∷ rest) =
    if same_type t e.equipment_type then (t, counted_in e g) ∷ rest else (t, g) ∷ tally e rest

unfoldable pub tally_all :
    List Equipment → List (EquipmentType × Group) → List (EquipmentType × Group)
unfolding tally
tally_all [] acc = acc
tally_all (e ∷ rest) acc = tally_all rest (tally e acc)

unfoldable pub type_groups : List Equipment → List (EquipmentType × Group)
unfolding tally_all
type_groups equipment = tally_all equipment []
