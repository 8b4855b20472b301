-- ===== src/Dashboard/Equipment/Page.antt =====
-- The equipment page as a whole (routes/EquipmentPage.tsx): its cards, groups, filters and table.
use Prim.Native.Char.{Char}
use mathlib.Core.Option
use microservices_practice.Common.{
  ℕ, ◌≡◌, refl, String, Bool, false, Option, none, some, List, [], ◌∷◌, map, length, filter,
  length-map, ap, ◌∙◌, arith,
}
use microservices_practice.Dashboard.Types.{EquipmentType, EquipmentStatus, Equipment}
use microservices_practice.Dashboard.Format.{equipment_status}
use microservices_practice.Dashboard.View.{
  spaced, title_case, Badge, status_badge, Card, View, table_view, or_dash, fetched,
}
use microservices_practice.Dashboard.View.Shown.{shown, shown-table_view}
use microservices_practice.Dashboard.Equipment.{
  filtered, passes, Counts, counts, Group, type_groups,
}

-- The types as they stand in the data.
unfoldable pub type_text : EquipmentType → String
type_text EquipmentType.gpu = "gpu"
type_text EquipmentType.pushback_tug = "pushback_tug"
type_text EquipmentType.belt_loader = "belt_loader"
type_text EquipmentType.fuel_truck = "fuel_truck"
type_text EquipmentType.lavatory_truck = "lavatory_truck"
type_text EquipmentType.water_truck = "water_truck"
type_text EquipmentType.catering_truck = "catering_truck"
type_text EquipmentType.air_start_unit = "air_start_unit"
type_text EquipmentType.de_icing_truck = "de_icing_truck"

unfoldable pub type_label : EquipmentType → String
type_label EquipmentType.gpu = "Ground Power Unit"
type_label EquipmentType.pushback_tug = "Pushback Tug"
type_label EquipmentType.belt_loader = "Belt Loader"
type_label EquipmentType.fuel_truck = "Fuel Truck"
type_label EquipmentType.lavatory_truck = "Lavatory Truck"
type_label EquipmentType.water_truck = "Water Truck"
type_label EquipmentType.catering_truck = "Catering Truck"
type_label EquipmentType.air_start_unit = "Air Start Unit"
type_label EquipmentType.de_icing_truck = "De-icing Truck"

unfoldable pub type_color : EquipmentType → String
type_color EquipmentType.gpu = "bg-yellow-600"
type_color EquipmentType.pushback_tug = "bg-indigo-600"
type_color EquipmentType.belt_loader = "bg-amber-700"
type_color EquipmentType.fuel_truck = "bg-orange-600"
type_color EquipmentType.lavatory_truck = "bg-cyan-600"
type_color EquipmentType.water_truck = "bg-sky-600"
type_color EquipmentType.catering_truck = "bg-pink-600"
type_color EquipmentType.air_start_unit = "bg-purple-600"
type_color EquipmentType.de_icing_truck = "bg-blue-600"

unfoldable pub summary_cards : Counts → List Card
summary_cards c =
    record { title = "Total"; value = c.total }
    ∷ record { title = "Available"; value = c.available }
    ∷ record { title = "In Use"; value = c.in_use }
    ∷ record { title = "Maintenance"; value = c.maintenance }
    ∷ []

-- A tile of the overview by type: `available / total`.
pub record GroupTile : Type 0 where
  pub label : String
  pub color : String
  pub available : ℕ
  pub total : ℕ

unfoldable pub group_tile : EquipmentType × Group → GroupTile
unfolding type_text type_color spaced
group_tile (t, group) = record {
  label = spaced (type_text t);
  color = type_color t;
  available = group.available;
  total = group.total;
}

pub record EquipmentRow : Type 0 where
  pub registration : String
  pub label : String
  pub color : String
  pub terminal : String
  pub status : Badge

unfoldable pub equipment_row : Equipment → EquipmentRow
unfolding type_label type_color status_badge equipment_status
equipment_row e = record {
  registration = e.registration;
  label = type_label e.equipment_type;
  color = type_color e.equipment_type;
  terminal = or_dash e.terminal;
  status = status_badge (equipment_status e.status);
}

abbrev pub filters : List (Option EquipmentStatus)
filters =
    none
    ∷ some EquipmentStatus.available
    ∷ some EquipmentStatus.in_use
    ∷ some EquipmentStatus.maintenance
    ∷ some EquipmentStatus.out_of_service
    ∷ []

-- The text of a filter's button.
unfoldable pub filter_text : (Char → Char) → Option EquipmentStatus → String
unfolding title_case spaced equipment_status
filter_text upper none = "All"
filter_text upper (some s) = title_case upper false (spaced (equipment_status s))

pub record EquipmentPage : Type 0 where
  pub cards : List Card
  pub tiles : List GroupTile
  pub buttons : List String
  pub table : View EquipmentRow

-- The page for what the query says and the chosen filter.
unfoldable pub equipment_page :
    (Char → Char)
    → (is_loading : Bool) → Option (List Equipment)
    → Option EquipmentStatus
    → EquipmentPage
unfolding summary_cards group_tile equipment_row filter_text table_view filtered counts type_groups
equipment_page upper is_loading equipment wanted = record {
  cards = summary_cards (counts (fetched equipment));
  tiles = map group_tile (type_groups (fetched equipment));
  buttons = map (filter_text upper) filters;
  table =
      table_view "No equipment found" equipment_row is_loading
        (Option.map (filtered wanted) equipment);
}

module _ (upper : Char → Char) (equipment : List Equipment) where
  abbrev pub rows_under : Option EquipmentStatus → ℕ
  rows_under wanted = length (shown (equipment_page upper false (some equipment) wanted).table)

  rows_under_lem :
      (wanted : Option EquipmentStatus)
      → rows_under wanted ≡ length (filter (passes wanted) equipment)
  unfolding equipment_page filtered
  rows_under_lem wanted =
      ap length (shown-table_view "No equipment found" equipment_row (filtered wanted equipment))
      ∙ length-map equipment_row (filtered wanted equipment)

  all_pass : (es : List Equipment) → length (filter (passes none) es) ≡ length es
  all_pass [] = refl
  all_pass (e ∷ es) = ground (arith, all_pass es)

  -- Whatever the chosen filter, the numbers on the cards are the numbers of rows that the table shows
  -- under "All", "Available", "In Use" and "Maintenance".
  pub equipment_page-cards :
      (wanted : Option EquipmentStatus)
      → map (λ (c : Card). c.value) (equipment_page upper false (some equipment) wanted).cards
        ≡ rows_under none
          ∷ rows_under (some EquipmentStatus.available)
          ∷ rows_under (some EquipmentStatus.in_use)
          ∷ rows_under (some EquipmentStatus.maintenance)
          ∷ []
  unfolding equipment_page counts summary_cards
  equipment_page-cards wanted = ground (
    arith,
    all_pass equipment,
    rows_under_lem none,
    rows_under_lem (some EquipmentStatus.available),
    rows_under_lem (some EquipmentStatus.in_use),
    rows_under_lem (some EquipmentStatus.maintenance),
  )
