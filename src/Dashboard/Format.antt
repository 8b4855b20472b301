-- ===== src/Dashboard/Format.antt =====
-- How the dashboard writes elapsed times and colours statuses (lib/utils.ts, lib/constants.ts).
pub mod Elapsed
pub mod Colors
use microservices_practice.Common.{
  ℕ, ◌-◌, ◌/◌, String, Bool, Option, none, some, List, [], ◌∷◌, ltb, str_eq, if◌then◌else◌,
}
use microservices_practice.Turnaround.Schema.{TaskStatus, TurnaroundStatus}
use microservices_practice.Dashboard.Types.{EquipmentStatus}

pub data TimeUnit : Type 0 where
  seconds minutes hours days : TimeUnit

-- `${amount}${unit} ago`
pub record Ago : Type 0 where
  pub amount : ℕ
  pub unit : TimeUnit

-- `timeAgo` of a time that is not after `now`, both in milliseconds.
unfoldable pub time_ago : (now time : ℕ) → Ago
time_ago now time =
    let s = (now - time) / 1000 in
    let m = s / 60 in
    let h = m / 60 in
    if ltb s 60
    then record { amount = s; unit = seconds }
    else if ltb m 60
    then record { amount = m; unit = minutes }
    else if ltb h 24
    then record { amount = h; unit = hours }
    else record { amount = h / 24; unit = days }

-- The classes of `STATUS_COLORS` by their colour.
pub data Color : Type 0 where
  blue green amber gray red : Color

unfoldable pub status_colors : List (String × Color)
status_colors =
    ("scheduled", blue)
    ∷ ("arrived", green)
    ∷ ("boarding", amber)
    ∷ ("departed", gray)
    ∷ ("cancelled", red)
    ∷ ("diverted", red)
    ∷ ("pending", gray)
    ∷ ("in_progress", blue)
    ∷ ("completed", green)
    ∷ ("delayed", amber)
    ∷ ("blocked", red)
    ∷ ("skipped", gray)
    ∷ ("info", blue)
    ∷ ("warning", amber)
    ∷ ("critical", red)
    ∷ ("available", green)
    ∷ ("in_use", blue)
    ∷ ("maintenance", amber)
    ∷ ("out_of_service", red)
    ∷ ("active", green)
    ∷ ("open", red)
    ∷ ("acknowledged", amber)
    ∷ ("resolved", green)
    ∷ ("auto_resolved", green)
    ∷ []

unfoldable pub own_color : String → List (String × Color) → Option Color
own_color key [] = none
own_color key ((name, color) ∷ rest) = if str_eq key name then some color else own_color key rest

-- `STATUS_COLORS[status] || …`, for a status that is no inherited member of the table object.
unfoldable pub get_status_color : String → Color
unfolding own_color status_colors
get_status_color status = elim (own_color status status_colors) [ some c ↦ c | none ↦ gray ]

-- The statuses as they stand in the types.
unfoldable pub turnaround_status : TurnaroundStatus → String
turnaround_status TurnaroundStatus.pending = "pending"
turnaround_status TurnaroundStatus.in_progress = "in_progress"
turnaround_status TurnaroundStatus.completed = "completed"
turnaround_status TurnaroundStatus.delayed = "delayed"
turnaround_status TurnaroundStatus.cancelled = "cancelled"

unfoldable pub task_status : TaskStatus → String
task_status TaskStatus.pending = "pending"
task_status TaskStatus.in_progress = "in_progress"
task_status TaskStatus.completed = "completed"
task_status TaskStatus.blocked = "blocked"
task_status TaskStatus.skipped = "skipped"

unfoldable pub equipment_status : EquipmentStatus → String
equipment_status EquipmentStatus.available = "available"
equipment_status EquipmentStatus.in_use = "in_use"
equipment_status EquipmentStatus.maintenance = "maintenance"
equipment_status EquipmentStatus.out_of_service = "out_of_service"

-- `toLocaleTimeString` and `toLocaleString` of a date are `written`; no date is a dash.
module _ (written : String → String) where
  unfoldable pub format_time : Option String → String
  format_time none = "—"
  format_time (some iso) = if str_eq iso "" then "—" else written iso

  unfoldable pub format_date_time : Option String → String
  format_date_time none = "—"
  format_date_time (some iso) = if str_eq iso "" then "—" else written iso
