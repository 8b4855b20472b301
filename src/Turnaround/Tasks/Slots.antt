-- ===== src/Turnaround/Tasks/Slots.antt =====
-- The tasks of a new turnaround (turnaround/turnaround.service.ts) beside the templates that they are made
-- of, field by field.
use microservices_practice.Common.{
  ℕ, ◌+◌, ◌*◌, ◌/◌, ◌≤◌, ◌<◌, ◌≡◌, refl, Option, none, some, List, [], ◌∷◌, map, arith, str_eq,
  Bool-cases, inl, inr, if◌then◌else◌,
}
use mathlib.Core.Path.{sym, subst}
use microservices_practice.Common.Int.{ltb_ℤ, negsuc}
use microservices_practice.Turnaround.Schema.{TaskStatus, NewTask}
use microservices_practice.Turnaround.World.{WeatherData}
use microservices_practice.Turnaround.Templates.{TaskTemplate, scale_tasks, scale_minutes}
use microservices_practice.Turnaround.Weather.{get_de_icing_task, holdover_minutes}
use microservices_practice.Turnaround.Tasks.{new_task, max_order, inject_de_icing}
use microservices_practice.Turnaround.Tasks.Orders.{IsTable}
use microservices_practice.Turnaround.Tasks.Placement.{
  at_order, placed, IsRising, AreBelow, inject_de_icing-placed,
}

-- The pending task of a template, which lasts the template's minutes times the factor, in hundredths,
-- rounded half up to whole minutes.
abbrev pub IsPlanned : ℕ → TaskTemplate → NewTask → Type 0
IsPlanned factor t n =
    (n.name ≡ t.name)
    × (n.status ≡ TaskStatus.pending)
    × (n.required_certification ≡ t.required_certification)
    × (n.required_equipment ≡ t.required_equipment)
    × (100 * n.estimated_duration_minutes ≤ t.estimated_duration_minutes * factor + 50)
    × (t.estimated_duration_minutes * factor + 50 < 100 * n.estimated_duration_minutes + 100)

-- How long the fluid holds, in minutes: 45 below -10 °C, 30 below -3 °C, and otherwise, or without a
-- temperature, 20.
abbrev pub holdover : Option WeatherData → ℕ
holdover none = 20
holdover (some seen) = elim seen.temperature_c [
  | none ↦ 20
  | some t ↦ if ltb_ℤ t (negsuc 99) then 45 else if ltb_ℤ t (negsuc 29) then 30 else 20
]

abbrev pub IsDeIcing : Option WeatherData → NewTask → Type 0
IsDeIcing seen n =
    (n.name ≡ "de_icing")
    × (n.status ≡ TaskStatus.pending)
    × (n.required_certification ≡ some "fueling")
    × (n.required_equipment ≡ some "de_icing_truck")
    × (n.estimated_duration_minutes ≡ holdover seen)

-- A list of templates, with a place for de-icing where `none` stands.
abbrev pub AreSlots : ℕ → Option WeatherData → List (Option TaskTemplate) → List NewTask → Type 0
AreSlots factor seen [] [] = Unit {0}
AreSlots factor seen [] (n ∷ ns) = ⊥
AreSlots factor seen (slot ∷ slots) [] = ⊥
AreSlots factor seen (none ∷ slots) (n ∷ ns) = IsDeIcing seen n × AreSlots factor seen slots ns
AreSlots factor seen (some t ∷ slots) (n ∷ ns) =
    IsPlanned factor t n × AreSlots factor seen slots ns

abbrev pub plain_slots : List TaskTemplate → List (Option TaskTemplate)
plain_slots [] = []
plain_slots (t ∷ ts) = some t ∷ plain_slots ts

-- The place directly before boarding, or else at the end.
abbrev pub de_icing_slots : List TaskTemplate → List (Option TaskTemplate)
de_icing_slots [] = none ∷ []
de_icing_slots (t ∷ ts) =
    if str_eq t.name "boarding" then none ∷ some t ∷ plain_slots ts else some t ∷ de_icing_slots ts

scale_rounds : (a m : ℕ) → m ≡ (a + 50) / 100 → (100 * m ≤ a + 50) × (a + 50 < 100 * m + 100)
scale_rounds a m p = (omega arith, omega arith)

new_task-IsPlanned : (factor : ℕ) (t : TaskTemplate) → IsPlanned factor t (new_task factor t)
unfolding new_task scale_minutes
new_task-IsPlanned factor t =
    let (low, high) = scale_rounds (t.estimated_duration_minutes * factor) _ refl in
    (refl, refl, refl, refl, low, high)

pub plain-AreSlots :
    (factor : ℕ) (seen : Option WeatherData) (ts : List TaskTemplate)
    → AreSlots factor seen (plain_slots ts) (map (new_task factor) ts)
plain-AreSlots factor seen [] = tt
plain-AreSlots factor seen (t ∷ ts) = (new_task-IsPlanned factor t, plain-AreSlots factor seen ts)

get_de_icing_task-IsDeIcing :
    (seen : Option WeatherData) (after order : ℕ)
    → IsDeIcing seen (at_order (get_de_icing_task seen after) order)
unfolding get_de_icing_task holdover_minutes
get_de_icing_task-IsDeIcing none after order = (refl, refl, refl, refl, refl)
get_de_icing_task-IsDeIcing (some w) after order = (refl, refl, refl, refl, ground arith)

placed-AreSlots :
    (factor after : ℕ) (seen : Option WeatherData) (ts : List TaskTemplate)
    → AreSlots factor seen
        (de_icing_slots ts)
        (placed (get_de_icing_task seen after) (map (new_task factor) ts))
unfolding new_task
placed-AreSlots factor after seen [] =
    (get_de_icing_task-IsDeIcing seen after (get_de_icing_task seen after).order, tt)
placed-AreSlots factor after seen (t ∷ ts) = elim (Bool-cases (str_eq t.name "boarding")) [
  | inl here ↦ rw here (
    get_de_icing_task-IsDeIcing seen after t.order,
    (new_task-IsPlanned factor t, plain-AreSlots factor seen ts),
  )
  | inr other ↦ rw other (new_task-IsPlanned factor t, placed-AreSlots factor after seen ts)
]

AreBelow-le : (m n : ℕ) (ts : List NewTask) → m ≤ n → AreBelow m ts → AreBelow n ts
AreBelow-le m n [] h b = tt
AreBelow-le m n (t ∷ ts) h (k, b) = (omega (arith, h, k), AreBelow-le m n ts h b)

AreBelow-max_order : (ts : List NewTask) → AreBelow (max_order ts + 1) ts
unfolding max_order
AreBelow-max_order [] = tt
AreBelow-max_order (t ∷ ts) = (
  omega arith,
  AreBelow-le (max_order ts + 1) (max_order (t ∷ ts) + 1) ts (omega arith) (AreBelow-max_order ts),
)

table-IsRising :
    (factor : ℕ) (ts : List TaskTemplate) → IsTable ts → IsRising (map (new_task factor) ts)
unfolding new_task scale_tasks
table-IsRising factor ts (inl a) = rw a (ground arith)
table-IsRising factor ts (inr (inl a)) = rw a (ground arith)
table-IsRising factor ts (inr (inr (inl a))) = rw a (ground arith)
table-IsRising factor ts (inr (inr (inr a))) = rw a (ground arith)

pub de_icing-AreSlots :
    (factor : ℕ) (seen : Option WeatherData) (ts : List TaskTemplate)
    → IsTable ts
    → let tasks = map (new_task factor) ts in
      AreSlots factor seen
        (de_icing_slots ts)
        (inject_de_icing (get_de_icing_task seen (max_order tasks)) tasks)
unfolding get_de_icing_task
de_icing-AreSlots factor seen ts table =
    let tasks = map (new_task factor) ts in
    let d = get_de_icing_task seen (max_order tasks) in
    subst (AreSlots factor seen (de_icing_slots ts))
      (sym (
        inject_de_icing-placed d tasks (table-IsRising factor ts table) (AreBelow-max_order tasks)))
      (placed-AreSlots factor (max_order tasks) seen ts)
