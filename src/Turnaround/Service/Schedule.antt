-- ===== src/Turnaround/Service/Schedule.antt =====
-- The tasks that `createTurnaround` (turnaround/turnaround.service.ts) makes of a template, with or
-- without de-icing.
use microservices_practice.Common.{
  ℕ, ◌≡◌, String, Bool, true, false, Option, List, map, if◌then◌else◌,
}
use microservices_practice.Turnaround.Schema.{NewTask}
use microservices_practice.Turnaround.World.{WeatherData}
use microservices_practice.Turnaround.Templates.{TaskTemplate, own, get_tasks_for_aircraft}
use microservices_practice.Turnaround.Tasks.{new_task}
use microservices_practice.Turnaround.Tasks.Orders.{
  IsNumbered, own_cases, plain_IsListed, de_icing_IsListed,
}
use microservices_practice.Turnaround.Tasks.Slots.{
  AreSlots, plain_slots, de_icing_slots, plain-AreSlots, de_icing-AreSlots,
}
use microservices_practice.Turnaround.Service.{with_de_icing}

-- The tasks made of a template at a duration factor, with de-icing for the weather or without.
abbrev pub IsScheduled :
    List TaskTemplate → ℕ → (required : Bool) → Option WeatherData → List NewTask → Type 0
IsScheduled ts factor required seen tasks =
    IsNumbered 1 tasks
    × AreSlots factor seen (if required then de_icing_slots ts else plain_slots ts) tasks

-- For every aircraft type with a template, every weather and every duration factor: the tasks are
-- numbered 1, 2, … in the order of the list, and are those of the template, in its order, each pending,
-- with its name, certification and equipment, and its minutes times the factor, rounded; when de-icing
-- is required there is one more, de-icing, pending, directly before boarding, with its certification
-- and equipment, as long as the fluid holds at the temperature.
pub with_de_icing-IsScheduled :
    (aircraft_type : String) (ts : List TaskTemplate) (required : Bool)
    (weather : Option WeatherData) (factor : ℕ)
    → get_tasks_for_aircraft aircraft_type ≡ own ts
    → IsScheduled ts factor required weather
        (with_de_icing required weather (map (new_task factor) ts))
unfolding with_de_icing
with_de_icing-IsScheduled aircraft_type ts true weather factor h =
    let table = own_cases aircraft_type ts h in
    ((de_icing_IsListed weather ts factor table).0, de_icing-AreSlots factor weather ts table)
with_de_icing-IsScheduled aircraft_type ts false weather factor h =
    let table = own_cases aircraft_type ts h in
    ((plain_IsListed ts factor table).0, plain-AreSlots factor weather ts)
