-- ===== src/Turnaround/Templates.antt =====
-- The task templates of an aircraft type (templates/aircraft-templates.ts).
-- A factor is a percentage. The products that the service forms are rounded half up to a whole
-- minute, as `Math.round` does; the doubles of the source round to the same minutes at every
-- duration and factor of these tables.
use microservices_practice.Common.{
  ℕ, ◌+◌, ◌*◌, ◌/◌, String, Bool, false, ◌||◌, Option, none, some, List, [], ◌∷◌, map, str_eq,
  if◌then◌else◌,
}

pub record TaskTemplate : Type 0 where
  pub name : String
  pub estimated_duration_minutes : ℕ
  pub required_certification : Option String
  pub required_equipment : Option String
  pub order : ℕ

abbrev task : String → ℕ → Option String → Option String → ℕ → TaskTemplate
task name minutes certification equipment order = record {
  name = name;
  estimated_duration_minutes = minutes;
  required_certification = certification;
  required_equipment = equipment;
  order = order;
}

abbrev pub wide_body_tasks : List TaskTemplate
wide_body_tasks =
    task "deboarding" 45 none (some "gpu") 1
    ∷ task "fueling" 60 (some "fueling") (some "fuel_truck") 2
    ∷ task "catering" 40 (some "catering") (some "catering_truck") 3
    ∷ task "cabin_cleaning" 50 (some "cleaning") none 4
    ∷ task "cargo_unload" 55 (some "cargo") (some "belt_loader") 5
    ∷ task "cargo_load" 55 (some "cargo") (some "belt_loader") 6
    ∷ task "boarding" 50 (some "boarding") (some "gpu") 7
    ∷ []

abbrev pub narrow_body_tasks : List TaskTemplate
narrow_body_tasks =
    task "deboarding" 20 none (some "gpu") 1
    ∷ task "fueling" 30 (some "fueling") (some "fuel_truck") 2
    ∷ task "catering" 20 (some "catering") (some "catering_truck") 3
    ∷ task "cabin_cleaning" 25 (some "cleaning") none 4
    ∷ task "boarding" 25 (some "boarding") (some "gpu") 5
    ∷ []

-- `Math.round(minutes * factor)`, with the factor in hundredths.
unfoldable pub scale_minutes : ℕ → ℕ → ℕ
scale_minutes minutes percent = (minutes * percent + 50) / 100

unfoldable pub scale_tasks : List TaskTemplate → ℕ → List TaskTemplate
unfolding scale_minutes
scale_tasks tasks percent =
    map
      (λ (t : TaskTemplate). record t {
        estimated_duration_minutes = scale_minutes t.estimated_duration_minutes percent;
      })
      tasks

-- What a property of the table object is: a list of tasks of its own, or a member that every
-- JavaScript object inherits, such as `constructor`, which has no `map`.
pub data Entry : Type 0 where
  own : List TaskTemplate → Entry
  inherited : Entry

-- `AIRCRAFT_TEMPLATES`
unfoldable pub aircraft_templates : List (String × List TaskTemplate)
unfolding scale_tasks
aircraft_templates =
    ("A380", wide_body_tasks)
    ∷ ("A350", scale_tasks wide_body_tasks 85)
    ∷ ("B787", scale_tasks wide_body_tasks 80)
    ∷ ("B737", narrow_body_tasks)
    ∷ []

-- The members of `Object.prototype`.
abbrev pub object_prototype : List String
object_prototype =
    "constructor" ∷ "__defineGetter__" ∷ "__defineSetter__" ∷ "hasOwnProperty" ∷ "__lookupGetter__"
    ∷ "__lookupSetter__" ∷ "isPrototypeOf" ∷ "propertyIsEnumerable" ∷ "toString" ∷ "valueOf"
    ∷ "__proto__" ∷ "toLocaleString" ∷ []

unfoldable pub own_entry : String → List (String × List TaskTemplate) → Option (List TaskTemplate)
own_entry key [] = none
own_entry key ((name, tasks) ∷ rest) = if str_eq key name then some tasks else own_entry key rest

unfoldable pub includes : String → List String → Bool
includes key [] = false
includes key (name ∷ rest) = str_eq key name || includes key rest

-- `AIRCRAFT_TEMPLATES[aircraftType] || NARROW_BODY_TASKS`: own properties come first, then the
-- inherited ones, which are truthy, and only then the fallback.
unfoldable pub get_tasks_for_aircraft : String → Entry
unfolding own_entry aircraft_templates includes
get_tasks_for_aircraft aircraft_type = elim (own_entry aircraft_type aircraft_templates) [
  | some found ↦ own found
  | none ↦ if includes aircraft_type object_prototype then inherited else own narrow_body_tasks
]
