-- ===== src/Dashboard/Queries.antt =====
-- The queries of the dashboard (hooks/useFlights.ts, useTurnarounds.ts, useCrew.ts, useEquipment.ts,
-- useEvents.ts, useWeather.ts): for each, its key in the cache, what it asks the server for, and how
-- often it asks again.
pub mod Refresh
pub mod Listing
use microservices_practice.Common.{
  ℕ, String, Option, none, some, List, [], ◌∷◌, ◌++◌, str_eq, if◌then◌else◌,
}
use microservices_practice.Common.Number.{decimal}

-- A component of a key; a parameter that is not given is `undefined`.
pub data KeyPart : Type 0 where
  text : String → KeyPart
  number : ℕ → KeyPart
  undefined : KeyPart

abbrev pub optional : Option String → KeyPart
optional none = undefined
optional (some t) = text t

-- The path, and the pairs of the query part of the address.
pub record UseQuery : Type 0 where
  pub key : List KeyPart
  pub path : String
  pub params : List (String × String)
  pub refetch_interval : ℕ

-- `if (value) params.set(key, value)`
abbrev pub given_param : String → Option String → List (String × String)
given_param key none = []
given_param key (some value) = if str_eq value "" then [] else (key, value) ∷ []

abbrev paging : ℕ → ℕ → List (String × String)
paging limit offset = ("limit", decimal limit) ∷ ("offset", decimal offset) ∷ []

unfoldable pub use_flights : ℕ → ℕ → UseQuery
use_flights limit offset = record {
  key = text "flights" ∷ number limit ∷ number offset ∷ [];
  path = "/api/flights";
  params = paging limit offset;
  refetch_interval = 15000;
}

unfoldable pub use_upcoming_arrivals : String → UseQuery
use_upcoming_arrivals within = record {
  key = text "flights" ∷ text "upcoming" ∷ text within ∷ [];
  path = "/api/flights/arrivals/upcoming";
  params = ("within", within) ∷ [];
  refetch_interval = 30000;
}

unfoldable pub use_turnarounds : ℕ → ℕ → Option String → UseQuery
use_turnarounds limit offset status = record {
  key = text "turnarounds" ∷ number limit ∷ number offset ∷ optional status ∷ [];
  path = "/api/turnarounds";
  params = paging limit offset ++ given_param "status" status;
  refetch_interval = 15000;
}

unfoldable pub use_crew : ℕ → ℕ → UseQuery
use_crew limit offset = record {
  key = text "crew" ∷ number limit ∷ number offset ∷ [];
  path = "/api/crew";
  params = paging limit offset;
  refetch_interval = 30000;
}

unfoldable pub use_assignments : UseQuery
use_assignments = record {
  key = text "assignments" ∷ [];
  path = "/api/assignments";
  params = [];
  refetch_interval = 15000;
}

unfoldable pub use_equipment : ℕ → UseQuery
use_equipment limit = record {
  key = text "equipment" ∷ number limit ∷ [];
  path = "/api/equipment";
  params = ("limit", decimal limit) ∷ [];
  refetch_interval = 15000;
}

unfoldable pub use_available_equipment : Option String → UseQuery
use_available_equipment type = record {
  key = text "equipment" ∷ text "available" ∷ optional type ∷ [];
  path = "/api/equipment/available";
  params = given_param "equipment_type" type;
  refetch_interval = 15000;
}

unfoldable pub use_events : ℕ → UseQuery
use_events limit = record {
  key = text "events" ∷ number limit ∷ [];
  path = "/api/events";
  params = ("limit", decimal limit) ∷ [];
  refetch_interval = 10000;
}

unfoldable pub use_alerts : Option String → Option String → UseQuery
use_alerts status severity = record {
  key = text "alerts" ∷ optional status ∷ optional severity ∷ [];
  path = "/api/alerts";
  params = given_param "status" status ++ given_param "severity" severity;
  refetch_interval = 10000;
}

unfoldable pub use_weather : UseQuery
use_weather = record {
  key = text "weather" ∷ [];
  path = "/api/weather/current";
  params = [];
  refetch_interval = 60000;
}

-- The hooks with their arguments.
pub data Hook : Type 0 where
  flights : (limit offset : ℕ) → Hook
  upcoming_arrivals : (within : String) → Hook
  turnarounds : (limit offset : ℕ) → (status : Option String) → Hook
  crew : (limit offset : ℕ) → Hook
  assignments : Hook
  equipment : (limit : ℕ) → Hook
  available_equipment : (type : Option String) → Hook
  events : (limit : ℕ) → Hook
  alerts : (status severity : Option String) → Hook
  weather : Hook

unfoldable pub use_query : Hook → UseQuery
unfolding use_flights use_upcoming_arrivals use_turnarounds use_crew use_assignments use_equipment
    use_available_equipment use_events use_alerts use_weather
use_query (flights limit offset) = use_flights limit offset
use_query (upcoming_arrivals within) = use_upcoming_arrivals within
use_query (turnarounds limit offset status) = use_turnarounds limit offset status
use_query (crew limit offset) = use_crew limit offset
use_query assignments = use_assignments
use_query (equipment limit) = use_equipment limit
use_query (available_equipment type) = use_available_equipment type
use_query (events limit) = use_events limit
use_query (alerts status severity) = use_alerts status severity
use_query weather = use_weather
