-- ===== src/Dashboard/Queries/Refresh.antt =====
-- Which queries an event of the stream makes stale.
use microservices_practice.Common.{
  String, ◌≡◌, refl, Bool, true, false, ◌||◌, ◌++◌, List, [], ◌∷◌, if◌then◌else◌, ◌∙◌, arith,
  str_eq, eq_iff,
}
use microservices_practice.Dashboard.Auth.{before_dot}
use microservices_practice.Dashboard.Stream.{QueryKey, invalidated_by}
use microservices_practice.Dashboard.Queries.{
  KeyPart, text, number, optional, use_flights, use_upcoming_arrivals, use_turnarounds, use_crew,
  use_assignments, use_equipment, use_available_equipment, use_events, use_alerts, use_weather,
  UseQuery, Hook, use_query,
}

-- `queryKey: [name]`
abbrev pub key_name : QueryKey → String
key_name QueryKey.flights = "flights"
key_name QueryKey.upcoming_arrivals = "upcoming-arrivals"
key_name QueryKey.turnarounds = "turnarounds"
key_name QueryKey.crew = "crew"
key_name QueryKey.equipment = "equipment"
key_name QueryKey.events = "events"
key_name QueryKey.alerts = "alerts"

-- The event types, by their part before the dot, that make a query stale.
abbrev pub refreshed_by : Hook → String → Bool
refreshed_by (Hook.flights limit offset) prefix = str_eq prefix "flight"
refreshed_by (Hook.upcoming_arrivals within) prefix = str_eq prefix "flight"
refreshed_by (Hook.turnarounds limit offset status) prefix = str_eq prefix "turnaround"
refreshed_by (Hook.crew limit offset) prefix = str_eq prefix "crew"
refreshed_by Hook.assignments prefix = false
refreshed_by (Hook.equipment limit) prefix = str_eq prefix "equipment"
refreshed_by (Hook.available_equipment type) prefix = str_eq prefix "equipment"
refreshed_by (Hook.events limit) prefix = true
refreshed_by (Hook.alerts status severity) prefix = true
refreshed_by Hook.weather prefix = false

-- A text is not two texts.
apart : (p a b : String) → str_eq a b ≡ false → str_eq p a ≡ true → str_eq p b ≡ false
apart p a b h g = ground (arith, eq_iff p a, eq_iff p b, eq_iff a b)

abbrev named : List QueryKey → String → Bool
named [] first = false
named (k ∷ ks) first = str_eq (key_name k) first || named ks first

named-++ :
    (ks ls : List QueryKey) (first : String)
    → named (ks ++ ls) first ≡ named ks first || named ls first
named-++ [] ls first = refl
named-++ (k ∷ ks) ls first = ground (arith, named-++ ks ls first)

named_if :
    (b : Bool) (ks ls : List QueryKey) (first : String)
    → named (if b then ks else ls) first ≡ (if b then named ks first else named ls first)
named_if true ks ls first = refl
named_if false ks ls first = refl

-- The names that an event refreshes, by the part of its type before the dot.
abbrev refreshes : String → String → Bool
refreshes prefix first =
    (if str_eq prefix "flight"
      then named (QueryKey.flights ∷ QueryKey.upcoming_arrivals ∷ []) first
      else if str_eq prefix "turnaround"
      then named (QueryKey.turnarounds ∷ []) first
      else if str_eq prefix "crew"
      then named (QueryKey.crew ∷ []) first
      else if str_eq prefix "equipment"
      then named (QueryKey.equipment ∷ []) first
      else false)
    || named (QueryKey.events ∷ QueryKey.alerts ∷ []) first

named-refreshes :
    (event_type first : String)
    → named (invalidated_by event_type) first ≡ refreshes (before_dot event_type) first
unfolding invalidated_by
named-refreshes event_type first = simp (named-++, named_if)

-- `matches` is the query library's match of a filter against a key.
abbrev pub is_stale : (List KeyPart → List KeyPart → Bool) → List QueryKey → UseQuery → Bool
is_stale matches [] q = false
is_stale matches (k ∷ ks) q = matches (text (key_name k) ∷ []) q.key || is_stale matches ks q

-- A filter of one name matches the keys that begin with it.
module _ (matches : List KeyPart → List KeyPart → Bool)
    (matches_first : (name first : String) (rest : List KeyPart)
      → matches (text name ∷ []) (text first ∷ rest) ≡ str_eq name first) where
  is_stale-named :
      (ks : List QueryKey) (q : UseQuery) (first : String) (rest : List KeyPart)
      → q.key ≡ text first ∷ rest
      → is_stale matches ks q ≡ named ks first
  is_stale-named [] q first rest eq = refl
  is_stale-named (k ∷ ks) q first rest eq =
      ground (arith, is_stale-named ks q first rest eq, matches_first (key_name k) first rest)

  is_stale-refreshes :
      (event_type : String) (hook : Hook) (first : String) (rest : List KeyPart)
      → (use_query hook).key ≡ text first ∷ rest
      → is_stale matches (invalidated_by event_type) (use_query hook)
        ≡ refreshes (before_dot event_type) first
  is_stale-refreshes event_type hook first rest eq =
      is_stale-named (invalidated_by event_type) (use_query hook) first rest eq
      ∙ named-refreshes event_type first

  -- An event makes a query stale exactly if the table says so for the query's hook and the part of
  -- the event's type before the dot: every event refreshes the events and the alerts, and none ever
  -- refreshes the assignments or the weather.
  pub invalidated_by-is_stale :
      (event_type : String) (hook : Hook)
      → is_stale matches (invalidated_by event_type) (use_query hook)
        ≡ refreshed_by hook (before_dot event_type)
  unfolding use_query use_flights use_upcoming_arrivals use_turnarounds use_crew use_assignments
      use_equipment use_available_equipment use_events use_alerts use_weather
  invalidated_by-is_stale event_type (Hook.flights limit offset) = ground (
    arith,
    is_stale-refreshes event_type (Hook.flights limit offset) "flights"
        (number limit ∷ number offset ∷ []) refl,
  )
  invalidated_by-is_stale event_type (Hook.upcoming_arrivals within) = ground (
    arith,
    is_stale-refreshes event_type (Hook.upcoming_arrivals within) "flights"
        (text "upcoming" ∷ text within ∷ []) refl,
  )
  invalidated_by-is_stale event_type (Hook.turnarounds limit offset status) = ground (
    arith,
    apart (before_dot event_type) "flight" "turnaround" refl,
    is_stale-refreshes event_type (Hook.turnarounds limit offset status) "turnarounds"
        (number limit ∷ number offset ∷ optional status ∷ []) refl,
  )
  invalidated_by-is_stale event_type (Hook.crew limit offset) = ground (
    arith,
    apart (before_dot event_type) "flight" "crew" refl,
    apart (before_dot event_type) "turnaround" "crew" refl,
    is_stale-refreshes event_type (Hook.crew limit offset) "crew"
        (number limit ∷ number offset ∷ []) refl,
  )
  invalidated_by-is_stale event_type Hook.assignments =
      ground (arith, is_stale-refreshes event_type Hook.assignments "assignments" ([]) refl)
  invalidated_by-is_stale event_type (Hook.equipment limit) = ground (
    arith,
    apart (before_dot event_type) "flight" "equipment" refl,
    apart (before_dot event_type) "turnaround" "equipment" refl,
    apart (before_dot event_type) "crew" "equipment" refl,
    is_stale-refreshes event_type (Hook.equipment limit) "equipment" (number limit ∷ []) refl,
  )
  invalidated_by-is_stale event_type (Hook.available_equipment type) = ground (
    arith,
    apart (before_dot event_type) "flight" "equipment" refl,
    apart (before_dot event_type) "turnaround" "equipment" refl,
    apart (before_dot event_type) "crew" "equipment" refl,
    is_stale-refreshes event_type (Hook.available_equipment type) "equipment"
        (text "available" ∷ optional type ∷ []) refl,
  )
  invalidated_by-is_stale event_type (Hook.events limit) =
      ground
        (arith, is_stale-refreshes event_type (Hook.events limit) "events" (number limit ∷ []) refl)
  invalidated_by-is_stale event_type (Hook.alerts status severity) = ground (
    arith,
    is_stale-refreshes event_type (Hook.alerts status severity) "alerts"
        (optional status ∷ optional severity ∷ []) refl,
  )
  invalidated_by-is_stale event_type Hook.weather =
      ground (arith, is_stale-refreshes event_type Hook.weather "weather" ([]) refl)
