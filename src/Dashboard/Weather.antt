-- ===== src/Dashboard/Weather.antt =====
-- The weather widget (components/WeatherWidget.tsx, and the reply's type of hooks/useWeather.ts): what
-- it says of an observation. Whole degrees, knots and metres; temperatures and the pressure are texts.
pub mod Wind
use Prim.Native.String.{◌++◌ as text_append}
use microservices_practice.Common.{
  ℕ, zero, suc, ◌+◌, ◌*◌, ◌/◌, ◌%◌, String, Bool, true, false, ◌||◌, Option, none, some, List, [],
  ◌∷◌, map, str_eq, leb, is_some, if◌then◌else◌,
}
use microservices_practice.Common.Number.{decimal}

pub record WeatherData : Type 0 where
  pub icao : String
  pub raw_metar : String
  pub temperature_c : Option String
  pub dewpoint_c : Option String
  pub wind_speed_kt : Option ℕ
  pub wind_gust_kt : Option ℕ
  pub wind_direction : Option ℕ
  pub visibility_m : Option ℕ
  pub pressure_hpa : Option String
  pub conditions : List String
  pub is_icing : Bool
  pub is_lvp : Bool
  pub ceiling_ft : Option ℕ
  pub updated_at : Option String

abbrev pub get_elem? : {A : Type 0} → List A → ℕ → Option A
get_elem? [] i = none
get_elem? (x ∷ xs) zero = some x
get_elem? (x ∷ xs) (suc i) = get_elem? xs i

abbrev pub dirs : List String
dirs =
    "N" ∷ "NNE" ∷ "NE" ∷ "ENE" ∷ "E" ∷ "ESE" ∷ "SE" ∷ "SSE" ∷ "S" ∷ "SSW" ∷ "SW" ∷ "WSW" ∷ "W"
    ∷ "WNW" ∷ "NW" ∷ "NNW" ∷ []

-- `Math.round(deg / 22.5)` of a whole number, in quarters of a degree.
unfoldable pub sector : ℕ → ℕ
sector deg = (4 * deg + 45) / 90

-- An index that is out of range would give `undefined`.
unfoldable pub wind_dir : Option ℕ → Option String
unfolding sector
wind_dir none = some "VRB"
wind_dir (some deg) = get_elem? dirs (sector deg % 16)

pub data Icon : Type 0 where
  snowflake cloud_fog cloud_rain : Icon

pub record Condition : Type 0 where
  pub label : String
  pub icon : Icon

abbrev condition : String → Icon → Condition
condition label icon = record { label = label; icon = icon }

abbrev pub condition_map : List (String × Condition)
condition_map =
    ("SN", condition "Snow" snowflake)
    ∷ ("FZRA", condition "Freezing Rain" snowflake)
    ∷ ("FZFG", condition "Freezing Fog" cloud_fog)
    ∷ ("IC", condition "Ice Crystals" snowflake)
    ∷ ("PL", condition "Ice Pellets" snowflake)
    ∷ ("GR", condition "Hail" snowflake)
    ∷ ("RA", condition "Rain" cloud_rain)
    ∷ ("BR", condition "Mist" cloud_fog)
    ∷ ("HZ", condition "Haze" cloud_fog)
    ∷ ("FG", condition "Fog" cloud_fog)
    ∷ []

abbrev lookup : String → List (String × Condition) → Option Condition
lookup c [] = none
lookup c ((key, info) ∷ rest) = if str_eq key c then some info else lookup c rest

-- `info?.label || c` and `info?.icon || CloudRain`. The inherited members of the object have neither.
unfoldable pub shown_condition : String → Condition
shown_condition c = elim (lookup c condition_map) [
  | none ↦ condition c cloud_rain
  | some info ↦ info
]

-- What the widget draws; `none` is the dash.
pub record Report : Type 0 where
  pub station : String
  pub icing_badge : Bool
  pub lvp_badge : Bool
  pub sun : Bool
  pub temperature : Option String
  pub wind : Option String
  pub gust : Option String
  pub direction : Option String
  pub visibility : Option String
  pub conditions : List Condition
  pub raw_metar : String

pub data View : Type 0 where
  loading_view unavailable : View
  report : Report → View

abbrev with_unit : String → Option String → Option String
with_unit unit none = none
with_unit unit (some text) = some (text_append text unit)

abbrev prefixed : String → Option String → Option String
prefixed prefix none = none
prefixed prefix (some text) = some (text_append prefix text)

abbrev number_text : Option ℕ → Option String
number_text none = none
number_text (some n) = some (decimal n)

abbrev is_empty : List String → Bool
is_empty [] = true
is_empty (x ∷ xs) = false

-- `kilometres` is `(m / 1000).toFixed(1)`.
module _ (kilometres : ℕ → String) where
  unfoldable pub visibility_text : Option ℕ → Option String
  visibility_text none = none
  visibility_text (some m) = some (if leb 9999 m then "10km+" else text_append (kilometres m) "km")

  abbrev report_of : WeatherData → Report
  report_of w = record {
    station = text_append w.icao " METAR";
    icing_badge = w.is_icing;
    lvp_badge = w.is_lvp;
    sun = is_empty w.conditions;
    temperature = with_unit "°C" w.temperature_c;
    wind = with_unit "kt" (number_text w.wind_speed_kt);
    gust = prefixed "G" (number_text w.wind_gust_kt);
    direction = with_unit " Wind" (wind_dir w.wind_direction);
    visibility = visibility_text w.visibility_m;
    conditions = map shown_condition w.conditions;
    raw_metar = w.raw_metar;
  }

  -- The query's `isLoading`, `isError` and `data`.
  unfoldable pub weather_widget : Bool → Bool → Option WeatherData → View
  unfolding visibility_text wind_dir shown_condition
  weather_widget is_loading is_error none = if is_loading then loading_view else unavailable
  weather_widget is_loading is_error (some w) =
      if is_loading then loading_view else if is_error then unavailable else report (report_of w)
