-- ===== src/Turnaround/Weather.antt =====
-- `WeatherService` (weather/weather.service.ts).
pub mod Laws
use microservices_practice.Common.{
  ℕ, suc, ◌+◌, ◌*◌, String, Bool, true, false, Option, none, some, ltb, if◌then◌else◌,
}
use microservices_practice.Common.Int.{ℤ, pos, negsuc, ltb_ℤ}
use microservices_practice.Turnaround.Store.{Result, ok}
use microservices_practice.Turnaround.World.{
  WeatherData, FetchReply, unreachable, not_ok, malformed, weather, Env, World, Action, pure,
  counted, date_now, ◌>>=◌,
}

pub record DeIcingTask : Type 0 where
  pub name : String
  pub estimated_duration_minutes : ℕ
  pub required_certification : String
  pub required_equipment : String
  pub order : ℕ

-- `LVP_DURATION_FACTOR`, in hundredths
abbrev pub lvp_duration_factor : ℕ
lvp_duration_factor = 120

-- `5 * 60 * 1000`
abbrev pub cache_ms : ℕ
cache_ms = 5 * 60 * 1000

-- The cached weather, if it was fetched less than five minutes before `now`.
-- `now - lastFetchAt < cache_ms` is written without a difference, which may be negative.
unfoldable pub fresh : ℕ → World → Option WeatherData
fresh now w = elim w.cached_weather [
  | none ↦ none
  | some cached ↦ if ltb now (w.last_fetch_at + cache_ms) then some cached else none
]

-- The `try` statement: what is fetched is cached, a status that is not ok gives null, and any
-- error gives what is cached, of whatever age.
unfoldable pub received : ℕ → FetchReply → Action (Option WeatherData)
received now unreachable w = (ok w.cached_weather, w)
received now not_ok w = (ok none, w)
received now malformed w = (ok w.cached_weather, w)
received now (weather current) w =
    (ok (some current), record w { cached_weather = some current; last_fetch_at = now })

abbrev pub fetch_weather : Env → Action FetchReply
fetch_weather e w = (ok (e.fetch w.calls), counted w)

-- `weather.is_icing`, or a known temperature below 3 °C; not without weather.
abbrev pub icing : Option WeatherData → Bool
icing none = false
icing (some current) =
    if current.is_icing
    then true
    else elim current.temperature_c [ none ↦ false | some t ↦ ltb_ℤ t (pos 30) ]

abbrev pub lvp : Option WeatherData → Bool
lvp none = false
lvp (some current) = current.is_lvp

module _ (e : Env) where
  unfoldable pub fetch_current : ℕ → Action (Option WeatherData)
  unfolding received
  fetch_current now = do reply ← fetch_weather e; received now reply

  unfoldable pub get_current_weather : Action (Option WeatherData)
  unfolding fresh fetch_current
  get_current_weather = do
    now ← date_now e
    λ (w : World). elim (fresh now w) [
      | some cached ↦ pure (some cached) w
      | none ↦ fetch_current now w
    ]

  unfoldable pub is_de_icing_required : Action Bool
  unfolding get_current_weather
  is_de_icing_required = do current ← get_current_weather; pure (icing current)

  unfoldable pub is_lvp_active : Action Bool
  unfolding get_current_weather
  is_lvp_active = do current ← get_current_weather; pure (lvp current)

  unfoldable pub get_duration_factor : Action ℕ
  unfolding is_lvp_active
  get_duration_factor = do
    active ← is_lvp_active
    pure (if active then lvp_duration_factor else 100)

-- `this.cachedWeather?.temperature_c ?? 0`
abbrev pub cached_temperature : Option WeatherData → ℤ
cached_temperature none = pos 0
cached_temperature (some current) = elim current.temperature_c [ none ↦ pos 0 | some t ↦ t ]

-- The holdover for a temperature: below -10 °C, below -3 °C, and above.
unfoldable pub holdover_minutes : ℤ → ℕ
holdover_minutes t = if ltb_ℤ t (negsuc 99) then 45 else if ltb_ℤ t (negsuc 29) then 30 else 20

unfoldable pub get_de_icing_task : Option WeatherData → ℕ → DeIcingTask
unfolding holdover_minutes
get_de_icing_task cached insert_after_order = record {
  name = "de_icing";
  estimated_duration_minutes = holdover_minutes (cached_temperature cached);
  required_certification = "fueling";
  required_equipment = "de_icing_truck";
  order = insert_after_order + 1;
}
