-- ===== src/Turnaround/Weather/Laws.antt =====
-- The cache of the weather service, and what is derived of an observation.
use microservices_practice.Common.{
  ℕ, ◌+◌, ◌≤◌, ◌<◌, ◌≡◌, refl, ◌⊎◌, inl, inr, true, none, some, arith, Option-cases, if◌then◌else◌,
}
use microservices_practice.Common.Int.{ℤ, ◌≤ℤ◌}
use microservices_practice.Turnaround.Store.{ok}
use microservices_practice.Turnaround.World.{
  WeatherData, FetchReply, unreachable, not_ok, malformed, weather, Env, World, Action, counted,
}
use microservices_practice.Turnaround.Weather.{
  cache_ms, fresh, received, get_current_weather, icing, is_de_icing_required, lvp, is_lvp_active,
  get_duration_factor, lvp_duration_factor, holdover_minutes,
}

-- The action returns a value, and touches neither the collection nor the messages.
abbrev pub Observes : {A : Type 0} → Action A → World → Type 0
Observes {A} m w =
    (r : A) × (w' : World) × (m w ≡ (ok r, w')) × (w'.db ≡ w.db) × (w'.published ≡ w.published)

received-Observes : (now : ℕ) (reply : FetchReply) (w : World) → Observes (received now reply) w
unfolding received
received-Observes now unreachable w = (w.cached_weather, w, refl, refl, refl)
received-Observes now not_ok w = (none, w, refl, refl, refl)
received-Observes now malformed w = (w.cached_weather, w, refl, refl, refl)
received-Observes now (weather c) w =
    (some c, record w { cached_weather = some c; last_fetch_at = now }, refl, refl, refl)

module _ (e : Env) (w : World) where
  -- Within five minutes of the last fetch the cached weather is returned, and nothing is fetched.
  get_current_weather_cached :
      (c : WeatherData)
      → w.cached_weather ≡ some c
      → e.now w.calls < w.last_fetch_at + cache_ms
      → get_current_weather e w ≡ (ok (some c), counted w)
  unfolding get_current_weather
  get_current_weather_cached c h soon = ground arith

  -- With no cached weather, or after five minutes, the service asks once, and the reply decides.
  get_current_weather_fetched :
      (w.cached_weather ≡ none) ⊎ (w.last_fetch_at + cache_ms ≤ e.now w.calls)
      → get_current_weather e w
        ≡ received (e.now w.calls) (e.fetch (counted w).calls) (counted (counted w))
  unfolding get_current_weather
  get_current_weather_fetched h = ground arith

  -- The call never throws.
  pub get_current_weather-Observes : Observes (get_current_weather e) w
  unfolding get_current_weather
  get_current_weather-Observes = elim (Option-cases (fresh (e.now w.calls) w)) [
    | inl stale ↦
        let (r, w', p, d, m) =
          received-Observes (e.now w.calls) (e.fetch (counted w).calls) (counted (counted w)) in
        (r, w', ground arith, d, m)
    | inr (c, kept) ↦ (some c, counted w, ground arith, refl, refl)
  ]

  pub is_de_icing_required-Observes : Observes (is_de_icing_required e) w
  unfolding is_de_icing_required
  is_de_icing_required-Observes =
      let (r, w', p, d, m) = get_current_weather-Observes in (icing r, w', ground arith, d, m)

  pub get_duration_factor-Observes : Observes (get_duration_factor e) w
  unfolding get_duration_factor is_lvp_active
  get_duration_factor-Observes =
      let (r, w', p, d, m) = get_current_weather-Observes in
      (if lvp r then lvp_duration_factor else 100, w', ground arith, d, m)

  -- The weather that a call returns is the weather that is cached when it returns.
  get_current_weather_coherent :
      (c : WeatherData) (w' : World)
      → get_current_weather e w ≡ (ok (some c), w')
      → w'.cached_weather ≡ some c
  unfolding get_current_weather
  get_current_weather_coherent c w' h = ground arith

  -- When de-icing is required, the weather that is then cached shows icing, or below 3 °C.
  de_icing_from_cache :
      (w' : World)
      → is_de_icing_required e w ≡ (ok true, w')
      → (c : WeatherData) × (w'.cached_weather ≡ some c) × (icing (some c) ≡ true)
  unfolding is_de_icing_required
  de_icing_from_cache w' h =
      let (r, w₁, p, d, m) = get_current_weather-Observes in
      elim (Option-cases r) [
        | inl missing ↦ absurd (ground arith)
        | inr (c, found) ↦ (c, ground (arith, get_current_weather_coherent c w₁), ground arith)
      ]

-- A colder observation never shortens the holdover, which is 20, 30 or 45 minutes.
holdover_minutes-le :
    (s t : ℤ)
    → s ≤ℤ t
    → (holdover_minutes t ≤ holdover_minutes s)
      × (20 ≤ holdover_minutes t)
      × (holdover_minutes s ≤ 45)
unfolding holdover_minutes
holdover_minutes-le s t h = ground arith
