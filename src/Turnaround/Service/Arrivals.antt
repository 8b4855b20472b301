-- ===== src/Turnaround/Service/Arrivals.antt =====
-- When `createTurnaround` does return.
use microservices_practice.Common.{ℕ, suc, ◌≡◌, none, List, [], ◌∷◌, ◌++◌, map, arith}
use microservices_practice.Common.Int.{pos}
use microservices_practice.Turnaround.Schema.{time, Turnaround}
use microservices_practice.Turnaround.Dto.{CreateTurnaroundDto}
use microservices_practice.Turnaround.Templates.{TaskTemplate, own, get_tasks_for_aircraft}
use microservices_practice.Turnaround.Store.{ok, fine, hydrate, find_by_flight, IsMongo}
use microservices_practice.Turnaround.World.{Env, World, counted}
use microservices_practice.Turnaround.Repository.Laws.{find_by_flight_id_run, create_run}
use microservices_practice.Turnaround.Publisher.Laws.{publish_turnaround_started-IsQuiet}
use microservices_practice.Turnaround.Weather.Laws.{
  is_de_icing_required-Observes, get_duration_factor-Observes,
}
use microservices_practice.Turnaround.Service.{
  create_turnaround, create_new, with_de_icing, new_turnaround,
}
use microservices_practice.Turnaround.Tasks.{new_task}

module _ (e : Env) (laws : IsMongo e.mongo) (dto : CreateTurnaroundDto) where
  -- For a flight with no turnaround and an aircraft type with a template, `createTurnaround` returns
  -- a turnaround when the store answers the search and takes the insertion, whatever the weather
  -- service and the broker answer.
  pub create_turnaround_returns :
      (ts : List TaskTemplate) (w : World)
      → laws.fault w.calls ≡ fine
      → ((k : ℕ) → laws.insert_fault k w.db ≡ fine)
      → find_by_flight dto.flight_id w.db ≡ none
      → get_tasks_for_aircraft dto.aircraft_type ≡ own ts
      → (t : Turnaround) × ((create_turnaround e dto w).0 ≡ ok t)
  unfolding create_turnaround create_new
  create_turnaround_returns ts w up room missing known =
      let (required, w₁, p₁, d₁, m₁) = is_de_icing_required-Observes e (counted w) in
      let (factor, w₂, p₂, d₂, m₂) = get_duration_factor-Observes e w₁ in
      let k = suc w₂.calls in
      let body =
        new_turnaround dto (with_de_icing required w₂.cached_weather (map (new_task factor) ts))
          (time (pos (e.now w₂.calls))) in
      let doc = hydrate (laws.new_id k) (laws.new_task_id k) (laws.clock k) body in
      (
        doc,
        ground (
          arith,
          find_by_flight_id_run e laws w dto.flight_id,
          room k,
          create_run e laws (counted w₂) body,
          publish_turnaround_started-IsQuiet e doc
              (record (counted (counted w₂)) { db = w₂.db ++ doc ∷ [] }),
        ),
      )
