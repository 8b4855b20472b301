-- ===== src/Turnaround/Service/Creation.antt =====
-- `createTurnaround`: one document to a flight, and what it holds.
use microservices_practice.Common.{
  ℕ, suc, String, ◌≡◌, refl, ap, ◌∙◌, Bool, none, some, List, [], ◌∷◌, ◌++◌, map, arith,
  Option-cases, ◌≢◌, ◌⊎◌, inl, inr, eq_iff,
}
use microservices_practice.Common.Int.{pos}
use microservices_practice.Turnaround.Schema.{time, Turnaround}
use microservices_practice.Turnaround.Dto.{CreateTurnaroundDto}
use microservices_practice.Turnaround.Templates.{
  TaskTemplate, Entry, own, inherited, get_tasks_for_aircraft,
}
use microservices_practice.Turnaround.Store.{Collection, ok, fine, hydrate, find_by_flight, IsMongo}
use microservices_practice.Turnaround.World.{Env, World, counted}
use microservices_practice.Turnaround.Repository.Laws.{find_by_flight_id_run, create_run}
use microservices_practice.Turnaround.Publisher.Laws.{publish_turnaround_started-IsQuiet}
use microservices_practice.Turnaround.Weather
use microservices_practice.Turnaround.Weather.Laws.{
  is_de_icing_required-Observes, get_duration_factor-Observes,
}
use microservices_practice.Turnaround.Service.{
  create_turnaround, create_new, with_de_icing, new_turnaround,
}
use microservices_practice.Turnaround.Tasks.{new_task}

pub Entry-cases : (x : Entry) → ((ts : List TaskTemplate) × (x ≡ own ts)) ⊎ (x ≡ inherited)
Entry-cases (own ts) = inl (ts, refl)
Entry-cases inherited = inr refl

-- The first document of a flight stays the first when others are added behind it.
find_by_flight-append_some :
    (flight_id : String) (c c' : Collection) (d : Turnaround)
    → find_by_flight flight_id c ≡ some d
    → find_by_flight flight_id (c ++ c') ≡ some d
unfolding find_by_flight
find_by_flight-append_some flight_id [] c' d h = cc
find_by_flight-append_some flight_id (x ∷ c) c' d h =
    ground (arith, find_by_flight-append_some flight_id c c' d)

pub find_by_flight-append_none :
    (flight_id : String) (c c' : Collection)
    → find_by_flight flight_id c ≡ none
    → find_by_flight flight_id (c ++ c') ≡ find_by_flight flight_id c'
unfolding find_by_flight
find_by_flight-append_none flight_id [] c' h = refl
find_by_flight-append_none flight_id (x ∷ c) c' h =
    ground (arith, find_by_flight-append_none flight_id c c')

module _ (e : Env) (laws : IsMongo e.mongo) (dto : CreateTurnaroundDto) where
  -- A flight that has a turnaround keeps it: it is returned as it is, and nothing is created,
  -- fetched or published.
  pub create_existing :
      (w : World) (d : Turnaround)
      → laws.fault w.calls ≡ fine
      → find_by_flight dto.flight_id w.db ≡ some d
      → create_turnaround e dto w ≡ (ok d, counted w)
  unfolding create_turnaround
  create_existing w d up found = ground (arith, find_by_flight_id_run e laws w dto.flight_id)

  -- What a run of the creation proper has drawn from outside, and the document that it stored.
  pub record IsCreation (w : World) (t : Turnaround) (w' : World) : Type 0 where
    pub templates : List TaskTemplate
    pub required : Bool
    pub factor : ℕ
    pub after_de_icing : World
    pub after_factor : World
    pub known : get_tasks_for_aircraft dto.aircraft_type ≡ own templates
    pub asked : Weather.is_de_icing_required e w ≡ (ok required, after_de_icing)
    pub scaled : Weather.get_duration_factor e after_de_icing ≡ (ok factor, after_factor)
    pub stored :
        t
        ≡ let k = suc after_factor.calls in
          hydrate (laws.new_id k) (laws.new_task_id k) (laws.clock k) (
            new_turnaround dto
              (with_de_icing required after_factor.cached_weather (map (new_task factor) templates))
              (time (pos (e.now after_factor.calls))))
    pub appended : w'.db ≡ w.db ++ t ∷ []

  -- An aircraft type that names an inherited member makes the creation throw.
  odd_run :
      (w w₁ w₂ : World) (t : Turnaround) (w' : World) (required : Bool) (factor : ℕ)
      → create_new e dto w ≡ (ok t, w')
      → Weather.is_de_icing_required e w ≡ (ok required, w₁)
      → Weather.get_duration_factor e w₁ ≡ (ok factor, w₂)
      → get_tasks_for_aircraft dto.aircraft_type ≢ inherited
  unfolding create_new
  odd_run w w₁ w₂ t w' required factor h p₁ p₂ odd = ground arith

  plain_run :
      (w w₁ w₂ : World) (t : Turnaround) (w' : World) (required : Bool) (factor : ℕ)
      (templates : List TaskTemplate)
      → create_new e dto w ≡ (ok t, w')
      → Weather.is_de_icing_required e w ≡ (ok required, w₁)
      → Weather.get_duration_factor e w₁ ≡ (ok factor, w₂)
      → get_tasks_for_aircraft dto.aircraft_type ≡ own templates
      → let k = suc w₂.calls in
        let doc = hydrate (laws.new_id k) (laws.new_task_id k) (laws.clock k) (
          new_turnaround dto
            (with_de_icing required w₂.cached_weather (map (new_task factor) templates))
            (time (pos (e.now w₂.calls)))) in
        (t ≡ doc) × (w'.db ≡ w₂.db ++ doc ∷ [])
  unfolding create_new
  plain_run w w₁ w₂ t w' required factor templates h p₁ p₂ known =
      let k = suc w₂.calls in
      let body =
        new_turnaround dto
          (with_de_icing required w₂.cached_weather (map (new_task factor) templates))
          (time (pos (e.now w₂.calls))) in
      let doc = hydrate (laws.new_id k) (laws.new_task_id k) (laws.clock k) body in
      ground (
        arith,
        create_run e laws (counted w₂) body,
        publish_turnaround_started-IsQuiet e doc
            (record (counted (counted w₂)) { db = w₂.db ++ doc ∷ [] }),
      )

  pub create_new_ok :
      (w : World) (t : Turnaround) (w' : World)
      → create_new e dto w ≡ (ok t, w')
      → IsCreation w t w'
  create_new_ok w t w' h =
      let (required, w₁, p₁, d₁, m₁) = is_de_icing_required-Observes e w in
      let (factor, w₂, p₂, d₂, m₂) = get_duration_factor-Observes e w₁ in
      elim (Entry-cases (get_tasks_for_aircraft dto.aircraft_type)) [
        | inl (templates, known) ↦
            let (same, added) = plain_run w w₁ w₂ t w' required factor templates h p₁ p₂ known in
            record {
              templates = templates;
              required = required;
              factor = factor;
              after_de_icing = w₁;
              after_factor = w₂;
              known = known;
              asked = p₁;
              scaled = p₂;
              stored = same;
              appended = cc (added, same, d₁, d₂);
            }
        | inr odd ↦ absurd (odd_run w w₁ w₂ t w' required factor h p₁ p₂ odd)
      ]

  -- When `createTurnaround` returns, either the flight had this turnaround and the collection is
  -- as it was, or it had none and the new document stands at the end of the collection.
  pub create_turnaround_ok :
      (w : World) (t : Turnaround) (w' : World)
      → create_turnaround e dto w ≡ (ok t, w')
      → ((find_by_flight dto.flight_id w.db ≡ some t) × (w' ≡ counted w))
        ⊎ ((find_by_flight dto.flight_id w.db ≡ none) × IsCreation (counted w) t w')
  unfolding create_turnaround
  create_turnaround_ok w t w' h = elim (Option-cases (find_by_flight dto.flight_id w.db)) [
    | inl missing ↦
        let p : create_new e dto (counted w) ≡ (ok t, w') =
          ground (arith, find_by_flight_id_run e laws w dto.flight_id) in
        inr (missing, create_new_ok (counted w) t w' p)
    | inr (d, found) ↦ inl (
      ground (arith, find_by_flight_id_run e laws w dto.flight_id),
      ground (arith, find_by_flight_id_run e laws w dto.flight_id),
    )
  ]

  -- After a creation that returned, the flight's turnaround is the returned one.
  found_after_creation :
      (w : World) (t : Turnaround) (w' : World)
      → (find_by_flight dto.flight_id w.db ≡ none) × IsCreation (counted w) t w'
      → find_by_flight dto.flight_id w'.db ≡ some t
  unfolding hydrate new_turnaround find_by_flight
  found_after_creation w t w' (missing, c) = ground (
    arith,
    c.appended,
    c.stored,
    eq_iff dto.flight_id dto.flight_id,
    find_by_flight-append_none dto.flight_id w.db (t ∷ []),
  )

  -- After a `createTurnaround` that returned, the same request at any time with the collection as that
  -- call left it, and at which the store answers the search, returns the same turnaround, and creates,
  -- fetches and publishes nothing.
  pub create_turnaround_again :
      (w : World) (t : Turnaround) (w' w₂ : World)
      → create_turnaround e dto w ≡ (ok t, w')
      → w₂.db ≡ w'.db
      → laws.fault w₂.calls ≡ fine
      → create_turnaround e dto w₂ ≡ (ok t, counted w₂)
  create_turnaround_again w t w' w₂ h same up = elim (create_turnaround_ok w t w' h) [
    | inl (found, kept) ↦
        create_existing w₂ t up (ap (find_by_flight dto.flight_id) same ∙ rw kept found)
    | inr new ↦
        create_existing w₂ t up
          (ap (find_by_flight dto.flight_id) same ∙ found_after_creation w t w' new)
  ]
