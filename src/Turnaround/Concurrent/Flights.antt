-- ===== src/Turnaround/Concurrent/Flights.antt =====
-- How many turnarounds a flight gets, from one request after another and from two at once.
use microservices_practice.Common.{
  ℕ, suc, ◌+◌, String, ◌≡◌, refl, none, [], ◌∷◌, ◌++◌, map, arith, count_if, str_eq, eq_iff, ◌≤◌,
  ◌⊎◌, inl, inr, if◌then◌else◌, Option-cases,
}
use microservices_practice.Turnaround.Schema.{time, Turnaround}
use microservices_practice.Common.Int.{pos}
use microservices_practice.Turnaround.Dto.{CreateTurnaroundDto}
use microservices_practice.Turnaround.Store.{
  Collection, ok, Fault, fine, refused, lost, IsMongo, find_by_flight, hydrate,
}
use microservices_practice.Turnaround.World.{Env, World, counted}
use microservices_practice.Turnaround.Repository.Laws.{find_by_flight_id_run, create_run}
use microservices_practice.Turnaround.Repository
use microservices_practice.Turnaround.Publisher.Laws.{publish_turnaround_started-IsQuiet}
use microservices_practice.Turnaround.Weather.Laws.{
  is_de_icing_required-Observes, get_duration_factor-Observes,
}
use microservices_practice.Turnaround.Templates.{get_tasks_for_aircraft}
use microservices_practice.Turnaround.Service.{
  create_turnaround, create_new, new_turnaround, with_de_icing,
}
use microservices_practice.Turnaround.Service.Creation.{create_new_ok, Entry-cases}
use microservices_practice.Turnaround.Tasks.{new_task}

Fault-cases :
    (f : Fault) → (f ≡ fine) ⊎ ((x : String) × (f ≡ refused x)) ⊎ ((x : String) × (f ≡ lost x))
Fault-cases fine = inl refl
Fault-cases (refused x) = inr (inl (x, refl))
Fault-cases (lost x) = inr (inr (x, refl))

-- How many turnarounds a flight has.
abbrev pub turnarounds_of : String → Collection → ℕ
turnarounds_of flight_id c = count_if (λ (d : Turnaround). str_eq d.flight_id flight_id) c

pub turnarounds_of-append :
    (flight_id : String) (c : Collection) (d : Turnaround)
    → turnarounds_of flight_id (c ++ d ∷ [])
      ≡ turnarounds_of flight_id c + (if str_eq d.flight_id flight_id then 1 else 0)
turnarounds_of-append flight_id [] d = omega arith
turnarounds_of-append flight_id (x ∷ c) d = ground (arith, turnarounds_of-append flight_id c d)

turnarounds_of-none :
    (flight_id : String) (c : Collection)
    → find_by_flight flight_id c ≡ none
    → turnarounds_of flight_id c ≡ 0
unfolding find_by_flight
turnarounds_of-none flight_id [] h = refl
turnarounds_of-none flight_id (d ∷ c) h = ground (arith, turnarounds_of-none flight_id c)

module _ (e : Env) (laws : IsMongo e.mongo) (dto : CreateTurnaroundDto) where
  create_new-count :
      (w w' : World) (t : Turnaround)
      → create_new e dto w ≡ (ok t, w')
      → turnarounds_of dto.flight_id w'.db ≡ turnarounds_of dto.flight_id w.db + 1
  unfolding hydrate new_turnaround
  create_new-count w w' t h =
      let c = create_new_ok e laws dto w t w' h in
      ground (
        arith,
        c.appended,
        c.stored,
        eq_iff dto.flight_id dto.flight_id,
        turnarounds_of-append dto.flight_id w.db t,
      )

  -- Two requests to create the turnaround of one flight search for it before either creates it:
  -- both find none and, if both return, the flight has two turnarounds.
  pub create_new_race :
      (w w₁ w₂ w₃ w₄ : World) (t t' : Turnaround)
      → Repository.find_by_flight_id e dto.flight_id w ≡ (ok none, w₁)
      → Repository.find_by_flight_id e dto.flight_id w₁ ≡ (ok none, w₂)
      → create_new e dto w₂ ≡ (ok t, w₃)
      → create_new e dto w₃ ≡ (ok t', w₄)
      → turnarounds_of dto.flight_id w₄.db ≡ 2
  create_new_race w w₁ w₂ w₃ w₄ t t' first second one two = ground (
    arith,
    find_by_flight_id_run e laws w dto.flight_id,
    find_by_flight_id_run e laws w₁ dto.flight_id,
    turnarounds_of-none dto.flight_id w.db,
    create_new-count w₂ w₃ t one,
    create_new-count w₃ w₄ t' two,
  )

  -- However it ends, `create_new` keeps the collection or adds one document of the flight.
  create_new-db :
      (w : World)
      → ((create_new e dto w).1.db ≡ w.db)
        ⊎ ((t : Turnaround) × (t.flight_id ≡ dto.flight_id)
            × ((create_new e dto w).1.db ≡ w.db ++ t ∷ []))
  unfolding create_new new_turnaround hydrate
  create_new-db w =
      let (required, w₁, p₁, d₁, m₁) = is_de_icing_required-Observes e w in
      let (factor, w₂, p₂, d₂, m₂) = get_duration_factor-Observes e w₁ in
      elim (Entry-cases (get_tasks_for_aircraft dto.aircraft_type)) [
        | inr odd ↦ inl (ground arith)
        | inl (ts, known) ↦
            let k = suc w₂.calls in
            let body =
              new_turnaround dto
                (with_de_icing required w₂.cached_weather (map (new_task factor) ts))
                (time (pos (e.now w₂.calls))) in
            let doc = hydrate (laws.new_id k) (laws.new_task_id k) (laws.clock k) body in
            let w₃ : World = record (counted (counted w₂)) { db = w₂.db ++ doc ∷ [] } in
            elim (Fault-cases (laws.insert_fault k w₂.db)) [
              | inl taken ↦ inr (
                doc,
                refl,
                ground (
                  arith,
                  create_run e laws (counted w₂) body,
                  publish_turnaround_started-IsQuiet e doc w₃,
                ),
              )
              | inr (inl (x, denied)) ↦ inl (ground (arith, create_run e laws (counted w₂) body))
              | inr (inr (x, gone)) ↦
                  inr (doc, refl, ground (arith, create_run e laws (counted w₂) body))
            ]
      ]

  -- However it ends, and whatever the store and the broker answer, `createTurnaround` gives a flight
  -- that has at most one turnaround no second one.
  pub create_turnaround-count :
      (w : World)
      → turnarounds_of dto.flight_id w.db ≤ 1
      → turnarounds_of dto.flight_id (create_turnaround e dto w).1.db ≤ 1
  unfolding create_turnaround
  create_turnaround-count w h = elim (Option-cases (find_by_flight dto.flight_id w.db)) [
    | inr (d, found) ↦ ground (arith, find_by_flight_id_run e laws w dto.flight_id)
    | inl missing ↦ elim (create_new-db (counted w)) [
      | inl same ↦ ground (arith, find_by_flight_id_run e laws w dto.flight_id)
      | inr (t, mine, added) ↦ ground (
        arith,
        find_by_flight_id_run e laws w dto.flight_id,
        turnarounds_of-none dto.flight_id w.db,
        turnarounds_of-append dto.flight_id w.db t,
      )
    ]
  ]
