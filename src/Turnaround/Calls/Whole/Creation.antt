-- ===== src/Turnaround/Calls/Whole/Creation.antt =====
-- The pieces of `createTurnaround` (turnaround/turnaround.service.ts) without others between them.
use microservices_practice.Common.{ℕ, zero, suc, ◌≡◌, refl, arith, Option-cases, inl, inr, Bool}
use microservices_practice.Common.Int.{pos}
use microservices_practice.Turnaround.Schema.{Turnaround, time}
use microservices_practice.Turnaround.Dto.{CreateTurnaroundDto}
use microservices_practice.Turnaround.Store.{Result, ok, err}
use microservices_practice.Turnaround.Store.Laws.{Result-cases}
use microservices_practice.Turnaround.World.{
  Env, World, Action, counted, date_now, pure, ◌>>=◌, ◌>>◌,
}
use microservices_practice.Turnaround.Repository
use microservices_practice.Turnaround.Publisher
use microservices_practice.Turnaround.Weather
use microservices_practice.Turnaround.Templates.{get_tasks_for_aircraft}
use microservices_practice.Turnaround.Service.{
  tasks_of, cached, new_turnaround, with_de_icing, create_turnaround, create_new,
}
use microservices_practice.Turnaround.Calls.{
  CreateStage, Process, creating, advance, alone, create_next,
}

-- A call that has ended in a world.
abbrev pub create_end : CreateTurnaroundDto → Result Turnaround × World → Process × World
create_end dto (ok t, w) = (creating dto (CreateStage.returned t), w)
create_end dto (err x, w) = (creating dto (CreateStage.failed x), w)

module _ (e : Env) where
  -- A call that has ended stays as it is.
  alone-create_end :
      (n : ℕ) (dto : CreateTurnaroundDto) (r : Result Turnaround) (w : World)
      → alone e n (create_end dto (r, w)).0 w ≡ create_end dto (r, w)
  unfolding alone advance create_next
  alone-create_end zero dto (ok t) w = refl
  alone-create_end zero dto (err x) w = refl
  alone-create_end (suc n) dto (ok t) w = alone-create_end n dto (ok t) w
  alone-create_end (suc n) dto (err x) w = alone-create_end n dto (err x) w

  alone-created :
      (n : ℕ) (dto : CreateTurnaroundDto) (t : Turnaround) (w : World)
      → alone e (suc n) (creating dto (CreateStage.created t)) w
        ≡ create_end dto ((Publisher.publish_turnaround_started e t >> pure t) w)
  unfolding alone advance create_next
  alone-created n dto t w =
      let r = Publisher.publish_turnaround_started e t w in
      elim (Result-cases r.0) [
        | inl (u, done) ↦ ground (arith, alone-create_end n dto (ok t) r.1)
        | inr (x, thrown) ↦ ground (arith, alone-create_end n dto (err x) r.1)
      ]

  -- What `create_new` has left after its questions to the weather service.
  abbrev created_rest : CreateTurnaroundDto → Bool → ℕ → Action Turnaround
  created_rest dto required factor = do
    tasks ← tasks_of (get_tasks_for_aircraft dto.aircraft_type) factor
    weather ← cached
    now ← date_now e
    turnaround ←
        Repository.create e
          (new_turnaround dto (with_de_icing required weather tasks) (time (pos now)))
    Publisher.publish_turnaround_started e turnaround
    pure turnaround

  alone-scaled :
      (n : ℕ) (dto : CreateTurnaroundDto) (required : Bool) (factor : ℕ) (w : World)
      → alone e (suc (suc n)) (creating dto (CreateStage.scaled required factor)) w
        ≡ create_end dto (created_rest dto required factor w)
  unfolding alone advance create_next
  alone-scaled n dto required factor w =
      let kept = tasks_of (get_tasks_for_aircraft dto.aircraft_type) factor w in
      elim (Result-cases kept.0) [
        | inl (tasks, known) ↦
            let w₁ = kept.1 in
            let r =
              Repository.create e
                (new_turnaround dto (with_de_icing required w₁.cached_weather tasks)
                  (time (pos (e.now w₁.calls))))
                (counted w₁) in
            elim (Result-cases r.0) [
              | inl (t, done) ↦ ground (arith, alone-created n dto t r.1)
              | inr (x, thrown) ↦ ground (arith, alone-create_end (suc n) dto (err x) r.1)
            ]
        | inr (x, thrown) ↦ ground (arith, alone-create_end (suc n) dto (err x) kept.1)
      ]

  alone-weighed :
      (n : ℕ) (dto : CreateTurnaroundDto) (required : Bool) (w : World)
      → alone e (suc (suc (suc n))) (creating dto (CreateStage.weighed required)) w
        ≡ create_end dto ((Weather.get_duration_factor e >>= created_rest dto required) w)
  unfolding alone advance create_next
  alone-weighed n dto required w =
      let r = Weather.get_duration_factor e w in
      elim (Result-cases r.0) [
        | inl (factor, done) ↦ ground (arith, alone-scaled n dto required factor r.1)
        | inr (x, thrown) ↦ ground (arith, alone-create_end (suc (suc n)) dto (err x) r.1)
      ]

  alone-missing :
      (n : ℕ) (dto : CreateTurnaroundDto) (w : World)
      → alone e (suc (suc (suc (suc n)))) (creating dto CreateStage.missing) w
        ≡ create_end dto (create_new e dto w)
  unfolding alone advance create_next create_new
  alone-missing n dto w =
      let r = Weather.is_de_icing_required e w in
      elim (Result-cases r.0) [
        | inl (required, done) ↦ ground (arith, alone-weighed n dto required r.1)
        | inr (x, thrown) ↦ ground (arith, alone-create_end (suc (suc (suc n))) dto (err x) r.1)
      ]

  pub alone-creating :
      (n : ℕ) (dto : CreateTurnaroundDto) (w : World)
      → alone e (suc (suc (suc (suc (suc n))))) (creating dto CreateStage.received) w
        ≡ create_end dto (create_turnaround e dto w)
  unfolding alone advance create_next create_turnaround
  alone-creating n dto w =
      let r = Repository.find_by_flight_id e dto.flight_id w in
      elim (Result-cases r.0) [
        | inl (found, done) ↦ elim (Option-cases found) [
          | inl empty ↦ ground (arith, alone-missing n dto r.1)
          | inr (t, there) ↦
              ground (arith, alone-create_end (suc (suc (suc (suc n)))) dto (ok t) r.1)
        ]
        | inr (x, thrown) ↦
            ground (arith, alone-create_end (suc (suc (suc (suc n)))) dto (err x) r.1)
      ]
