-- ===== src/Turnaround/Calls/Guarantee/Others.antt =====
-- The pieces of `createTurnaround` and `updateMilestones` (turnaround/turnaround.service.ts) as writes
-- of the store.
use microservices_practice.Common.{
  ℕ, suc, String, Bool, ◌≡◌, refl, none, some, ◌⊎◌, [], ◌∷◌, ◌++◌, map, arith, inl, inr,
  Option-cases,
}
use microservices_practice.Common.Int.{pos}
use microservices_practice.Turnaround.Schema.{time, Turnaround, NewTurnaround}
use microservices_practice.Turnaround.Dto.{CreateTurnaroundDto, UpdateMilestonesDto}
use microservices_practice.Turnaround.Templates.{get_tasks_for_aircraft}
use microservices_practice.Turnaround.Store.{
  Collection, Fault, fine, refused, lost, after, IsMongo, assign_all, modify, find_by_id, hydrate,
}
use microservices_practice.Turnaround.World.{Env, World, counted}
use microservices_practice.Turnaround.Repository.{set_field}
use microservices_practice.Turnaround.Repository.Laws.{
  find_by_id_run, find_by_flight_id_run, create_run, update_milestones_run,
}
use microservices_practice.Turnaround.Publisher.Laws.{
  publish_turnaround_started-IsQuiet, publish_milestone_updated-IsQuiet,
}
use microservices_practice.Turnaround.Weather.Laws.{
  is_de_icing_required-Observes, get_duration_factor-Observes,
}
use microservices_practice.Turnaround.Service.{
  get_turnaround, with_de_icing, new_turnaround, key_of, validate,
}
use microservices_practice.Turnaround.Service.Creation.{Entry-cases}
use microservices_practice.Turnaround.Tasks.{new_task}
use microservices_practice.Turnaround.Concurrent.Milestones.{accept}
use microservices_practice.Turnaround.Calls.{
  CreateStage, MilestoneStage, create_next, milestone_next,
}
use microservices_practice.Turnaround.Calls.Ends.Sizes.{create_rank}
use microservices_practice.Turnaround.Calls.Effect.{IsSound, Update, same, set, Effect, update, add}
use microservices_practice.Turnaround.Calls.Effect.Fresh.{hydrate-IsSound}
use microservices_practice.Turnaround.Calls.Effect.Writes.{after-Update, milestones-IsAllowed}

-- A document of a flight stands behind those that were there, under an id that none of them has.
pub record IsAdded (flight_id : String) (c c' : Collection) : Type 0 where
  pub document : Turnaround
  pub of_flight : document.flight_id ≡ flight_id
  pub fresh : find_by_id document.id c ≡ none
  pub sound : IsSound document
  pub appended : c' ≡ c ++ document ∷ []

module _ (e : Env) (laws : IsMongo e.mongo) where
  pub milestone_next-Update :
      (id : String) (dto : UpdateMilestonesDto) (s : MilestoneStage) (w : World)
      → Update w.db (milestone_next e id dto s w).1.db
  unfolding milestone_next accept get_turnaround validate
  milestone_next-Update id dto MilestoneStage.received w =
      same (ground (arith, find_by_id_run e laws w id))
  milestone_next-Update id dto (MilestoneStage.accepted ms) w =
      after-Update (laws.fault w.calls) w.db (modify id (assign_all (map set_field ms)) w.db) _
        (ground (arith, update_milestones_run e laws w id ms))
        (set id (map set_field ms) (milestones-IsAllowed ms) refl)
  milestone_next-Update id dto (MilestoneStage.updated ms t) w =
      same (ground (arith, publish_milestone_updated-IsQuiet e t (map key_of ms) w))
  milestone_next-Update id dto (MilestoneStage.returned t) w = same refl
  milestone_next-Update id dto (MilestoneStage.failed x) w = same refl

  -- The document is added, or the insertion is refused.
  insert_cases :
      (f : Fault) (c c₁ : Collection) (d : Turnaround)
      → ((x : Turnaround) → find_by_id d.id c ≡ some x → (r : String) × (f ≡ refused r))
      → IsSound d
      → c₁ ≡ after f (c ++ d ∷ []) c
      → (c₁ ≡ c) ⊎ IsAdded d.flight_id c c₁
  insert_cases (refused x) c c₁ d fresh sound p = inl p
  insert_cases fine c c₁ d fresh sound p = elim (Option-cases (find_by_id d.id c)) [
    | inl free ↦
        inr (record { document = d; of_flight = refl; fresh = free; sound = sound; appended = p })
    | inr (x, taken) ↦ let (r, denied) = fresh x taken in absurd (ground arith)
  ]
  insert_cases (lost y) c c₁ d fresh sound p = elim (Option-cases (find_by_id d.id c)) [
    | inl free ↦
        inr (record { document = d; of_flight = refl; fresh = free; sound = sound; appended = p })
    | inr (x, taken) ↦ let (r, denied) = fresh x taken in absurd (ground arith)
  ]

  fresh_document :
      (k : ℕ) (c : Collection) (body : NewTurnaround)
      → (x : Turnaround)
      → find_by_id (hydrate (laws.new_id k) (laws.new_task_id k) (laws.clock k) body).id c ≡ some x
      → (r : String) × (laws.insert_fault k c ≡ refused r)
  unfolding hydrate
  fresh_document k c body x taken = laws.new_id_fresh k c x taken

  -- What the piece that inserts makes of the collection.
  scaled_cases :
      (dto : CreateTurnaroundDto) (required : Bool) (factor : ℕ) (w : World)
      → let c = (create_next e dto (CreateStage.scaled required factor) w).1.db in
        (c ≡ w.db) ⊎ IsAdded dto.flight_id w.db c
  unfolding create_next hydrate new_turnaround
  scaled_cases dto required factor w =
      elim (Entry-cases (get_tasks_for_aircraft dto.aircraft_type)) [
        | inr odd ↦ inl (ground arith)
        | inl (ts, known) ↦
            let k = suc w.calls in
            let body =
              new_turnaround dto
                (with_de_icing required w.cached_weather (map (new_task factor) ts))
                (time (pos (e.now w.calls))) in
            let doc = hydrate (laws.new_id k) (laws.new_task_id k) (laws.clock k) body in
            insert_cases (laws.insert_fault k w.db) w.db _ doc (fresh_document k w.db body)
              (hydrate-IsSound (laws.new_id k) (laws.new_task_id k) (laws.clock k) dto required
                w.cached_weather factor ts (time (pos (e.now w.calls))))
              (ground (arith, create_run e laws (counted w) body))
      ]

  -- Every piece keeps the collection, but for the one that inserts, which may add a document of the
  -- flight.
  pub create_next_cases :
      (dto : CreateTurnaroundDto) (s : CreateStage) (w : World)
      → ((create_next e dto s w).1.db ≡ w.db)
        ⊎ ((create_rank s ≡ 2) × IsAdded dto.flight_id w.db (create_next e dto s w).1.db)
  unfolding create_next
  create_next_cases dto CreateStage.received w =
      inl (ground (arith, find_by_flight_id_run e laws w dto.flight_id))
  create_next_cases dto CreateStage.missing w =
      let (required, w₁, p₁, d₁, m₁) = is_de_icing_required-Observes e w in inl (ground arith)
  create_next_cases dto (CreateStage.weighed required) w =
      let (factor, w₂, p₂, d₂, m₂) = get_duration_factor-Observes e w in inl (ground arith)
  create_next_cases dto (CreateStage.scaled required factor) w =
      elim (scaled_cases dto required factor w) [
        | inl kept ↦ inl kept
        | inr added ↦ inr (refl, added)
      ]
  create_next_cases dto (CreateStage.created t) w =
      inl (ground (arith, publish_turnaround_started-IsQuiet e t w))
  create_next_cases dto (CreateStage.returned t) w = inl refl
  create_next_cases dto (CreateStage.failed x) w = inl refl

  pub create_next-Effect :
      (dto : CreateTurnaroundDto) (s : CreateStage) (w : World)
      → Effect w.db (create_next e dto s w).1.db
  create_next-Effect dto s w = elim (create_next_cases dto s w) [
    | inl kept ↦ update (same kept)
    | inr (place, a) ↦ add a.document a.fresh a.sound a.appended
  ]
