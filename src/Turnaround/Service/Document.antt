-- ===== src/Turnaround/Service/Document.antt =====
-- The document that `createTurnaround` (turnaround/turnaround.service.ts) stores, field by field.
use microservices_practice.Common.{
  ℕ, ◌≡◌, refl, String, Bool, Option, none, some, List, ◌⊎◌, inl, inr, map,
}
use mathlib.Core.Path.{sym, subst}
use microservices_practice.Common.Int.{pos}
use microservices_practice.Turnaround.Schema.{
  time, TurnaroundStatus, Milestones, NewTask, Turnaround,
}
use microservices_practice.Turnaround.Dto.{CreateTurnaroundDto}
use microservices_practice.Turnaround.Templates.{TaskTemplate}
use microservices_practice.Turnaround.Store.{ok, find_by_flight, new_tasks, hydrate, IsMongo}
use microservices_practice.Turnaround.World.{WeatherData, Env, World, counted}
use microservices_practice.Turnaround.Service.{create_turnaround, new_turnaround, with_de_icing}
use microservices_practice.Turnaround.Service.Creation.{IsCreation, create_turnaround_ok}
use microservices_practice.Turnaround.Service.Schedule.{IsScheduled, with_de_icing-IsScheduled}
use microservices_practice.Turnaround.Tasks.{new_task}

-- On blocks at a time, with no other milestone.
abbrev pub arrived_at : ℕ → Milestones
arrived_at now = record {
  eibt = none;
  aibt = some (time (pos now));
  tobt = none;
  tsat = none;
  ardt = none;
  aobt = none;
  atot = none;
}

-- The turnaround that a request starts at a time, with tasks scheduled for the template, the factor and
-- the weather. Under their new ids the store keeps the tasks with nothing assigned or started.
pub record IsStarted (dto : CreateTurnaroundDto) (ts : List TaskTemplate) (factor : ℕ)
    (required : Bool) (seen : Option WeatherData) (now : ℕ) (t : Turnaround) : Type 0 where
  pub flight_id : t.flight_id ≡ dto.flight_id
  pub flight_number : t.flight_number ≡ dto.flight_number
  pub aircraft_type : t.aircraft_type ≡ dto.aircraft_type
  pub aircraft_reg : t.aircraft_reg ≡ dto.aircraft_reg
  pub gate_id : t.gate_id ≡ dto.gate_id
  pub status : t.status ≡ TurnaroundStatus.in_progress
  pub progress_percent : t.progress_percent ≡ 0
  pub started_at : t.started_at ≡ some (time (pos now))
  pub completed_at : t.completed_at ≡ none
  pub milestones : t.milestones ≡ arrived_at now
  pub tasks :
      (task_id : ℕ → String) × (planned : List NewTask) × (t.tasks ≡ new_tasks task_id 0 planned)
      × IsScheduled ts factor required seen planned

IsStarted-hydrate :
    (dto : CreateTurnaroundDto) (ts : List TaskTemplate) (factor : ℕ) (required : Bool)
    (seen : Option WeatherData) (now : ℕ) (id : String) (task_id : ℕ → String) (created : ℕ)
    → IsScheduled ts factor required seen (with_de_icing required seen (map (new_task factor) ts))
    → IsStarted dto ts factor required seen now (
        hydrate id task_id created (
          new_turnaround dto
            (with_de_icing required seen (map (new_task factor) ts))
            (time (pos now))))
unfolding hydrate new_turnaround
IsStarted-hydrate dto ts factor required seen now id task_id created h = record {
  flight_id = refl;
  flight_number = refl;
  aircraft_type = refl;
  aircraft_reg = refl;
  gate_id = refl;
  status = refl;
  progress_percent = refl;
  started_at = refl;
  completed_at = refl;
  milestones = refl;
  tasks = (task_id, with_de_icing required seen (map (new_task factor) ts), refl, h);
}

module _ (e : Env) (laws : IsMongo e.mongo) (dto : CreateTurnaroundDto) where
  -- When `createTurnaround` returns, either the flight had this turnaround and the collection is as it
  -- was, or it had none, and a new document stands at the end of the collection: in progress at 0
  -- percent, with the flight, the aircraft and the gate of the request, started and on blocks (AIBT)
  -- at the time of the clock, with no other milestone, and with the tasks of the aircraft type's
  -- template at the duration factor that the weather service returned, and de-icing for the weather
  -- that is then cached if that service required it.
  pub create_turnaround-IsStarted :
      (w : World) (t : Turnaround) (w' : World)
      → create_turnaround e dto w ≡ (ok t, w')
      → ((find_by_flight dto.flight_id w.db ≡ some t) × (w' ≡ counted w))
        ⊎ ((find_by_flight dto.flight_id w.db ≡ none)
            × ((c : IsCreation e laws dto (counted w) t w') × IsStarted dto c.templates c.factor
                  c.required c.after_factor.cached_weather
                  (e.now c.after_factor.calls)
                  t))
  create_turnaround-IsStarted w t w' h = elim (create_turnaround_ok e laws dto w t w' h) [
    | inl there ↦ inl there
    | inr (missing, c) ↦
        let now = e.now c.after_factor.calls in
        let seen = c.after_factor.cached_weather in
        inr (
          missing,
          (
            c,
            subst (IsStarted dto c.templates c.factor c.required seen now) (sym c.stored) (
                IsStarted-hydrate dto c.templates c.factor c.required seen now _ _ _ (
                  with_de_icing-IsScheduled dto.aircraft_type c.templates c.required seen c.factor
                    c.known)),
          ),
        )
  ]
