-- ===== src/Turnaround/Calls/Invariant.antt =====
-- Runs of the three kinds of calls (turnaround/turnaround.service.ts) as steps on the collection.
use microservices_practice.Common.{
  ℕ, zero, suc, ◌≤◌, String, ◌≡◌, refl, ◌∙◌, some, List, [], ◌∷◌, map, All,
}
use microservices_practice.Turnaround.Schema.{Turnaround}
use microservices_practice.Turnaround.Store.{Collection, IsMongo, find_by_id}
use microservices_practice.Turnaround.World.{Env, World}
use microservices_practice.Turnaround.Calls.{Call, Process, start, turn, run}
use microservices_practice.Turnaround.Calls.Effect.{
  Effect, update, same, IsSound, Effects, done, step, Effects-keep,
}
use microservices_practice.Turnaround.Calls.Effect.Keeps.{Effect-IsSound}
use microservices_practice.Turnaround.Calls.Effect.Identity.{
  identity, Effect-identity, ids, Effect-ids,
}
use microservices_practice.Turnaround.Calls.Guarantee.{
  Relies, Effect-Relies, start-Relies, advance-Effect, advance-Relies,
}

abbrev pub AllRely : List Process → Collection → Type 0
AllRely ps c = All (λ (p : Process). Relies p c) ps

AllRely-Effect :
    (ps : List Process) (c c' : Collection) → Effect c c' → AllRely ps c → AllRely ps c'
AllRely-Effect [] c c' effect h = tt
AllRely-Effect (p ∷ ps) c c' effect (r, h) =
    (Effect-Relies p c c' effect r, AllRely-Effect ps c c' effect h)

pub started-AllRely : (calls : List Call) (c : Collection) → AllRely (map start calls) c
started-AllRely [] c = tt
started-AllRely (call ∷ calls) c = (start-Relies call c, started-AllRely calls c)

module _ (e : Env) (laws : IsMongo e.mongo) where
  pub turn-Effect :
      (i : ℕ) (ps : List Process) (w : World)
      → AllRely ps w.db
      → Effect w.db (turn e i ps w).1.db × AllRely (turn e i ps w).0 (turn e i ps w).1.db
  unfolding turn
  turn-Effect i [] w h = (update (same refl), tt)
  turn-Effect zero (p ∷ ps) w (r, h) =
      let effect = advance-Effect e laws p w r in
      (effect, (advance-Relies e laws p w, AllRely-Effect ps w.db _ effect h))
  turn-Effect (suc i) (p ∷ ps) w (r, h) =
      let (effect, h') = turn-Effect i ps w h in (effect, (Effect-Relies p w.db _ effect r, h'))

  run_from-Effects :
      (schedule : List ℕ) (ps : List Process) (w : World)
      → AllRely ps w.db
      → Effects w.db (run e schedule ps w).1.db
  unfolding run
  run_from-Effects [] ps w h = done
  run_from-Effects (i ∷ schedule) ps w h =
      let (effect, h') = turn-Effect i ps w h in
      step effect (run_from-Effects schedule (turn e i ps w).0 (turn e i ps w).1 h')

  -- Any number of calls of any kind that start together, in any order of their pieces, finished or
  -- not: to the collection their run is one single write after another, each of which assigns
  -- fields of one turnaround, with a progress of at most 100 among them; or fields of one task,
  -- after which that is timed if it was; or adds one sound turnaround under an id that was free.
  pub run-Effects :
      (schedule : List ℕ) (calls : List Call) (w : World)
      → Effects w.db (run e schedule (map start calls) w).1.db
  run-Effects schedule calls w =
      run_from-Effects schedule (map start calls) w (started-AllRely calls w.db)

  -- In such a run, if the progress of every stored turnaround is at most 100 and its tasks in progress have a
  -- start and its completed ones a completion time, then so it is afterwards.
  pub run-IsSound :
      (schedule : List ℕ) (calls : List Call) (w : World)
      → All IsSound w.db
      → All IsSound (run e schedule (map start calls) w).1.db
  run-IsSound schedule calls w h =
      Effects-keep (All IsSound) Effect-IsSound w.db _ (run-Effects schedule calls w) h

  -- In such a run a stored turnaround stays stored under its id, with the flight, the aircraft, the
  -- gate, the times of its start and creation, and the tasks by their ids, names, durations,
  -- requirements and orders that it had.
  pub run-keeps_turnaround :
      (schedule : List ℕ) (calls : List Call) (w : World) (id : String) (d : Turnaround)
      → find_by_id id w.db ≡ some d
      → (d' : Turnaround) × (find_by_id id (run e schedule (map start calls) w).1.db ≡ some d')
        × (identity d' ≡ identity d)
  run-keeps_turnaround schedule calls w id d found =
      Effects-keep
        (λ c. (d' : Turnaround) × (find_by_id id c ≡ some d') × (identity d' ≡ identity d))
        (λ c c' effect (x, there, kept).
          let (d', there', kept') = Effect-identity c c' id x effect there in
          (d', there', kept' ∙ kept))
        w.db _ (run-Effects schedule calls w) (d, found, refl)

  -- In such a run, if at most one stored turnaround has an id, then so it is afterwards.
  run-ids :
      (schedule : List ℕ) (calls : List Call) (w : World) (id : String)
      → ids id w.db ≤ 1
      → ids id (run e schedule (map start calls) w).1.db ≤ 1
  run-ids schedule calls w id h =
      Effects-keep (λ c. ids id c ≤ 1) (λ c c'. Effect-ids c c' id) w.db _
        (run-Effects schedule calls w) h
