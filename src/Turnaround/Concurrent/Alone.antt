-- ===== src/Turnaround/Concurrent/Alone.antt =====
-- The pieces of `updateTask`, one after another, are `updateTask`.
use microservices_practice.Common.{
  [], ◌∷◌, ℕ, zero, suc, String, ◌≡◌, refl, none, some, arith, length, ◌==◌, Bool-cases,
  Option-cases, inl, inr,
}
use microservices_practice.Common.Int.{pos}
use microservices_practice.Turnaround.Schema.{
  time, Task, Turnaround, TurnaroundStatus, MilestoneKey,
}
use microservices_practice.Turnaround.Dto.{UpdateTaskDto}
use microservices_practice.Turnaround.Store.{ok, SetField}
use microservices_practice.Turnaround.Store.Laws.{Result-cases}
use microservices_practice.Turnaround.World.{Env, World, Action, pure, ◌>>=◌, ◌>>◌, counted}
use microservices_practice.Turnaround.Repository
use microservices_practice.Turnaround.Publisher
use microservices_practice.Turnaround.Service.{
  get_turnaround, complete_turnaround, finish_update, change_task, update_task, when, update_time,
  asks_completion,
}
use microservices_practice.Turnaround.Tasks.{completed_count, progress_of, task_updates}
use microservices_practice.Turnaround.Concurrent.{Stage, next, alone}

abbrev pub returning : Action Turnaround → Action Stage
returning m = m >>= λ t. pure (Stage.returned t)

module _ (e : Env) (id task_id : String) (dto : UpdateTaskDto) where
  alone-returned :
      (n : ℕ) (t : Turnaround) (w : World)
      → alone e n id task_id dto (Stage.returned t) w ≡ (ok (Stage.returned t), w)
  unfolding alone next
  alone-returned zero t w = refl
  alone-returned (suc n) t w = alone-returned n t w

  alone_last :
      (n : ℕ) (w : World)
      → alone e (suc n) id task_id dto Stage.last w ≡ returning (get_turnaround e id) w
  unfolding alone next
  alone_last n w = elim (Result-cases (get_turnaround e id w).0) [
    | inl (t, done) ↦ ground (arith, alone-returned n t (get_turnaround e id w).1)
    | inr (x, thrown) ↦ ground arith
  ]

  alone_completed :
      (n : ℕ) (t : Turnaround) (w : World)
      → alone e (suc (suc n)) id task_id dto (Stage.completed t) w
        ≡ returning (Publisher.publish_turnaround_completed e t >> get_turnaround e id) w
  unfolding alone next
  alone_completed n t w =
      let r = Publisher.publish_turnaround_completed e t w in
      elim (Result-cases r.0) [
        | inl (u, done) ↦ ground (arith, alone_last n r.1)
        | inr (x, thrown) ↦ ground arith
      ]

  -- The parts of `complete_turnaround` and `finish_update` that the stages stand at.
  abbrev close_at : ℕ → Action (Unit {0})
  close_at ardt = do
    closed ←
        Repository.update_status e id TurnaroundStatus.completed
          (SetField.completed_at (time (pos ardt)) ∷ SetField.progress_percent 100 ∷ [])
    λ (w : World). elim closed [
      | some t ↦ Publisher.publish_turnaround_completed e t w
      | none ↦ pure tt w
    ]

  alone_ready :
      (n ardt : ℕ) (w : World)
      → alone e (suc (suc (suc n))) id task_id dto (Stage.ready ardt) w
        ≡ returning (close_at ardt >> get_turnaround e id) w
  unfolding alone next
  alone_ready n ardt w =
      let r =
        Repository.update_status e id TurnaroundStatus.completed
          (SetField.completed_at (time (pos ardt)) ∷ SetField.progress_percent 100 ∷ []) w in
      elim (Result-cases r.0) [
        | inl (none, missing) ↦ ground (arith, alone_last (suc n) r.1)
        | inl (some t, found) ↦ ground (arith, alone_completed n t r.1)
        | inr (x, thrown) ↦ ground arith
      ]

  abbrev after_events : Turnaround → Action Turnaround
  after_events u =
      when (completed_count u.tasks == length u.tasks) (complete_turnaround e id)
      >> get_turnaround e id

  alone_announced :
      (u : Turnaround) (w : World)
      → alone e 4 id task_id dto (Stage.announced u) w ≡ returning (after_events u) w
  unfolding alone next complete_turnaround
  alone_announced u w =
      let ardt = e.now w.calls in
      let r =
        Repository.update_milestones e id ((MilestoneKey.ardt, time (pos ardt)) ∷ []) (counted w) in
      elim (Bool-cases (completed_count u.tasks == length u.tasks)) [
        | inl all ↦ elim (Result-cases r.0) [
          | inl (u', done) ↦ ground (arith, alone_ready 0 ardt r.1)
          | inr (x, thrown) ↦ ground arith
        ]
        | inr part ↦ ground (arith, alone_last 2 w)
      ]

  alone-progressed :
      (u : Turnaround) (w : World)
      → alone e 5 id task_id dto (Stage.progressed u) w
        ≡ returning
            (when (asks_completion dto.status) (Publisher.publish_task_completed e u task_id)
              >> after_events u)
            w
  unfolding alone next
  alone-progressed u w =
      let r = when (asks_completion dto.status) (Publisher.publish_task_completed e u task_id) w in
      elim (Result-cases r.0) [
        | inl (v, done) ↦ ground (arith, alone_announced u r.1)
        | inr (x, thrown) ↦ ground arith
      ]

  alone-changed :
      (u : Turnaround) (w : World)
      → alone e 6 id task_id dto (Stage.changed u) w
        ≡ returning (finish_update e id task_id dto u) w
  unfolding alone next finish_update
  alone-changed u w =
      let progress = progress_of (completed_count u.tasks) (length u.tasks) in
      let r = Repository.update_status e id u.status (SetField.progress_percent progress ∷ []) w in
      elim (Result-cases r.0) [
        | inl (v, done) ↦ ground (arith, alone-progressed u r.1)
        | inr (x, thrown) ↦ ground arith
      ]

  alone_found :
      (task : Task) (w : World)
      → alone e 7 id task_id dto (Stage.found task) w
        ≡ returning (change_task e id task_id dto task) w
  unfolding alone next change_task
  alone_found task w =
      let clock = update_time e dto task w in
      elim (Result-cases clock.0) [
        | inl (now, told) ↦
            let r = Repository.update_task e id task_id (task_updates dto task now) clock.1 in
            elim (Result-cases r.0) [
              | inl (none, missing) ↦ ground arith
              | inl (some u, done) ↦ ground (arith, alone-changed u r.1)
              | inr (x, thrown) ↦ ground arith
            ]
        | inr (x, thrown) ↦ ground arith
      ]

  -- A call of `updateTask` whose pieces run with nothing between them, from its start for eight
  -- pieces, is `updateTask`: it returns or throws what that does, and leaves the same state.
  pub alone-update_task :
      (w : World)
      → alone e 8 id task_id dto Stage.received w ≡ returning (update_task e id task_id dto) w
  unfolding alone next update_task
  alone-update_task w =
      let r = get_turnaround e id w in
      elim (Result-cases r.0) [
        | inl (d, done) ↦ elim (Option-cases (e.mongo.task_by_id d.tasks task_id)) [
          | inl missing ↦ ground arith
          | inr (task, there) ↦ ground (arith, alone_found task r.1)
        ]
        | inr (x, thrown) ↦ ground arith
      ]
