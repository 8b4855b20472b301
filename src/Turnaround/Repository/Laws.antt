-- ===== src/Turnaround/Repository/Laws.antt =====
-- Every method of the repository as the documented effect of its call.
use microservices_practice.Common.{String, ◌≡◌, List, [], ◌∷◌, ◌++◌, map, arith}
use microservices_practice.Turnaround.Schema.{Date, MilestoneKey, TurnaroundStatus, NewTurnaround}
use microservices_practice.Turnaround.Store.{
  Collection, Result, TaskField, SetField, assign_all, modify, set_positional, having_task, IsMongo,
  Fault, answer, after, hydrate,
}
use microservices_practice.Turnaround.Store
use microservices_practice.Turnaround.World.{Env, World, counted}
use microservices_practice.Turnaround.Repository
use microservices_practice.Turnaround.Repository.{set_field}

-- The result and the world of a write that ends as `f` says.
abbrev pub written : {A : Type 0} → Fault → A → Collection → World → Result A × World
written f a c w = (answer f a, record (counted w) { db = after f c w.db })

module _ (e : Env) (laws : IsMongo e.mongo) (w : World) where
  pub find_by_id_run :
      (id : String)
      → Repository.find_by_id e id w
        ≡ (answer (laws.fault w.calls) (Store.find_by_id id w.db), counted w)
  unfolding Repository.find_by_id
  find_by_id_run id = ground (arith, laws.find_by_id_lem w.calls id w.db)

  pub find_by_flight_id_run :
      (flight_id : String)
      → Repository.find_by_flight_id e flight_id w
        ≡ (answer (laws.fault w.calls) (Store.find_by_flight flight_id w.db), counted w)
  unfolding Repository.find_by_flight_id
  find_by_flight_id_run flight_id = ground (arith, laws.find_one_lem w.calls flight_id w.db)

  pub create_run :
      (d : NewTurnaround)
      → let doc = hydrate (laws.new_id w.calls) (laws.new_task_id w.calls) (laws.clock w.calls) d in
        Repository.create e d w ≡ written (laws.insert_fault w.calls w.db) doc (w.db ++ doc ∷ []) w
  unfolding Repository.create
  create_run d = ground (arith, laws.create_lem w.calls d w.db)

  pub update_task_run :
      (id task_id : String) (fields : List TaskField)
      → let c = modify id (set_positional task_id fields) w.db in
        Repository.update_task e id task_id fields w
        ≡ written (laws.fault w.calls) (having_task task_id (Store.find_by_id id c)) c w
  unfolding Repository.update_task
  update_task_run id task_id fields =
      ground (arith, laws.find_one_and_update_lem w.calls id task_id fields w.db)

  pub update_status_run :
      (id : String) (s : TurnaroundStatus) (extra : List SetField)
      → let c = modify id (assign_all (SetField.status s ∷ extra)) w.db in
        Repository.update_status e id s extra w
        ≡ written (laws.fault w.calls) (Store.find_by_id id c) c w
  unfolding Repository.update_status
  update_status_run id s extra =
      ground (arith, laws.find_by_id_and_update_lem w.calls id (SetField.status s ∷ extra) w.db)

  pub update_milestones_run :
      (id : String) (ms : List (MilestoneKey × Date))
      → let c = modify id (assign_all (map set_field ms)) w.db in
        Repository.update_milestones e id ms w
        ≡ written (laws.fault w.calls) (Store.find_by_id id c) c w
  unfolding Repository.update_milestones
  update_milestones_run id ms =
      ground (arith, laws.find_by_id_and_update_lem w.calls id (map set_field ms) w.db)
