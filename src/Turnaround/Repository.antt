-- ===== src/Turnaround/Repository.antt =====
-- `TurnaroundRepository` (turnaround/turnaround.repository.ts): one call of the model to a method.
pub mod Laws
use microservices_practice.Common.{
  ℕ, suc, String, Option, none, some, List, ◌∷◌, map, str_eq, if◌then◌else◌,
}
use microservices_practice.Common.Number.{Number}
use microservices_practice.Turnaround.Schema.{
  Date, MilestoneKey, TurnaroundStatus, Turnaround, NewTurnaround,
}
use microservices_practice.Turnaround.Store.{Collection, Result, TaskField, SetField, milestone}
use microservices_practice.Turnaround.World.{Env, Action}

pub record ListTurnaroundsParams : Type 0 where
  pub status : Option String
  pub limit : Number
  pub offset : Number

-- A call that reads the collection, and one that may change it.
abbrev pub reading : {A : Type 0} → (ℕ → Collection → Result A) → Action A
reading call w = (call w.calls w.db, record w { calls = suc w.calls })

abbrev pub writing : {A : Type 0} → (ℕ → Collection → Result A × Collection) → Action A
writing call w = let (r, db') = call w.calls w.db in (r, record w { db = db'; calls = suc w.calls })

-- `milestones.key` for a key of the update.
abbrev pub set_field : MilestoneKey × Date → SetField
set_field (key, value) = milestone key value

-- `if (params.status) filter.status = params.status`
abbrev pub filter_status : Option String → Option String
filter_status none = none
filter_status (some status) = if str_eq status "" then none else some status

module _ (e : Env) where
  unfoldable pub create : NewTurnaround → Action Turnaround
  create d = writing (λ k. e.mongo.create k d)

  unfoldable pub find_by_id : String → Action (Option Turnaround)
  find_by_id id = reading (λ k. e.mongo.find_by_id k id)

  unfoldable pub find_by_flight_id : String → Action (Option Turnaround)
  find_by_flight_id flight_id = reading (λ k. e.mongo.find_one k flight_id)

  -- Newest first, after `offset` documents, at most `limit` of them.
  unfoldable pub list : ListTurnaroundsParams → Action (List Turnaround)
  list params =
      reading (λ k. e.mongo.find k (filter_status params.status) params.offset params.limit)

  -- The updates become assignments `tasks.$.key` to the task that the filter matched.
  unfoldable pub update_task : String → String → List TaskField → Action (Option Turnaround)
  update_task turnaround_id task_id updates =
      writing (λ k. e.mongo.find_one_and_update k turnaround_id task_id updates)

  -- `{ status, ...extra }`
  unfoldable pub update_status :
      String → TurnaroundStatus → List SetField → Action (Option Turnaround)
  update_status id new_status extra =
      writing (λ k. e.mongo.find_by_id_and_update k id (SetField.status new_status ∷ extra))

  unfoldable pub update_milestones :
      String → List (MilestoneKey × Date) → Action (Option Turnaround)
  update_milestones id milestones =
      writing (λ k. e.mongo.find_by_id_and_update k id (map set_field milestones))
