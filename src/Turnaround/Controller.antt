-- ===== src/Turnaround/Controller.antt =====
-- `TurnaroundController` (turnaround/turnaround.controller.ts): what a request asks of the service.
-- The framework matches the path, decodes the query into pairs, and checks and decodes the body.
use microservices_practice.Common.{String, Option, none, some, List, [], ◌∷◌, str_eq, if◌then◌else◌}
use microservices_practice.Common.Number.{parse_int}
use microservices_practice.Turnaround.Schema.{Turnaround}
use microservices_practice.Turnaround.Dto.{CreateTurnaroundDto, UpdateTaskDto, UpdateMilestonesDto}
use microservices_practice.Turnaround.World.{Env, Action}
use microservices_practice.Turnaround.Service

abbrev pub Query : Type 0
Query = List (String × String)

-- `@Query(key)`: the value of a key, if the query has it. A key that is given twice, which the
-- framework reads as a list, is left out.
unfoldable pub query_value : String → Query → Option String
query_value key [] = none
query_value key ((k, value) ∷ rest) = if str_eq k key then some value else query_value key rest

-- A parameter with a default: `limit = '20'`.
abbrev pub or_default : String → Option String → String
or_default text none = text
or_default text (some value) = value

module _ (e : Env) where
  unfoldable pub create : CreateTurnaroundDto → Action Turnaround
  create dto = Service.create_turnaround e dto

  unfoldable pub list : Query → Action (List Turnaround)
  unfolding query_value
  list query = Service.list_turnarounds e (record {
    status = query_value "status" query;
    limit = parse_int (or_default "20" (query_value "limit" query));
    offset = parse_int (or_default "0" (query_value "offset" query));
  })

  unfoldable pub get_by_id : String → Action Turnaround
  get_by_id id = Service.get_turnaround e id

  unfoldable pub update_task : String → String → UpdateTaskDto → Action Turnaround
  update_task id task_id dto = Service.update_task e id task_id dto

  unfoldable pub update_milestones : String → UpdateMilestonesDto → Action Turnaround
  update_milestones id dto = Service.update_milestones e id dto
