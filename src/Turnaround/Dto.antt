-- ===== src/Turnaround/Dto.antt =====
-- Request bodies (turnaround/dto/*.ts), as they are after the global validation pipe.
-- A field marked `@IsOptional()` may be absent, and where the code tells absence from null the
-- outer option is `undefined` and the inner one null.
use microservices_practice.Common.{String, Option, List}
use microservices_practice.Turnaround.Schema.{TaskStatus, MilestoneKey}

pub record CreateTurnaroundDto : Type 0 where
  pub flight_id : String
  pub flight_number : String
  pub aircraft_type : String
  pub aircraft_reg : Option String
  pub gate_id : Option String

pub record UpdateTaskDto : Type 0 where
  pub status : Option TaskStatus
  pub notes : Option (Option String)
  pub assigned_crew_id : Option (Option String)
  pub assigned_equipment_id : Option (Option String)

-- The entries of the body in its order, `Object.entries(dto)`: each key once, with an ISO 8601 string
-- or null.
abbrev pub UpdateMilestonesDto : Type 0
UpdateMilestonesDto = List (MilestoneKey × Option String)
