-- ===== src/Turnaround/Schema.antt =====
-- The documents of the turnarounds collection (turnaround/schemas/*.ts).
use microservices_practice.Common.{ℕ, String, Bool, true, false, Option, none, List}
use microservices_practice.Common.Int.{ℤ, ltb_ℤ}

-- A JavaScript `Date`: milliseconds from the epoch, or an Invalid Date.
pub data Date : Type 0 where
  time : ℤ → Date
  invalid : Date

-- `a < b` on dates compares their times; an Invalid Date is less than nothing.
abbrev pub date_lt : Date → Date → Bool
date_lt (time a) (time b) = ltb_ℤ a b
date_lt (time a) invalid = false
date_lt invalid b = false

pub data TaskStatus : Type 0 where
  pending in_progress completed blocked skipped : TaskStatus

abbrev pub is_completed : TaskStatus → Bool
is_completed TaskStatus.completed = true
is_completed _ = false

abbrev pub is_in_progress : TaskStatus → Bool
is_in_progress TaskStatus.in_progress = true
is_in_progress _ = false

abbrev pub is_skipped : TaskStatus → Bool
is_skipped TaskStatus.skipped = true
is_skipped _ = false

-- The times of creation and of the last update that the store keeps of a task (`timestamps: true`) are
-- left out: nothing of the service reads them, and every update of a task changes the second.
pub record Task : Type 0 where
  pub id : String
  pub name : String
  pub status : TaskStatus
  pub estimated_duration_minutes : ℕ
  pub required_certification : Option String
  pub order : ℕ
  pub required_equipment : Option String
  pub assigned_crew_id : Option String
  pub assigned_equipment_id : Option String
  pub started_at : Option Date
  pub completed_at : Option Date
  pub notes : Option String

pub data TurnaroundStatus : Type 0 where
  pending in_progress completed delayed cancelled : TurnaroundStatus

-- The A-CDM milestones, and their names as keys of an update.
pub record Milestones : Type 0 where
  pub eibt : Option Date
  pub aibt : Option Date
  pub tobt : Option Date
  pub tsat : Option Date
  pub ardt : Option Date
  pub aobt : Option Date
  pub atot : Option Date

pub data MilestoneKey : Type 0 where
  eibt aibt tobt tsat ardt aobt atot : MilestoneKey

abbrev pub no_milestones : Milestones
no_milestones = record {
  eibt = none;
  aibt = none;
  tobt = none;
  tsat = none;
  ardt = none;
  aobt = none;
  atot = none;
}

-- `_id` and `createdAt` are added by the store.
pub record Turnaround : Type 0 where
  pub id : String
  pub flight_id : String
  pub flight_number : String
  pub aircraft_type : String
  pub aircraft_reg : Option String
  pub gate_id : Option String
  pub status : TurnaroundStatus
  pub tasks : List Task
  pub started_at : Option Date
  pub completed_at : Option Date
  pub progress_percent : ℕ
  pub milestones : Milestones
  pub created_at : ℕ

-- The task fields and the turnaround fields that `createTurnaround` hands to the store.
pub record NewTask : Type 0 where
  pub name : String
  pub status : TaskStatus
  pub estimated_duration_minutes : ℕ
  pub required_certification : Option String
  pub required_equipment : Option String
  pub order : ℕ

pub record NewTurnaround : Type 0 where
  pub flight_id : String
  pub flight_number : String
  pub aircraft_type : String
  pub aircraft_reg : Option String
  pub gate_id : Option String
  pub status : TurnaroundStatus
  pub tasks : List NewTask
  pub started_at : Date
  pub progress_percent : ℕ
  pub milestones : Milestones
