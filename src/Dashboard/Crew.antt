-- ===== src/Dashboard/Crew.antt =====
-- The crew page (routes/CrewPage.tsx): who is assigned, the filter, and what a row says.
pub mod Availability
pub mod Page
pub mod Rows
use microservices_practice.Common.{
  ℕ, String, Bool, true, false, not, ◌&&◌, ◌||◌, Option, none, some, List, [], ◌∷◌, map, filter,
  str_eq, ◌==◌, if◌then◌else◌,
}
use microservices_practice.Dashboard.StandPlan.{has}

pub data CertType : Type 0 where
  fueling cargo pushback marshalling catering cleaning boarding : CertType

pub data CertStatus : Type 0 where
  active expired suspended : CertStatus

pub record Certification : Type 0 where
  pub id : String
  pub crew_member_id : String
  pub cert_type : CertType
  pub issued_date : String
  pub expiry_date : String
  pub status : CertStatus

-- `certifications` may be missing.
pub record CrewMember : Type 0 where
  pub id : String
  pub employee_id : String
  pub first_name : String
  pub last_name : String
  pub email : Option String
  pub phone : Option String
  pub team_id : Option String
  pub is_active : Bool
  pub created_at : String
  pub updated_at : String
  pub certifications : Option (List Certification)

pub data AssignmentStatus : Type 0 where
  assigned active completed reassigned : AssignmentStatus

pub record TaskAssignment : Type 0 where
  pub id : String
  pub crew_member_id : String
  pub turnaround_id : String
  pub task_id : String
  pub task_type : String
  pub assigned_at : String
  pub status : AssignmentStatus

pub data AvailabilityFilter : Type 0 where
  all available assigned inactive : AvailabilityFilter

-- `a.status === "assigned" || a.status === "active"`
abbrev pub is_current : TaskAssignment → Bool
is_current a = elim a.status [
  | AssignmentStatus.assigned ↦ true
  | AssignmentStatus.active ↦ true
  | _ ↦ false
]

-- The set as a list; only `has` reads it. A query without data has no assignments.
unfoldable pub assigned_crew_ids : Option (List TaskAssignment) → List String
assigned_crew_ids none = []
assigned_crew_ids (some assignments) =
    map (λ (a : TaskAssignment). a.crew_member_id) (filter is_current assignments)

unfoldable pub passes : List String → AvailabilityFilter → CrewMember → Bool
unfolding has
passes ids AvailabilityFilter.all c = true
passes ids AvailabilityFilter.inactive c = not c.is_active
passes ids AvailabilityFilter.assigned c = c.is_active && has c.id ids
passes ids AvailabilityFilter.available c = c.is_active && not (has c.id ids)

unfoldable pub filtered_crew :
    Option (List TaskAssignment) → AvailabilityFilter → List CrewMember → List CrewMember
unfolding assigned_crew_ids passes
filtered_crew assignments wanted crew = filter (passes (assigned_crew_ids assignments) wanted) crew

pub data RowLabel : Type 0 where
  assigned_label available_label off_duty : RowLabel

-- "Assigned", "Available" or "Off duty".
unfoldable pub row_label : Option (List TaskAssignment) → CrewMember → RowLabel
unfolding assigned_crew_ids has
row_label assignments c =
    if c.is_active
    then if has c.id (assigned_crew_ids assignments) then assigned_label else available_label
    else off_duty

-- The certificates of a row: those that are active. A dash stands there when the member has no
-- certificate at all.
abbrev pub is_active_cert : Certification → Bool
is_active_cert cert = elim cert.status [ active ↦ true | _ ↦ false ]

unfoldable pub shown_certifications : CrewMember → List Certification
shown_certifications c = elim c.certifications [
  | none ↦ []
  | some certs ↦ filter is_active_cert certs
]

unfoldable pub shows_dash : CrewMember → Bool
shows_dash c = elim c.certifications [
  | none ↦ true
  | some certs ↦ elim certs [ [] ↦ true | _ ↦ false ]
]
