-- ===== src/Dashboard/Tests/Crew.antt =====
-- A crew of three, of whom one is assigned and one is off duty.
use microservices_practice.Common.{
  ◌+◌, ◌≡◌, refl, arith, true, false, String, Bool, Option, none, some, List, [], ◌∷◌,
}
use microservices_practice.Dashboard.Crew.{
  CrewMember, TaskAssignment, AssignmentStatus, AvailabilityFilter,
}
use microservices_practice.Dashboard.Crew.Rows.{rows_under, crew_table-cards}
use microservices_practice.Dashboard.Overview.{cards}
use microservices_practice.Dashboard.Overview.Page.{take, overview_crew_query}
use microservices_practice.Dashboard.Crew.Page.{crew_page_query}
use microservices_practice.Dashboard.Queries.{UseQuery, text, number, use_crew}

abbrev member : String → Bool → CrewMember
member id is_active = record {
  id = id;
  employee_id = id;
  first_name = "Ada";
  last_name = id;
  email = none;
  phone = none;
  team_id = none;
  is_active = is_active;
  created_at = "2024-05-01T08:00:00Z";
  updated_at = "2024-05-01T08:00:00Z";
  certifications = none;
}

abbrev team : List CrewMember
team = member "c1" true ∷ member "c2" true ∷ member "c3" false ∷ []

abbrev shift : Option (List TaskAssignment)
shift = some (
    record {
      id = "s1";
      crew_member_id = "c2";
      turnaround_id = "x";
      task_id = "b";
      task_type = "fueling";
      assigned_at = "2024-05-01T10:00:00Z";
      status = AssignmentStatus.active;
    }
    ∷ [])

-- The first of the team, as many as the key of a query says.
abbrev serve : UseQuery → List CrewMember
serve q = elim q.key [ text name ∷ number limit ∷ more ↦ take limit team | _ ↦ [] ]

crew_table-cards_example :
    (cards none none (some (serve overview_crew_query)) none).crew_on_duty
    ≡ rows_under shift AvailabilityFilter.available (serve crew_page_query)
      + rows_under shift AvailabilityFilter.assigned (serve crew_page_query)
unfolding use_crew
crew_table-cards_example =
    crew_table-cards shift serve team (λ limit. refl) (omega arith) none none none
