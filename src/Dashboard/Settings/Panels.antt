-- ===== src/Dashboard/Settings/Panels.antt =====
-- What the panels of the settings page show (routes/SettingsPage.tsx).
use Prim.Native.String.{◌++◌ as text_append}
use microservices_practice.Common.{
  ℕ, ◌≡◌, String, Bool, false, Option, none, some, List, map, if◌then◌else◌,
}
use microservices_practice.Common.Number.{decimal}
use microservices_practice.Dashboard.Types.{Role, User}
use microservices_practice.Dashboard.View.{Badge, status_badge, spaced, View, table_view, or_dash}
use microservices_practice.Dashboard.View.Shown.{shown, shown-table_view}
use microservices_practice.Dashboard.Settings.{
  IngestConfig, IngestStatus, IngestConfigPanel, ServiceHealth, Label, label, UserManagementPanel,
  users_loaded,
}

abbrev is_configured : Option IngestConfig → Bool
is_configured none = false
is_configured (some c) = c.api_key_configured

abbrev is_scheduled : Option IngestStatus → Bool
is_scheduled none = false
is_scheduled (some s) = s.scheduler_active

abbrev total_runs : Option IngestStatus → ℕ
total_runs none = 0
total_runs (some s) = s.total_runs

abbrev last_ingested : Option IngestStatus → ℕ
last_ingested none = 0
last_ingested (some s) = s.last_run_flights_ingested

-- The lines of the ingestion's panel, with what stands in its field.
pub record IngestView : Type 0 where
  pub api_key : Badge
  pub scheduler : Badge
  pub total_runs : ℕ
  pub last_ingested : String
  pub target_airport : String

unfoldable pub ingest_view : IngestConfigPanel → IngestView
unfolding status_badge
ingest_view p = record {
  api_key = status_badge (if is_configured p.config then "active" else "warning");
  scheduler = status_badge (if is_scheduled p.status then "active" else "inactive");
  total_runs = total_runs p.status;
  last_ingested = text_append (decimal (last_ingested p.status)) " flights";
  target_airport = p.airport;
}

-- The name of a service, and what its line says.
unfoldable pub health_lines : List ServiceHealth → List (String × Label)
unfolding label
health_lines services = map (λ (svc : ServiceHealth). (svc.name, label svc)) services

unfoldable pub role_text : Role → String
role_text Role.admin = "admin"
role_text Role.ops_manager = "ops_manager"
role_text Role.crew_supervisor = "crew_supervisor"
role_text Role.ground_crew = "ground_crew"
role_text Role.viewer = "viewer"

-- The badge of a role has colours of its own, so only its text is given.
pub record UserRow : Type 0 where
  pub username : String
  pub email : String
  pub role : String
  pub status : Badge

unfoldable pub user_row : User → UserRow
unfolding role_text spaced status_badge
user_row u = record {
  username = u.username;
  email = or_dash u.email;
  role = spaced (role_text u.role);
  status = status_badge (if u.is_active then "active" else "inactive");
}

unfoldable pub users_view : UserManagementPanel → View UserRow
unfolding table_view user_row
users_view p = table_view "No users" user_row p.loading (some p.users)

-- When the users have come, each has a row; when the request failed, there are those from before.
users_view-users_loaded :
    (reply : Option (List User)) (p : UserManagementPanel)
    → shown (users_view (users_loaded reply p))
      ≡ map user_row (elim reply [ some users ↦ users | none ↦ p.users ])
unfolding users_view users_loaded
users_view-users_loaded none p = shown-table_view "No users" user_row p.users
users_view-users_loaded (some users) p = shown-table_view "No users" user_row users
