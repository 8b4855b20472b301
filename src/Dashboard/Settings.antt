-- ===== src/Dashboard/Settings.antt =====
-- The panels of the settings page (routes/SettingsPage.tsx) as state machines: the replies to their
-- requests come in any order, each as an event. A reply is none when the request fails.
pub mod Health
pub mod Panels
use Prim.Native.String.{◌++◌ as text_append}
use microservices_practice.Common.{
  ℕ, zero, suc, String, Bool, true, false, Option, none, some, List, [], ◌∷◌, ◌==◌, if◌then◌else◌,
}
use microservices_practice.Dashboard.Types.{User}
use microservices_practice.Dashboard.Api.{Method, get, patch}

pub record IngestConfig : Type 0 where
  pub target_airport : String
  pub poll_interval_minutes : ℕ
  pub api_key_configured : Bool
  pub flight_service_url : String

pub record IngestStatus : Type 0 where
  pub is_running : Bool
  pub last_run_at : Option String
  pub last_run_flights_ingested : ℕ
  pub last_run_flights_skipped : ℕ
  pub last_run_errors : List String
  pub total_runs : ℕ
  pub scheduler_active : Bool

-- `IngestConfigPanel`: its state, and what happens to it. `upper` is `toUpperCase`.
pub record IngestConfigPanel : Type 0 where
  pub config : Option IngestConfig
  pub status : Option IngestStatus
  pub airport : String

pub data ConfigEvent : Type 0 where
  config_loaded : Option IngestConfig → ConfigEvent
  status_loaded : Option IngestStatus → ConfigEvent
  typed : String → ConfigEvent
  config_updated : Option IngestConfig → ConfigEvent

module _ (upper : String → String) where
  unfoldable pub handle_config : ConfigEvent → IngestConfigPanel → IngestConfigPanel
  handle_config (config_loaded none) p = p
  handle_config (config_loaded (some c)) p = record p {
    config = some c;
    airport = c.target_airport;
  }
  handle_config (status_loaded none) p = p
  handle_config (status_loaded (some s)) p = record p { status = some s }
  handle_config (typed text) p = record p { airport = upper text }
  handle_config (config_updated none) p = p
  handle_config (config_updated (some updated)) p = record p { config = some updated }

pub record ServiceHealth : Type 0 where
  pub name : String
  pub url : String
  pub healthy : Option Bool

abbrev checking : String → String → ServiceHealth
checking name url = record { name = name; url = url; healthy = none }

abbrev pub initial_services : List ServiceHealth
initial_services =
    checking "Flight Service" "/api/flights?limit=1"
    ∷ checking "Turnaround Service" "/api/turnarounds?limit=1"
    ∷ checking "Crew Service" "/api/crew?limit=1"
    ∷ checking "Ops Hub Service" "/api/alerts?limit=1"
    ∷ []

-- `next[i] = { ...next[i], healthy }`; `forEach` gives no index out of range.
unfoldable pub set_healthy : ℕ → Bool → List ServiceHealth → List ServiceHealth
set_healthy i ok [] = []
set_healthy zero ok (svc ∷ rest) = record svc { healthy = some ok } ∷ rest
set_healthy (suc i) ok (svc ∷ rest) = svc ∷ set_healthy i ok rest

-- The replies in the order in which they come: the index of each, and whether it is no error.
unfoldable pub settle : List (ℕ × Bool) → List ServiceHealth → List ServiceHealth
unfolding set_healthy
settle [] services = services
settle ((i, ok) ∷ rest) services = settle rest (set_healthy i ok services)

pub data Label : Type 0 where
  checking_label healthy_label down_label : Label

-- What the row of a service says: "Checking...", "Healthy" or "Down".
unfoldable pub label : ServiceHealth → Label
label svc = elim svc.healthy [
  | none ↦ checking_label
  | some ok ↦ if ok then healthy_label else down_label
]

-- `UserManagementPanel`: `finally` runs after `setUsers`, and after a failure.
pub record UserManagementPanel : Type 0 where
  pub users : List User
  pub loading : Bool

unfoldable pub users_loaded : Option (List User) → UserManagementPanel → UserManagementPanel
users_loaded none p = record p { loading = false }
users_loaded (some users) p = record { users = users; loading = false }

pub data UserTable : Type 0 where
  loading_row no_users : UserTable
  rows : List User → UserTable

unfoldable pub user_table : UserManagementPanel → UserTable
user_table p =
    if p.loading then loading_row else elim p.users [ [] ↦ no_users | u ∷ us ↦ rows (u ∷ us) ]
