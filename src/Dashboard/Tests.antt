-- ===== src/Dashboard/Tests.antt =====
-- Concrete sessions, streams and pages, and the theorems at these.
mod Pages
mod Requests
mod Crew
use microservices_practice.Common.{
  if◌then◌else◌, ◌||◌, str_eq, ℕ, suc, ◌-◌, ◌*◌, ◌<◌, length, ◌+◌, ◌≤◌, String, ◌≡◌, inl, refl,
  true, false, ◌||◌, none, some, List, [], ◌∷◌, count_if, filter, arith,
}
use microservices_practice.Dashboard.Types.{
  Role, User, LoginResponse, EquipmentType, EquipmentStatus, Equipment,
}
use microservices_practice.Dashboard.Auth
use microservices_practice.Dashboard.Auth.{
  Session, Browser, mounted, loaded, logged_in, logged_out, second_part, decode_token,
}
use microservices_practice.Dashboard.Auth.Laws.{
  IsConsistent, AreOrderly, run-IsConsistent, run_overtaken,
}
use microservices_practice.Dashboard.Stream
use microservices_practice.Dashboard.Stream.{
  Stream, Happening, source_opened, source_message, source_failed, timer_ran_out,
  authentication_changed,
}
use microservices_practice.Dashboard.Stream.Single.{open_sources, run-open_sources, run_signed_out}
use microservices_practice.Dashboard.Routes.{app_routes, filtered_items}
use microservices_practice.Dashboard.Routes.Access.{leads_to, shows_page, filtered_items-app_routes}
use microservices_practice.Dashboard.Equipment.{counts, type_groups, has_status}
use microservices_practice.Dashboard.Equipment.Groups.{
  group_of, of_type, of_type_with, type_groups_lem,
}
use microservices_practice.Dashboard.Format.{
  time_ago, turnaround_status, task_status, equipment_status,
}
use microservices_practice.Dashboard.Format.Elapsed.{length_of}
use microservices_practice.Dashboard.Format.Colors.{HasColor}
use microservices_practice.Dashboard.Overview.{status_counts}
use microservices_practice.Dashboard.Overview.Breakdown.{sum_of}
use microservices_practice.Turnaround.Schema.{TurnaroundStatus, TaskStatus}
use microservices_practice.Dashboard.StandPlan.{
  GateOccupancy, has, conflict_flight_ids, group_by_gate,
}
use microservices_practice.Dashboard.StandPlan.Conflicts.{
  clashes_at_gate, has-conflict_flight_ids, flights_of, at_gate,
}

abbrev pub noura : User
noura = record {
  id = "u1";
  username = "noura";
  email = none;
  role = Role.viewer;
  is_active = true;
  created_at = "2026-01-01";
}

abbrev pub response : LoginResponse
response = record { token = "a.b.c"; user = noura }

abbrev browser : Browser
browser = record { now = 2000; parse = λ text. none }

abbrev pub fresh_session : Session
fresh_session = record { stored = none; user = none; loading = false }

abbrev loading_session : Session
loading_session = record { stored = some "a.b.c"; user = none; loading = true }

run-IsConsistent_example :
    IsConsistent
      (Auth.run (mounted browser ∷ logged_in (some response) ∷ logged_out ∷ []) fresh_session)
unfolding AreOrderly Auth.handle Auth.begin_load Auth.login Auth.logout Auth.get_stored_token
    Auth.set_stored_token Auth.clear_stored_token
run-IsConsistent_example =
    run-IsConsistent (mounted browser ∷ logged_in (some response) ∷ logged_out ∷ []) fresh_session
      ((refl, refl), (refl, (refl, tt))) (inl refl, inl refl)

run_overtaken_example :
    let after = Auth.run (logged_in (some response) ∷ loaded none ∷ []) loading_session in
    (after.user ≡ some noura) × (after.stored ≡ none)
run_overtaken_example = run_overtaken loading_session response refl

abbrev no_stream : Stream
no_stream = record {
  is_authenticated = false;
  stored_token = none;
  sources = [];
  event_source_ref = none;
  connected = false;
  timers = 0;
  last_event = none;
  invalidated = [];
}

-- Two connections that fail, and are opened again.
abbrev failures : List Happening
failures =
    authentication_changed true (some "a.b.c")
    ∷ source_opened 0
    ∷ source_failed 0
    ∷ timer_ran_out
    ∷ source_failed 1
    ∷ []

-- A second source was opened, and failed.
failures_timers : (Stream.run failures no_stream).timers ≡ 1
unfolding Stream.run Stream.handle Stream.authenticate Stream.connect Stream.close_current
    Stream.close Stream.on_error Stream.on_open Stream.reconnect Stream.is_live
failures_timers = refl

run-open_sources_example : open_sources (Stream.run failures no_stream) ≤ 1
run-open_sources_example = run-open_sources failures no_stream refl

abbrev waiting : Stream
waiting = record no_stream { is_authenticated = true; timers = 1 }

run_signed_out_example :
    let after = Stream.run (authentication_changed false none ∷ timer_ran_out ∷ []) waiting in
    (after.is_authenticated ≡ false) × (open_sources after ≡ 1)
run_signed_out_example = run_signed_out waiting (omega arith) tt

-- A form that disregards one slash and one capital.
abbrev canonical : String → String
canonical path = if str_eq path "/crew/" || str_eq path "/Crew" then "/crew" else path

filtered_items-app_routes_example :
    leads_to "/crew" (filtered_items (some Role.ground_crew))
    ≡ shows_page (app_routes canonical true (some Role.ground_crew) "/crew/")
filtered_items-app_routes_example =
    filtered_items-app_routes canonical Role.ground_crew "/crew/"
      (refl, (refl, (refl, (refl, (refl, (refl, (refl, (refl, (refl, tt)))))))))

abbrev item : EquipmentType → EquipmentStatus → Equipment
item type status = record {
  id = "e1";
  equipment_type = type;
  registration = "GPU-1";
  terminal = none;
  status = status;
}

abbrev fleet : List Equipment
fleet =
    item EquipmentType.gpu EquipmentStatus.available
    ∷ item EquipmentType.fuel_truck EquipmentStatus.in_use
    ∷ item EquipmentType.gpu EquipmentStatus.out_of_service
    ∷ []

type_groups_lem_example :
    let h = group_of EquipmentType.gpu (type_groups fleet) in
    (h.total ≡ count_if (of_type EquipmentType.gpu) fleet)
    × (h.available ≡ count_if (of_type_with EquipmentType.gpu EquipmentStatus.available) fleet)
    × (h.in_use ≡ count_if (of_type_with EquipmentType.gpu EquipmentStatus.in_use) fleet)
type_groups_lem_example = type_groups_lem EquipmentType.gpu fleet

abbrev pub stay : String → String → ℕ → GateOccupancy
stay gate flight start = record {
  gate_id = gate;
  gate_number = gate;
  terminal = "T3";
  flight_id = flight;
  flight_number = flight;
  aircraft_type = "B737";
  status = "arrived";
  start_time = start;
  end_time = none;
}

abbrev day : List GateOccupancy
day = stay "A1" "f1" 0 ∷ stay "A2" "f2" 5 ∷ stay "A1" "f3" 10000 ∷ []

has-conflict_flight_ids_example :
    has "f3" (conflict_flight_ids (group_by_gate day []) [])
    ≡ (has "f3" [] || clashes_at_gate "f3" (group_by_gate day []))
has-conflict_flight_ids_example = has-conflict_flight_ids "f3" (group_by_gate day []) []
