-- ===== src/Dashboard/Pages/Flights/Table.antt =====
-- The table of the flights page (routes/FlightsPage.tsx).
use Prim.Native.String.{◌++◌ as text_append}
use mathlib.Core.Option
use microservices_practice.Common.{
  String, Bool, Option, none, some, List, [], ◌∷◌, str_eq, if◌then◌else◌,
}
use microservices_practice.Dashboard.Types.{Role}
use microservices_practice.Dashboard.Format.{format_time}
use microservices_practice.Dashboard.View.{Badge, status_badge, View, table_view}
use microservices_practice.Dashboard.Pages.{is_manager}
use microservices_practice.Dashboard.Pages.Flights.{Flight, FlightsPage, filtered}

abbrev pub status_filters : List String
status_filters =
    "all" ∷ "scheduled" ∷ "arrived" ∷ "boarding" ∷ "departed" ∷ "cancelled" ∷ "diverted" ∷ []

-- `s === "all" ? "All" : s`
abbrev pub filter_text : String → String
filter_text s = if str_eq s "all" then "All" else s

-- The button that starts an ingestion, for those who may: its text, and whether it is disabled.
unfoldable pub ingest_button : Option Role → FlightsPage → Option (String × Bool)
ingest_button role page =
    if is_manager role
    then some (if page.ingesting then "Ingesting..." else "Ingest Now", page.ingesting)
    else none

pub record FlightRow : Type 0 where
  pub flight : String
  pub airline : String
  pub aircraft : String
  pub route : String
  pub scheduled_arrival : String
  pub actual_arrival : String
  pub status : Badge

-- The browser's formatting of a time is `written`.
module _ (written : String → String) where
  unfoldable pub flight_row : Flight → FlightRow
  unfolding status_badge format_time
  flight_row f = record {
    flight = f.flight_number;
    airline = f.airline_code;
    aircraft = f.aircraft_type;
    route = text_append f.origin_iata (text_append " → " f.destination_iata);
    scheduled_arrival = format_time written f.scheduled_arrival;
    actual_arrival = format_time written f.actual_arrival;
    status = status_badge f.status;
  }

  unfoldable pub flights_table :
      (is_loading : Bool) → Option (List Flight) → (status_filter : String) → View FlightRow
  unfolding table_view flight_row filtered
  flights_table is_loading flights status_filter =
      table_view "No flights found" flight_row is_loading
        (Option.map (filtered status_filter) flights)
