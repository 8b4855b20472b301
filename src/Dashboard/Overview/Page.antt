-- ===== src/Dashboard/Overview/Page.antt =====
-- The overview as a whole (routes/OverviewPage.tsx): its cards, the chart, and the two short lists.
use mathlib.Core.Option
use microservices_practice.Common.{ℕ, zero, suc, ◌%◌, String, Option, List, [], ◌∷◌}
use microservices_practice.Turnaround.Schema.{TurnaroundStatus}
use microservices_practice.Dashboard.Auth.{before_dot}
use microservices_practice.Dashboard.Format.{turnaround_status, format_time, time_ago}
use microservices_practice.Dashboard.View.{
  Badge, status_badge, spaced, Card, View, list_view, fetched,
}
use microservices_practice.Dashboard.Crew.{CrewMember}
use microservices_practice.Dashboard.Queries.{UseQuery, use_crew}
use microservices_practice.Dashboard.Pages.Flights.{Flight}
use microservices_practice.Dashboard.Pages.Events.{Alert}
use microservices_practice.Dashboard.Pages.Events.Tabs.{EventLog, ago_text}
use microservices_practice.Dashboard.Overview.{Cards, cards, Slice, status_counts}

unfoldable pub kpi_cards : Cards → List Card
kpi_cards c =
    record { title = "Active Flights"; value = c.active_flights }
    ∷ record { title = "In-Progress Turnarounds"; value = c.in_progress_turnarounds }
    ∷ record { title = "Delayed"; value = c.delayed_count }
    ∷ record { title = "Crew On Duty"; value = c.crew_on_duty }
    ∷ record { title = "Open Alerts"; value = c.open_alerts }
    ∷ []

-- `CHART_COLORS[i]`, for an `i` below five.
unfoldable pub chart_color : ℕ → String
chart_color zero = "#71717a"
chart_color (suc zero) = "#3b82f6"
chart_color (suc (suc zero)) = "#22c55e"
chart_color (suc (suc (suc zero))) = "#f59e0b"
chart_color (suc (suc (suc (suc i)))) = "#ef4444"

pub record Cell : Type 0 where
  pub name : String
  pub value : ℕ
  pub fill : String

-- The slices from the `i`-th on.
unfoldable pub cells : ℕ → List Slice → List Cell
unfolding spaced turnaround_status chart_color
cells i [] = []
cells i (d ∷ ds) =
    record { name = spaced (turnaround_status d.name); value = d.value; fill = chart_color (i % 5) }
    ∷ cells (suc i) ds

-- `slice(0, n)`
unfoldable pub take : {A : Type 0} → ℕ → List A → List A
take zero xs = []
take (suc n) [] = []
take (suc n) (x ∷ xs) = x ∷ take n xs

pub record ArrivalLine : Type 0 where
  pub flight : String
  pub origin : String
  pub scheduled : String

pub record EventLine : Type 0 where
  pub badge : Badge
  pub type : String
  pub time : String

-- `useCrew(200)`
unfoldable pub overview_crew_query : UseQuery
overview_crew_query = use_crew 200 0

-- What the queries say of flights, arrivals, turnarounds (by their statuses), crew, alerts and events.
pub record Queried : Type 0 where
  pub flights : Option (List Flight)
  pub upcoming : Option (List Flight)
  pub turnarounds : Option (List TurnaroundStatus)
  pub crew : Option (List CrewMember)
  pub alerts : Option (List Alert)
  pub events : Option (List EventLog)

pub record OverviewPage : Type 0 where
  pub cards : List Card
  pub chart : View Cell
  pub arrivals : View ArrivalLine
  pub events : View EventLine

unfoldable pub chart : List TurnaroundStatus → View Cell
unfolding list_view cells status_counts
chart turnarounds = elim (cells 0 (status_counts turnarounds)) [
  | [] ↦ View.message "No turnarounds"
  | c ∷ cs ↦ View.rows (c ∷ cs)
]

-- `Date.now()`, the parser of dates and the browser's formatting as on the other pages.
module _ (now : ℕ) (ms_of : String → ℕ) (written : String → String) where
  unfoldable pub arrival_line : Flight → ArrivalLine
  unfolding format_time
  arrival_line f = record {
    flight = f.flight_number;
    origin = f.origin_iata;
    scheduled = format_time written f.scheduled_arrival;
  }

  unfoldable pub event_line : EventLog → EventLine
  unfolding status_badge before_dot ago_text time_ago
  event_line ev = record {
    badge = status_badge (before_dot ev.event_type);
    type = ev.event_type;
    time = ago_text (time_ago now (ms_of ev.received_at));
  }

  unfoldable pub overview_page : Queried → OverviewPage
  unfolding kpi_cards cards chart list_view take arrival_line event_line
  overview_page q = record {
    cards = kpi_cards (cards q.flights q.turnarounds q.crew q.alerts);
    chart = chart (fetched q.turnarounds);
    arrivals = list_view "No upcoming arrivals" arrival_line (Option.map (take 5) q.upcoming);
    events = list_view "No events yet" event_line (Option.map (take 8) q.events);
  }
