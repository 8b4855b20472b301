-- ===== src/Dashboard/Pages/Events/Tabs.antt =====
-- The two tabs of the events page (routes/EventsPage.tsx).
use Prim.Native.String.{◌++◌ as text_append}
use microservices_practice.Common.{ℕ, String, Bool, Option, some, List}
use microservices_practice.Common.Number.{decimal}
use microservices_practice.Dashboard.Types.{Role}
use microservices_practice.Dashboard.Format.{
  TimeUnit, seconds, minutes, hours, days, Ago, time_ago, format_date_time,
}
use microservices_practice.Dashboard.View.{Badge, status_badge, spaced, View, table_view, if_given}
use microservices_practice.Dashboard.Pages.Events.{Alert, shows_resolve}

-- The payload is not read.
pub record EventLog : Type 0 where
  pub id : String
  pub event_type : String
  pub source_service : String
  pub received_at : String

pub data Tab : Type 0 where
  events alerts : Tab

unfoldable pub tab_text : Tab → String
tab_text events = "Event Log"
tab_text alerts = "Alerts"

abbrev unit_text : TimeUnit → String
unit_text seconds = "s ago"
unit_text minutes = "m ago"
unit_text hours = "h ago"
unit_text days = "d ago"

-- `${amount}${unit} ago`
unfoldable pub ago_text : Ago → String
ago_text a = text_append (decimal a.amount) (unit_text a.unit)

pub record EventRow : Type 0 where
  pub type : String
  pub source : String
  pub time : String

pub record AlertCard : Type 0 where
  pub severity : Badge
  pub status : Badge
  pub type : String
  pub title : String
  pub description : Option String
  pub created : String
  pub resolvable : Bool

-- What stands below the tabs.
pub data TabView : Type 0 where
  event_log : View EventRow → TabView
  alert_list : View AlertCard → TabView

-- `Date.now()` is `now`, in milliseconds; the parser of dates and the browser's formatting are `ms_of`
-- and `written`. No event is in the future.
module _ (now : ℕ) (ms_of : String → ℕ) (written : String → String) where
  unfoldable pub event_row : EventLog → EventRow
  unfolding ago_text time_ago
  event_row ev = record {
    type = ev.event_type;
    source = ev.source_service;
    time = ago_text (time_ago now (ms_of ev.received_at));
  }

  unfoldable pub event_log_tab : (is_loading : Bool) → Option (List EventLog) → View EventRow
  unfolding table_view event_row
  event_log_tab is_loading logged = table_view "No events" event_row is_loading logged

  unfoldable pub alert_card : Option Role → Alert → AlertCard
  unfolding status_badge spaced format_date_time shows_resolve
  alert_card role alert = record {
    severity = status_badge alert.severity;
    status = status_badge alert.status;
    type = spaced alert.alert_type;
    title = alert.title;
    description = if_given alert.description;
    created = format_date_time written (some alert.created_at);
    resolvable = shows_resolve role alert;
  }

  unfoldable pub alerts_tab :
      Option Role → (is_loading : Bool) → Option (List Alert) → View AlertCard
  unfolding table_view alert_card
  alerts_tab role is_loading raised = table_view "No alerts" (alert_card role) is_loading raised

  unfoldable pub events_page :
      Tab
      → Option Role
      → (loading_events loading_alerts : Bool) → Option (List EventLog)
      → Option (List Alert)
      → TabView
  unfolding event_log_tab alerts_tab
  events_page events role loading_events loading_alerts logged raised =
      event_log (event_log_tab loading_events logged)
  events_page alerts role loading_events loading_alerts logged raised =
      alert_list (alerts_tab role loading_alerts raised)
