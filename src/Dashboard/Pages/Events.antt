-- ===== src/Dashboard/Pages/Events.antt =====
-- The alerts (routes/EventsPage.tsx, components/layout/TopBar.tsx): which alerts can be resolved, what
-- resolving asks for, and the badge of the open ones.
pub mod Tabs
use Prim.Native.String.{◌++◌ as text_append}
use microservices_practice.Common.{
  ℕ, suc, String, Bool, ◌&&◌, Option, none, some, List, length, str_eq, ltb, if◌then◌else◌,
}
use microservices_practice.Common.Number.{decimal}
use microservices_practice.Dashboard.Types.{Role}
use microservices_practice.Dashboard.Api.{Method, Request, Response, Outcome, returned, call}
use microservices_practice.Dashboard.Pages.{is_manager}

pub record Alert : Type 0 where
  pub id : String
  pub alert_type : String
  pub severity : String
  pub flight_id : Option String
  pub turnaround_id : Option String
  pub title : String
  pub description : Option String
  pub status : String
  pub created_at : String
  pub resolved_at : Option String

-- The button is drawn for an alert that is open, for those who may resolve it.
unfoldable pub shows_resolve : Option Role → Alert → Bool
shows_resolve role alert = is_manager role && str_eq alert.status "open"

abbrev refetched : {A : Type 0} → Outcome A → ℕ → ℕ
refetched (returned a) refetches = suc refetches
refetched _ refetches = refetches

-- `handleResolve` as the number of times that the alerts were asked for again. `body_of` is the text
-- of `{ status: "resolved", resolved_at }` for a time.
module _ {A : Type 0} (fetch : Request → Option (Response A)) (body_of : ℕ → String) where
  unfoldable pub handle_resolve : ℕ → Option String → Alert → ℕ → ℕ
  unfolding call
  handle_resolve now token alert refetches =
      refetched
        (call fetch Method.patch token (text_append "/api/alerts/" alert.id) (some (body_of now)))
        refetches

-- `alerts?.length ?? 0`
unfoldable pub open_alert_count : Option (List Alert) → ℕ
open_alert_count none = 0
open_alert_count (some alerts) = length alerts

-- The badge of the bell, if it is drawn.
unfoldable pub badge : ℕ → Option String
badge count = if ltb 0 count then some (if ltb 9 count then "9+" else decimal count) else none
