-- ===== src/Dashboard/Pages/Flights.antt =====
-- The flights page (routes/FlightsPage.tsx): its filter, and the button that starts an ingestion.
pub mod Table
use microservices_practice.Common.{
  ℕ, suc, zero, String, Bool, true, false, ◌||◌, Option, List, filter, str_eq, if◌then◌else◌,
}

pub record Flight : Type 0 where
  pub id : String
  pub flight_number : String
  pub airline_code : String
  pub aircraft_reg : String
  pub aircraft_type : String
  pub origin_iata : String
  pub destination_iata : String
  pub scheduled_arrival : Option String
  pub scheduled_departure : Option String
  pub actual_arrival : Option String
  pub actual_departure : Option String
  pub gate_id : Option String
  pub status : String
  pub created_at : String
  pub updated_at : String

-- `statusFilter === "all" || f.status === statusFilter`
abbrev pub passes : String → Flight → Bool
passes status_filter f = str_eq status_filter "all" || str_eq f.status status_filter

unfoldable pub filtered : String → List Flight → List Flight
filtered status_filter flights = filter (passes status_filter) flights

-- The button is disabled while `ingesting`; `refetches` counts what the timers have asked for.
pub record FlightsPage : Type 0 where
  pub ingesting : Bool
  pub timers : ℕ
  pub refetches : ℕ

pub data FlightsEvent : Type 0 where
  clicked timer_ran_out : FlightsEvent
  triggered : Bool → FlightsEvent  -- the reply to the request, which is an error or not

-- `handleIngest` up to its request, and from the reply on; the other clause is `setTimeout`'s call.
unfoldable pub handle : FlightsEvent → FlightsPage → FlightsPage
handle clicked p = if p.ingesting then p else record p { ingesting = true }
handle (triggered ok) p =
    if p.ingesting
    then record p { ingesting = false; timers = if ok then suc p.timers else p.timers }
    else p
handle timer_ran_out p = elim p.timers [
  | zero ↦ p
  | suc waiting ↦ record p { timers = waiting; refetches = suc p.refetches }
]
