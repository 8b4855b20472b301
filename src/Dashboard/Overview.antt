-- ===== src/Dashboard/Overview.antt =====
-- The numbers of the overview (routes/OverviewPage.tsx): the cards, and the chart of turnarounds by
-- status.
pub mod Breakdown
pub mod Page
pub mod Colors
use microservices_practice.Common.{
  ℕ, Bool, ◌||◌, Option, none, some, str_eq, List, [], ◌∷◌, map, length, filter, ltb, ◌==◌,
}
use microservices_practice.Turnaround.Schema.{TurnaroundStatus}
use microservices_practice.Dashboard.View.{fetched}
use microservices_practice.Dashboard.Crew.{CrewMember}
use microservices_practice.Dashboard.Pages.Flights.{Flight}
use microservices_practice.Dashboard.Pages.Events.{Alert}

unfoldable pub status_number : TurnaroundStatus → ℕ
status_number TurnaroundStatus.pending = 0
status_number TurnaroundStatus.in_progress = 1
status_number TurnaroundStatus.completed = 2
status_number TurnaroundStatus.delayed = 3
status_number TurnaroundStatus.cancelled = 4

-- `t.status === status`
abbrev pub has_status : TurnaroundStatus → TurnaroundStatus → Bool
has_status status s = status_number s == status_number status

-- The statuses of the turnarounds that the query returned; a query without data has none.
unfoldable pub count_of : TurnaroundStatus → List TurnaroundStatus → ℕ
count_of status turnarounds = length (filter (has_status status) turnarounds)

abbrev pub statuses : List TurnaroundStatus
statuses =
    TurnaroundStatus.pending ∷ TurnaroundStatus.in_progress ∷ TurnaroundStatus.completed
    ∷ TurnaroundStatus.delayed ∷ TurnaroundStatus.cancelled ∷ []

pub record Slice : Type 0 where
  pub name : TurnaroundStatus
  pub value : ℕ

abbrev pub slice : List TurnaroundStatus → TurnaroundStatus → Slice
slice turnarounds status = record { name = status; value = count_of status turnarounds }

abbrev pub is_drawn : Slice → Bool
is_drawn d = ltb 0 d.value

unfoldable pub status_counts : List TurnaroundStatus → List Slice
unfolding count_of
status_counts turnarounds = filter is_drawn (map (slice turnarounds) statuses)

-- The numbers on the cards.
pub record Cards : Type 0 where
  pub active_flights : ℕ
  pub in_progress_turnarounds : ℕ
  pub delayed_count : ℕ
  pub crew_on_duty : ℕ
  pub open_alerts : ℕ

-- `["arrived", "boarding"].includes(f.status)`
abbrev pub is_on_ground : Flight → Bool
is_on_ground f = str_eq f.status "arrived" || str_eq f.status "boarding"

unfoldable pub cards :
    Option (List Flight)
    → Option (List TurnaroundStatus)
    → Option (List CrewMember)
    → Option (List Alert)
    → Cards
unfolding count_of
cards flights turnarounds crew alerts = record {
  active_flights = length (filter is_on_ground (fetched flights));
  in_progress_turnarounds = count_of TurnaroundStatus.in_progress (fetched turnarounds);
  delayed_count = count_of TurnaroundStatus.delayed (fetched turnarounds);
  crew_on_duty = length (filter (λ (c : CrewMember). c.is_active) (fetched crew));
  open_alerts = length (fetched alerts);
}
