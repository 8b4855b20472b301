-- ===== src/Dashboard/Pages/Turnarounds.antt =====
-- The turnarounds page (routes/TurnaroundsPage.tsx): the query of a filter, the row that is open, and
-- the bars of its tasks.
pub mod Rows
use microservices_practice.Common.{
  ℕ, String, ◌≡◌, Bool, true, false, Option, none, some, List, [], ◌∷◌, str_eq, eq_iff, arith,
  if◌then◌else◌,
}
use microservices_practice.Turnaround.Schema.{TaskStatus}
use microservices_practice.Dashboard.Queries.{UseQuery, use_turnarounds}

abbrev pub status_filters : List String
status_filters = "all" ∷ "pending" ∷ "in_progress" ∷ "completed" ∷ "delayed" ∷ "cancelled" ∷ []

-- `statusFilter === "all" ? undefined : statusFilter`
unfoldable pub status_of : String → Option String
status_of status_filter = if str_eq status_filter "all" then none else some status_filter

unfoldable pub turnarounds_query : String → UseQuery
unfolding status_of use_turnarounds
turnarounds_query status_filter = use_turnarounds 100 0 (status_of status_filter)

-- `setExpanded(expanded === t._id ? null : t._id)`
unfoldable pub toggle : String → Option String → Option String
toggle id none = some id
toggle id (some expanded) = if str_eq expanded id then none else some id

-- A bar's width in percent, its least width in pixels, and whether its status stands on it.
pub record Bar : Type 0 where
  pub color : String
  pub width : ℕ
  pub min_width : ℕ
  pub labelled : Bool

unfoldable pub bar : TaskStatus → Bar
bar TaskStatus.pending = record {
  color = "bg-status-gray";
  width = 0;
  min_width = 0;
  labelled = false;
}
bar TaskStatus.in_progress = record {
  color = "bg-status-blue";
  width = 60;
  min_width = 40;
  labelled = true;
}
bar TaskStatus.completed = record {
  color = "bg-status-green";
  width = 100;
  min_width = 40;
  labelled = true;
}
bar TaskStatus.blocked = record {
  color = "bg-status-red";
  width = 30;
  min_width = 40;
  labelled = true;
}
bar TaskStatus.skipped = record {
  color = "bg-zinc-700";
  width = 30;
  min_width = 40;
  labelled = true;
}

-- Opening and closing a row leaves the page as it was, if no other row was open.
toggle-toggle : (id : String) → toggle id (toggle id none) ≡ none
unfolding toggle
toggle-toggle id = ground (arith, eq_iff id id)
