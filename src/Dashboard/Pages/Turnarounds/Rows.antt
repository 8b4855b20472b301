-- ===== src/Dashboard/Pages/Turnarounds/Rows.antt =====
-- The rows of the turnarounds page (routes/TurnaroundsPage.tsx, types/turnaround.ts), with the timeline of
-- the open one.
use Prim.Native.String.{◌++◌ as text_append}
use mathlib.Core.List.{Perm}
use microservices_practice.Common.{
  ℕ, ◌≡◌, ap, refl, String, Bool, false, Option, none, some, List, map, length, str_eq,
  if◌then◌else◌,
}
use microservices_practice.Common.Number.{decimal}
use microservices_practice.Common.Sort.{
  sort_by, IsAscending, sort_by-perm, sort_by-IsAscending, sort_by_ascending,
}
use microservices_practice.Turnaround.Schema.{TaskStatus, TurnaroundStatus}
use microservices_practice.Dashboard.Format.{task_status, turnaround_status}
use microservices_practice.Dashboard.View.{Badge, status_badge, spaced, View, table_view, if_given}
use microservices_practice.Dashboard.Pages.Turnarounds.{Bar, bar}

-- A task and a turnaround as the dashboard receives them; of the optional times and notes, and of the
-- crew and the equipment, the page reads nothing.
pub record Task : Type 0 where
  pub id : String
  pub name : String
  pub status : TaskStatus
  pub estimated_duration_minutes : ℕ
  pub required_certification : Option String
  pub order : ℕ

pub record Turnaround : Type 0 where
  pub id : String
  pub flight_number : String
  pub aircraft_type : String
  pub status : TurnaroundStatus
  pub tasks : List Task
  pub progress_percent : ℕ

-- `s === "all" ? "All" : s.replace(/_/g, " ")`
unfoldable pub filter_text : String → String
unfolding spaced
filter_text s = if str_eq s "all" then "All" else spaced s

pub record TaskLine : Type 0 where
  pub name : String
  pub bar : Bar
  pub label : Option String
  pub minutes : String
  pub certification : Option String

-- `task.status !== "pending" && task.status`
abbrev pub bar_label : TaskStatus → Option String
bar_label TaskStatus.pending = none
bar_label status = some (task_status status)

unfoldable pub task_line : Task → TaskLine
unfolding bar task_status
task_line task = record {
  name = task.name;
  bar = bar task.status;
  label = bar_label task.status;
  minutes = text_append (decimal task.estimated_duration_minutes) "m";
  certification = if_given task.required_certification;
}

abbrev pub order_of : Task → ℕ
order_of task = task.order

unfoldable pub timeline : List Task → List TaskLine
unfolding sort_by task_line
timeline tasks = map task_line (sort_by order_of tasks)

pub record TurnaroundRow : Type 0 where
  pub flight : String
  pub aircraft : String
  pub status : Badge
  pub width : ℕ
  pub progress : String
  pub tasks : String
  pub opened : Option (List TaskLine)

-- `expanded === t._id`
abbrev pub is_expanded : Option String → String → Bool
is_expanded none id = false
is_expanded (some expanded) id = str_eq expanded id

unfoldable pub turnaround_row : (expanded : Option String) → Turnaround → TurnaroundRow
unfolding status_badge turnaround_status timeline
turnaround_row expanded t = record {
  flight = t.flight_number;
  aircraft = t.aircraft_type;
  status = status_badge (turnaround_status t.status);
  width = t.progress_percent;
  progress = text_append (decimal t.progress_percent) "%";
  tasks = text_append (decimal (length t.tasks)) " tasks";
  opened = if is_expanded expanded t.id then some (timeline t.tasks) else none;
}

unfoldable pub turnarounds_list :
    (is_loading : Bool) → Option (List Turnaround) → (expanded : Option String) → View TurnaroundRow
unfolding table_view turnaround_row
turnarounds_list is_loading turnarounds expanded =
    table_view "No turnarounds found" (turnaround_row expanded) is_loading turnarounds

-- The timeline shows every task of the turnaround once, in ascending order of their `order`.
timeline_lem :
    (tasks : List Task)
    → (sorted : List Task) × (timeline tasks ≡ map task_line sorted)
      × Perm sorted tasks
      × IsAscending order_of sorted
unfolding timeline
timeline_lem tasks =
    (sort_by order_of tasks, refl, sort_by-perm order_of tasks, sort_by-IsAscending order_of tasks)

-- Tasks that are in order already are shown as they stand.
timeline_ascending :
    (tasks : List Task) → IsAscending order_of tasks → timeline tasks ≡ map task_line tasks
unfolding timeline
timeline_ascending tasks h = ap (map task_line) (sort_by_ascending order_of tasks h)

-- The page sorts the list of the query in place; drawn again, it shows the same.
timeline_again : (tasks : List Task) → timeline (sort_by order_of tasks) ≡ timeline tasks
unfolding timeline
timeline_again tasks =
    timeline_ascending (sort_by order_of tasks) (sort_by-IsAscending order_of tasks)
