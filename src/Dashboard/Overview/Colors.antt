-- ===== src/Dashboard/Overview/Colors.antt =====
-- The colours of the overview's chart (routes/OverviewPage.tsx).
use microservices_practice.Common.{◌≡◌, ◌<◌, refl, String, List, [], ◌∷◌, map, arith, filter}
use microservices_practice.Turnaround.Schema.{TurnaroundStatus}
use microservices_practice.Dashboard.View.{rows, spaced}
use microservices_practice.Dashboard.View.Shown.{shown}
use microservices_practice.Dashboard.Format.{turnaround_status}
use microservices_practice.Dashboard.Overview.{count_of, status_counts, is_drawn, slice}
use microservices_practice.Dashboard.Overview.Page.{Cell, cells, chart, chart_color}

abbrev pub fills : List TurnaroundStatus → List String
fills ts = map (λ (c : Cell). c.fill) (shown (chart ts))

-- If there is a turnaround of every status, each status has its colour: gray, blue, green, amber, red.
chart_of_all :
    (ts : List TurnaroundStatus)
    → 0 < count_of TurnaroundStatus.pending ts
    → 0 < count_of TurnaroundStatus.in_progress ts
    → 0 < count_of TurnaroundStatus.completed ts
    → 0 < count_of TurnaroundStatus.delayed ts
    → 0 < count_of TurnaroundStatus.cancelled ts
    → fills ts ≡ "#71717a" ∷ "#3b82f6" ∷ "#22c55e" ∷ "#f59e0b" ∷ "#ef4444" ∷ []
unfolding chart cells status_counts chart_color
chart_of_all ts a b c d e = ground arith

-- A slice's colour follows its place among the slices that are drawn: with no turnaround pending, those
-- in progress have the gray of the pending ones.
pub chart_without_pending :
    (ts : List TurnaroundStatus)
    → count_of TurnaroundStatus.pending ts ≡ 0
    → 0 < count_of TurnaroundStatus.in_progress ts
    → (c : Cell) × (cs : List Cell) × (chart ts ≡ rows (c ∷ cs))
      × (c.name ≡ "in progress")
      × (c.fill ≡ "#71717a")
unfolding chart cells status_counts chart_color spaced turnaround_status
chart_without_pending ts none_pending some_moving = (
  record {
    name = "in progress";
    value = count_of TurnaroundStatus.in_progress ts;
    fill = "#71717a";
  },
  cells 1 (
      filter is_drawn (
        map (slice ts) (
          TurnaroundStatus.completed ∷ TurnaroundStatus.delayed ∷ TurnaroundStatus.cancelled
          ∷ []))),
  ground arith,
  refl,
  refl,
)
