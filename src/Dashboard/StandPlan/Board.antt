-- ===== src/Dashboard/StandPlan/Board.antt =====
-- The board of the stand plan (routes/StandPlanPage.tsx): its axis, and the rows of the gates with the
-- blocks of their flights.
use Prim.Native.String.{◌++◌ as text_append}
use microservices_practice.Common.{
  ℕ, zero, suc, ◌≡◌, refl, String, Bool, false, Option, some, List, [], ◌∷◌, map, ltb, str_eq,
  if◌then◌else◌, inl, inr, Bool-cases, All,
}
use microservices_practice.Common.Number.{decimal}
use microservices_practice.Dashboard.View.{View, message, list_view}
use microservices_practice.Dashboard.StandPlan.{GateOccupancy, has, conflict_flight_ids}
use microservices_practice.Dashboard.StandPlan.Chart.{
  Window, window, block, Block, marker, opacity, conflict_badge,
}
use microservices_practice.Dashboard.StandPlan.Gates.{gates}

abbrev pub conflict_color : String
conflict_color = "#ef4444"

unfoldable pub status_colors : List (String × String)
status_colors =
    ("scheduled", "#3b82f6")
    ∷ ("arrived", "#22c55e")
    ∷ ("boarding", "#f59e0b")
    ∷ ("in_progress", "#3b82f6")
    ∷ ("departed", "#71717a")
    ∷ []

-- `STATUS_COLORS[status] || "#71717a"`, for a status that is no inherited member of the table object.
unfoldable pub color_of : String → List (String × String) → String
color_of status [] = "#71717a"
color_of status ((name, color) ∷ rest) = if str_eq status name then color else color_of status rest

-- The label of an hour on the axis; `padStart(2, "0")` puts one zero before a digit.
unfoldable pub hour_label : ℕ → String
hour_label h = text_append (if ltb h 10 then text_append "0" (decimal h) else decimal h) ":00"

abbrev hours_from : (count from : ℕ) → List ℕ
hours_from zero h = []
hours_from (suc n) h = h ∷ hours_from n (suc h)

abbrev pub hours : List ℕ
hours = hours_from 25 0

-- A block on the board; its place and its width are shares of the chart.
pub record DrawnBlock : Type 0 where
  pub place : Block
  pub color : String
  pub opacity : ℕ
  pub dashed : Bool
  pub title : String
  pub text : String

unfoldable pub draw_block : Window → (conflicts : List String) → GateOccupancy → DrawnBlock
unfolding block has status_colors color_of opacity
draw_block day conflicts flight = record {
  place = block day flight;
  color =
      if has flight.flight_id conflicts
      then conflict_color
      else color_of flight.status status_colors;
  opacity = opacity flight;
  dashed = has flight.flight_id conflicts;
  title =
      text_append flight.flight_number
        (text_append " (" (text_append flight.aircraft_type (text_append ") — " flight.status)));
  text = flight.flight_number;
}

-- The heads of a gate's row, its blocks and the time marker.
pub record GateRow : Type 0 where
  pub gate_number : String
  pub terminal : String
  pub blocks : List DrawnBlock
  pub marker : Option ℕ

-- A gate is made of its first flight, so it has one.
unfoldable pub gate_row :
    (now : ℕ) → Window → (conflicts : List String) → String × List GateOccupancy → GateRow
unfolding draw_block marker
gate_row now day conflicts (key, flights) = record {
  gate_number = elim flights [ [] ↦ "" | f ∷ fs ↦ f.gate_number ];
  terminal = elim flights [ [] ↦ "" | f ∷ fs ↦ f.terminal ];
  blocks = map (draw_block day conflicts) flights;
  marker = marker now day;
}

pub record StandPlanPage : Type 0 where
  pub badge : Option (ℕ × Bool)
  pub board : View GateRow

-- The page, opened at one time and drawn at another; `after` orders the labels of the gates.
unfoldable pub stand_plan_page :
    (String → String → Bool)
    → (opened now : ℕ) → (is_loading : Bool) → Option (List GateOccupancy)
    → StandPlanPage
unfolding gates conflict_flight_ids window list_view gate_row conflict_badge
stand_plan_page after opened now is_loading occupancy =
    let by_gate = gates after occupancy in
    let conflicts = conflict_flight_ids by_gate [] in
    record {
      badge = conflict_badge conflicts;
      board =
          if is_loading
          then message "Loading stand plan..."
          else list_view "No gate occupancy data for today" (gate_row now (window opened) conflicts)
              (some by_gate);
    }

abbrev IsPlain : String × String → Type 0
IsPlain (name, color) = str_eq color conflict_color ≡ false

color_of-IsPlain :
    (status : String) (colors : List (String × String))
    → All IsPlain colors
    → str_eq (color_of status colors) conflict_color ≡ false
unfolding color_of
color_of-IsPlain status [] h = refl
color_of-IsPlain status ((name, color) ∷ rest) (plain, h) = elim (Bool-cases (str_eq status name)) [
  | inl here ↦ rw here plain
  | inr other ↦ rw other (color_of-IsPlain status rest h)
]

plain_color : (status : String) → str_eq (color_of status status_colors) conflict_color ≡ false
unfolding status_colors
plain_color status =
    color_of-IsPlain status status_colors (refl, (refl, (refl, (refl, (refl, tt)))))

-- Whatever its status, a block is drawn in red exactly if the flight is among those in conflict.
draw_block-conflict_color :
    (day : Window) (conflicts : List String) (flight : GateOccupancy)
    → str_eq (draw_block day conflicts flight).color conflict_color ≡ has flight.flight_id conflicts
unfolding draw_block
draw_block-conflict_color day conflicts flight =
    elim (Bool-cases (has flight.flight_id conflicts)) [
      | inl marked ↦ rw marked refl
      | inr free ↦ rw free (plain_color flight.status)
    ]
