-- ===== src/Dashboard/StandPlan/Chart.antt =====
-- The chart of the stand plan (routes/StandPlanPage.tsx): the day that it shows, and where a flight's
-- block and the time marker stand. A share of the chart's width is a whole number of hundredths of a
-- percent of the day's milliseconds: `100 * day_duration` is the whole width.
use microservices_practice.Common.{
  Bool, ℕ, ◌+◌, ◌-◌, ◌*◌, ◌/◌, ◌≤◌, ◌<◌, ◌≡◌, refl, ◌&&◌, Option, none, some, arith, ltb, leb,
  if◌then◌else◌, List, String, str_eq, length,
}
use microservices_practice.Dashboard.StandPlan.{GateOccupancy, ends_at}

-- `24 * 60 * 60 * 1000`
abbrev pub day_duration : ℕ
day_duration = 24 * 60 * 60 * 1000

abbrev pub max : ℕ → ℕ → ℕ
max a b = if ltb a b then b else a

abbrev pub min : ℕ → ℕ → ℕ
min a b = if ltb a b then a else b

-- `from` and `to`: the day, in UTC, of the time at which the page was opened.
pub record Window : Type 0 where
  pub from : ℕ
  pub to : ℕ

unfoldable pub window : ℕ → Window
window now = record {
  from = now / day_duration * day_duration;
  to = now / day_duration * day_duration + day_duration;
}

pub record Block : Type 0 where
  pub left : ℕ
  pub width : ℕ

-- `Math.max(0, …)` is the cut of the subtraction. The width before the last `Math.max` is negative
-- when the flight starts after the day or ends before its start; the cut gives 0 there, which that
-- `Math.max` replaces like what the page has.
unfoldable pub block : Window → GateOccupancy → Block
unfolding ends_at
block day flight =
    let left = (flight.start_time - day.from) * 100 in
    let width = min (100 * day_duration - left) ((ends_at flight - flight.start_time) * 100) in
    record { left = left; width = max width day_duration }

-- `nowOffset`, and whether the marker is drawn.
unfoldable pub marker : ℕ → Window → Option ℕ
marker now day =
    let offset = (now - day.from) * 100 in
    if leb day.from now && leb offset (100 * day_duration) then some offset else none

-- The badge of the conflicts, if it is drawn: twice the number that stands on it (which is half the
-- size of the set), and whether it is in the plural.
unfoldable pub conflict_badge : List String → Option (ℕ × Bool)
conflict_badge ids = if ltb 0 (length ids) then some (length ids, ltb 2 (length ids)) else none

-- `opacity`, in percent.
unfoldable pub opacity : GateOccupancy → ℕ
opacity flight = if str_eq flight.status "departed" then 50 else 100

-- The day is a day long, and the time at which the page was opened is in it.
window_lem :
    (now : ℕ)
    → ((window now).to ≡ (window now).from + day_duration)
      × ((window now).from ≤ now)
      × (now < (window now).to)
unfolding window
window_lem now = (refl, omega arith, omega arith)

-- A flight within the day whose time is at least a hundredth of it is drawn from its start to its end.
block-exact :
    (now : ℕ) (flight : GateOccupancy)
    → (window now).from ≤ flight.start_time
    → ends_at flight ≤ (window now).to
    → flight.start_time * 100 + day_duration ≤ ends_at flight * 100
    → let b = block (window now) flight in
      (b.left ≡ (flight.start_time - (window now).from) * 100)
      × (b.left + b.width ≡ (ends_at flight - (window now).from) * 100)
unfolding block window
block-exact now flight after before long = (refl, ground arith)

-- The block of a flight that started before the day, ends within it and lasts at least a hundredth
-- of it begins with the day and ends behind the end of the flight: its width is the whole stay.
pub block_started_before :
    (now : ℕ) (flight : GateOccupancy)
    → flight.start_time < (window now).from
    → (window now).from < ends_at flight
    → ends_at flight < (window now).to
    → flight.start_time * 100 + day_duration ≤ ends_at flight * 100
    → let b = block (window now) flight in
      (b.left ≡ 0) × ((ends_at flight - (window now).from) * 100 < b.width)
unfolding block window
block_started_before now flight started after before long = (omega arith, ground arith)

-- A block that begins on the chart ends on it, or a hundredth behind its end.
block-le :
    (now : ℕ) (flight : GateOccupancy)
    → flight.start_time ≤ (window now).to
    → let b = block (window now) flight in b.left + b.width ≤ 101 * day_duration
unfolding block window
block-le now flight h = ground arith
