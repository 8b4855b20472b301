-- ===== src/Dashboard/Overview/Breakdown.antt =====
-- The chart of the overview accounts for every turnaround.
use microservices_practice.Common.{
  ℕ, ◌+◌, ◌≡◌, ◌∙◌, refl, List, [], ◌∷◌, map, length, filter, count_if, arith, length-filter,
}
use microservices_practice.Turnaround.Schema.{TurnaroundStatus}
use microservices_practice.Dashboard.Overview.{
  Slice, slice, has_status, status_number, count_of, statuses, is_drawn, status_counts,
}

abbrev pub sum_of : List Slice → ℕ
sum_of [] = 0
sum_of (d ∷ ds) = d.value + sum_of ds

-- Slices that are not drawn add nothing.
sum_of-filter : (ds : List Slice) → sum_of (filter is_drawn ds) ≡ sum_of ds
sum_of-filter [] = refl
sum_of-filter (d ∷ ds) = ground (arith, sum_of-filter ds)

statuses_lem :
    (ts : List TurnaroundStatus)
    → count_if (has_status TurnaroundStatus.pending) ts
        + count_if (has_status TurnaroundStatus.in_progress) ts
        + count_if (has_status TurnaroundStatus.completed) ts
        + count_if (has_status TurnaroundStatus.delayed) ts
        + count_if (has_status TurnaroundStatus.cancelled) ts
      ≡ length ts
unfolding status_number
statuses_lem [] = refl
statuses_lem (TurnaroundStatus.pending ∷ ts) = omega (arith, statuses_lem ts)
statuses_lem (TurnaroundStatus.in_progress ∷ ts) = omega (arith, statuses_lem ts)
statuses_lem (TurnaroundStatus.completed ∷ ts) = omega (arith, statuses_lem ts)
statuses_lem (TurnaroundStatus.delayed ∷ ts) = omega (arith, statuses_lem ts)
statuses_lem (TurnaroundStatus.cancelled ∷ ts) = omega (arith, statuses_lem ts)

-- The values of the drawn slices add up to the number of turnarounds.
sum_of-status_counts : (ts : List TurnaroundStatus) → sum_of (status_counts ts) ≡ length ts
unfolding status_counts count_of
sum_of-status_counts ts =
    sum_of-filter (map (slice ts) statuses)
    ∙ omega (
      arith,
      statuses_lem ts,
      length-filter (has_status TurnaroundStatus.pending) ts,
      length-filter (has_status TurnaroundStatus.in_progress) ts,
      length-filter (has_status TurnaroundStatus.completed) ts,
      length-filter (has_status TurnaroundStatus.delayed) ts,
      length-filter (has_status TurnaroundStatus.cancelled) ts,
    )
