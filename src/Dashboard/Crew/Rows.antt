-- ===== src/Dashboard/Crew/Rows.antt =====
-- The rows of the crew page against its filters and against the overview.
use microservices_practice.Common.{
  ℕ, zero, suc, ◌+◌, ◌≤◌, ◌≡◌, refl, ap, ◌∙◌, sym, true, false, Option, some, List, [], ◌∷◌, map,
  length, filter, All, length-map, arith, Bool-cases, inl, inr,
}
use mathlib.Core.Path.{subst}
use microservices_practice.Turnaround.Schema.{TurnaroundStatus}
use microservices_practice.Dashboard.View.Shown.{shown, shown-table_view}
use microservices_practice.Dashboard.Crew.{
  TaskAssignment, CrewMember, AvailabilityFilter, assigned_crew_ids, passes, filtered_crew,
  row_label,
}
use microservices_practice.Dashboard.Crew.Availability.{filter_of}
use microservices_practice.Dashboard.Crew.Page.{CrewRow, crew_row, crew_table, crew_page_query}
use microservices_practice.Dashboard.Queries.{UseQuery, use_crew}
use microservices_practice.Dashboard.Pages.Flights.{Flight}
use microservices_practice.Dashboard.Pages.Events.{Alert}
use microservices_practice.Dashboard.Overview.{cards}
use microservices_practice.Dashboard.Overview.Page.{take, overview_crew_query}

take_all : {A : Type 0} (n : ℕ) (xs : List A) → length xs ≤ n → take n xs ≡ xs
unfolding take
take_all zero [] h = refl
take_all zero (x ∷ xs) h = absurd (omega (arith, h))
take_all (suc n) [] h = refl
take_all (suc n) (x ∷ xs) h = ap (λ ys. x ∷ ys) (take_all n xs (omega (arith, h)))

-- A row says what the chosen filter asks for.
abbrev pub Answers : AvailabilityFilter → CrewRow → Type 0
Answers AvailabilityFilter.all row = Unit
Answers wanted row = filter_of row.availability ≡ wanted

passes-Answers :
    (assignments : Option (List TaskAssignment)) (wanted : AvailabilityFilter) (c : CrewMember)
    → passes (assigned_crew_ids assignments) wanted c ≡ true
    → Answers wanted (crew_row assignments c)
unfolding passes crew_row row_label
passes-Answers assignments AvailabilityFilter.all c h = tt
passes-Answers assignments AvailabilityFilter.available c h = ground arith
passes-Answers assignments AvailabilityFilter.assigned c h = ground arith
passes-Answers assignments AvailabilityFilter.inactive c h = ground arith

module _ (assignments : Option (List TaskAssignment)) where
  filtered_crew-Answers :
      (wanted : AvailabilityFilter) (crew : List CrewMember)
      → All (Answers wanted) (map (crew_row assignments) (filtered_crew assignments wanted crew))
  unfolding filtered_crew
  filtered_crew-Answers wanted [] = tt
  filtered_crew-Answers wanted (c ∷ crew) =
      elim (Bool-cases (passes (assigned_crew_ids assignments) wanted c)) [
        | inl in_filter ↦
            rw in_filter
              (passes-Answers assignments wanted c in_filter, filtered_crew-Answers wanted crew)
        | inr out ↦ rw out (filtered_crew-Answers wanted crew)
      ]

  -- Every row that the table shows under a filter says what the filter asks for.
  pub crew_table-Answers :
      (wanted : AvailabilityFilter) (crew : List CrewMember)
      → All (Answers wanted) (shown (crew_table false (some crew) assignments wanted))
  unfolding crew_table
  crew_table-Answers wanted crew =
      subst (All (Answers wanted))
        (sym (
          shown-table_view "No crew members found" (crew_row assignments)
            (filtered_crew assignments wanted crew)))
        (filtered_crew-Answers wanted crew)

  abbrev pub rows_under : AvailabilityFilter → List CrewMember → ℕ
  rows_under wanted crew = length (shown (crew_table false (some crew) assignments wanted))

  rows_under_lem :
      (wanted : AvailabilityFilter) (crew : List CrewMember)
      → rows_under wanted crew ≡ length (filtered_crew assignments wanted crew)
  unfolding crew_table
  rows_under_lem wanted crew =
      ap length (
        shown-table_view "No crew members found" (crew_row assignments)
          (filtered_crew assignments wanted crew))
      ∙ length-map (crew_row assignments) (filtered_crew assignments wanted crew)

  on_duty :
      (crew : List CrewMember)
      → length (filter (λ (c : CrewMember). c.is_active) crew)
        ≡ length (filtered_crew assignments AvailabilityFilter.available crew)
          + length (filtered_crew assignments AvailabilityFilter.assigned crew)
  unfolding filtered_crew passes
  on_duty [] = refl
  on_duty (c ∷ crew) = ground (arith, on_duty crew)

  cards-rows_under :
      (flights : Option (List Flight)) (turnarounds : Option (List TurnaroundStatus))
      (alerts : Option (List Alert)) (crew : List CrewMember)
      → (cards flights turnarounds (some crew) alerts).crew_on_duty
        ≡ rows_under AvailabilityFilter.available crew + rows_under AvailabilityFilter.assigned crew
  unfolding cards
  cards-rows_under flights turnarounds alerts crew = ground (
    arith,
    on_duty crew,
    rows_under_lem AvailabilityFilter.available crew,
    rows_under_lem AvailabilityFilter.assigned crew,
  )

  -- Where there are at most 100 crew members and a query for the first few returns the first few of
  -- them, the overview's number of crew on duty is the number of rows that the crew page shows as
  -- available and as assigned, whatever the assignments are.
  pub crew_table-cards :
      (serve : UseQuery → List CrewMember) (members : List CrewMember)
      → ((limit : ℕ) → serve (use_crew limit 0) ≡ take limit members)
      → length members ≤ 100
      → (flights : Option (List Flight)) (turnarounds : Option (List TurnaroundStatus))
        (alerts : Option (List Alert))
      → (cards flights turnarounds (some (serve overview_crew_query)) alerts).crew_on_duty
        ≡ rows_under AvailabilityFilter.available (serve crew_page_query)
          + rows_under AvailabilityFilter.assigned (serve crew_page_query)
  unfolding overview_crew_query crew_page_query
  crew_table-cards serve members first small flights turnarounds alerts =
      let wide = first 200 ∙ take_all 200 members (omega (arith, small)) in
      let narrow = first 100 ∙ take_all 100 members small in
      rw (wide, narrow) (cards-rows_under flights turnarounds alerts members)
