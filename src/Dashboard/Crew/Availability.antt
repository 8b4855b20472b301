-- ===== src/Dashboard/Crew/Availability.antt =====
-- The filters of the crew page against each other and against the rows.
use microservices_practice.Common.{
  ◌≡◌, Bool, true, false, Option, List, [], ◌∷◌, ◌++◌, not, ◌&&◌, if◌then◌else◌, arith,
}
use mathlib.Core.List.{Perm, perm_middle}
use mathlib.Core.List.Perm
use microservices_practice.Dashboard.Crew.{
  TaskAssignment, CrewMember, AvailabilityFilter, filtered_crew, row_label, RowLabel, passes,
  assigned_crew_ids,
}
use microservices_practice.Dashboard.StandPlan.{has}

-- An element more, in the one of three parts that two tests choose.
place :
    {A : Type 0} (on busy : Bool) (a : A) (xs ys zs all : List A)
    → Perm (xs ++ (ys ++ zs)) all
    → Perm
        ((if on && not busy then a ∷ xs else xs)
          ++ ((if on && busy then a ∷ ys else ys) ++ (if not on then a ∷ zs else zs)))
        (a ∷ all)
place true true a xs ys zs all h = Perm.trans (perm_middle xs (ys ++ zs)) (Perm.cons a h)
place true false a xs ys zs all h = Perm.cons a h
place false busy a xs ys zs all h =
    Perm.trans (Perm.append_left xs (perm_middle ys zs))
      (Perm.trans (perm_middle xs (ys ++ zs)) (Perm.cons a h))

-- Every crew member stands under exactly one of available, assigned and inactive: together the
-- three are the whole crew, in another order.
filtered_crew-partition :
    (assignments : Option (List TaskAssignment)) (crew : List CrewMember)
    → Perm
        (filtered_crew assignments AvailabilityFilter.available crew
          ++ (filtered_crew assignments AvailabilityFilter.assigned crew
              ++ filtered_crew assignments AvailabilityFilter.inactive crew))
        crew
unfolding filtered_crew passes
filtered_crew-partition assignments [] = Perm.refl []
filtered_crew-partition assignments (c ∷ cs) =
    place c.is_active (has c.id (assigned_crew_ids assignments)) c _ _ _ cs
      (filtered_crew-partition assignments cs)

-- The filter that a row's label belongs to.
abbrev pub filter_of : RowLabel → AvailabilityFilter
filter_of RowLabel.assigned_label = AvailabilityFilter.assigned
filter_of RowLabel.available_label = AvailabilityFilter.available
filter_of RowLabel.off_duty = AvailabilityFilter.inactive

-- A member passes the filter that the label of the row belongs to.
row_label-passes :
    (assignments : Option (List TaskAssignment)) (c : CrewMember)
    → passes (assigned_crew_ids assignments) (filter_of (row_label assignments c)) c ≡ true
unfolding passes row_label
row_label-passes assignments c = ground arith
