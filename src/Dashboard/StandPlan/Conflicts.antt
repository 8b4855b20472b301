-- ===== src/Dashboard/StandPlan/Conflicts.antt =====
-- Which flights the stand plan marks.
use microservices_practice.Common.{
  String, ◌≡◌, refl, Bool, false, ◌&&◌, ◌||◌, List, [], ◌∷◌, ◌++◌, filter, arith, str_eq, eq_iff,
  if◌then◌else◌,
}
use microservices_practice.Dashboard.StandPlan.{
  GateOccupancy, overlaps, has, add, against, within_gate, push_flight, group_by_gate,
  conflict_flight_ids,
}

-- Whether a flight is one of two that overlap: the first with one of the others, or two of the rest.
abbrev pub clashes_with : String → GateOccupancy → List GateOccupancy → Bool
clashes_with id a [] = false
clashes_with id a (b ∷ rest) =
    (overlaps a b && (str_eq id a.flight_id || str_eq id b.flight_id)) || clashes_with id a rest

abbrev pub clashes : String → List GateOccupancy → Bool
clashes id [] = false
clashes id (a ∷ rest) = clashes_with id a rest || clashes id rest

abbrev pub clashes_at_gate : String → List (String × List GateOccupancy) → Bool
clashes_at_gate id [] = false
clashes_at_gate id ((key, flights) ∷ rest) = clashes id flights || clashes_at_gate id rest

has-append : (id : String) (xs ys : List String) → has id (xs ++ ys) ≡ (has id xs || has id ys)
unfolding has
has-append id [] ys = refl
has-append id (x ∷ xs) ys = ground (arith, has-append id xs ys)

has-add :
    (id new : String) (ids : List String) → has id (add new ids) ≡ (has id ids || str_eq id new)
unfolding has add
has-add id new ids = ground (arith, eq_iff id new, has-append id ids (new ∷ []))

has-against :
    (id : String) (a : GateOccupancy) (rest : List GateOccupancy) (ids : List String)
    → has id (against a rest ids) ≡ (has id ids || clashes_with id a rest)
unfolding against
has-against id a [] ids = ground arith
has-against id a (b ∷ rest) ids =
    let added = add b.flight_id (add a.flight_id ids) in
    ground (
      arith,
      has-against id a rest added,
      has-against id a rest ids,
      has-add id b.flight_id (add a.flight_id ids),
      has-add id a.flight_id ids,
    )

has-within_gate :
    (id : String) (flights : List GateOccupancy) (ids : List String)
    → has id (within_gate flights ids) ≡ (has id ids || clashes id flights)
unfolding within_gate
has-within_gate id [] ids = ground arith
has-within_gate id (a ∷ rest) ids =
    ground (arith, has-within_gate id rest (against a rest ids), has-against id a rest ids)

-- A flight is marked exactly if it was marked before, or is one of two flights of a gate whose times
-- overlap.
pub has-conflict_flight_ids :
    (id : String) (gates : List (String × List GateOccupancy)) (ids : List String)
    → has id (conflict_flight_ids gates ids) ≡ (has id ids || clashes_at_gate id gates)
unfolding conflict_flight_ids
has-conflict_flight_ids id [] ids = ground arith
has-conflict_flight_ids id ((key, flights) ∷ rest) ids = ground (
  arith,
  has-conflict_flight_ids id rest (within_gate flights ids),
  has-within_gate id flights ids,
)

-- The flights that stand at a gate.
abbrev pub flights_of : String → List (String × List GateOccupancy) → List GateOccupancy
flights_of gate [] = []
flights_of gate ((key, flights) ∷ rest) = if str_eq key gate then flights else flights_of gate rest

abbrev pub at_gate : String → GateOccupancy → Bool
at_gate gate occ = str_eq occ.gate_id gate

append_nil : (xs : List GateOccupancy) → xs ++ [] ≡ xs
append_nil [] = refl
append_nil (x ∷ xs) = cc (append_nil xs)

append_assoc : (xs ys zs : List GateOccupancy) → (xs ++ ys) ++ zs ≡ xs ++ (ys ++ zs)
append_assoc [] ys zs = refl
append_assoc (x ∷ xs) ys zs = cc (append_assoc xs ys zs)

flights_of-push_flight :
    (gate : String) (occ : GateOccupancy) (gates : List (String × List GateOccupancy))
    → flights_of gate (push_flight occ gates)
      ≡ flights_of gate gates ++ filter (at_gate gate) (occ ∷ [])
unfolding push_flight
flights_of-push_flight gate occ [] = ground arith
flights_of-push_flight gate occ ((key, flights) ∷ rest) = ground (
  arith,
  eq_iff key occ.gate_id,
  eq_iff key gate,
  eq_iff occ.gate_id gate,
  flights_of-push_flight gate occ rest,
  append_nil flights,
  append_nil (flights_of gate rest),
)

flights_of-group :
    (gate : String) (occs : List GateOccupancy) (gates : List (String × List GateOccupancy))
    → flights_of gate (group_by_gate occs gates)
      ≡ flights_of gate gates ++ filter (at_gate gate) occs
unfolding group_by_gate
flights_of-group gate [] gates = cc (append_nil (flights_of gate gates))
flights_of-group gate (occ ∷ rest) gates = ground (
  arith,
  flights_of-group gate rest (push_flight occ gates),
  flights_of-push_flight gate occ gates,
  append_assoc (flights_of gate gates) (filter (at_gate gate) (occ ∷ []))
      (filter (at_gate gate) rest),
)

-- The grouping keeps every occupancy at its gate, in the order in which they came.
flights_of-group_by_gate :
    (gate : String) (occs : List GateOccupancy)
    → flights_of gate (group_by_gate occs []) ≡ filter (at_gate gate) occs
flights_of-group_by_gate gate occs = flights_of-group gate occs []
