-- ===== src/Dashboard/StandPlan.antt =====
-- The stand plan (routes/StandPlanPage.tsx): flights by gate, and the flights in conflict. A time is
-- given in milliseconds, as `getTime` reads it; the order of the gates on the page is left out.
pub mod Conflicts
pub mod Chart
pub mod Gates
pub mod Board
use microservices_practice.Common.{
  ℕ, ◌+◌, ◌*◌, String, Bool, false, ◌&&◌, ◌||◌, Option, none, some, List, [], ◌∷◌, ◌++◌, ltb,
  str_eq, if◌then◌else◌,
}

pub record GateOccupancy : Type 0 where
  pub gate_id : String
  pub gate_number : String
  pub terminal : String
  pub flight_id : String
  pub flight_number : String
  pub aircraft_type : String
  pub status : String
  pub start_time : ℕ
  pub end_time : Option ℕ

-- `gateMap`: the flights of a gate, the gates in the order of their first flight.
unfoldable pub push_flight :
    GateOccupancy → List (String × List GateOccupancy) → List (String × List GateOccupancy)
push_flight occ [] = (occ.gate_id, occ ∷ []) ∷ []
push_flight occ ((key, flights) ∷ rest) =
    if str_eq key occ.gate_id
    then (key, flights ++ occ ∷ []) ∷ rest
    else (key, flights) ∷ push_flight occ rest

unfoldable pub group_by_gate :
    List GateOccupancy → List (String × List GateOccupancy) → List (String × List GateOccupancy)
unfolding push_flight
group_by_gate [] gates = gates
group_by_gate (occ ∷ rest) gates = group_by_gate rest (push_flight occ gates)

-- The end of an occupancy, or three hours after its start.
unfoldable pub ends_at : GateOccupancy → ℕ
ends_at f = elim f.end_time [ some t ↦ t | none ↦ f.start_time + 3 * 60 * 60 * 1000 ]

-- `aStart < bEnd && bStart < aEnd`
unfoldable pub overlaps : GateOccupancy → GateOccupancy → Bool
unfolding ends_at
overlaps a b = ltb a.start_time (ends_at b) && ltb b.start_time (ends_at a)

-- `ids.has(id)` and `ids.add(id)`
unfoldable pub has : String → List String → Bool
has id [] = false
has id (x ∷ xs) = str_eq id x || has id xs

unfoldable pub add : String → List String → List String
unfolding has
add id ids = if has id ids then ids else ids ++ id ∷ []

-- The inner loop, the loop over a gate's flights, and the loop over the gates.
unfoldable pub against : GateOccupancy → List GateOccupancy → List String → List String
unfolding overlaps add
against a [] ids = ids
against a (b ∷ rest) ids =
    let added = add b.flight_id (add a.flight_id ids) in
    against a rest (if overlaps a b then added else ids)

unfoldable pub within_gate : List GateOccupancy → List String → List String
unfolding against
within_gate [] ids = ids
within_gate (a ∷ rest) ids = within_gate rest (against a rest ids)

unfoldable pub conflict_flight_ids : List (String × List GateOccupancy) → List String → List String
unfolding within_gate
conflict_flight_ids [] ids = ids
conflict_flight_ids ((key, flights) ∷ rest) ids = conflict_flight_ids rest (within_gate flights ids)
