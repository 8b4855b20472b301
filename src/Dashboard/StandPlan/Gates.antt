-- ===== src/Dashboard/StandPlan/Gates.antt =====
-- The rows of the stand plan (routes/StandPlanPage.tsx): the gates in the order of their labels.
use Prim.Native.String.{◌++◌ as text_append}
use mathlib.Core.List.{Perm}
use mathlib.Core.List.Perm
use microservices_practice.Common.{
  String, Bool, Option, none, some, List, [], ◌∷◌, Bool-cases, inl, inr, if◌then◌else◌,
}
use microservices_practice.Dashboard.StandPlan.{GateOccupancy, group_by_gate}

-- `${terminal}-${gate_number}` of a gate, which are those of its first flight.
abbrev pub label : String × List GateOccupancy → String
label (key, []) = "-"
label (key, f ∷ fs) = text_append f.terminal (text_append "-" f.gate_number)

-- `sort` keeps the order of equal labels; `after a b` is `a.localeCompare(b) > 0`.
module _ (after : String → String → Bool) where
  unfoldable pub insert_gate :
      String × List GateOccupancy
      → List (String × List GateOccupancy)
      → List (String × List GateOccupancy)
  insert_gate g [] = g ∷ []
  insert_gate g (h ∷ hs) =
      let rest = insert_gate g hs in if after (label g) (label h) then h ∷ rest else g ∷ h ∷ hs

  unfoldable pub sort_gates :
      List (String × List GateOccupancy) → List (String × List GateOccupancy)
  unfolding insert_gate
  sort_gates [] = []
  sort_gates (g ∷ gs) = insert_gate g (sort_gates gs)

  -- A query without data has no gates.
  unfoldable pub gates : Option (List GateOccupancy) → List (String × List GateOccupancy)
  unfolding sort_gates group_by_gate
  gates none = []
  gates (some occupancy) = sort_gates (group_by_gate occupancy [])

  insert_gate-perm :
      (g : String × List GateOccupancy) (gs : List (String × List GateOccupancy))
      → Perm (insert_gate g gs) (g ∷ gs)
  unfolding insert_gate
  insert_gate-perm g [] = Perm.refl (g ∷ [])
  insert_gate-perm g (h ∷ hs) = elim (Bool-cases (after (label g) (label h))) [
    | inl later ↦ rw later (Perm.trans (Perm.cons h (insert_gate-perm g hs)) (Perm.swap g h hs))
    | inr earlier ↦ rw earlier (Perm.refl (g ∷ h ∷ hs))
  ]

  -- The rows are the gates of the grouping, in another order.
  sort_gates-perm : (gs : List (String × List GateOccupancy)) → Perm (sort_gates gs) gs
  unfolding sort_gates
  sort_gates-perm [] = Perm.refl []
  sort_gates-perm (g ∷ gs) =
      Perm.trans (insert_gate-perm g (sort_gates gs)) (Perm.cons g (sort_gates-perm gs))
