-- ===== src/Turnaround/Tasks/Placement.antt =====
-- Where the de-icing block of `createTurnaround` (turnaround/turnaround.service.ts) puts the new task.
use microservices_practice.Common.{
  ℕ, ◌+◌, ◌≤◌, ◌<◌, ◌≡◌, refl, sym, ap, ◌∙◌, none, some, List, [], ◌∷◌, ◌++◌, find, arith, str_eq,
  Option-cases, Bool-cases, inl, inr, if◌then◌else◌, All,
}
use microservices_practice.Turnaround.Schema.{TaskStatus, NewTask}
use microservices_practice.Turnaround.Weather.{DeIcingTask}
use microservices_practice.Turnaround.Tasks.{
  is_boarding, delay_boarding, insert_by_order, sort_by_order, inject_de_icing, de_icing_at,
}

-- The new task, pending, at an order.
abbrev pub at_order : DeIcingTask → ℕ → NewTask
at_order d order = record {
  name = d.name;
  status = TaskStatus.pending;
  estimated_duration_minutes = d.estimated_duration_minutes;
  required_certification = some d.required_certification;
  required_equipment = some d.required_equipment;
  order = order;
}

-- It takes the order of boarding, directly before it, and boarding the next one; without boarding it
-- stands at the end, at its own order.
abbrev pub placed : DeIcingTask → List NewTask → List NewTask
placed d [] = at_order d d.order ∷ []
placed d (t ∷ ts) =
    if str_eq t.name "boarding"
    then at_order d t.order ∷ record t { order = t.order + 1 } ∷ ts
    else t ∷ placed d ts

-- Every task has a greater order than those in front of it.
abbrev pub IsRising : List NewTask → Type 0
IsRising [] = Unit {0}
IsRising (t ∷ ts) = All (λ (u : NewTask). t.order < u.order) ts × IsRising ts

abbrev pub AreBelow : ℕ → List NewTask → Type 0
AreBelow n ts = All (λ (t : NewTask). t.order < n) ts

AtLeast : ℕ → List NewTask → Type 0
AtLeast n ts = All (λ (t : NewTask). n ≤ t.order) ts

insert_by_order_first :
    (t : NewTask) (ts : List NewTask) → AtLeast t.order ts → insert_by_order t ts ≡ t ∷ ts
unfolding insert_by_order AtLeast
insert_by_order_first t [] h = refl
insert_by_order_first t (u ∷ ts) (k, h) = ground arith

AtLeast-above :
    (n m : ℕ) (ts : List NewTask) → n ≤ m + 1 → All (λ (t : NewTask). m < t.order) ts → AtLeast n ts
unfolding AtLeast
AtLeast-above n m [] k h = tt
AtLeast-above n m (t ∷ ts) k (i, h) = (omega (arith, k, i), AtLeast-above n m ts k h)

-- A task goes to the front of a rising list of greater orders behind which it stands.
sort_by_order-last :
    (x : NewTask) (ts : List NewTask)
    → All (λ (t : NewTask). x.order < t.order) ts
    → IsRising ts
    → sort_by_order (ts ++ x ∷ []) ≡ x ∷ ts
unfolding sort_by_order insert_by_order
sort_by_order-last x [] h r = refl
sort_by_order-last x (t ∷ ts) (k, h) (a, r) =
    let p = sort_by_order-last x ts h r in
    let q = insert_by_order_first t ts (AtLeast-above t.order t.order ts (omega arith) a) in
    ground (arith, p, q, k)

placed-AtLeast :
    (n : ℕ) (d : DeIcingTask) (ts : List NewTask)
    → n ≤ d.order
    → AtLeast n ts
    → AtLeast n (placed d ts)
unfolding AtLeast
placed-AtLeast n d [] k h = (k, tt)
placed-AtLeast n d (t ∷ ts) k (i, h) = elim (Bool-cases (str_eq t.name "boarding")) [
  | inl here ↦ rw here (i, (omega (arith, i), h))
  | inr other ↦ rw other (i, placed-AtLeast n d ts k h)
]

-- A task that is not boarding goes in front of what is placed behind it.
insert_by_order-placed :
    (d : DeIcingTask) (t : NewTask) (ts : List NewTask)
    → t.order < d.order
    → All (λ (u : NewTask). t.order < u.order) ts
    → insert_by_order t (placed d ts) ≡ t ∷ placed d ts
insert_by_order-placed d t ts k h = insert_by_order_first t (placed d ts) (
    placed-AtLeast t.order d ts (omega (arith, k))
      (AtLeast-above t.order t.order ts (omega arith) h))

sorted_without_boarding :
    (d : DeIcingTask) (ts : List NewTask)
    → find is_boarding ts ≡ none
    → IsRising ts
    → AreBelow d.order ts
    → sort_by_order (ts ++ de_icing_at d d.order ∷ []) ≡ placed d ts
unfolding sort_by_order insert_by_order de_icing_at
sorted_without_boarding d [] none_there r b = refl
sorted_without_boarding d (t ∷ ts) none_there (a, r) (k, b) =
    elim (Bool-cases (str_eq t.name "boarding")) [
      | inl here ↦ absurd (ground arith)
      | inr other ↦
          let p = sorted_without_boarding d ts (ground arith) r b in
          rw other (ap (insert_by_order t) p ∙ insert_by_order-placed d t ts k a)
    ]

sorted_with_boarding :
    (d : DeIcingTask) (ts : List NewTask) (boarding : NewTask)
    → find is_boarding ts ≡ some boarding
    → IsRising ts
    → AreBelow d.order ts
    → sort_by_order (delay_boarding ts ++ de_icing_at d boarding.order ∷ []) ≡ placed d ts
unfolding sort_by_order insert_by_order de_icing_at delay_boarding
sorted_with_boarding d [] boarding found r b = absurd cc
sorted_with_boarding d (t ∷ ts) boarding found (a, r) (k, b) =
    elim (Bool-cases (str_eq t.name "boarding")) [
      | inl here ↦
          let same : t ≡ boarding = ground arith in
          let x = at_order d t.order in
          let p = sort_by_order-last x ts a r in
          let t' : NewTask = record t { order = t.order + 1 } in
          let q = insert_by_order_first t' ts (AtLeast-above t'.order t.order ts (omega arith) a) in
          let front : insert_by_order t' (x ∷ ts) ≡ x ∷ t' ∷ ts = ground (arith, q) in
          rw here (
            ap
              (λ (b : NewTask).
                insert_by_order t' (sort_by_order (ts ++ de_icing_at d b.order ∷ [])))
              (sym same)
            ∙ ap (insert_by_order t') p
            ∙ front)
      | inr other ↦
          let p = sorted_with_boarding d ts boarding (ground arith) r b in
          rw other (ap (insert_by_order t) p ∙ insert_by_order-placed d t ts k a)
    ]

-- Where the orders of the tasks rise, each below the order that de-icing brings, injecting de-icing puts
-- it directly before boarding, at boarding's order, moves boarding back by one and keeps every other task
-- in its place; without boarding it puts it at the end.
pub inject_de_icing-placed :
    (d : DeIcingTask) (tasks : List NewTask)
    → IsRising tasks
    → AreBelow d.order tasks
    → inject_de_icing d tasks ≡ placed d tasks
unfolding inject_de_icing
inject_de_icing-placed d tasks r b = elim (Option-cases (find is_boarding tasks)) [
  | inl missing ↦ rw (missing, inject_de_icing) (sorted_without_boarding d tasks missing r b)
  | inr (boarding, found) ↦
      rw (found, inject_de_icing) (sorted_with_boarding d tasks boarding found r b)
]
