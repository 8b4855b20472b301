-- ===== src/Turnaround/Calls/Effect/Fresh.antt =====
-- The document that `createTurnaround` (turnaround/turnaround.service.ts) hands to the store.
use microservices_practice.Common.{
  ℕ, suc, String, ◌≡◌, refl, Bool, true, false, Option, List, [], ◌∷◌, ◌++◌, map, All, arith, find,
  inl, inr, Bool-cases, Option-cases, leb,
}
use microservices_practice.Turnaround.Schema.{Date, TaskStatus, NewTask}
use microservices_practice.Turnaround.Dto.{CreateTurnaroundDto}
use microservices_practice.Turnaround.Templates.{TaskTemplate}
use microservices_practice.Turnaround.Weather.{DeIcingTask}
use microservices_practice.Turnaround.Weather
use microservices_practice.Turnaround.World.{WeatherData}
use microservices_practice.Turnaround.Store.{new_tasks, hydrate}
use microservices_practice.Turnaround.Tasks.{
  new_task, max_order, is_boarding, delay_boarding, insert_by_order, sort_by_order, de_icing_at,
  inject_de_icing,
}
use microservices_practice.Turnaround.Service.{with_de_icing, new_turnaround}
use microservices_practice.Turnaround.Calls.Effect.{IsTimed, IsSound}

abbrev IsPending : NewTask → Type 0
IsPending t = t.status ≡ TaskStatus.pending

append-IsPending :
    (ts : List NewTask) (t : NewTask)
    → All IsPending ts
    → IsPending t
    → All IsPending (ts ++ t ∷ [])
append-IsPending [] t h p = (p, tt)
append-IsPending (u ∷ ts) t (q, h) p = (q, append-IsPending ts t h p)

delay_boarding-IsPending :
    (ts : List NewTask) → All IsPending ts → All IsPending (delay_boarding ts)
unfolding delay_boarding
delay_boarding-IsPending [] h = tt
delay_boarding-IsPending (t ∷ ts) (p, h) = elim (Bool-cases (is_boarding t)) [
  | inl boarding ↦ rw boarding (p, h)
  | inr other ↦ rw other (p, delay_boarding-IsPending ts h)
]

insert_by_order-IsPending :
    (t : NewTask) (ts : List NewTask)
    → IsPending t
    → All IsPending ts
    → All IsPending (insert_by_order t ts)
unfolding insert_by_order
insert_by_order-IsPending t [] p h = (p, tt)
insert_by_order-IsPending t (u ∷ ts) p (q, h) = elim (Bool-cases (leb t.order u.order)) [
  | inl here ↦ rw here (p, (q, h))
  | inr later ↦ rw later (q, insert_by_order-IsPending t ts p h)
]

sort_by_order-IsPending : (ts : List NewTask) → All IsPending ts → All IsPending (sort_by_order ts)
unfolding sort_by_order
sort_by_order-IsPending [] h = tt
sort_by_order-IsPending (t ∷ ts) (p, h) =
    insert_by_order-IsPending t (sort_by_order ts) p (sort_by_order-IsPending ts h)

inject_de_icing-IsPending :
    (d : DeIcingTask) (ts : List NewTask) → All IsPending ts → All IsPending (inject_de_icing d ts)
unfolding inject_de_icing de_icing_at
inject_de_icing-IsPending d ts h = elim (Option-cases (find is_boarding ts)) [
  | inl missing ↦
      let p : inject_de_icing d ts ≡ sort_by_order (ts ++ de_icing_at d d.order ∷ []) =
        ground arith in
      rw p (
        sort_by_order-IsPending (ts ++ de_icing_at d d.order ∷ [])
          (append-IsPending ts (de_icing_at d d.order) h refl))
  | inr (t, found) ↦
      let p : inject_de_icing d ts
          ≡ sort_by_order (delay_boarding ts ++ de_icing_at d t.order ∷ []) =
        ground arith in
      rw p (
        sort_by_order-IsPending (delay_boarding ts ++ de_icing_at d t.order ∷ []) (
          append-IsPending (delay_boarding ts) (de_icing_at d t.order)
            (delay_boarding-IsPending ts h) refl))
]

with_de_icing-IsPending :
    (required : Bool) (w : Option WeatherData) (ts : List NewTask)
    → All IsPending ts
    → All IsPending (with_de_icing required w ts)
unfolding with_de_icing
with_de_icing-IsPending true w ts h =
    inject_de_icing-IsPending (Weather.get_de_icing_task w (max_order ts)) ts h
with_de_icing-IsPending false w ts h = h

map-IsPending : (factor : ℕ) (ts : List TaskTemplate) → All IsPending (map (new_task factor) ts)
unfolding new_task
map-IsPending factor [] = tt
map-IsPending factor (t ∷ ts) = (refl, map-IsPending factor ts)

new_tasks-IsTimed :
    (task_id : ℕ → String) (i : ℕ) (ts : List NewTask)
    → All IsPending ts
    → All IsTimed (new_tasks task_id i ts)
unfolding new_tasks
new_tasks-IsTimed task_id i [] h = tt
new_tasks-IsTimed task_id i (t ∷ ts) (p, h) = (rw p refl, new_tasks-IsTimed task_id (suc i) ts h)

pub hydrate-IsSound :
    (id : String) (task_id : ℕ → String) (created_at : ℕ) (dto : CreateTurnaroundDto)
    (required : Bool) (w : Option WeatherData) (factor : ℕ) (ts : List TaskTemplate) (now : Date)
    → IsSound (
        hydrate id task_id created_at
          (new_turnaround dto (with_de_icing required w (map (new_task factor) ts)) now))
unfolding hydrate new_turnaround
hydrate-IsSound id task_id created_at dto required w factor ts now = record {
  bounded = omega arith;
  timed =
      new_tasks-IsTimed task_id 0 (with_de_icing required w (map (new_task factor) ts))
        (with_de_icing-IsPending required w (map (new_task factor) ts) (map-IsPending factor ts));
}
