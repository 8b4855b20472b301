-- ===== src/Turnaround/Tasks/Orders.antt =====
-- The order of the tasks of a new turnaround.
use microservices_practice.Common.{
  ℕ, suc, ◌≤◌, String, ◌≡◌, refl, Bool, ◌⊎◌, inl, inr, Option, none, some, List, [], ◌∷◌, ◌++◌, map,
  find, arith, leb, str_eq, Option-cases, Bool-cases, if◌then◌else◌, All,
}
use mathlib.Core.List.{Perm}
use mathlib.Core.List.Perm
use microservices_practice.Turnaround.Schema.{NewTask}
use microservices_practice.Turnaround.World.{WeatherData}
use microservices_practice.Turnaround.Templates.{
  TaskTemplate, own, inherited, get_tasks_for_aircraft, own_entry, includes, object_prototype,
  aircraft_templates, scale_tasks, wide_body_tasks, narrow_body_tasks,
}
use microservices_practice.Turnaround.Weather.{DeIcingTask, get_de_icing_task}
use microservices_practice.Turnaround.Tasks.{
  new_task, max_order, is_boarding, delay_boarding, insert_by_order, sort_by_order, inject_de_icing,
  de_icing_at,
}

-- The orders are `k`, `k + 1`, … without a gap.
abbrev pub IsNumbered : ℕ → List NewTask → Type 0
IsNumbered k [] = Unit {0}
IsNumbered k (t ∷ ts) = (t.order ≡ k) × IsNumbered (suc k) ts

abbrev names : List NewTask → List String
names = map (λ (t : NewTask). t.name)

abbrev template_names : List TaskTemplate → List String
template_names = map (λ (t : TaskTemplate). t.name)

-- De-icing put directly before boarding.
abbrev before_boarding : List String → List String
before_boarding [] = []
before_boarding (n ∷ ns) =
    if str_eq n "boarding" then "de_icing" ∷ n ∷ ns else n ∷ before_boarding ns

-- The tables that a lookup can give.
abbrev pub IsTable : List TaskTemplate → Type 0
IsTable ts =
    (ts ≡ wide_body_tasks)
    ⊎ ((ts ≡ scale_tasks wide_body_tasks 85)
        ⊎ ((ts ≡ scale_tasks wide_body_tasks 80) ⊎ (ts ≡ narrow_body_tasks)))

entry_cases :
    (k : String) (a b c d ts : List TaskTemplate)
    → own_entry k (("A380", a) ∷ ("A350", b) ∷ ("B787", c) ∷ ("B737", d) ∷ []) ≡ some ts
    → (ts ≡ a) ⊎ ((ts ≡ b) ⊎ ((ts ≡ c) ⊎ (ts ≡ d)))
unfolding own_entry
entry_cases k a b c d ts h = ground arith

fallback_cases :
    (o : Option (List TaskTemplate)) (b : Bool) (n ts : List TaskTemplate)
    → elim o [ some found ↦ own found | none ↦ if b then inherited else own n ] ≡ own ts
    → (o ≡ some ts) ⊎ (ts ≡ n)
fallback_cases o b n ts h = ground arith

pub own_cases :
    (aircraft_type : String) (ts : List TaskTemplate)
    → get_tasks_for_aircraft aircraft_type ≡ own ts
    → IsTable ts
unfolding get_tasks_for_aircraft aircraft_templates
own_cases aircraft_type ts h =
    elim (fallback_cases (own_entry aircraft_type aircraft_templates)
      (includes aircraft_type object_prototype) narrow_body_tasks ts h) [
        | inl found ↦
            entry_cases aircraft_type wide_body_tasks (scale_tasks wide_body_tasks 85)
              (scale_tasks wide_body_tasks 80) narrow_body_tasks ts found
        | inr fallback ↦ inr (inr (inr fallback))
      ]

-- The tasks of a new turnaround, without and with de-icing.
abbrev IsListed : List String → List NewTask → Type 0
IsListed ns ts = IsNumbered 1 ts × (names ts ≡ ns)

pub plain_IsListed :
    (ts : List TaskTemplate) (factor : ℕ)
    → IsTable ts
    → IsListed (template_names ts) (map (new_task factor) ts)
unfolding new_task scale_tasks
plain_IsListed ts factor (inl a) = rw a (ground arith)
plain_IsListed ts factor (inr (inl a)) = rw a (ground arith)
plain_IsListed ts factor (inr (inr (inl a))) = rw a (ground arith)
plain_IsListed ts factor (inr (inr (inr a))) = rw a (ground arith)

pub de_icing_IsListed :
    (weather : Option WeatherData) (ts : List TaskTemplate) (factor : ℕ)
    → IsTable ts
    → let tasks = map (new_task factor) ts in
      IsListed
        (before_boarding (template_names ts))
        (inject_de_icing (get_de_icing_task weather (max_order tasks)) tasks)
unfolding new_task scale_tasks inject_de_icing get_de_icing_task
de_icing_IsListed weather ts factor (inl a) = rw a (ground arith)
de_icing_IsListed weather ts factor (inr (inl a)) = rw a (ground arith)
de_icing_IsListed weather ts factor (inr (inr (inl a))) = rw a (ground arith)
de_icing_IsListed weather ts factor (inr (inr (inr a))) = rw a (ground arith)

-- Sorting keeps every task.
insert_by_order-perm : (t : NewTask) (ts : List NewTask) → Perm (insert_by_order t ts) (t ∷ ts)
unfolding insert_by_order
insert_by_order-perm t [] = Perm.refl (t ∷ [])
insert_by_order-perm t (u ∷ us) = elim (Bool-cases (leb t.order u.order)) [
  | inl here ↦ rw here (Perm.refl (t ∷ u ∷ us))
  | inr later ↦ rw later (Perm.trans (Perm.cons u (insert_by_order-perm t us)) (Perm.swap t u us))
]

sort_by_order-perm : (ts : List NewTask) → Perm (sort_by_order ts) ts
unfolding sort_by_order
sort_by_order-perm [] = Perm.refl []
sort_by_order-perm (t ∷ ts) =
    Perm.trans (insert_by_order-perm t (sort_by_order ts)) (Perm.cons t (sort_by_order-perm ts))

-- The orders rise from each task to the next.
abbrev IsSorted : List NewTask → Type 0
IsSorted [] = Unit {0}
IsSorted (t ∷ ts) = All (λ (u : NewTask). t.order ≤ u.order) ts × IsSorted ts

insert_by_order-All :
    (k : ℕ) (t : NewTask) (ts : List NewTask)
    → k ≤ t.order
    → All (λ (u : NewTask). k ≤ u.order) ts
    → All (λ (u : NewTask). k ≤ u.order) (insert_by_order t ts)
unfolding insert_by_order
insert_by_order-All k t [] h a = (h, tt)
insert_by_order-All k t (u ∷ us) h a = ground (arith, insert_by_order-All k t us h a.1)

All-le_trans :
    (j k : ℕ) (ts : List NewTask)
    → j ≤ k
    → All (λ (u : NewTask). k ≤ u.order) ts
    → All (λ (u : NewTask). j ≤ u.order) ts
All-le_trans j k [] h a = tt
All-le_trans j k (t ∷ ts) h a = (omega arith, All-le_trans j k ts h a.1)

insert_by_order-IsSorted :
    (t : NewTask) (ts : List NewTask) → IsSorted ts → IsSorted (insert_by_order t ts)
unfolding insert_by_order
insert_by_order-IsSorted t [] s = (tt, tt)
insert_by_order-IsSorted t (u ∷ us) s = elim (Bool-cases (leb t.order u.order)) [
  | inl here ↦
      let le : t.order ≤ u.order = ground arith in
      rw here ((le, All-le_trans t.order u.order us le s.0), s)
  | inr later ↦
      rw later
        (insert_by_order-All u.order t us (ground arith) s.0, insert_by_order-IsSorted t us s.1)
]

sort_by_order-IsSorted : (ts : List NewTask) → IsSorted (sort_by_order ts)
unfolding sort_by_order
sort_by_order-IsSorted [] = tt
sort_by_order-IsSorted (t ∷ ts) =
    insert_by_order-IsSorted t (sort_by_order ts) (sort_by_order-IsSorted ts)

no_boarding : (ts : List NewTask) → find is_boarding ts ≡ none → delay_boarding ts ≡ ts
unfolding delay_boarding
no_boarding [] h = refl
no_boarding (t ∷ ts) h = ground (arith, no_boarding ts)

-- Whatever the tasks are, injecting de-icing sorts them by order and keeps each of them, with
-- boarding moved back by one if there is boarding, beside one task of the de-icing's name.
inject_de_icing_lem :
    (d : DeIcingTask) (tasks : List NewTask)
    → IsSorted (inject_de_icing d tasks)
      × ((at : ℕ) × Perm (inject_de_icing d tasks) (delay_boarding tasks ++ de_icing_at d at ∷ []))
unfolding inject_de_icing
inject_de_icing_lem d tasks = elim (Option-cases (find is_boarding tasks)) [
  | inl unboarded ↦
      let all = tasks ++ de_icing_at d d.order ∷ [] in
      rw (unboarded, inject_de_icing, no_boarding tasks unboarded)
        (sort_by_order-IsSorted all, (d.order, sort_by_order-perm all))
  | inr (b, found) ↦
      let all = delay_boarding tasks ++ de_icing_at d b.order ∷ [] in
      rw (found, inject_de_icing) (sort_by_order-IsSorted all, (b.order, sort_by_order-perm all))
]
