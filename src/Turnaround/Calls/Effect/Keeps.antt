-- ===== src/Turnaround/Calls/Effect/Keeps.antt =====
-- The steps of Effect on the progress, the times and the starts of tasks (the writes of
-- turnaround/turnaround.repository.ts).
use microservices_practice.Common.{
  String, ◌≡◌, refl, ap, ◌∙◌, sym, true, some, List, [], ◌∷◌, ◌++◌, All, arith, is_some, inl, inr,
  Bool-cases, Option-cases, ◌⊎◌, str_eq, eq_iff,
}
use mathlib.Core.Path.{subst}
use microservices_practice.Turnaround.Schema.{Task, Turnaround}
use microservices_practice.Turnaround.Store.{
  Collection, TaskField, SetField, assign, assign_all, assign_task, assign_all_task, modify,
  modify_task, set_positional, find_by_id, find_task,
}
use microservices_practice.Turnaround.Store.Laws.{
  find_by_id-modify_self, set_positional-id, find_task-set_positional,
}
use microservices_practice.Turnaround.Concurrent.Apart.{
  Differs, task_in-assign_all, task_in-set_positional,
}
use microservices_practice.Turnaround.Service.Frame.{task_in}
use microservices_practice.Turnaround.Calls.Effect.{
  IsTimed, IsSound, IsAllowed, Effect, update, same, set, set_task, add,
}

assign-IsSound : (f : SetField) (d : Turnaround) → IsAllowed f → IsSound d → IsSound (assign f d)
assign-IsSound (SetField.status s) d a h = record { bounded = h.bounded; timed = h.timed }
assign-IsSound (SetField.progress_percent p) d a h = record { bounded = a; timed = h.timed }
assign-IsSound (SetField.completed_at t) d a h = record { bounded = h.bounded; timed = h.timed }
assign-IsSound (SetField.milestone k t) d a h = record { bounded = h.bounded; timed = h.timed }

assign_all-IsSound :
    (fs : List SetField) (d : Turnaround) → All IsAllowed fs → IsSound d → IsSound (assign_all fs d)
unfolding assign_all
assign_all-IsSound [] d a h = h
assign_all-IsSound (f ∷ fs) d (a, as') h =
    assign_all-IsSound fs (assign f d) as' (assign-IsSound f d a h)

-- A change of the first document with an id, or the first task.
All-modify :
    (P : Turnaround → Type 0) (id : String) (f : Turnaround → Turnaround) (c : Collection)
    → ((d : Turnaround) → find_by_id id c ≡ some d → P d → P (f d))
    → All P c
    → All P (modify id f c)
unfolding modify find_by_id
All-modify P id f [] g h = tt
All-modify P id f (d ∷ c) g (p, h) = elim (Bool-cases (str_eq d.id id)) [
  | inl here ↦ rw here (g d (rw here (refl)) p, h)
  | inr other ↦ rw other (p, All-modify P id f c (λ x found. g x (rw other found)) h)
]

All-modify_task :
    (P : Task → Type 0) (id : String) (f : Task → Task) (ts : List Task)
    → ((t : Task) → find_task id ts ≡ some t → P t → P (f t))
    → All P ts
    → All P (modify_task id f ts)
unfolding modify_task find_task
All-modify_task P id f [] g h = tt
All-modify_task P id f (t ∷ ts) g (p, h) = elim (Bool-cases (str_eq t.id id)) [
  | inl here ↦ rw here (g t (rw here (refl)) p, h)
  | inr other ↦ rw other (p, All-modify_task P id f ts (λ x found. g x (rw other found)) h)
]

All-append :
    (P : Turnaround → Type 0) (c : Collection) (d : Turnaround)
    → All P c
    → P d
    → All P (c ++ d ∷ [])
All-append P [] d h p = (p, tt)
All-append P (x ∷ c) d (q, h) p = (q, All-append P c d h p)

task_in_found :
    (id task_id : String) (c : Collection) (d : Turnaround)
    → find_by_id id c ≡ some d
    → task_in id task_id c ≡ find_task task_id d.tasks
task_in_found id task_id c d found = ground arith

set_positional-IsSound :
    (id task_id : String) (fs : List TaskField) (c : Collection) (d : Turnaround)
    → ((t : Task) → task_in id task_id c ≡ some t → IsTimed t → IsTimed (assign_all_task fs t))
    → find_by_id id c ≡ some d
    → IsSound d
    → IsSound (set_positional task_id fs d)
unfolding set_positional
set_positional-IsSound id task_id fs c d keeps found s = record {
  bounded = s.bounded;
  timed =
      All-modify_task IsTimed task_id (assign_all_task fs) d.tasks
        (λ t there. keeps t (task_in_found id task_id c d found ∙ there)) s.timed;
}

-- Writes keep sound documents sound.
pub Effect-IsSound : (c c' : Collection) → Effect c c' → All IsSound c → All IsSound c'
Effect-IsSound c c' (update (same p)) h = subst (All IsSound) (sym p) h
Effect-IsSound c c' (update (set id fs a p)) h =
    subst (All IsSound) (sym p)
      (All-modify IsSound id (assign_all fs) c (λ d found s. assign_all-IsSound fs d a s) h)
Effect-IsSound c c' (update (set_task id task_id fs keeps p)) h = subst (All IsSound) (sym p) (
    All-modify IsSound id (set_positional task_id fs) c
      (λ d. set_positional-IsSound id task_id fs c d keeps) h)
Effect-IsSound c c' (add d fresh sound p) h =
    subst (All IsSound) (sym p) (All-append IsSound c d h sound)

-- Fields of a task are never unset.
assign_all_task-started :
    (fs : List TaskField) (t : Task)
    → is_some t.started_at ≡ true
    → is_some (assign_all_task fs t).started_at ≡ true
unfolding assign_all_task
assign_all_task-started [] t h = h
assign_all_task-started (TaskField.status s ∷ fs) t h =
    assign_all_task-started fs (assign_task (TaskField.status s) t) h
assign_all_task-started (TaskField.started_at d ∷ fs) t h =
    assign_all_task-started fs (assign_task (TaskField.started_at d) t) refl
assign_all_task-started (TaskField.completed_at d ∷ fs) t h =
    assign_all_task-started fs (assign_task (TaskField.completed_at d) t) h
assign_all_task-started (TaskField.notes n ∷ fs) t h =
    assign_all_task-started fs (assign_task (TaskField.notes n) t) h
assign_all_task-started (TaskField.assigned_crew_id a ∷ fs) t h =
    assign_all_task-started fs (assign_task (TaskField.assigned_crew_id a) t) h
assign_all_task-started (TaskField.assigned_equipment_id a ∷ fs) t h =
    assign_all_task-started fs (assign_task (TaskField.assigned_equipment_id a) t) h

-- A task that is there stays there, and stays started.
pub record Follows (t t' : Task) : Type 0 where
  pub started : is_some t.started_at ≡ true → is_some t'.started_at ≡ true

pub find_by_id-append :
    (id : String) (c ds : Collection) (d : Turnaround)
    → find_by_id id c ≡ some d
    → find_by_id id (c ++ ds) ≡ some d
unfolding find_by_id
find_by_id-append id [] ds d h = cc
find_by_id-append id (x ∷ c) ds d h = ground (arith, find_by_id-append id c ds d)

task_in-append :
    (id task_id : String) (c ds : Collection) (t : Task)
    → task_in id task_id c ≡ some t
    → task_in id task_id (c ++ ds) ≡ some t
task_in-append id task_id c ds t h = elim (Option-cases (find_by_id id c)) [
  | inl missing ↦ ground arith
  | inr (d, found) ↦ ground (arith, find_by_id-append id c ds d found)
]

task_in-set_positional_self :
    (id task_id : String) (fs : List TaskField) (c : Collection) (t : Task)
    → task_in id task_id c ≡ some t
    → task_in id task_id (modify id (set_positional task_id fs) c) ≡ some (assign_all_task fs t)
task_in-set_positional_self id task_id fs c t h = elim (Option-cases (find_by_id id c)) [
  | inl missing ↦ ground arith
  | inr (d, found) ↦ ground (
    arith,
    find_by_id-modify_self id (set_positional task_id fs) (set_positional-id task_id fs) c,
    find_task-set_positional task_id fs d t,
  )
]

Differs-cases : (j k id task_id : String) → Differs j k id task_id ⊎ ((j ≡ id) × (k ≡ task_id))
Differs-cases j k id task_id = elim (Bool-cases (str_eq j id)) [
  | inr other ↦ inl (inl (ground (arith, eq_iff j id)))
  | inl one ↦ elim (Bool-cases (str_eq k task_id)) [
    | inr other ↦ inl (inr (ground (arith, eq_iff k task_id)))
    | inl two ↦ inr (ground (arith, eq_iff j id), ground (arith, eq_iff k task_id))
  ]
]

pub Effect-task_in :
    (c c' : Collection) (j k : String) (t : Task)
    → Effect c c'
    → task_in j k c ≡ some t
    → (t' : Task) × (task_in j k c' ≡ some t') × Follows t t'
Effect-task_in c c' j k t (update (same p)) h =
    (t, ap (task_in j k) p ∙ h, record { started = λ s. s })
Effect-task_in c c' j k t (update (set id fs a p)) h =
    (t, ap (task_in j k) p ∙ task_in-assign_all j k id fs c ∙ h, record { started = λ s. s })
Effect-task_in c c' j k t (update (set_task id task_id fs keeps p)) h =
    elim (Differs-cases j k id task_id) [
      | inl other ↦ (
        t,
        ap (task_in j k) p ∙ task_in-set_positional j k id task_id fs c other ∙ h,
        record { started = λ s. s },
      )
      | inr (one, two) ↦ (
        assign_all_task fs t,
        ap (task_in j k) p
            ∙ rw (one, two) (task_in-set_positional_self id task_id fs c t (rw⁻¹ (one, two) h)),
        record { started = assign_all_task-started fs t },
      )
    ]
Effect-task_in c c' j k t (add d fresh sound p) h =
    (t, ap (task_in j k) p ∙ task_in-append j k c (d ∷ []) t h, record { started = λ s. s })
