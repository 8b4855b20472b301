-- ===== src/Turnaround/Store/Laws.antt =====
-- Looking up a document or a task after it, or another one, was changed.
use microservices_practice.Common.{
  String, ◌≡◌, ◌≢◌, refl, ap, ◌∙◌, some, List, [], ◌∷◌, ◌⊎◌, inl, inr, arith, eq_iff,
}
use mathlib.Core.Option
use microservices_practice.Turnaround.Schema.{Turnaround, Task}
use microservices_practice.Turnaround.Store.{
  Collection, TaskField, SetField, assign, assign_all, assign_task, assign_all_task, find_task,
  Result, ok, err, Error, modify_task, find_by_id, modify, set_positional,
}

-- A result is a value or an error.
pub Result-cases :
    {A : Type 0} (r : Result A) → ((a : A) × (r ≡ ok a)) ⊎ ((x : Error) × (r ≡ err x))
Result-cases (ok a) = inl (a, refl)
Result-cases (err x) = inr (x, refl)

module _ (id : String) (f : Turnaround → Turnaround)
    (keeps : (d : Turnaround) → (f d).id ≡ d.id) where
  pub find_by_id-modify_self :
      (c : Collection) → find_by_id id (modify id f c) ≡ Option.map f (find_by_id id c)
  unfolding find_by_id modify
  find_by_id-modify_self [] = refl
  find_by_id-modify_self (d ∷ c) = ground (arith, keeps d, find_by_id-modify_self c)

  pub find_by_id-modify_ne :
      (j : String) (c : Collection) → j ≢ id → find_by_id j (modify id f c) ≡ find_by_id j c
  unfolding find_by_id modify
  find_by_id-modify_ne j [] h = refl
  find_by_id-modify_ne j (d ∷ c) h =
      ground (arith, keeps d, eq_iff d.id id, eq_iff d.id j, find_by_id-modify_ne j c h)

pub find_by_id-id :
    (id : String) (c : Collection) (d : Turnaround) → find_by_id id c ≡ some d → d.id ≡ id
unfolding find_by_id
find_by_id-id id [] d h = cc
find_by_id-id id (x ∷ c) d h = ground (arith, eq_iff x.id id, find_by_id-id id c d)

pub assign-id : (f : SetField) (d : Turnaround) → (assign f d).id ≡ d.id
assign-id (SetField.status s) d = refl
assign-id _ d = refl

pub assign_all-id : (fs : List SetField) (d : Turnaround) → (assign_all fs d).id ≡ d.id
unfolding assign_all
assign_all-id [] d = refl
assign_all-id (f ∷ fs) d = ground (arith, assign_all-id fs (assign f d), assign-id f d)

pub set_positional-id :
    (task_id : String) (fs : List TaskField) (d : Turnaround)
    → (set_positional task_id fs d).id ≡ d.id
unfolding set_positional
set_positional-id task_id fs d = refl

assign_task-id : (f : TaskField) (t : Task) → (assign_task f t).id ≡ t.id
assign_task-id (TaskField.status s) t = refl
assign_task-id _ t = refl

pub assign_all_task-id : (fs : List TaskField) (t : Task) → (assign_all_task fs t).id ≡ t.id
unfolding assign_all_task
assign_all_task-id [] t = refl
assign_all_task-id (f ∷ fs) t =
    ground (arith, assign_all_task-id fs (assign_task f t), assign_task-id f t)

pub find_task-modify_task :
    (id : String) (f : Task → Task) (ts : List Task)
    → ((t : Task) → (f t).id ≡ t.id)
    → find_task id (modify_task id f ts) ≡ Option.map f (find_task id ts)
unfolding find_task modify_task
find_task-modify_task id f [] keeps = refl
find_task-modify_task id f (t ∷ ts) keeps =
    ground (arith, keeps t, find_task-modify_task id f ts keeps)

-- The updated task of a document, after `tasks.$` assignments.
pub find_task-set_positional :
    (id : String) (fs : List TaskField) (d : Turnaround) (task : Task)
    → find_task id d.tasks ≡ some task
    → find_task id (set_positional id fs d).tasks ≡ some (assign_all_task fs task)
unfolding set_positional
find_task-set_positional id fs d task h =
    find_task-modify_task id (assign_all_task fs) d.tasks (assign_all_task-id fs)
    ∙ ap (Option.map (assign_all_task fs)) h

pub find_task-modify_task_ne :
    (id : String) (f : Task → Task) (k : String) (ts : List Task)
    → ((t : Task) → (f t).id ≡ t.id)
    → k ≢ id
    → find_task k (modify_task id f ts) ≡ find_task k ts
unfolding find_task modify_task
find_task-modify_task_ne id f k [] keeps h = refl
find_task-modify_task_ne id f k (t ∷ ts) keeps h =
    ground
      (arith, keeps t, eq_iff t.id id, eq_iff t.id k, find_task-modify_task_ne id f k ts keeps h)

assign-tasks : (f : SetField) (d : Turnaround) → (assign f d).tasks ≡ d.tasks
assign-tasks (SetField.status s) d = refl
assign-tasks _ d = refl

-- An update of the document's own fields leaves its tasks alone.
pub assign_all-tasks : (fs : List SetField) (d : Turnaround) → (assign_all fs d).tasks ≡ d.tasks
unfolding assign_all
assign_all-tasks [] d = refl
assign_all-tasks (f ∷ fs) d = ground (arith, assign_all-tasks fs (assign f d), assign-tasks f d)
