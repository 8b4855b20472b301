-- ===== src/Turnaround/Calls/Effect/Identity.antt =====
-- Who a turnaround is, how many share an id or a flight, and the writes of
-- turnaround/turnaround.repository.ts.
use microservices_practice.Common.{
  ℕ, ◌+◌, ◌≤◌, String, ◌≡◌, refl, ap, ◌∙◌, Option, some, List, [], ◌∷◌, ◌++◌, map, none, arith, inl,
  inr, Bool-cases, str_eq, eq_iff, count_if, if◌then◌else◌,
}
use microservices_practice.Turnaround.Schema.{Date, Task, Turnaround}
use microservices_practice.Turnaround.Store.{
  Collection, TaskField, SetField, assign, assign_all, assign_task, assign_all_task, modify,
  modify_task, set_positional, find_by_id,
}
use microservices_practice.Turnaround.Store.Laws.{find_by_id-modify_self, find_by_id-modify_ne}
use microservices_practice.Turnaround.Concurrent.Flights.{turnarounds_of}
use microservices_practice.Turnaround.Calls.Effect.{
  Update, Effect, update, same, set, set_task, add,
}
use microservices_practice.Turnaround.Calls.Effect.Keeps.{find_by_id-append}

-- What a task and a turnaround are from their creation on.
pub record TaskIdentity : Type 0 where
  pub id : String
  pub name : String
  pub estimated_duration_minutes : ℕ
  pub required_certification : Option String
  pub required_equipment : Option String
  pub order : ℕ

pub record Identity : Type 0 where
  pub id : String
  pub flight_id : String
  pub flight_number : String
  pub aircraft_type : String
  pub aircraft_reg : Option String
  pub gate_id : Option String
  pub started_at : Option Date
  pub created_at : ℕ
  pub tasks : List TaskIdentity

abbrev pub task_identity : Task → TaskIdentity
task_identity t = record {
  id = t.id;
  name = t.name;
  estimated_duration_minutes = t.estimated_duration_minutes;
  required_certification = t.required_certification;
  required_equipment = t.required_equipment;
  order = t.order;
}

abbrev pub identity : Turnaround → Identity
identity d = record {
  id = d.id;
  flight_id = d.flight_id;
  flight_number = d.flight_number;
  aircraft_type = d.aircraft_type;
  aircraft_reg = d.aircraft_reg;
  gate_id = d.gate_id;
  started_at = d.started_at;
  created_at = d.created_at;
  tasks = map task_identity d.tasks;
}

assign-identity : (f : SetField) (d : Turnaround) → identity (assign f d) ≡ identity d
assign-identity (SetField.status s) d = refl
assign-identity _ d = refl

assign_all-identity :
    (fs : List SetField) (d : Turnaround) → identity (assign_all fs d) ≡ identity d
unfolding assign_all
assign_all-identity [] d = refl
assign_all-identity (f ∷ fs) d = assign_all-identity fs (assign f d) ∙ assign-identity f d

assign_task-identity :
    (f : TaskField) (t : Task) → task_identity (assign_task f t) ≡ task_identity t
assign_task-identity (TaskField.status s) t = refl
assign_task-identity _ t = refl

assign_all_task-identity :
    (fs : List TaskField) (t : Task) → task_identity (assign_all_task fs t) ≡ task_identity t
unfolding assign_all_task
assign_all_task-identity [] t = refl
assign_all_task-identity (f ∷ fs) t =
    assign_all_task-identity fs (assign_task f t) ∙ assign_task-identity f t

modify_task-identity :
    (id : String) (fs : List TaskField) (ts : List Task)
    → map task_identity (modify_task id (assign_all_task fs) ts) ≡ map task_identity ts
unfolding modify_task
modify_task-identity id fs [] = refl
modify_task-identity id fs (t ∷ ts) = elim (Bool-cases (str_eq t.id id)) [
  | inl here ↦ rw here (ap (λ x. x ∷ map task_identity ts) (assign_all_task-identity fs t))
  | inr other ↦ rw other (ap (λ xs. task_identity t ∷ xs) (modify_task-identity id fs ts))
]

set_positional-identity :
    (task_id : String) (fs : List TaskField) (d : Turnaround)
    → identity (set_positional task_id fs d) ≡ identity d
unfolding set_positional
set_positional-identity task_id fs d =
    ap (λ ts. record (identity d) { tasks = ts }) (modify_task-identity task_id fs d.tasks)

module _ (id : String) (f : Turnaround → Turnaround)
    (keeps : (d : Turnaround) → identity (f d) ≡ identity d) where
  same_id : (d : Turnaround) → (f d).id ≡ d.id
  same_id d = ap (λ (x : Identity). x.id) (keeps d)

  modify-identity :
      (c : Collection) (j : String) (d : Turnaround)
      → find_by_id j c ≡ some d
      → (d' : Turnaround) × (find_by_id j (modify id f c) ≡ some d') × (identity d' ≡ identity d)
  modify-identity c j d found = elim (Bool-cases (str_eq j id)) [
    | inl here ↦
        (f d, ground (arith, here, eq_iff j id, find_by_id-modify_self id f same_id c), keeps d)
    | inr other ↦
        (d, ground (arith, other, eq_iff j id, find_by_id-modify_ne id f same_id j c), refl)
  ]

  modify-ids :
      (c : Collection) (j : String)
      → count_if (λ (d : Turnaround). str_eq d.id j) (modify id f c)
        ≡ count_if (λ (d : Turnaround). str_eq d.id j) c
  unfolding modify
  modify-ids [] j = refl
  modify-ids (d ∷ c) j = ground (arith, same_id d, modify-ids c j)

  same_flight : (d : Turnaround) → (f d).flight_id ≡ d.flight_id
  same_flight d = ap (λ (x : Identity). x.flight_id) (keeps d)

  modify-flights :
      (c : Collection) (flight_id : String)
      → turnarounds_of flight_id (modify id f c) ≡ turnarounds_of flight_id c
  unfolding modify
  modify-flights [] flight_id = refl
  modify-flights (d ∷ c) flight_id = ground (arith, same_flight d, modify-flights c flight_id)

-- A flight keeps its turnarounds.
pub Update-turnarounds_of :
    (c c' : Collection) (flight_id : String)
    → Update c c'
    → turnarounds_of flight_id c' ≡ turnarounds_of flight_id c
Update-turnarounds_of c c' flight_id (same p) = ap (turnarounds_of flight_id) p
Update-turnarounds_of c c' flight_id (set id fs a p) =
    ap (turnarounds_of flight_id) p
    ∙ modify-flights id (assign_all fs) (assign_all-identity fs) c flight_id
Update-turnarounds_of c c' flight_id (set_task id task_id fs keeps p) =
    ap (turnarounds_of flight_id) p
    ∙ modify-flights id (set_positional task_id fs) (set_positional-identity task_id fs) c flight_id

-- A turnaround that is there stays there, and stays the same one.
pub Effect-identity :
    (c c' : Collection) (j : String) (d : Turnaround)
    → Effect c c'
    → find_by_id j c ≡ some d
    → (d' : Turnaround) × (find_by_id j c' ≡ some d') × (identity d' ≡ identity d)
Effect-identity c c' j d (update (same p)) h = (d, ap (find_by_id j) p ∙ h, refl)
Effect-identity c c' j d (update (set id fs a p)) h =
    let (d', found, kept) = modify-identity id (assign_all fs) (assign_all-identity fs) c j d h in
    (d', ap (find_by_id j) p ∙ found, kept)
Effect-identity c c' j d (update (set_task id task_id fs keeps p)) h =
    let (d', found, kept) =
      modify-identity id (set_positional task_id fs) (set_positional-identity task_id fs) c j d h in
    (d', ap (find_by_id j) p ∙ found, kept)
Effect-identity c c' j d (add x fresh sound p) h =
    (d, ap (find_by_id j) p ∙ find_by_id-append j c (x ∷ []) d h, refl)

-- How many turnarounds have an id.
abbrev pub ids : String → Collection → ℕ
ids j c = count_if (λ (d : Turnaround). str_eq d.id j) c

ids-append :
    (j : String) (c : Collection) (d : Turnaround)
    → ids j (c ++ d ∷ []) ≡ ids j c + (if str_eq d.id j then 1 else 0)
ids-append j [] d = ground arith
ids-append j (x ∷ c) d = ground (arith, ids-append j c d)

ids-none : (j : String) (c : Collection) → find_by_id j c ≡ none → ids j c ≡ 0
unfolding find_by_id
ids-none j [] h = refl
ids-none j (d ∷ c) h = ground (arith, ids-none j c)

-- No two turnarounds come to share an id.
pub Effect-ids : (c c' : Collection) (j : String) → Effect c c' → ids j c ≤ 1 → ids j c' ≤ 1
Effect-ids c c' j (update (same p)) h = rw p h
Effect-ids c c' j (update (set id fs a p)) h =
    rw p (omega (arith, modify-ids id (assign_all fs) (assign_all-identity fs) c j, h))
Effect-ids c c' j (update (set_task id task_id fs keeps p)) h = rw p (
    omega (
      arith,
      modify-ids id (set_positional task_id fs) (set_positional-identity task_id fs) c j,
      h,
    ))
Effect-ids c c' j (add d fresh sound p) h =
    rw p (ground (arith, ids-append j c d, ids-none d.id c fresh, eq_iff d.id j))
