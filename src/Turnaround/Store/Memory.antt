-- ===== src/Turnaround/Store/Memory.antt =====
-- A store in memory, with faults at will, that meets `IsMongo`.
use microservices_practice.Common.{
  ℕ, zero, suc, String, ◌≡◌, refl, some, ◌∷◌, [], ◌++◌, arith, is_some, if◌then◌else◌,
}
use microservices_practice.Turnaround.Schema.{Turnaround, NewTurnaround}
use microservices_practice.Turnaround.Store.{
  Collection, Result, ok, Fault, fine, refused, Mongo, IsMongo, answer, write, hydrate, assign_all,
  set_positional, having_task, find_task, modify,
}
use microservices_practice.Turnaround.Store

-- Ids in unary.
unfoldable pub unary : ℕ → String
unary zero = "t"
unary (suc k) = String.◌∷◌ "i" (unary k)

abbrev insert_fault : (ℕ → Fault) → ℕ → Collection → Fault
insert_fault faults k c =
    if is_some (Store.find_by_id (unary k) c) then refused "E11000 duplicate key" else faults k

abbrev document : ℕ → NewTurnaround → Turnaround
document k d = hydrate (unary k) unary k d

-- The filter and the page of `find` are no part of `IsMongo`; this store gives the first `limit`
-- documents.
unfoldable pub memory : (ℕ → Fault) → Mongo
unfolding unary
memory faults = record {
  create = λ k d c. write (insert_fault faults k c) (document k d) (c ++ document k d ∷ []) c;
  find_by_id = λ k id c. answer (faults k) (Store.find_by_id id c);
  find_one = λ k flight_id c. answer (faults k) (Store.find_by_flight flight_id c);
  find = λ k status offset limit c. answer (faults k) c;
  find_by_id_and_update = λ k id fields c.
      let c' = modify id (assign_all fields) c in write (faults k) (Store.find_by_id id c') c' c;
  find_one_and_update = λ k id task_id fields c.
      let c' = modify id (set_positional task_id fields) c in
      write (faults k) (having_task task_id (Store.find_by_id id c')) c' c;
  task_by_id = λ ts task_id. find_task task_id ts;
}

insert_refused :
    (faults : ℕ → Fault) (k : ℕ) (c : Collection) (d : Turnaround)
    → Store.find_by_id (unary k) c ≡ some d
    → (e : String) × (insert_fault faults k c ≡ refused e)
insert_refused faults k c d h = ("E11000 duplicate key", ground arith)

pub memory-IsMongo : (faults : ℕ → Fault) → IsMongo (memory faults)
unfolding memory
memory-IsMongo faults = record {
  fault = faults;
  insert_fault = insert_fault faults;
  new_id = unary;
  new_task_id = λ k. unary;
  clock = λ k. k;
  new_id_fresh = insert_refused faults;
  create_lem = λ k d c. refl;
  find_by_id_lem = λ k id c. refl;
  find_one_lem = λ k flight_id c. refl;
  find_by_id_and_update_lem = λ k id fields c. refl;
  find_one_and_update_lem = λ k id task_id fields c. refl;
  task_by_id_lem = λ ts task_id. refl;
}

pub memory-fault : (faults : ℕ → Fault) (k : ℕ) → (memory-IsMongo faults).fault k ≡ faults k
unfolding memory-IsMongo
memory-fault faults k = refl

-- Into an empty collection every insertion goes as the store's faults say.
pub memory-insert_fault :
    (faults : ℕ → Fault) (k : ℕ) → (memory-IsMongo faults).insert_fault k [] ≡ faults k
unfolding memory-IsMongo Store.find_by_id
memory-insert_fault faults k = refl
