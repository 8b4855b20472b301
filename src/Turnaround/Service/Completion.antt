-- ===== src/Turnaround/Service/Completion.antt =====
-- The progress and the status of a turnaround after `updateTask`.
use microservices_practice.Common.{
  ℕ, suc, ◌<◌, String, ◌≡◌, refl, ◌⊎◌, inl, inr, some, List, [], ◌∷◌, length, arith, ◌==◌,
  Bool-cases,
}
use mathlib.Core.Path.{sym, subst}
use microservices_practice.Turnaround.Schema.{TurnaroundStatus, Turnaround, Task}
use microservices_practice.Turnaround.Dto.{UpdateTaskDto}
use microservices_practice.Turnaround.Store.{
  ok, find_by_id, find_task, set_positional, modify_task, assign_all_task, IsMongo,
}
use microservices_practice.Turnaround.World.{Env, World}
use microservices_practice.Turnaround.Service.{update_task}
use microservices_practice.Turnaround.Service.Update.{update_task_ok, settled}
use microservices_practice.Turnaround.Tasks.{completed_count, progress_of, task_updates}
use microservices_practice.Turnaround.Tasks.Progress.{completed_count-le-length, progress_of-lt}

-- A list in which a task is found is not empty.
length-pos : (id : String) (ts : List Task) (t : Task) → find_task id ts ≡ some t → 0 < length ts
unfolding find_task
length-pos id [] t h = cc
length-pos id (x ∷ ts) t h = omega arith

length-modify_task :
    (id : String) (f : Task → Task) (ts : List Task) → length (modify_task id f ts) ≡ length ts
unfolding modify_task
length-modify_task id f [] = refl
length-modify_task id f (t ∷ ts) = ground (arith, length-modify_task id f ts)

-- Every task is done, and the turnaround is closed at 100 percent, ready at the time of completion;
-- or a task is open, and the progress is below 100 percent.
abbrev pub IsSettled : Turnaround → Type 0
IsSettled t =
    ((completed_count t.tasks ≡ length t.tasks)
      × (t.status ≡ TurnaroundStatus.completed)
      × (t.progress_percent ≡ 100)
      × (t.milestones.ardt ≡ t.completed_at))
    ⊎ ((completed_count t.tasks < length t.tasks)
        × (t.progress_percent < 100)
        × (t.progress_percent ≡ progress_of (completed_count t.tasks) (length t.tasks)))

settled-IsSettled : (now : ℕ) (u : Turnaround) → length u.tasks < 200 → IsSettled (settled now u)
settled-IsSettled now u small = elim (Bool-cases (completed_count u.tasks == length u.tasks)) [
  | inl all ↦ rw all (inl (ground arith))
  | inr part ↦
      let fewer : completed_count u.tasks < length u.tasks =
        ground (arith, completed_count-le-length u.tasks) in
      rw part
        (inr (fewer, progress_of-lt (completed_count u.tasks) (length u.tasks) fewer small, refl))
]

module _ (e : Env) (laws : IsMongo e.mongo) where
  -- When `updateTask` returns on a turnaround of fewer than 40 tasks, either every task is
  -- completed or skipped, and the turnaround is completed at 100 percent, its ARDT the time of
  -- completion; or some task is open, and the progress is the rounded share, below 100 percent.
  pub update_task-IsSettled :
      (id task_id : String) (dto : UpdateTaskDto) (d t : Turnaround) (w w' : World)
      → find_by_id id w.db ≡ some d
      → length d.tasks < 40
      → update_task e id task_id dto w ≡ (ok t, w')
      → IsSettled t
  unfolding set_positional
  update_task-IsSettled id task_id dto d t w w' found small h =
      let (d', task, k, found', there, same, stored) =
        update_task_ok e laws id task_id dto t w w' h in
      let u = set_positional task_id (task_updates dto task (e.now (suc w.calls))) d' in
      let few : length u.tasks < 200 = ground (
        arith,
        found,
        found',
        length-modify_task task_id (assign_all_task (task_updates dto task (e.now (suc w.calls))))
            d'.tasks,
      ) in
      subst IsSettled (sym same) (settled-IsSettled (e.now k) u few)
