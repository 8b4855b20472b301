-- ===== src/Dashboard/Format/Colors.antt =====
-- Every status has a colour of its own.
use microservices_practice.Common.{String, ◌≡◌, refl, true, is_some}
use microservices_practice.Turnaround.Schema.{TaskStatus, TurnaroundStatus}
use microservices_practice.Dashboard.Types.{EquipmentStatus}
use microservices_practice.Dashboard.Format.{
  own_color, status_colors, turnaround_status, task_status, equipment_status,
}

abbrev pub HasColor : String → Type 0
HasColor status = is_some (own_color status status_colors) ≡ true

turnaround_status-HasColor : (s : TurnaroundStatus) → HasColor (turnaround_status s)
unfolding own_color status_colors turnaround_status
turnaround_status-HasColor TurnaroundStatus.pending = refl
turnaround_status-HasColor TurnaroundStatus.in_progress = refl
turnaround_status-HasColor TurnaroundStatus.completed = refl
turnaround_status-HasColor TurnaroundStatus.delayed = refl
turnaround_status-HasColor TurnaroundStatus.cancelled = refl

task_status-HasColor : (t : TaskStatus) → HasColor (task_status t)
unfolding own_color status_colors task_status
task_status-HasColor TaskStatus.pending = refl
task_status-HasColor TaskStatus.in_progress = refl
task_status-HasColor TaskStatus.completed = refl
task_status-HasColor TaskStatus.blocked = refl
task_status-HasColor TaskStatus.skipped = refl

equipment_status-HasColor : (e : EquipmentStatus) → HasColor (equipment_status e)
unfolding own_color status_colors equipment_status
equipment_status-HasColor EquipmentStatus.available = refl
equipment_status-HasColor EquipmentStatus.in_use = refl
equipment_status-HasColor EquipmentStatus.maintenance = refl
equipment_status-HasColor EquipmentStatus.out_of_service = refl

-- No status of a turnaround, of a task or of equipment falls back to the default colour.
own_color-HasColor :
    (s : TurnaroundStatus) (t : TaskStatus) (e : EquipmentStatus)
    → HasColor (turnaround_status s) × HasColor (task_status t) × HasColor (equipment_status e)
own_color-HasColor s t e =
    (turnaround_status-HasColor s, task_status-HasColor t, equipment_status-HasColor e)
