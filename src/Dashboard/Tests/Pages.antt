-- ===== src/Dashboard/Tests/Pages.antt =====
-- A day at the gates.
use microservices_practice.Common.{◌-◌, ◌*◌, ◌<◌, ◌≡◌, some, arith}
use microservices_practice.Dashboard.StandPlan.{GateOccupancy, ends_at}
use microservices_practice.Dashboard.StandPlan.Chart.{window, block, block_started_before}
use microservices_practice.Dashboard.Tests.{stay}

-- It stood at the gate when the second day of the count began, and left within it.
abbrev overnight : GateOccupancy
overnight = record (stay "A1" "f1" 80000000) { end_time = some 90000000 }

block_started_before_example :
    let b = block (window 100000000) overnight in
    (b.left ≡ 0) × ((ends_at overnight - (window 100000000).from) * 100 < b.width)
unfolding window ends_at
block_started_before_example =
    block_started_before 100000000 overnight (omega arith) (omega arith) (omega arith) (omega arith)
