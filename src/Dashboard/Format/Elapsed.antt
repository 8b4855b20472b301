-- ===== src/Dashboard/Format/Elapsed.antt =====
-- What an elapsed time says.
use microservices_practice.Common.{ℕ, suc, ◌-◌, ◌*◌, ◌≤◌, ◌<◌, arith}
use microservices_practice.Dashboard.Format.{TimeUnit, seconds, minutes, hours, days, time_ago}

-- A unit in milliseconds.
abbrev pub length_of : TimeUnit → ℕ
length_of seconds = 1000
length_of minutes = 60 * 1000
length_of hours = 60 * 60 * 1000
length_of days = 24 * 60 * 60 * 1000

-- The amount is what has passed in whole units, rounded down.
time_ago_lem :
    (now time : ℕ)
    → let a = time_ago now time in
      (a.amount * length_of a.unit ≤ now - time) × (now - time < suc a.amount * length_of a.unit)
unfolding time_ago
time_ago_lem now time = (ground arith, ground arith)
