-- ===== src/Turnaround/Tasks/Progress.antt =====
-- Bounds of the progress percentage.
use microservices_practice.Common.{
  ℕ, ◌+◌, ◌*◌, ◌/◌, ◌≤◌, ◌<◌, ◌≡◌, List, length, arith, count_if-le,
}
use microservices_practice.Turnaround.Schema.{Task}
use microservices_practice.Turnaround.Tasks.{is_done, completed_count, progress_of}

pub completed_count-le-length : (ts : List Task) → completed_count ts ≤ length ts
unfolding completed_count
completed_count-le-length ts = count_if-le is_done ts

-- A quotient is below a bound that its dividend is below.
div-lt : (a n q : ℕ) → 0 < n → a < n * q → a / n < q
div-lt a n q pos h = grind arith

pub progress_of_all : (n : ℕ) → 0 < n → progress_of n n ≡ 100
unfolding progress_of
progress_of_all n h = grind arith

pub progress_of-lt : (c n : ℕ) → c < n → n < 200 → progress_of c n < 100
unfolding progress_of
progress_of-lt c n h small = div-lt (200 * c + n) (2 * n) 100 (omega arith) (omega arith)

pub progress_of-le : (c n : ℕ) → c ≤ n → progress_of c n ≤ 100
unfolding progress_of
progress_of-le c n h = grind arith
