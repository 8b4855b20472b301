-- ===== src/Dashboard/Settings/Health.antt =====
-- The health panel, whatever the order of the replies.
use microservices_practice.Common.{
  ℕ, suc, zero, ◌+◌, ◌≡◌, refl, sym, ap, ◌∙◌, ◌<◌, Bool, true, false, ◌||◌, some, List, [], ◌∷◌,
  ◌==◌, if◌then◌else◌, arith,
}
use microservices_practice.Dashboard.Settings.{ServiceHealth, set_healthy, settle}

-- The index and the answer of each reply, in the order in which they come.
abbrev pub replies : (ℕ → Bool) → List ℕ → List (ℕ × Bool)
replies answer [] = []
replies answer (i ∷ is) = (i, answer i) ∷ replies answer is

abbrev pub includes : ℕ → List ℕ → Bool
includes i [] = false
includes i (j ∷ js) = (i == j) || includes i js

-- What the services show when those of a list have answered, counted from `k`.
abbrev pub shown : (ℕ → Bool) → List ℕ → ℕ → List ServiceHealth → List ServiceHealth
shown answer order k [] = []
shown answer order k (svc ∷ rest) =
    (if includes k order then record svc { healthy = some (answer k) } else svc)
    ∷ shown answer order (suc k) rest

shown_none :
    (answer : ℕ → Bool) (k : ℕ) (services : List ServiceHealth)
    → shown answer [] k services ≡ services
shown_none answer k [] = refl
shown_none answer k (svc ∷ rest) = ap (λ x. svc ∷ x) (shown_none answer (suc k) rest)

-- An answer below the first service changes nothing.
shown_below :
    (answer : ℕ → Bool) (i k : ℕ) (is : List ℕ) (services : List ServiceHealth)
    → i < k
    → shown answer (i ∷ is) k services ≡ shown answer is k services
shown_below answer i k is [] h = refl
shown_below answer i k is (svc ∷ rest) h =
    ground (arith, shown_below answer i (suc k) is rest (omega arith))

shown-set_healthy :
    (answer : ℕ → Bool) (j i k : ℕ) (is : List ℕ) (services : List ServiceHealth)
    → j ≡ k + i
    → shown answer is k (set_healthy i (answer j) services) ≡ shown answer (j ∷ is) k services
unfolding set_healthy
shown-set_healthy answer j i k is [] h = refl
shown-set_healthy answer j zero k is (svc ∷ rest) h =
    let here : (k == j) ≡ true = ground (arith, h) in
    let there = shown_below answer j (suc k) is rest (omega (arith, h)) in
    let same : j ≡ k = omega (arith, h) in ground (arith, here, there, same)
shown-set_healthy answer j (suc i) k is (svc ∷ rest) h =
    let rest_same = shown-set_healthy answer j i (suc k) is rest (omega (arith, h)) in
    let other : (k == j) ≡ false = ground (arith, h) in rw (rest_same, other)

-- Whatever the order in which services answer, and however often, if always the same, each that has
-- answered shows its own answer, and the others are as they were.
settle-shown :
    (answer : ℕ → Bool) (order : List ℕ) (services : List ServiceHealth)
    → settle (replies answer order) services ≡ shown answer order 0 services
unfolding settle
settle-shown answer [] services = sym (shown_none answer 0 services)
settle-shown answer (i ∷ is) services =
    settle-shown answer is (set_healthy i (answer i) services)
    ∙ shown-set_healthy answer i i 0 is services (omega arith)
