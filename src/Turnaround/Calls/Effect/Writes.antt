-- ===== src/Turnaround/Calls/Effect/Writes.antt =====
-- A write of turnaround/turnaround.repository.ts, which takes place or does not, as a step.
use microservices_practice.Common.{◌≡◌, sym, List, [], ◌∷◌, map, All}
use mathlib.Core.Path.{subst}
use microservices_practice.Turnaround.Schema.{Date, MilestoneKey}
use microservices_practice.Turnaround.Store.{Collection, Fault, fine, refused, lost, after}
use microservices_practice.Turnaround.Repository.{set_field}
use microservices_practice.Turnaround.Calls.Effect.{IsAllowed, Update, same}

-- A write takes place or does not.
pub after-Update :
    (f : Fault) (c c' c₁ : Collection) → c₁ ≡ after f c' c → Update c c' → Update c c₁
after-Update fine c c' c₁ p h = subst (Update c) (sym p) h
after-Update (refused x) c c' c₁ p h = same p
after-Update (lost x) c c' c₁ p h = subst (Update c) (sym p) h

pub milestones-IsAllowed : (ms : List (MilestoneKey × Date)) → All IsAllowed (map set_field ms)
milestones-IsAllowed [] = tt
milestones-IsAllowed ((k, d) ∷ ms) = (tt, milestones-IsAllowed ms)
