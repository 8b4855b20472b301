-- ===== src/Turnaround/Concurrent/Leaves.antt =====
-- How much an action leaves to do, by a measure of what it returns; after an error nothing is left.
use microservices_practice.Common.{ℕ, ◌≤◌, Bool, true, false, Option, none, some, arith}
use microservices_practice.Turnaround.Store.{Error, Result, ok, err}
use microservices_practice.Turnaround.World.{World, Action, pure, throw, ◌>>=◌}

-- What a result leaves.
abbrev pub left : {S : Type 0} → (S → ℕ) → Result S → ℕ
left size (ok s) = size s
left size (err x) = 0

module _ {S : Type 0} (size : S → ℕ) where
  -- An action leaves at most `n`.
  unfoldable pub Leaves : ℕ → Action S → Type 0
  Leaves n m = (w : World) → left size (m w).0 ≤ n

  pub Leaves-pure : (n : ℕ) (s : S) → size s ≤ n → Leaves n (pure s)
  unfolding Leaves
  Leaves-pure n s h = λ w. h

  pub Leaves-throw : (n : ℕ) (x : Error) → Leaves n (throw x)
  unfolding Leaves
  Leaves-throw n x = λ w. omega arith

  module _ {A : Type 0} (n : ℕ) (k : A → Action S) (h : (a : A) → Leaves n (k a)) where
    Leaves-reply : (r : Result A) (w : World) → left size (((λ (v : World). (r, w)) >>= k) w).0 ≤ n
    unfolding Leaves
    Leaves-reply (ok a) w = h a w
    Leaves-reply (err e) w = omega arith

    pub Leaves-bind : (m : Action A) → Leaves n (m >>= k)
    unfolding Leaves
    Leaves-bind m = λ w. Leaves-reply (m w).0 (m w).1

  module _ {A : Type 0} (n : ℕ) (on_none : Action S) (on_some : A → Action S) where
    pub Leaves-option :
        Leaves n on_none
        → ((a : A) → Leaves n (on_some a))
        → (o : Option A) → Leaves n (λ w. elim o [ some a ↦ on_some a w | none ↦ on_none w ])
    unfolding Leaves
    Leaves-option h g none = λ w. h w
    Leaves-option h g (some a) = λ w. g a w

  pub Leaves-if :
      (n : ℕ) (on_true on_false : Action S)
      → Leaves n on_true
      → Leaves n on_false
      → (b : Bool) → Leaves n (λ w. elim b [ true ↦ on_true w | false ↦ on_false w ])
  unfolding Leaves
  Leaves-if n x y h g true = λ w. h w
  Leaves-if n x y h g false = λ w. g w
