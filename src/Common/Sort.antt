-- ===== src/Common/Sort.antt =====
-- `xs.sort((a, b) => a.key - b.key)` on natural keys, which is stable, as insertion.
use Prim.Native.Nat.{ℕ, ◌≤◌}
use mathlib.Core.Logic.{inl, inr}
use mathlib.Core.Path.{◌≡◌, refl, ap, ◌∙◌}
use mathlib.Core.List.{List, [], ◌∷◌, Perm}
use mathlib.Core.List.Perm
use native.Mathlib.Omega.{arith}
use microservices_practice.Common.Tests.{leb, Bool-cases, if◌then◌else◌}
use microservices_practice.Common.Lists.{All}

module _ {ℓ} {A : Type ℓ} (key : A → ℕ) where
  unfoldable pub insert_by : A → List A → List A
  insert_by a [] = a ∷ []
  insert_by a (x ∷ xs) = if leb (key a) (key x) then a ∷ x ∷ xs else x ∷ insert_by a xs

  unfoldable pub sort_by : List A → List A
  unfolding insert_by
  sort_by [] = []
  sort_by (x ∷ xs) = insert_by x (sort_by xs)

  abbrev pub IsAscending : List A → Type 0
  IsAscending [] = Unit {0}
  IsAscending (x ∷ xs) = All (λ y. key x ≤ key y) xs × IsAscending xs

  insert_by-perm : (a : A) (xs : List A) → Perm (insert_by a xs) (a ∷ xs)
  unfolding insert_by
  insert_by-perm a [] = Perm.refl (a ∷ [])
  insert_by-perm a (x ∷ xs) = elim (Bool-cases (leb (key a) (key x))) [
    | inl here ↦ rw here (Perm.refl (a ∷ x ∷ xs))
    | inr later ↦ rw later (Perm.trans (Perm.cons x (insert_by-perm a xs)) (Perm.swap a x xs))
  ]

  -- Sorting keeps every element.
  pub sort_by-perm : (xs : List A) → Perm (sort_by xs) xs
  unfolding sort_by
  sort_by-perm [] = Perm.refl []
  sort_by-perm (x ∷ xs) = Perm.trans (insert_by-perm x (sort_by xs)) (Perm.cons x (sort_by-perm xs))

  insert_by-All :
      (m : ℕ) (a : A) (xs : List A)
      → m ≤ key a
      → All (λ y. m ≤ key y) xs
      → All (λ y. m ≤ key y) (insert_by a xs)
  unfolding insert_by
  insert_by-All m a [] h hs = (h, tt)
  insert_by-All m a (x ∷ xs) h (k, hs) = elim (Bool-cases (leb (key a) (key x))) [
    | inl here ↦ rw here (h, (k, hs))
    | inr later ↦ rw later (k, insert_by-All m a xs h hs)
  ]

  All-trans : (m n : ℕ) (xs : List A) → m ≤ n → All (λ y. n ≤ key y) xs → All (λ y. m ≤ key y) xs
  All-trans m n [] h hs = tt
  All-trans m n (x ∷ xs) h (k, hs) = (omega (arith, h, k), All-trans m n xs h hs)

  insert_by-IsAscending : (a : A) (xs : List A) → IsAscending xs → IsAscending (insert_by a xs)
  unfolding insert_by
  insert_by-IsAscending a [] h = (tt, tt)
  insert_by-IsAscending a (x ∷ xs) (hs, h) = elim (Bool-cases (leb (key a) (key x))) [
    | inl here ↦
        let p : key a ≤ key x = ground arith in
        rw here ((p, All-trans (key a) (key x) xs p hs), (hs, h))
    | inr later ↦
        let p : key x ≤ key a = ground arith in
        rw later (insert_by-All (key x) a xs p hs, insert_by-IsAscending a xs h)
  ]

  -- What it leaves is in ascending order.
  pub sort_by-IsAscending : (xs : List A) → IsAscending (sort_by xs)
  unfolding sort_by
  sort_by-IsAscending [] = tt
  sort_by-IsAscending (x ∷ xs) = insert_by-IsAscending x (sort_by xs) (sort_by-IsAscending xs)

  insert_by_first : (a : A) (xs : List A) → All (λ y. key a ≤ key y) xs → insert_by a xs ≡ a ∷ xs
  unfolding insert_by
  insert_by_first a [] h = refl
  insert_by_first a (x ∷ xs) (k, h) = ground arith

  -- A list in ascending order stays as it is.
  pub sort_by_ascending : (xs : List A) → IsAscending xs → sort_by xs ≡ xs
  unfolding sort_by
  sort_by_ascending [] h = refl
  sort_by_ascending (x ∷ xs) (hs, h) =
      ap (insert_by x) (sort_by_ascending xs h) ∙ insert_by_first x xs hs
