-- ===== src/Dashboard/View/Shown.antt =====
-- The rows that stand where a page puts a list (routes/*.tsx).
use microservices_practice.Common.{◌≡◌, refl, String, true, false, Option, some, List, [], ◌∷◌, map}
use microservices_practice.Dashboard.View.{View, message, rows, list_view, table_view}

-- The rows that stand there; a text is none.
abbrev pub shown {ℓ} : {A : Type ℓ} → View A → List A
shown (message text) = []
shown (rows xs) = xs

module _ {ℓ κ} {A : Type ℓ} {B : Type κ} (empty : String) (row : A → B) where
  pub shown-list_view : (xs : List A) → shown (list_view empty row (some xs)) ≡ map row xs
  unfolding list_view
  shown-list_view [] = refl
  shown-list_view (x ∷ xs) = refl

  pub shown-table_view : (xs : List A) → shown (table_view empty row false (some xs)) ≡ map row xs
  unfolding table_view
  shown-table_view xs = shown-list_view xs

  -- Nothing is shown while the query is under way, whatever data it had before.
  pub shown-loading : (data_of : Option (List A)) → shown (table_view empty row true data_of) ≡ []
  unfolding table_view
  shown-loading data_of = refl
