-- ===== src/Dashboard/View.antt =====
-- What the pages are made of (components/ui/StatusBadge.tsx, KpiCard.tsx, and the table that the routes
-- share): what stands in a cell, and what stands where a list belongs.
pub mod Shown
use Prim.Native.Char.{Char, code}
use Prim.Native.String
use microservices_practice.Common.{
  ℕ, String, Bool, true, false, ◌&&◌, ◌||◌, not, Option, none, some, List, [], ◌∷◌, map, leb, ◌==◌,
  str_eq, if◌then◌else◌,
}
use microservices_practice.Dashboard.Format.{Color, get_status_color}

-- `text.replace(/_/g, " ")`
unfoldable pub spaced : String → String
spaced String.[] = ""
spaced (String.◌∷◌ c s) = let rest = spaced s in String.◌∷◌ (if code c == b'_' then " " else c) rest

-- `\w`
abbrev pub is_word : Char → Bool
is_word c =
    (leb b'a' (code c) && leb (code c) b'z')
    || ((leb b'A' (code c) && leb (code c) b'Z')
        || ((leb b'0' (code c) && leb (code c) b'9') || code c == b'_'))

-- `toUpperCase` of a character is `upper`.
module _ (upper : Char → Char) where
  -- `text.replace(/\b\w/g, (c) => c.toUpperCase())`; `inside` says whether a word goes on.
  unfoldable pub title_case : (inside : Bool) → String → String
  title_case inside String.[] = ""
  title_case inside (String.◌∷◌ c s) =
      let rest = title_case (is_word c) s in
      String.◌∷◌ (if is_word c && not inside then upper c else c) rest

  -- `text.charAt(0).toUpperCase() + text.slice(1)`
  unfoldable pub capitalized : String → String
  capitalized String.[] = ""
  capitalized (String.◌∷◌ c s) = String.◌∷◌ (upper c) s

pub record Badge : Type 0 where
  pub color : Color
  pub text : String

-- `StatusBadge`
unfoldable pub status_badge : String → Badge
unfolding spaced
status_badge status = record { color = get_status_color status; text = spaced status }

pub record Card : Type 0 where
  pub title : String
  pub value : ℕ

-- A text in place of the list, or its rows.
pub data View {ℓ} (A : Type ℓ) : Type ℓ where
  message : String → View A
  rows : List A → View A

-- `xs && xs.length > 0 ? xs.map(row) : empty`
unfoldable pub list_view {ℓ κ} :
    {A : Type ℓ} {B : Type κ} → (empty : String) → (A → B) → Option (List A) → View B
list_view empty row none = message empty
list_view empty row (some []) = message empty
list_view empty row (some (x ∷ xs)) = rows (row x ∷ map row xs)

-- The same under `isLoading`.
unfoldable pub table_view {ℓ κ} :
    {A : Type ℓ} {B : Type κ}
    → (empty : String) → (A → B)
    → (is_loading : Bool) → Option (List A)
    → View B
unfolding list_view
table_view empty row is_loading data_of =
    if is_loading then message "Loading..." else list_view empty row data_of

-- `text || "—"`, and a value of `text &&`.
abbrev pub or_dash : Option String → String
or_dash none = "—"
or_dash (some text) = if str_eq text "" then "—" else text

abbrev pub if_given : Option String → Option String
if_given none = none
if_given (some text) = if str_eq text "" then none else some text

-- `data ?? []`: a query without data counts as one of nothing.
abbrev pub fetched : {A : Type 0} → Option (List A) → List A
fetched none = []
fetched (some xs) = xs
