-- ===== src/Dashboard/Queries/Listing.antt =====
-- A query of turnarounds on its way through the address, the controller, the service and the
-- repository, to the store.
use microservices_practice.Common.{
  ℕ, String, ◌≡◌, Option, none, some, List, inl, inr, arith, ap, ◌∙◌, str_eq, Bool-cases, ◌<◌,
  if◌then◌else◌,
}
use microservices_practice.Common.Int.{pos}
use microservices_practice.Common.Number.{integer}
use microservices_practice.Common.Number.Decimal.{parse_int-decimal}
use microservices_practice.Turnaround.Schema.{Turnaround}
use microservices_practice.Turnaround.World.{Env, Action}
use microservices_practice.Turnaround.Repository.{reading}
use microservices_practice.Turnaround.Repository
use microservices_practice.Turnaround.Service
use microservices_practice.Turnaround.Controller.{Query, query_value}
use microservices_practice.Turnaround.Controller
use microservices_practice.Dashboard.Queries.{use_turnarounds}

-- The status to ask for: none for an empty one.
abbrev pub unless_empty : Option String → Option String
unless_empty none = none
unless_empty (some s) = if str_eq s "" then none else some s

-- The store's page for a limit, an offset and a status.
abbrev pub page : Env → ℕ → ℕ → Option String → Action (List Turnaround)
page e limit offset status =
    reading (λ k. e.mongo.find k (unless_empty status) (integer (pos offset)) (integer (pos limit)))

list-params :
    (e : Env) (limit offset : ℕ) (status : Option String)
    → Controller.list e (use_turnarounds limit offset status).params ≡ page e limit offset status
unfolding Controller.list Service.list_turnarounds Repository.list query_value use_turnarounds
list-params e limit offset none = rw (parse_int-decimal limit, parse_int-decimal offset)
list-params e limit offset (some s) = elim (Bool-cases (str_eq s "")) [
  | inl h ↦ rw (h, parse_int-decimal limit, parse_int-decimal offset)
  | inr h ↦ ground (arith, h, parse_int-decimal limit, parse_int-decimal offset)
]

-- `URLSearchParams` writes the parameters into the address, and the framework reads them.
module _ (encode : Query → String) (decode : String → Query) where
  -- Where the framework reads the pairs that the dashboard wrote, for a limit and an offset below
  -- 2 ^ 53 the store is asked for the limit, the offset and the status that useTurnarounds was given,
  -- and for no status where that is empty or missing.
  pub list-use_turnarounds :
      (e : Env) (limit offset : ℕ) (status : Option String)
      → limit < 9007199254740992
      → offset < 9007199254740992
      → decode (encode (use_turnarounds limit offset status).params)
        ≡ (use_turnarounds limit offset status).params
      → Controller.list e (decode (encode (use_turnarounds limit offset status).params))
        ≡ page e limit offset status
  list-use_turnarounds e limit offset status small near h =
      ap (Controller.list e) h ∙ list-params e limit offset status
