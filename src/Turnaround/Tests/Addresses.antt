-- ===== src/Turnaround/Tests/Addresses.antt =====
-- A query in the address of a request.
use Prim.Native.Char.{code}
use Prim.Native.String.{◌++◌ as text_append}
use microservices_practice.Common.{
  ◌≡◌, refl, String, Bool, arith, false, some, [], ◌∷◌, ◌==◌, ◌||◌, if◌then◌else◌,
}
use microservices_practice.Common.Number
use microservices_practice.Turnaround.Controller
use microservices_practice.Turnaround.Controller.{Query}
use microservices_practice.Turnaround.Tests.{env}
use microservices_practice.Dashboard.Queries.{use_turnarounds}
use microservices_practice.Dashboard.Queries.Listing.{page, list-use_turnarounds}

abbrev encode : Query → String
encode [] = ""
encode ((key, value) ∷ rest) =
    text_append key (text_append "=" (text_append value (text_append "&" (encode rest))))

-- Reads the pair that stands before `=` and `&`, with what of it was read before.
unfoldable read : String → Bool → String → String → Query
read String.[] behind key value = []
read (String.◌∷◌ c s) behind key value =
    let ends = code c == b'&' in
    let turns = code c == b'=' in
    let more = String.◌∷◌ c "" in
    let rest =
      read s (if ends then false else turns || behind)
        (if ends then "" else if turns || behind then key else text_append key more)
        (if ends || turns then "" else if behind then text_append value more else value) in
    if ends then (key, value) ∷ rest else rest

abbrev decode : String → Query
decode text = read text false "" ""

list-use_turnarounds_example :
    Controller.list env (decode (encode (use_turnarounds 20 5 (some "delayed")).params))
    ≡ page env 20 5 (some "delayed")
unfolding read use_turnarounds Number.decimal
list-use_turnarounds_example =
    list-use_turnarounds encode decode env 20 5 (some "delayed") (omega arith) (omega arith) refl
