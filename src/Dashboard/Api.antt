-- ===== src/Dashboard/Api.antt =====
-- `ApiClient` (lib/api.ts): the request that a call sends, and what it makes of the reply. `fetch` is
-- the browser's: a reply, or none when the request fails. The replies' JSON is given decoded, as
-- none where it does not decode; a body is the text that `JSON.stringify` gave.
pub mod Login
use Prim.Native.String.{◌++◌ as text_append}
use microservices_practice.Common.{
  ℕ, String, Bool, Option, none, some, List, [], ◌∷◌, str_eq, if◌then◌else◌,
}
use microservices_practice.Common.Number.{decimal}

pub data Method : Type 0 where
  get post patch : Method

pub record Request : Type 0 where
  pub method : Method
  pub url : String
  pub headers : List (String × String)
  pub body : Option String

pub record Response (A : Type 0) : Type 0 where
  pub ok : Bool
  pub status : ℕ
  pub status_text : String
  pub json : Option A

-- What a call throws: the error of `fetch`, that of `res.json()`, or its own, with its text.
pub data Outcome (A : Type 0) : Type 0 where
  returned : A → Outcome A
  fetch_error json_error : Outcome A
  failed : String → Outcome A

abbrev pub method_name : Method → String
method_name get = "GET"
method_name post = "POST"
method_name patch = "PATCH"

-- `headers()`, by the stored token.
unfoldable pub headers : Option String → List (String × String)
headers none = ("Content-Type", "application/json") ∷ []
headers (some token) =
    if str_eq token ""
    then ("Content-Type", "application/json") ∷ []
    else ("Content-Type", "application/json") ∷ ("Authorization", text_append "Bearer " token) ∷ []

abbrev pub error_text : Method → String → ℕ → String → String
error_text method path status status_text = text_append (method_name method) (
    text_append " " (
      text_append path
        (text_append " failed: " (text_append (decimal status) (text_append " " status_text)))))

abbrev pub decoded : {A : Type 0} → Option A → Outcome A
decoded none = json_error
decoded (some a) = returned a

abbrev pub received : {A : Type 0} → Method → String → Option (Response A) → Outcome A
received method path none = fetch_error
received method path (some res) =
    if res.ok then decoded res.json else failed (error_text method path res.status res.status_text)

-- `get`, `post` and `patch`; API_BASE is empty.
module _ {A : Type 0} (fetch : Request → Option (Response A)) where
  unfoldable pub call : Method → Option String → String → Option String → Outcome A
  unfolding headers
  call method token path body =
      received method path
        (fetch (record { method = method; url = path; headers = headers token; body = body }))
