-- ===== src/Dashboard/Api/Login.antt =====
-- The sign-in (routes/LoginPage.tsx), through AuthContext and ApiClient down to `fetch`.
use microservices_practice.Common.{
  String, ◌≡◌, refl, ap, ◌∙◌, Bool, true, false, Option, none, some, ◌⊎◌, inl, inr, Option-cases,
  Bool-cases, if◌then◌else◌,
}
use microservices_practice.Dashboard.Types.{LoginResponse}
use microservices_practice.Dashboard.Auth.{Session, login}
use microservices_practice.Dashboard.Api.{
  Method, Request, Response, Outcome, returned, call, headers, received,
}

-- The state of the page, and the path that it left for.
pub record LoginPage : Type 0 where
  pub error : String
  pub loading : Bool
  pub navigated : Option String

-- `login`'s request: a call that throws leaves the session alone.
abbrev pub value_of : {A : Type 0} → Outcome A → Option A
value_of (returned a) = some a
value_of _ = none

-- The page on the way, and its end: `try`, `catch` and `finally`.
abbrev pub submitting : LoginPage → LoginPage
submitting p = record p { error = ""; loading = true }

abbrev pub submitted : Option LoginResponse → LoginPage → LoginPage
submitted none p = record p { error = "Invalid username or password"; loading = false }
submitted (some res) p = record p { navigated = some "/"; loading = false }

-- `credentials` is the text of `{ username, password }`.
unfoldable pub handle_submit :
    (Request → Option (Response LoginResponse)) → String → Session × LoginPage → Session × LoginPage
unfolding login call
handle_submit fetch credentials (s, p) =
    let reply = value_of (call fetch Method.post s.stored "/auth/login" (some credentials)) in
    (login reply s, submitted reply (submitting p))

-- What a reply brings: the decoded text of a reply that is not an error.
abbrev pub granted : Option (Response LoginResponse) → Option LoginResponse
granted none = none
granted (some res) = if res.ok then res.json else none

-- The request of a sign-in.
abbrev pub sent : String → Session → Request
sent credentials s = record {
  method = Method.post;
  url = "/auth/login";
  headers = headers s.stored;
  body = some credentials;
}

value_of-received :
    (method : Method) (path : String) (reply : Option (Response LoginResponse))
    → value_of (received method path reply) ≡ granted reply
value_of-received method path none = refl
value_of-received method path (some res) = elim (Bool-cases res.ok) [
  | inl ok ↦ elim (Option-cases res.json) [
    | inl missing ↦ rw (ok, missing)
    | inr (r, found) ↦ rw (ok, found)
  ]
  | inr error ↦ rw error
]

value_of-call :
    (fetch : Request → Option (Response LoginResponse)) (credentials : String) (s : Session)
    → value_of (call fetch Method.post s.stored "/auth/login" (some credentials))
      ≡ granted (fetch (sent credentials s))
unfolding call
value_of-call fetch credentials s =
    value_of-received Method.post "/auth/login" (fetch (sent credentials s))

-- However the request ends, the page stops loading. Either the reply grants a token and a user,
-- which the session then has, and the page leaves for "/" without an error; or it grants nothing,
-- the session is as it was, and the page stays with its error.
pub handle_submit_lem :
    (fetch : Request → Option (Response LoginResponse)) (credentials : String) (s : Session)
    (p : LoginPage)
    → let after = handle_submit fetch credentials (s, p) in
      (after.1.loading ≡ false)
      × (((r : LoginResponse) × (granted (fetch (sent credentials s)) ≡ some r)
            × (after.0 ≡ record s { stored = some r.token; user = some r.user })
            × (after.1.error ≡ "")
            × (after.1.navigated ≡ some "/"))
          ⊎ ((granted (fetch (sent credentials s)) ≡ none)
              × (after.0 ≡ s)
              × (after.1.error ≡ "Invalid username or password")
              × (after.1.navigated ≡ p.navigated)))
unfolding handle_submit login
handle_submit_lem fetch credentials s p =
    let v = value_of-call fetch credentials s in
    elim (Option-cases (granted (fetch (sent credentials s)))) [
      | inl refused ↦
          let e = v ∙ refused in
          (
            ap (λ r. (submitted r (submitting p)).loading) e,
            inr (
              refused,
              ap (λ r. login r s) e,
              ap (λ r. (submitted r (submitting p)).error) e,
              ap (λ r. (submitted r (submitting p)).navigated) e,
            ),
          )
      | inr (r, accepted) ↦
          let e = v ∙ accepted in
          (
            ap (λ r. (submitted r (submitting p)).loading) e,
            inl (
              r,
              accepted,
              ap (λ r. login r s) e,
              ap (λ r. (submitted r (submitting p)).error) e,
              ap (λ r. (submitted r (submitting p)).navigated) e,
            ),
          )
    ]
