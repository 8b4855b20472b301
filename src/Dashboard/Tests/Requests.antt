-- ===== src/Dashboard/Tests/Requests.antt =====
-- Requests, and queries that an event makes stale.
use microservices_practice.Common.{
  ◌≡◌, refl, Bool, true, false, ◌⊎◌, Option, some, none, List, [], ◌∷◌, str_eq,
}
use microservices_practice.Dashboard.Types.{LoginResponse}
use microservices_practice.Dashboard.Stream.{invalidated_by}
use microservices_practice.Dashboard.Auth.{before_dot}
use microservices_practice.Dashboard.Queries.{KeyPart, text, Hook, use_query}
use microservices_practice.Dashboard.Queries.Refresh.{
  is_stale, refreshed_by, invalidated_by-is_stale,
}
use microservices_practice.Dashboard.Api.{Request, Response}
use microservices_practice.Dashboard.Api.Login.{
  LoginPage, handle_submit, handle_submit_lem, granted, sent,
}
use microservices_practice.Dashboard.Tests.{response, fresh_session}

-- A filter of one name against a key.
abbrev begins_with : List KeyPart → List KeyPart → Bool
begins_with (text name ∷ []) (text first ∷ rest) = str_eq name first
begins_with _ _ = false

invalidated_by-is_stale_example :
    is_stale begins_with (invalidated_by "crew.assigned") (use_query Hook.assignments)
    ≡ refreshed_by Hook.assignments (before_dot "crew.assigned")
invalidated_by-is_stale_example =
    invalidated_by-is_stale begins_with (λ name first rest. refl) "crew.assigned" Hook.assignments

abbrev login_page : LoginPage
login_page = record { error = "Invalid username or password"; loading = false; navigated = none }

abbrev accepting : Request → Option (Response LoginResponse)
accepting r = some (record { ok = true; status = 200; status_text = "OK"; json = some response })

handle_submit_lem_example :
    let after = handle_submit accepting "{}" (fresh_session, login_page) in
    (after.1.loading ≡ false)
    × (((r : LoginResponse) × (granted (accepting (sent "{}" fresh_session)) ≡ some r)
          × (after.0 ≡ record fresh_session { stored = some r.token; user = some r.user })
          × (after.1.error ≡ "")
          × (after.1.navigated ≡ some "/"))
        ⊎ ((granted (accepting (sent "{}" fresh_session)) ≡ none)
            × (after.0 ≡ fresh_session)
            × (after.1.error ≡ "Invalid username or password")
            × (after.1.navigated ≡ none)))
handle_submit_lem_example = handle_submit_lem accepting "{}" fresh_session login_page
