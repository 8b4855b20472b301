-- ===== src/Dashboard/Auth/Laws.antt =====
-- When a session has a user and no token.
use microservices_practice.Common.{
  ◌*◌, ◌<◌, String, ◌≡◌, ◌⊎◌, inl, inr, true, false, none, some, List, [], ◌∷◌, arith, is_some,
}
use microservices_practice.Dashboard.Types.{LoginResponse}
use microservices_practice.Dashboard.Auth.{
  Claims, Session, Browser, Event, mounted, loaded, logged_in, logged_out, handle, run, begin_load,
  end_load, login, logout, is_token_expired, clear_stored_token, set_stored_token, get_stored_token,
  decode_token,
}

-- A user has a token, and nobody is signed in while a request of `loadUser` is on its way.
abbrev pub IsConsistent : Session → Type 0
IsConsistent s =
    ((is_some s.user ≡ false) ⊎ (is_some s.stored ≡ true))
    × ((s.loading ≡ false) ⊎ ((is_some s.user ≡ false) × (is_some s.stored ≡ true)))

-- The provider mounts before anybody signs in and not while `loadUser` runs, a sign-in waits for the reply to `loadUser`, and only
-- who is signed in signs out.
abbrev pub IsOrderly : Event → Session → Type 0
IsOrderly (mounted b) s = (is_some s.user ≡ false) × (s.loading ≡ false)
IsOrderly (loaded reply) s = Unit {0}
IsOrderly (logged_in reply) s = s.loading ≡ false
IsOrderly logged_out s = is_some s.user ≡ true

unfoldable pub AreOrderly : List Event → Session → Type 0
AreOrderly [] s = Unit {0}
AreOrderly (event ∷ rest) s = IsOrderly event s × AreOrderly rest (handle event s)

handle-IsConsistent :
    (event : Event) (s : Session)
    → IsOrderly event s
    → IsConsistent s
    → IsConsistent (handle event s)
unfolding handle begin_load end_load login logout clear_stored_token set_stored_token
    get_stored_token
handle-IsConsistent (mounted b) s o c = ground arith
handle-IsConsistent (loaded none) s o c = ground arith
handle-IsConsistent (loaded (some u)) s o c = ground arith
handle-IsConsistent (logged_in none) s o c = ground arith
handle-IsConsistent (logged_in (some res)) s o c = ground arith
handle-IsConsistent logged_out s o c = ground arith

-- In every orderly run from a consistent session, whoever is signed in has a token.
pub run-IsConsistent :
    (events : List Event) (s : Session)
    → AreOrderly events s
    → IsConsistent s
    → IsConsistent (run events s)
unfolding run AreOrderly
run-IsConsistent [] s o c = c
run-IsConsistent (event ∷ rest) s o c =
    run-IsConsistent rest (handle event s) o.1 (handle-IsConsistent event s o.0 c)

-- When a sign-in overtakes a request of `loadUser` that then fails, the user stays signed in and
-- the fresh token is gone.
pub run_overtaken :
    (s : Session) (res : LoginResponse)
    → s.loading ≡ true
    → let after = run (logged_in (some res) ∷ loaded none ∷ []) s in
      (after.user ≡ some res.user) × (after.stored ≡ none)
unfolding run handle end_load login clear_stored_token set_stored_token
run_overtaken s res h = ground arith

-- A stored token that does not decode, or whose expiry has passed, is forgotten, and the server is
-- asked nothing.
begin_load_expired :
    (b : Browser) (s : Session) (token : String)
    → s.stored ≡ some token
    → (decode_token b token ≡ none)
      ⊎ ((c : Claims) × (decode_token b token ≡ some c) × (c.exp * 1000 < b.now))
    → begin_load b s ≡ record s { stored = none }
unfolding begin_load clear_stored_token get_stored_token is_token_expired
begin_load_expired b s token h (inl undecoded) = ground arith
begin_load_expired b s token h (inr (c, decoded, late)) = ground arith
