-- ===== src/Dashboard/Auth.antt =====
-- The session of the dashboard (contexts/AuthContext.tsx, lib/auth.ts). The browser's storage and
-- the React state are the record `Session`; the clock, `JSON.parse(atob(…))` and the replies of the
-- server are parameters.
pub mod Laws
use Prim.Native.Char.{Char, code}
use microservices_practice.Common.{
  ℕ, ◌*◌, String, Bool, true, false, Option, none, some, List, [], ◌∷◌, ltb, ◌==◌, is_some,
  if◌then◌else◌,
}
use microservices_practice.Dashboard.Types.{Role, User, LoginResponse}

pub record Claims : Type 0 where
  pub sub : String
  pub username : String
  pub role : Role
  pub exp : ℕ

pub record Session : Type 0 where
  pub stored : Option String
  pub user : Option User
  pub loading : Bool  -- the request of `loadUser` is on its way

-- What the browser provides; `none` is an exception.
pub record Browser : Type 0 where
  pub now : ℕ
  pub parse : String → Option Claims

unfoldable pub get_stored_token : Session → Option String
get_stored_token s = s.stored

unfoldable pub set_stored_token : String → Session → Session
set_stored_token token s = record s { stored = some token }

unfoldable pub clear_stored_token : Session → Session
clear_stored_token s = record s { stored = none }

-- `text.split(".")[0]`, and `text.split(".")[1]`, which may be missing.
unfoldable pub before_dot : String → String
before_dot String.[] = ""
before_dot (String.◌∷◌ c s) =
    let rest = before_dot s in if code c == b'.' then "" else String.◌∷◌ c rest

unfoldable pub second_part : String → Option String
unfolding before_dot
second_part String.[] = none
second_part (String.◌∷◌ c s) =
    let rest = second_part s in if code c == b'.' then some (before_dot s) else rest

abbrev parsed : Browser → String → Option Claims
parsed b String.[] = none
parsed b payload = b.parse payload

unfoldable pub decode_token : Browser → String → Option Claims
unfolding second_part
decode_token b token = elim (second_part token) [ none ↦ none | some payload ↦ parsed b payload ]

unfoldable pub is_token_expired : Browser → String → Bool
unfolding decode_token
is_token_expired b token = elim (decode_token b token) [
  | none ↦ true
  | some decoded ↦ ltb (decoded.exp * 1000) b.now
]

-- `loadUser` to its request, and from the reply on.
unfoldable pub begin_load : Browser → Session → Session
unfolding get_stored_token is_token_expired clear_stored_token
begin_load b s = elim (get_stored_token s) [
  | none ↦ clear_stored_token s
  | some token ↦
      if is_token_expired b token then clear_stored_token s else record s { loading = true }
]

unfoldable pub end_load : Option User → Session → Session
unfolding clear_stored_token
end_load reply s =
    if s.loading
    then elim reply [
      | some user ↦ record s { user = some user; loading = false }
      | none ↦ record (clear_stored_token s) { loading = false }
    ]
    else s

-- `login`, by the reply of the server; a failed request throws and changes nothing.
unfoldable pub login : Option LoginResponse → Session → Session
unfolding set_stored_token
login none s = s
login (some res) s = record (set_stored_token res.token s) { user = some res.user }

unfoldable pub logout : Session → Session
unfolding clear_stored_token
logout s = record (clear_stored_token s) { user = none }

-- The value of the context.
abbrev pub role : Session → Option Role
role s = elim s.user [ none ↦ none | some u ↦ some u.role ]

abbrev pub is_authenticated : Session → Bool
is_authenticated s = is_some s.user

-- What happens to a session, in the order of the browser's event loop.
pub data Event : Type 0 where
  mounted : Browser → Event
  loaded : Option User → Event
  logged_in : Option LoginResponse → Event
  logged_out : Event

unfoldable pub handle : Event → Session → Session
unfolding begin_load end_load login logout
handle (mounted b) s = begin_load b s
handle (loaded reply) s = end_load reply s
handle (logged_in reply) s = login reply s
handle logged_out s = logout s

unfoldable pub run : List Event → Session → Session
unfolding handle
run [] s = s
run (event ∷ rest) s = run rest (handle event s)
