-- ===== src/Dashboard/Routes.antt =====
-- Which page a path shows (App.tsx, routes/ProtectedRoute.tsx), and which paths the sidebar offers
-- (components/layout/Sidebar.tsx).
pub mod Access
use microservices_practice.Common.{
  String, Bool, true, false, ◌||◌, Option, none, some, List, [], ◌∷◌, map, filter, str_eq,
  if◌then◌else◌,
}
use microservices_practice.Dashboard.Types.{Role, same_role}

pub data Page : Type 0 where
  login overview flights turnarounds stand_plan equipment crew events settings : Page

-- What a route renders: a page, or `<Navigate to=… replace />`.
pub data View : Type 0 where
  page : Page → View
  navigate : String → View

abbrev pub includes_role : Role → List Role → Bool
includes_role r [] = false
includes_role r (a ∷ rest) = same_role a r || includes_role r rest

-- `allowedRoles && role && !allowedRoles.includes(role)`
abbrev pub forbidden : Option (List Role) → Option Role → Bool
forbidden none role = false
forbidden (some allowed) none = false
forbidden (some allowed) (some r) = if includes_role r allowed then false else true

unfoldable pub protected_route : Bool → Option Role → Option (List Role) → View → View
protected_route authenticated role allowed children =
    if authenticated
    then (if forbidden allowed role then navigate "/" else children)
    else navigate "/login"

abbrev staff : List Role
staff = Role.admin ∷ Role.ops_manager ∷ Role.crew_supervisor ∷ Role.viewer ∷ []

-- The routes below the layout: the path, the page, and the roles of its own `ProtectedRoute`.
unfoldable pub layout_routes : List (String × Page × Option (List Role))
layout_routes =
    ("/", overview, none)
    ∷ ("/flights", flights, none)
    ∷ ("/turnarounds", turnarounds, none)
    ∷ ("/stand-plan", stand_plan, none)
    ∷ ("/equipment", equipment, none)
    ∷ ("/crew", crew, some staff)
    ∷ ("/events", events, some staff)
    ∷ ("/settings", settings, some (Role.admin ∷ []))
    ∷ []

-- The first route of a path, inside the `ProtectedRoute` of the layout; any other path goes to "/".
-- The router compares paths by a form of theirs, `canonical`: it disregards case and trailing slashes.
unfoldable pub layout_view :
    (canonical : String → String)
    → Bool
    → Option Role
    → String
    → List (String × Page × Option (List Role))
    → View
unfolding protected_route
layout_view canonical authenticated role path [] = navigate "/"
layout_view canonical authenticated role path ((p, shown, allowed) ∷ rest) =
    if str_eq (canonical path) (canonical p)
    then protected_route authenticated role none (elim allowed [
      | none ↦ page shown
      | some roles ↦ protected_route authenticated role (some roles) (page shown)
    ])
    else layout_view canonical authenticated role path rest

unfoldable pub app_routes : (canonical : String → String) → Bool → Option Role → String → View
unfolding layout_view layout_routes
app_routes canonical authenticated role path =
    if str_eq (canonical path) (canonical "/login")
    then (if authenticated then navigate "/" else page login)
    else layout_view canonical authenticated role path layout_routes

-- `navItems`: the path and the roles of an item.
unfoldable pub nav_items : List (String × Option (List Role))
nav_items =
    ("/", none)
    ∷ ("/flights", none)
    ∷ ("/turnarounds", none)
    ∷ ("/stand-plan", none)
    ∷ ("/equipment", none)
    ∷ ("/crew", some staff)
    ∷ ("/events", some staff)
    ∷ ("/settings", some (Role.admin ∷ []))
    ∷ []

-- `!item.roles || (role && item.roles.includes(role))`
abbrev pub offered : Option Role → String × Option (List Role) → Bool
offered role (to, none) = true
offered none (to, some roles) = false
offered (some r) (to, some roles) = includes_role r roles

unfoldable pub filtered_items : Option Role → List (String × Option (List Role))
unfolding nav_items
filtered_items role = filter (offered role) nav_items
