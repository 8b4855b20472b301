-- ===== src/Dashboard/Routes/Access.antt =====
-- The sidebar and the routes agree.
use microservices_practice.Common.{
  String, ◌≡◌, Bool, true, false, ◌||◌, Option, some, List, [], ◌∷◌, inl, inr, refl, sym, All,
  Bool-cases, arith, ap, ◌∙◌, str_eq, eq_iff,
}
use mathlib.Core.Path.{subst}
use microservices_practice.Dashboard.Types.{Role}
use microservices_practice.Dashboard.Routes.{
  Page, View, page, navigate, app_routes, layout_view, layout_routes, protected_route, nav_items,
  filtered_items,
}

-- Whether the items hold one to the path.
abbrev pub leads_to : String → List (String × Option (List Role)) → Bool
leads_to path [] = false
leads_to path ((to, roles) ∷ rest) = str_eq path to || leads_to path rest

abbrev pub shows_page : View → Bool
shows_page (page p) = true
shows_page (navigate to) = false

-- What holds at the path of every item holds at a path that an item leads to.
at_item :
    (P : String → Type 0) (path : String) (items : List (String × Option (List Role)))
    → All (λ (item : String × Option (List Role)). P item.0) items
    → leads_to path items ≡ true
    → P path
at_item P path [] a h = absurd cc
at_item P path ((to, roles) ∷ rest) a h = elim (Bool-cases (str_eq path to)) [
  | inl same ↦ let e : path ≡ to = ground (arith, eq_iff path to) in subst P (sym e) a.0
  | inr other ↦ at_item P path rest a.1 (ground arith)
]

listed_nowhere :
    (r : Role) (path : String)
    → leads_to path nav_items ≡ false
    → leads_to path (filtered_items (some r)) ≡ false
unfolding filtered_items nav_items
listed_nowhere Role.admin path h = ground arith
listed_nowhere Role.ops_manager path h = ground arith
listed_nowhere Role.crew_supervisor path h = ground arith
listed_nowhere Role.ground_crew path h = ground arith
listed_nowhere Role.viewer path h = ground arith

-- Every path of the routes is its own form.
Fixed : (String → String) → List (String × Page × Option (List Role)) → Type 0
Fixed canonical routes =
    All (λ (r : String × Page × Option (List Role)). canonical r.0 ≡ r.0) routes

-- Where every path of the routes is its own form, the form of a path decides its view.
layout_view-canonical :
    (canonical : String → String) (authenticated : Bool) (role : Option Role) (path : String)
    (routes : List (String × Page × Option (List Role)))
    → Fixed canonical routes
    → layout_view canonical authenticated role path routes
      ≡ layout_view (λ p. p) authenticated role (canonical path) routes
unfolding layout_view Fixed
layout_view-canonical canonical authenticated role path [] f = refl
layout_view-canonical canonical authenticated role path ((p, shown, allowed) ∷ rest) f =
    rw (f.0, layout_view-canonical canonical authenticated role path rest f.1) refl

app_routes-canonical :
    (canonical : String → String) (authenticated : Bool) (role : Option Role) (path : String)
    → canonical "/login" ≡ "/login"
    → Fixed canonical layout_routes
    → app_routes canonical authenticated role path
      ≡ app_routes (λ p. p) authenticated role (canonical path)
unfolding app_routes
app_routes-canonical canonical authenticated role path login f =
    rw (login, layout_view-canonical canonical authenticated role path layout_routes f) refl

shown_nowhere :
    (authenticated : Bool) (role : Option Role) (path : String)
    → leads_to path nav_items ≡ false
    → layout_view (λ p. p) authenticated role path layout_routes ≡ navigate "/"
unfolding layout_view layout_routes nav_items
shown_nowhere authenticated role path h = ground arith

-- The sidebar and the routes agree on a path.
Agrees : Role → String → Type 0
Agrees r path =
    leads_to path (filtered_items (some r)) ≡ shows_page (app_routes (λ p. p) true (some r) path)

Agrees-nav_items :
    (r : Role) → All (λ (item : String × Option (List Role)). Agrees r item.0) nav_items
unfolding Agrees filtered_items nav_items app_routes layout_view layout_routes protected_route
Agrees-nav_items Role.admin = (refl, (refl, (refl, (refl, (refl, (refl, (refl, (refl, tt))))))))
Agrees-nav_items Role.ops_manager =
    (refl, (refl, (refl, (refl, (refl, (refl, (refl, (refl, tt))))))))
Agrees-nav_items Role.crew_supervisor =
    (refl, (refl, (refl, (refl, (refl, (refl, (refl, (refl, tt))))))))
Agrees-nav_items Role.ground_crew =
    (refl, (refl, (refl, (refl, (refl, (refl, (refl, (refl, tt))))))))
Agrees-nav_items Role.viewer = (refl, (refl, (refl, (refl, (refl, (refl, (refl, (refl, tt))))))))

agree_everywhere : (r : Role) (path : String) → Agrees r path
unfolding app_routes Agrees
agree_everywhere r path = elim (Bool-cases (leads_to path nav_items)) [
  | inl listed ↦ at_item (Agrees r) path nav_items (Agrees-nav_items r) listed
  | inr nowhere ↦
      ground (arith, listed_nowhere r path nowhere, shown_nowhere true (some r) path nowhere)
]

-- The paths that are written in the routes.
abbrev pub route_paths : List String
route_paths =
    "/login" ∷ "/" ∷ "/flights" ∷ "/turnarounds" ∷ "/stand-plan" ∷ "/equipment" ∷ "/crew"
    ∷ "/events" ∷ "/settings" ∷ []

-- Where the router compares paths by a form in which each path of the routes is as it is written (such
-- as without regard to case and trailing slashes): for a signed-in user of any role, a path shows a page
-- exactly if its form is the path of an item that the sidebar offers.
pub filtered_items-app_routes :
    (canonical : String → String) (r : Role) (path : String)
    → All (λ p. canonical p ≡ p) route_paths
    → leads_to (canonical path) (filtered_items (some r))
      ≡ shows_page (app_routes canonical true (some r) path)
unfolding Agrees layout_routes Fixed
filtered_items-app_routes canonical r path written =
    agree_everywhere r (canonical path)
    ∙ sym (ap shows_page (app_routes-canonical canonical true (some r) path written.0 written.1))
