-- ===== src/Dashboard/Pages.antt =====
-- The pages that ask and act by a query or a request (routes/FlightsPage.tsx, EventsPage.tsx,
-- TurnaroundsPage.tsx, components/layout/TopBar.tsx).
pub mod Flights
pub mod Events
pub mod Turnarounds
use microservices_practice.Common.{Bool, false, ◌||◌, Option, none, some}
use microservices_practice.Dashboard.Types.{Role, same_role}

-- `role === "admin" || role === "ops_manager"`, which two pages test.
abbrev pub is_manager : Option Role → Bool
is_manager none = false
is_manager (some role) = same_role role Role.admin || same_role role Role.ops_manager
