-- ===== src/Dashboard/Crew/Page.antt =====
-- The crew page as a whole (routes/CrewPage.tsx): its filters and its table.
use Prim.Native.Char.{Char}
use Prim.Native.String.{◌++◌ as text_append}
use mathlib.Core.Option
use microservices_practice.Common.{String, Bool, Option, List, [], ◌∷◌, map, if◌then◌else◌}
use microservices_practice.Dashboard.Queries.{UseQuery, use_crew}
use microservices_practice.Dashboard.View.{Badge, status_badge, capitalized, View, table_view}
use microservices_practice.Dashboard.Crew.{
  CertType, Certification, CrewMember, TaskAssignment, AvailabilityFilter, filtered_crew, RowLabel,
  row_label, shown_certifications, shows_dash,
}

unfoldable pub cert_text : CertType → String
cert_text CertType.fueling = "fueling"
cert_text CertType.cargo = "cargo"
cert_text CertType.pushback = "pushback"
cert_text CertType.marshalling = "marshalling"
cert_text CertType.catering = "catering"
cert_text CertType.cleaning = "cleaning"
cert_text CertType.boarding = "boarding"

-- `CERT_COLORS`, which has every type.
unfoldable pub cert_color : CertType → String
cert_color CertType.fueling = "bg-orange-600"
cert_color CertType.cargo = "bg-amber-700"
cert_color CertType.pushback = "bg-indigo-600"
cert_color CertType.marshalling = "bg-purple-600"
cert_color CertType.catering = "bg-pink-600"
cert_color CertType.cleaning = "bg-teal-600"
cert_color CertType.boarding = "bg-sky-600"

pub record CertTag : Type 0 where
  pub color : String
  pub text : String

abbrev pub cert_tag : Certification → CertTag
cert_tag cert = record { color = cert_color cert.cert_type; text = cert_text cert.cert_type }

pub record CrewRow : Type 0 where
  pub employee_id : String
  pub name : String
  pub certifications : List CertTag
  pub dash : Bool
  pub status : Badge
  pub availability : RowLabel

unfoldable pub crew_row : Option (List TaskAssignment) → CrewMember → CrewRow
unfolding cert_text cert_color row_label shown_certifications shows_dash status_badge
crew_row assignments c = record {
  employee_id = c.employee_id;
  name = text_append c.first_name (text_append " " c.last_name);
  certifications = map cert_tag (shown_certifications c);
  dash = shows_dash c;
  status = status_badge (if c.is_active then "active" else "inactive");
  availability = row_label assignments c;
}

abbrev pub filters : List String
filters = "all" ∷ "available" ∷ "assigned" ∷ "inactive" ∷ []

-- The texts of the filters' buttons.
unfoldable pub filter_texts : (Char → Char) → List String
unfolding capitalized
filter_texts upper = map (capitalized upper) filters

-- `useCrew(100)`
unfoldable pub crew_page_query : UseQuery
crew_page_query = use_crew 100 0

-- The table for what the two queries say and the chosen filter.
unfoldable pub crew_table :
    (is_loading : Bool)
    → Option (List CrewMember)
    → Option (List TaskAssignment)
    → AvailabilityFilter
    → View CrewRow
unfolding table_view crew_row filtered_crew
crew_table is_loading crew assignments wanted =
    table_view "No crew members found" (crew_row assignments) is_loading
      (Option.map (filtered_crew assignments wanted) crew)
