-- ===== src/Engine/Escalation/Routes.antt =====
-- An escalation always has someone to go to.
use digital_employee.Common.{String, false, ◌≡◌, refl, Option, none, some, Bool-cases, inl, inr}
use digital_employee.Common.Text.{is_blank}
use digital_employee.Engine.Escalation.{
  Reporting, superior, owner, unknown, organization_report_to, workspace_operator_entry,
  resolve_escalation_routing, route,
}

operator_lem : is_blank workspace_operator_entry ≡ false
unfolding is_blank
operator_lem = refl

route_lem : (reported : Reporting) → is_blank (route reported).direct_superior ≡ false
unfolding route
route_lem (superior s) = elim (Bool-cases (is_blank s)) [
  | inl b ↦ rw b operator_lem
  | inr b ↦ rw b b
]
route_lem owner = operator_lem
route_lem unknown = operator_lem

-- An escalation is always routed to a recipient whose name is not blank, whatever the organization
-- answers.
pub resolve_escalation_routing-named :
    (position_id : String) (report_to : Option (String → Reporting))
    → is_blank (resolve_escalation_routing position_id report_to).direct_superior ≡ false
unfolding resolve_escalation_routing
resolve_escalation_routing-named position_id none = operator_lem
resolve_escalation_routing-named position_id (some report_to) = route_lem (report_to position_id)

from_lem :
    (reported : Reporting) (s : String)
    → (reported ≡ superior s)
    → is_blank s ≡ false
    → route reported ≡ record { direct_superior = s; resolved_from = organization_report_to }
unfolding route
from_lem reported s r b = rw r (rw b refl)

-- A superior with a name that is not blank receives the escalation, and the route says so.
pub resolve_escalation_routing-superior :
    (position_id s : String) (report_to : String → Reporting)
    → report_to position_id ≡ superior s
    → is_blank s ≡ false
    → resolve_escalation_routing position_id (some report_to)
      ≡ record { direct_superior = s; resolved_from = organization_report_to }
unfolding resolve_escalation_routing
resolve_escalation_routing-superior position_id s report_to r b =
    from_lem (report_to position_id) s r b
