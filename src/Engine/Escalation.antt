-- ===== src/Engine/Escalation.antt =====
-- packages/engine/src/escalation.ts: the route of an escalation along the reporting line.
pub mod Routes
use digital_employee.Common.{ℕ, String, Option, none, some, if◌then◌else◌}
use digital_employee.Common.Text.{is_blank}
use digital_employee.Engine.Budget.{BudgetDimension}

pub data EscalationCause : Type 0 where
  turn_budget_exceeded position_budget_exceeded iteration_cap : EscalationCause
  doom_loop deadline_exceeded : EscalationCause

-- `dimension` is `none` where the source writes "none".
pub record EscalationBudgetSnapshot : Type 0 where
  pub dimension : Option BudgetDimension
  pub used : ℕ
  pub limit : ℕ

pub data ResolvedFrom : Type 0 where
  organization_report_to workspace_operator_default : ResolvedFrom

pub record EscalationRouting : Type 0 where
  pub direct_superior : String
  pub resolved_from : ResolvedFrom

-- What `reportTo` answers: a superior, `null` for the owner, `undefined` for an unknown position.
pub data Reporting : Type 0 where
  superior : String → Reporting
  owner : Reporting
  unknown : Reporting

abbrev pub workspace_operator_entry : String
workspace_operator_entry = "workspace.operator"

abbrev operator_default : EscalationRouting
operator_default = record {
  direct_superior = workspace_operator_entry;
  resolved_from = workspace_operator_default;
}

unfoldable pub route : Reporting → EscalationRouting
route (superior s) =
    if is_blank s
    then operator_default
    else record { direct_superior = s; resolved_from = organization_report_to }
route owner = operator_default
route unknown = operator_default

unfoldable pub resolve_escalation_routing : String → Option (String → Reporting) → EscalationRouting
resolve_escalation_routing position_id none = operator_default
resolve_escalation_routing position_id (some report_to) = route (report_to position_id)
