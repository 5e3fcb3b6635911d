-- ===== src/Engine/Turn/World.antt =====
-- What the turn is given: the request, and the ports, the clock and the runtime as functions that
-- may answer anything.
use digital_employee.Common.{ℕ, String, Bool, Option, List}
use digital_employee.Common.Value.{Value}
use digital_employee.Engine.Budget.{PositionBudgetDeclaration, BudgetUsage}
use digital_employee.Engine.DoomLoop.{PartialConfig}
use digital_employee.Engine.Escalation.{EscalationCause}
use digital_employee.Engine.Approval.{TurnPendingApprovalInput, TurnApprovalActionInput}
use digital_employee.Engine.Turn.Events.{ModelTurnResult, TurnEvidenceRecord}

-- A validated request, with its terminal schema prepared.
pub record EngineTurnRequest : Type 0 where
  pub max_iterations : ℕ
  pub max_tokens : Option ℕ
  pub max_context_bytes : Option ℕ
  pub deadline : Option String
  pub position_budget : Option PositionBudgetDeclaration
  pub pending_approval : Option TurnPendingApprovalInput
  pub pending_approvals : Option (List TurnPendingApprovalInput)
  pub approval_action : Option TurnApprovalActionInput
  pub schema : Option (Value → Bool)
  pub doom_loop : PartialConfig

-- The functions indexed by an attempt answer for that iteration of the loop. `none` is a rejected
-- promise or a thrown error, and so is a commit that is not accepted.
pub record World : Type 0 where
  pub parse_date : String → Option ℕ
  pub parse_json : String → Option Value
  pub digest_output : String → String
  pub new_id : String
  pub block_bytes : List ℕ
  pub gate_now : ℕ → ℕ
  pub now : ℕ → ℕ
  pub aborted : ℕ → Bool
  pub complete : ℕ → Option ModelTurnResult
  pub has_ledger : Bool
  pub ledger_read : Option BudgetUsage
  pub ledger_commits : ℕ → ℕ → Bool
  pub ledger_read_again : ℕ → ℕ → Option BudgetUsage
  pub has_escalation_sink : Bool
  pub escalation_sink_accepts : EscalationCause → Bool
  pub has_evidence_sink : Bool
  pub evidence_sink_accepts : TurnEvidenceRecord → Bool
