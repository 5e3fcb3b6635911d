-- ===== src/Engine/Turn/Events.antt =====
-- contracts.ts and turn-executor.ts: terminal reasons and their codes, events, evidence, effects.
-- Run ids, timestamps and message texts are left out of the events.
use digital_employee.Common.{ℕ, String, Bool, true, false, Option, List}
use digital_employee.Common.Value.{Value}
use digital_employee.Engine.Escalation.{EscalationCause, EscalationBudgetSnapshot}
use digital_employee.Engine.Approval.{ApprovalScope}

pub data TerminalReason : Type 0 where
  goal_met invalid_output_exhausted turn_budget_exceeded : TerminalReason
  position_budget_exceeded iteration_cap doom_loop deadline_exceeded : TerminalReason
  cancelled permission_denied memory_unavailable memory_denied : TerminalReason
  context_unavailable context_denied engine_internal_error : TerminalReason

-- REASON_TO_CODE
abbrev pub reason_to_code : TerminalReason → String
reason_to_code goal_met = "engine.goal_met"
reason_to_code invalid_output_exhausted = "engine.output_invalid"
reason_to_code turn_budget_exceeded = "engine.turn_budget_exceeded"
reason_to_code position_budget_exceeded = "engine.position_budget_exceeded"
reason_to_code iteration_cap = "engine.iteration_cap_reached"
reason_to_code doom_loop = "engine.doom_loop_detected"
reason_to_code deadline_exceeded = "engine.deadline_exceeded"
reason_to_code cancelled = "engine.cancelled"
reason_to_code permission_denied = "engine.permission_denied"
reason_to_code memory_unavailable = "engine.memory_unavailable"
reason_to_code memory_denied = "engine.memory_denied"
reason_to_code context_unavailable = "engine.context_unavailable"
reason_to_code context_denied = "engine.context_denied"
reason_to_code engine_internal_error = "engine.internal_error"

-- RETRYABLE_REASONS
abbrev pub is_retryable_reason : TerminalReason → Bool
is_retryable_reason invalid_output_exhausted = true
is_retryable_reason deadline_exceeded = true
is_retryable_reason memory_unavailable = true
is_retryable_reason context_unavailable = true
is_retryable_reason engine_internal_error = true
is_retryable_reason _ = false

abbrev pub context_budget_exceeded_code : String
context_budget_exceeded_code = "engine.context_budget_exceeded"

pub data Output : Type 0 where
  text : String → Output
  json : Value → Output

pub data Event : Type 0 where
  run_started : Event
  model_delta : String → Event
  usage : Option ℕ → Option ℕ → Event
  run_completed : Output → Event
  run_failed : String → TerminalReason → Bool → Event
  approval_requested : String → Event
  approval_granted : String → ApprovalScope → Event
  approval_denied : String → Event

abbrev pub is_terminal_engine_event : Event → Bool
is_terminal_engine_event (run_completed o) = true
is_terminal_engine_event (run_failed code reason retryable) = true
is_terminal_engine_event _ = false

pub data ApprovalOutcome : Type 0 where
  expired denied granted requested : ApprovalOutcome

pub record ApprovalRef : Type 0 where
  pub approval_id : String
  pub outcome : ApprovalOutcome

-- The part of the turn evidence that depends on how the turn went.
pub record TurnEvidenceRecord : Type 0 where
  pub completed : Bool
  pub reason : TerminalReason
  pub error_code : Option String
  pub escalation_ref : Bool
  pub approval_refs : List ApprovalRef
  pub iterations_used : ℕ
  pub tokens_used : ℕ

pub data ViolationSummary : Type 0 where
  not_valid_json failed_terminal_schema : ViolationSummary

pub record OutputViolation : Type 0 where
  pub attempt : ℕ
  pub summary : ViolationSummary

pub record ModelTurnResult : Type 0 where
  pub text : String
  pub input_tokens : Option ℕ
  pub output_tokens : Option ℕ

pub data Effect : Type 0 where
  emitted : Event → Effect
  model_called : List OutputViolation → Effect
  model_replied : ModelTurnResult → Effect
  ledger_committed : ℕ → Effect
  escalation_written escalation_failed : EscalationCause → EscalationBudgetSnapshot → Effect
  evidence_written evidence_failed : TurnEvidenceRecord → Effect
