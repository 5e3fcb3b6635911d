-- ===== src/Engine/Turn/Stops.antt =====
-- The two sinks, and the ways in which a turn ends.
use digital_employee.Common.{
  ℕ, String, Bool, true, false, Option, some, List, if◌then◌else◌, or_else,
}
use digital_employee.Engine.Budget.{BudgetUsage}
use digital_employee.Engine.DoomLoop.{DoomLoopDetector}
use digital_employee.Engine.Escalation.{EscalationCause, EscalationBudgetSnapshot}
use digital_employee.Engine.Turn.Events.{
  TerminalReason, engine_internal_error, reason_to_code, is_retryable_reason, run_failed,
  ApprovalRef, TurnEvidenceRecord, OutputViolation, escalation_written, escalation_failed,
  evidence_written, evidence_failed,
}
use digital_employee.Engine.Turn.Program.{
  Program, Consumed, return, perform, settle, throw, try_catch, ◌>>=◌, ◌>>◌,
}
use digital_employee.Engine.Turn.World.{World}

-- The local variables of `executeTurn` that its later steps read.
pub record RunState : Type 0 where
  pub approval_refs : List ApprovalRef
  pub iterations_used : ℕ
  pub tokens_used : ℕ
  pub position_usage : BudgetUsage
  pub detector : DoomLoopDetector
  pub violations : List OutputViolation

-- The stable terminal of a failed run.
abbrev pub fail {ℓ} : {A : Type ℓ} → String → TerminalReason → Bool → Program A
fail code reason retryable = settle (run_failed code reason retryable)

abbrev pub internal_error {ℓ} : {A : Type ℓ} → Program A
internal_error = fail "engine.internal_error" engine_internal_error false

abbrev pub consumed_of : RunState → Consumed
consumed_of s = record { iterations_used = s.iterations_used; tokens_used = s.tokens_used }

abbrev consumed_in : TurnEvidenceRecord → Consumed
consumed_in r = record { iterations_used = r.iterations_used; tokens_used = r.tokens_used }

module _ (w : World) where
  unfoldable pub write_escalation :
      EscalationCause → EscalationBudgetSnapshot → Consumed → Program Bool
  write_escalation cause snapshot consumed =
      if w.has_escalation_sink
      then if w.escalation_sink_accepts cause
        then perform (escalation_written cause snapshot) >> return true
        else perform (escalation_failed cause snapshot) >> throw consumed
      else return false

  unfoldable pub write_evidence : TurnEvidenceRecord → Program (Unit {0})
  write_evidence record_ =
      if w.has_evidence_sink
      then if w.evidence_sink_accepts record_
        then perform (evidence_written record_)
        else perform (evidence_failed record_) >> throw (consumed_in record_)
      else return tt

  abbrev pub evidence : RunState → Bool → TerminalReason → Option String → Bool → TurnEvidenceRecord
  evidence s completed reason error_code escalation_ref = record {
    completed = completed;
    reason = reason;
    error_code = error_code;
    escalation_ref = escalation_ref;
    approval_refs = s.approval_refs;
    iterations_used = s.iterations_used;
    tokens_used = s.tokens_used;
  }

  -- stopWithEscalation: both records first, then the terminal; a failing sink turns the stop into
  -- an internal error.
  unfoldable pub stop_with_escalation {ℓ} :
      {A : Type ℓ}
      → RunState
      → TerminalReason
      → EscalationCause
      → EscalationBudgetSnapshot
      → Option String
      → Program A
  stop_with_escalation s reason cause snapshot error_code_override =
      let surfaced_code = or_else error_code_override (reason_to_code reason) in
      do
        try_catch
            (do
              escalation_ref ← write_escalation cause snapshot (consumed_of s)
              write_evidence (evidence s false reason (some surfaced_code) escalation_ref))
            (λ _. internal_error)
        fail surfaced_code reason (is_retryable_reason reason)

  -- The evidence of an approval settlement: without it nothing is settled.
  unfoldable pub settlement_evidence : TurnEvidenceRecord → Program (Unit {0})
  settlement_evidence record_ = try_catch (write_evidence record_) (λ _. internal_error)
