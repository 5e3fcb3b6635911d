-- ===== src/Engine/Turn/Calls/Steps.antt =====
-- Which steps of the turn do not call the model.
use digital_employee.Common.{refl}
use digital_employee.Engine.Turn.World.{EngineTurnRequest, World}
use digital_employee.Engine.Turn.Stops.{
  settlement_evidence, RunState, write_evidence, write_escalation, stop_with_escalation,
}
use digital_employee.Engine.Escalation.{EscalationBudgetSnapshot, EscalationCause}
use digital_employee.Engine.Turn.Events.{
  approval_granted, approval_denied, Output, ModelTurnResult, TerminalReason, TurnEvidenceRecord,
}
use digital_employee.Engine.Turn.Calls.{
  Silent-perform, Calls-after, Silent-return, silent_rules, Silent,
}
use digital_employee.Engine.Turn.Program.{emit, Consumed}
use digital_employee.Common.{or_else, ℕ, [], ◌∷◌, List, String, Option}
use digital_employee.Engine.Turn.Gate.{
  settle_granted, settle_denied, ask_operator, refuse_preview, settle_expired, settle_verdicts,
  approval_gate, request_approval, emit_granted, context_cap, emit_denied,
}
use digital_employee.Engine.Approval.{once, TurnApprovalActionInput, TurnPendingApprovalInput}
use digital_employee.Engine.Turn.Loop.{
  add_violation, check_turn_tokens, report_usage, check_cancelled, exhausted, after_call,
  check_output, check_position, before_call, commit_usage, detect_doom_loop, check_deadline,
  complete_run,
}
use digital_employee.Engine.Turn.Execute.{handle_error}
use digital_employee.Engine.Budget.{Increment}

emit_denied-Silent : (ps : List TurnPendingApprovalInput) → Silent (emit_denied ps)
unfolding emit_denied
emit_denied-Silent [] = Silent-return tt
emit_denied-Silent (p ∷ ps) =
    Calls-after (emit (approval_denied p.approval_id)) _ (Silent-perform _ refl)
      (λ u. emit_denied-Silent ps)

emit_granted-Silent : (ps : List TurnPendingApprovalInput) → Silent (emit_granted ps)
unfolding emit_granted
emit_granted-Silent [] = Silent-return tt
emit_granted-Silent (p ∷ ps) =
    Calls-after (emit (approval_granted p.approval_id (or_else p.scope once))) _
      (Silent-perform _ refl) (λ u. emit_granted-Silent ps)

module _ (w : World) where
  write_escalation-Silent :
      (cause : EscalationCause) (snapshot : EscalationBudgetSnapshot) (c : Consumed)
      → Silent (write_escalation w cause snapshot c)
  unfolding write_escalation
  write_escalation-Silent cause snapshot c = search silent_rules

  write_evidence-Silent : (r : TurnEvidenceRecord) → Silent (write_evidence w r)
  unfolding write_evidence
  write_evidence-Silent r = search silent_rules

  stop_with_escalation-Silent {ℓ} :
      {A : Type ℓ} (s : RunState) (reason : TerminalReason) (cause : EscalationCause)
      (snapshot : EscalationBudgetSnapshot) (code : Option String)
      → Silent (stop_with_escalation w {A = A} s reason cause snapshot code)
  unfolding stop_with_escalation
  stop_with_escalation-Silent s reason cause snapshot code =
      search (silent_rules, write_escalation-Silent, write_evidence-Silent)

  settlement_evidence-Silent : (r : TurnEvidenceRecord) → Silent (settlement_evidence w r)
  unfolding settlement_evidence
  settlement_evidence-Silent r = search (silent_rules, write_evidence-Silent)

  ruleset stop_rules =
      (silent_rules, write_evidence-Silent, stop_with_escalation-Silent, settlement_evidence-Silent)

  pub context_cap-Silent :
      (request : EngineTurnRequest) (s : RunState) → Silent (context_cap w request s)
  unfolding context_cap
  context_cap-Silent request s = search stop_rules

  settle_verdicts-Silent :
      (pending : List TurnPendingApprovalInput) (s : RunState)
      → Silent (settle_verdicts w pending s)
  unfolding settle_verdicts settle_expired settle_denied settle_granted
  settle_verdicts-Silent pending s =
      search (stop_rules, emit_denied-Silent, emit_granted-Silent) depth 7

  request_approval-Silent :
      (action : TurnApprovalActionInput) (s : RunState) → Silent (request_approval w action s)
  unfolding request_approval refuse_preview ask_operator
  request_approval-Silent action s = search stop_rules depth 7

  pub approval_gate-Silent :
      (request : EngineTurnRequest) (s : RunState) → Silent (approval_gate w request s)
  unfolding approval_gate
  approval_gate-Silent request s =
      search (silent_rules, settle_verdicts-Silent, request_approval-Silent)

  module _ (request : EngineTurnRequest) where
    check_cancelled-Silent :
        (attempt : ℕ) (s : RunState) → Silent (check_cancelled w request attempt s)
    unfolding check_cancelled
    check_cancelled-Silent attempt s = search stop_rules depth 7

    check_deadline-Silent :
        (attempt : ℕ) (s : RunState) → Silent (check_deadline w request attempt s)
    unfolding check_deadline
    check_deadline-Silent attempt s = search stop_rules

    check_turn_tokens-Silent : (s : RunState) → Silent (check_turn_tokens w request s)
    unfolding check_turn_tokens
    check_turn_tokens-Silent s = search stop_rules

    check_position-Silent : (i : Increment) (s : RunState) → Silent (check_position w request i s)
    unfolding check_position
    check_position-Silent i s = search stop_rules

    report_usage-Silent : (result : ModelTurnResult) → Silent (report_usage w request result)
    unfolding report_usage
    report_usage-Silent result = search silent_rules

    commit_usage-Silent :
        (attempt tokens : ℕ) (s : RunState) → Silent (commit_usage w request attempt tokens s)
    unfolding commit_usage
    commit_usage-Silent attempt tokens s = search silent_rules depth 7

    detect_doom_loop-Silent :
        (output : String) (s : RunState) → Silent (detect_doom_loop w request output s)
    unfolding detect_doom_loop
    detect_doom_loop-Silent output s = search stop_rules

    complete_run-Silent :
        (s : RunState) (output : Output) → Silent (complete_run w request s output)
    unfolding complete_run
    complete_run-Silent s output = search stop_rules

    check_output-Silent :
        (attempt : ℕ) (output : String) (s : RunState)
        → Silent (check_output w request attempt output s)
    unfolding check_output add_violation
    check_output-Silent attempt output s = search (silent_rules, complete_run-Silent)

    ruleset step_rules = (
      silent_rules, check_cancelled-Silent, check_deadline-Silent, check_turn_tokens-Silent,
      check_position-Silent, report_usage-Silent, commit_usage-Silent, detect_doom_loop-Silent,
      check_output-Silent,
    )

    pub before_call-Silent : (attempt : ℕ) (s : RunState) → Silent (before_call w request attempt s)
    unfolding before_call
    before_call-Silent attempt s = search step_rules depth 7

    pub after_call-Silent :
        (attempt : ℕ) (result : ModelTurnResult) (s : RunState)
        → Silent (after_call w request attempt result s)
    unfolding after_call
    after_call-Silent attempt result s = search step_rules depth 9

    pub exhausted-Silent : (s : RunState) → Silent (exhausted w request s)
    unfolding exhausted
    exhausted-Silent s = search stop_rules depth 7

    pub handle_error-Silent : (s : RunState) (c : Consumed) → Silent (handle_error w request s c)
    unfolding handle_error
    handle_error-Silent s c = search stop_rules depth 7
