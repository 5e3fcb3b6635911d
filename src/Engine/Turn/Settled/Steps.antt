-- ===== src/Engine/Turn/Settled/Steps.antt =====
-- Each step of the turn settles.
use digital_employee.Common.{refl}
use digital_employee.Engine.Turn.World.{EngineTurnRequest, World}
use digital_employee.Engine.Turn.Stops.{
  settlement_evidence, RunState, write_evidence, write_escalation, stop_with_escalation,
}
use digital_employee.Engine.Escalation.{EscalationBudgetSnapshot, EscalationCause}
use digital_employee.Engine.Turn.Events.{
  approval_granted, approval_denied, Output, ModelTurnResult, TerminalReason, TurnEvidenceRecord,
}
use digital_employee.Engine.Turn.Settled.{
  Settles-perform, Settles-bind, Settles-return, settles_rules, Settles,
}
use digital_employee.Engine.Turn.Program.{emit, Consumed}
use digital_employee.Common.{or_else, ℕ, zero, suc, [], ◌∷◌, List, String, Option}
use digital_employee.Engine.Turn.Gate.{
  settle_granted, settle_denied, ask_operator, refuse_preview, settle_expired, settle_verdicts,
  approval_gate, request_approval, emit_granted, context_cap, emit_denied,
}
use digital_employee.Engine.Approval.{once, TurnApprovalActionInput, TurnPendingApprovalInput}
use digital_employee.Engine.Turn.Loop.{
  add_violation, check_turn_tokens, iteration, report_usage, check_cancelled, exhausted, loop,
  after_call, check_output, check_position, before_call, commit_usage, detect_doom_loop, call_model,
  check_deadline, complete_run,
}
use digital_employee.Engine.Turn.Execute.{governed, handle_error}
use digital_employee.Engine.Budget.{Increment}

emit_denied-Settles : (ps : List TurnPendingApprovalInput) → Settles (emit_denied ps)
unfolding emit_denied
emit_denied-Settles [] = Settles-return tt
emit_denied-Settles (p ∷ ps) =
    Settles-bind (emit (approval_denied p.approval_id)) _ (Settles-perform _ refl)
      (λ u. emit_denied-Settles ps)

emit_granted-Settles : (ps : List TurnPendingApprovalInput) → Settles (emit_granted ps)
unfolding emit_granted
emit_granted-Settles [] = Settles-return tt
emit_granted-Settles (p ∷ ps) =
    Settles-bind (emit (approval_granted p.approval_id (or_else p.scope once))) _
      (Settles-perform _ refl) (λ u. emit_granted-Settles ps)

module _ (w : World) where
  write_escalation-Settles :
      (cause : EscalationCause) (snapshot : EscalationBudgetSnapshot) (c : Consumed)
      → Settles (write_escalation w cause snapshot c)
  unfolding write_escalation
  write_escalation-Settles cause snapshot c = search settles_rules

  write_evidence-Settles : (r : TurnEvidenceRecord) → Settles (write_evidence w r)
  unfolding write_evidence
  write_evidence-Settles r = search settles_rules

  stop_with_escalation-Settles {ℓ} :
      {A : Type ℓ} (s : RunState) (reason : TerminalReason) (cause : EscalationCause)
      (snapshot : EscalationBudgetSnapshot) (code : Option String)
      → Settles (stop_with_escalation w {A = A} s reason cause snapshot code)
  unfolding stop_with_escalation
  stop_with_escalation-Settles s reason cause snapshot code =
      search (settles_rules, write_escalation-Settles, write_evidence-Settles)

  settlement_evidence-Settles : (r : TurnEvidenceRecord) → Settles (settlement_evidence w r)
  unfolding settlement_evidence
  settlement_evidence-Settles r = search (settles_rules, write_evidence-Settles)

  ruleset stop_rules = (
    settles_rules, write_evidence-Settles, stop_with_escalation-Settles,
    settlement_evidence-Settles,
  )

  context_cap-Settles :
      (request : EngineTurnRequest) (s : RunState) → Settles (context_cap w request s)
  unfolding context_cap
  context_cap-Settles request s = search stop_rules

  settle_verdicts-Settles :
      (pending : List TurnPendingApprovalInput) (s : RunState)
      → Settles (settle_verdicts w pending s)
  unfolding settle_verdicts settle_expired settle_denied settle_granted
  settle_verdicts-Settles pending s =
      search (stop_rules, emit_denied-Settles, emit_granted-Settles) depth 7

  request_approval-Settles :
      (action : TurnApprovalActionInput) (s : RunState) → Settles (request_approval w action s)
  unfolding request_approval refuse_preview ask_operator
  request_approval-Settles action s = search stop_rules depth 7

  approval_gate-Settles :
      (request : EngineTurnRequest) (s : RunState) → Settles (approval_gate w request s)
  unfolding approval_gate
  approval_gate-Settles request s =
      search (settles_rules, settle_verdicts-Settles, request_approval-Settles)

  module _ (request : EngineTurnRequest) where
    check_cancelled-Settles :
        (attempt : ℕ) (s : RunState) → Settles (check_cancelled w request attempt s)
    unfolding check_cancelled
    check_cancelled-Settles attempt s = search stop_rules depth 7

    check_deadline-Settles :
        (attempt : ℕ) (s : RunState) → Settles (check_deadline w request attempt s)
    unfolding check_deadline
    check_deadline-Settles attempt s = search stop_rules

    check_turn_tokens-Settles : (s : RunState) → Settles (check_turn_tokens w request s)
    unfolding check_turn_tokens
    check_turn_tokens-Settles s = search stop_rules

    check_position-Settles : (i : Increment) (s : RunState) → Settles (check_position w request i s)
    unfolding check_position
    check_position-Settles i s = search stop_rules

    call_model-Settles : (attempt : ℕ) (s : RunState) → Settles (call_model w request attempt s)
    unfolding call_model
    call_model-Settles attempt s = search settles_rules depth 7

    report_usage-Settles : (result : ModelTurnResult) → Settles (report_usage w request result)
    unfolding report_usage
    report_usage-Settles result = search settles_rules

    commit_usage-Settles :
        (attempt tokens : ℕ) (s : RunState) → Settles (commit_usage w request attempt tokens s)
    unfolding commit_usage
    commit_usage-Settles attempt tokens s = search settles_rules depth 7

    detect_doom_loop-Settles :
        (output : String) (s : RunState) → Settles (detect_doom_loop w request output s)
    unfolding detect_doom_loop
    detect_doom_loop-Settles output s = search stop_rules

    complete_run-Settles :
        (s : RunState) (output : Output) → Settles (complete_run w request s output)
    unfolding complete_run
    complete_run-Settles s output = search stop_rules

    check_output-Settles :
        (attempt : ℕ) (output : String) (s : RunState)
        → Settles (check_output w request attempt output s)
    unfolding check_output add_violation
    check_output-Settles attempt output s = search (settles_rules, complete_run-Settles)

    ruleset step_rules = (
      settles_rules, check_cancelled-Settles, check_deadline-Settles, check_turn_tokens-Settles,
      check_position-Settles, call_model-Settles, report_usage-Settles, commit_usage-Settles,
      detect_doom_loop-Settles, check_output-Settles,
    )

    before_call-Settles : (attempt : ℕ) (s : RunState) → Settles (before_call w request attempt s)
    unfolding before_call
    before_call-Settles attempt s = search step_rules depth 7

    after_call-Settles :
        (attempt : ℕ) (result : ModelTurnResult) (s : RunState)
        → Settles (after_call w request attempt result s)
    unfolding after_call
    after_call-Settles attempt result s = search step_rules depth 9

    iteration-Settles : (attempt : ℕ) (s : RunState) → Settles (iteration w request attempt s)
    unfolding iteration
    iteration-Settles attempt s =
        search (settles_rules, before_call-Settles, call_model-Settles, after_call-Settles)

    exhausted-Settles : (s : RunState) → Settles (exhausted w request s)
    unfolding exhausted
    exhausted-Settles s = search stop_rules depth 7

    pub loop-Settles : (left attempt : ℕ) (s : RunState) → Settles (loop w request left attempt s)
    unfolding loop
    loop-Settles zero attempt s = exhausted-Settles s
    loop-Settles (suc left) attempt s =
        Settles-bind (iteration w request attempt s) _ (iteration-Settles attempt s)
          (λ s'. loop-Settles left (suc attempt) s')

    handle_error-Settles : (s : RunState) (c : Consumed) → Settles (handle_error w request s c)
    unfolding handle_error
    handle_error-Settles s c = search stop_rules depth 7

    pub governed-Settles : (s : RunState) → Settles (governed w request s)
    unfolding governed
    governed-Settles s = search (
      settles_rules, context_cap-Settles, approval_gate-Settles, loop-Settles, handle_error-Settles,
    )
