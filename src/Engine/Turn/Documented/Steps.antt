-- ===== src/Engine/Turn/Documented/Steps.antt =====
-- Each step of the turn leaves its terminal event on record, where both sinks are mounted.
use digital_employee.Engine.Turn.Stops.{evidence}
use digital_employee.Engine.Turn.Events.{reason_to_code, goal_met}
use digital_employee.Common.{or_else, inl, inr, ◌≡◌, some, none}
use digital_employee.Common.Result.{Result, ok, err, Result-cases}
use digital_employee.Engine.DoomLoop
use digital_employee.Engine.Turn.Program.{◌>>=◌, perform, return, throw, settle, try_catch, emit}
use digital_employee.Common.{Bool-cases, true, false}
use digital_employee.Common.{refl}
use digital_employee.Engine.Turn.World.{EngineTurnRequest, World}
use digital_employee.Engine.Turn.Stops.{
  settlement_evidence, RunState, write_evidence, write_escalation, stop_with_escalation,
}
use digital_employee.Engine.Escalation.{EscalationBudgetSnapshot, EscalationCause}
use digital_employee.Engine.Turn.Events.{
  approval_granted, approval_denied, Output, ModelTurnResult, TerminalReason, TurnEvidenceRecord,
}
use digital_employee.Engine.Turn.Documented.{
  Documents-throw, cause_of, Documents-perform, Documents-bind, Documents-return, documents_rules,
  Documents,
}
use digital_employee.Engine.Turn.Program.{emit, Consumed}
use digital_employee.Common.{or_else, ℕ, zero, suc, [], ◌∷◌, List, String, Option}
use digital_employee.Engine.Turn.Gate.{
  settle_granted, settle_denied, ask_operator, refuse_preview, settle_expired, settle_verdicts,
  approval_gate, request_approval, emit_granted, context_cap, emit_denied,
}
use digital_employee.Engine.Approval.{once, TurnApprovalActionInput, TurnPendingApprovalInput}
use digital_employee.Engine.Turn.Loop.{
  add_violation, check_turn_tokens, iteration, report_usage, check_cancelled, exhausted, loop,
  after_call, check_output, check_position, before_call, commit_usage, detect_doom_loop, call_model,
  check_deadline, complete_run,
}
use digital_employee.Engine.Turn.Execute.{
  nothing_consumed, execute, create_detector, read_usage, or_throw, governed, handle_error,
}
use digital_employee.Engine.Budget.{Increment}

or_throw-Documents {ℓ κ} : {E : Type ℓ} {A : Type κ} (r : Result E A) → Documents (or_throw r)
unfolding or_throw
or_throw-Documents (ok a) = Documents-return a
or_throw-Documents (err e) = Documents-throw nothing_consumed

emit_denied-Documents : (ps : List TurnPendingApprovalInput) → Documents (emit_denied ps)
unfolding emit_denied
emit_denied-Documents [] = Documents-return tt
emit_denied-Documents (p ∷ ps) =
    Documents-bind (emit (approval_denied p.approval_id)) _ (Documents-perform _ tt)
      (λ u. emit_denied-Documents ps)

emit_granted-Documents : (ps : List TurnPendingApprovalInput) → Documents (emit_granted ps)
unfolding emit_granted
emit_granted-Documents [] = Documents-return tt
emit_granted-Documents (p ∷ ps) =
    Documents-bind (emit (approval_granted p.approval_id (or_else p.scope once))) _
      (Documents-perform _ tt) (λ u. emit_granted-Documents ps)

module _ (w : World) (has_escalation_sink : w.has_escalation_sink ≡ true)
    (has_evidence_sink : w.has_evidence_sink ≡ true) where
  write_evidence-Documents : (r : TurnEvidenceRecord) → Documents (write_evidence w r)
  unfolding write_evidence
  write_evidence-Documents r = search documents_rules depth 7

  -- Either both records are written before the stop, or the turn ends with an internal error.
  stop_with_escalation-Documents {ℓ} :
      {A : Type ℓ} (s : RunState) (reason : TerminalReason) (cause : EscalationCause)
      (snapshot : EscalationBudgetSnapshot) (code : Option String)
      → cause_of reason ≡ some cause
      → Documents (stop_with_escalation w {A = A} s reason cause snapshot code)
  unfolding stop_with_escalation write_escalation write_evidence try_catch ◌>>=◌ perform return
      throw settle
  stop_with_escalation-Documents s reason cause snapshot code h = rw has_escalation_sink (
      rw has_evidence_sink (elim (Bool-cases (w.escalation_sink_accepts cause)) [
        | inl e ↦
            rw e
              (elim (Bool-cases (
                w.evidence_sink_accepts
                  (evidence w s false reason (some (or_else code (reason_to_code reason))) true))) [
                    | inl v ↦ rw v (record {
                      documented = (tt, (tt, (rw h ((refl, refl, refl, refl), refl), tt)));
                    })
                    | inr v ↦ rw v (record { documented = (tt, (tt, (tt, tt))) })
                  ])
        | inr e ↦ rw e (record { documented = (tt, (tt, tt)) })
      ]))

  settlement_evidence-Documents : (r : TurnEvidenceRecord) → Documents (settlement_evidence w r)
  unfolding settlement_evidence
  settlement_evidence-Documents r = search (documents_rules, write_evidence-Documents)

  ruleset stop_rules = (
    documents_rules, refl, write_evidence-Documents, stop_with_escalation-Documents,
    settlement_evidence-Documents,
  )

  context_cap-Documents :
      (request : EngineTurnRequest) (s : RunState) → Documents (context_cap w request s)
  unfolding context_cap
  context_cap-Documents request s = search stop_rules

  settle_verdicts-Documents :
      (pending : List TurnPendingApprovalInput) (s : RunState)
      → Documents (settle_verdicts w pending s)
  unfolding settle_verdicts settle_expired settle_denied settle_granted
  settle_verdicts-Documents pending s =
      search (stop_rules, emit_denied-Documents, emit_granted-Documents) depth 7

  request_approval-Documents :
      (action : TurnApprovalActionInput) (s : RunState) → Documents (request_approval w action s)
  unfolding request_approval refuse_preview ask_operator
  request_approval-Documents action s = search stop_rules depth 7

  approval_gate-Documents :
      (request : EngineTurnRequest) (s : RunState) → Documents (approval_gate w request s)
  unfolding approval_gate
  approval_gate-Documents request s =
      search (documents_rules, settle_verdicts-Documents, request_approval-Documents)

  module _ (request : EngineTurnRequest) where
    check_cancelled-Documents :
        (attempt : ℕ) (s : RunState) → Documents (check_cancelled w request attempt s)
    unfolding check_cancelled
    check_cancelled-Documents attempt s = search stop_rules depth 7

    check_deadline-Documents :
        (attempt : ℕ) (s : RunState) → Documents (check_deadline w request attempt s)
    unfolding check_deadline
    check_deadline-Documents attempt s = search stop_rules

    check_turn_tokens-Documents : (s : RunState) → Documents (check_turn_tokens w request s)
    unfolding check_turn_tokens
    check_turn_tokens-Documents s = search stop_rules

    check_position-Documents :
        (i : Increment) (s : RunState) → Documents (check_position w request i s)
    unfolding check_position
    check_position-Documents i s = search stop_rules

    call_model-Documents : (attempt : ℕ) (s : RunState) → Documents (call_model w request attempt s)
    unfolding call_model
    call_model-Documents attempt s = search documents_rules depth 7

    report_usage-Documents : (result : ModelTurnResult) → Documents (report_usage w request result)
    unfolding report_usage
    report_usage-Documents result = search documents_rules

    commit_usage-Documents :
        (attempt tokens : ℕ) (s : RunState) → Documents (commit_usage w request attempt tokens s)
    unfolding commit_usage
    commit_usage-Documents attempt tokens s = search documents_rules depth 7

    detect_doom_loop-Documents :
        (output : String) (s : RunState) → Documents (detect_doom_loop w request output s)
    unfolding detect_doom_loop
    detect_doom_loop-Documents output s = search stop_rules

    complete_run-Documents :
        (s : RunState) (output : Output) → Documents (complete_run w request s output)
    unfolding complete_run write_evidence ◌>>=◌ perform throw settle
    complete_run-Documents s output =
        rw has_evidence_sink
          (elim (Bool-cases (w.evidence_sink_accepts (evidence w s true goal_met none false))) [
            | inl v ↦ rw v (record { documented = (tt, ((refl, refl, refl), tt)) })
            | inr v ↦ rw v (record { documented = (tt, tt) })
          ])

    check_output-Documents :
        (attempt : ℕ) (output : String) (s : RunState)
        → Documents (check_output w request attempt output s)
    unfolding check_output add_violation
    check_output-Documents attempt output s = search (documents_rules, complete_run-Documents)

    ruleset step_rules = (
      documents_rules, check_cancelled-Documents, check_deadline-Documents,
      check_turn_tokens-Documents, check_position-Documents, call_model-Documents,
      report_usage-Documents, commit_usage-Documents, detect_doom_loop-Documents,
      check_output-Documents,
    )

    before_call-Documents :
        (attempt : ℕ) (s : RunState) → Documents (before_call w request attempt s)
    unfolding before_call
    before_call-Documents attempt s = search step_rules depth 7

    after_call-Documents :
        (attempt : ℕ) (result : ModelTurnResult) (s : RunState)
        → Documents (after_call w request attempt result s)
    unfolding after_call
    after_call-Documents attempt result s = search step_rules depth 9

    iteration-Documents : (attempt : ℕ) (s : RunState) → Documents (iteration w request attempt s)
    unfolding iteration
    iteration-Documents attempt s =
        search (documents_rules, before_call-Documents, call_model-Documents, after_call-Documents)

    exhausted-Documents : (s : RunState) → Documents (exhausted w request s)
    unfolding exhausted
    exhausted-Documents s = search stop_rules depth 7

    pub loop-Documents :
        (left attempt : ℕ) (s : RunState) → Documents (loop w request left attempt s)
    unfolding loop
    loop-Documents zero attempt s = exhausted-Documents s
    loop-Documents (suc left) attempt s =
        Documents-bind (iteration w request attempt s) _ (iteration-Documents attempt s)
          (λ s'. loop-Documents left (suc attempt) s')

    handle_error-Documents : (s : RunState) (c : Consumed) → Documents (handle_error w request s c)
    unfolding handle_error
    handle_error-Documents s c = search stop_rules depth 7

    pub governed-Documents : (s : RunState) → Documents (governed w request s)
    unfolding governed
    governed-Documents s = search (
      documents_rules, context_cap-Documents, approval_gate-Documents, loop-Documents,
      handle_error-Documents,
    )

    create_detector-Documents : Documents (create_detector w request)
    unfolding create_detector
    create_detector-Documents = elim (Result-cases (DoomLoop.create request.doom_loop)) [
      | inl (d, h) ↦ rw h (or_throw-Documents (ok d))
      | inr (e, h) ↦ rw h (or_throw-Documents (err e))
    ]

    read_usage-Documents : Documents (read_usage w request)
    unfolding read_usage
    read_usage-Documents = search documents_rules depth 7

    -- Where both sinks are mounted, whatever they answer: a completed run has just written the
    -- evidence of its completion; a run stopped for a budget, the iteration cap, a doom loop or the
    -- deadline has just written the escalation for that cause and then the evidence of the stop,
    -- with the code that it reports.
    pub execute-Documents : Documents (execute w request)
    unfolding execute
    execute-Documents =
        search
          (documents_rules, create_detector-Documents, read_usage-Documents, governed-Documents)
          depth 7
