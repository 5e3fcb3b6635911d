-- ===== src/Engine/Turn/Gate.antt =====
-- The context cap and the approval gate, which run before the model is called.
use digital_employee.Common.{
  ℕ, suc, ◌+◌, String, Bool, true, false, ◌||◌, some, List, [], ◌∷◌, map, ltb, if◌then◌else◌,
  if_some, or_else,
}
use digital_employee.Engine.Budget.{turn_tokens}
use digital_employee.Engine.Approval.{
  TurnPendingApprovalInput, TurnApprovalActionInput, ApprovalVerdict, once, preview_gate_refuses,
  pending_approval_expired, approval_required_code, approval_denied_code, approval_expired_code,
}
use digital_employee.Engine.Escalation.{EscalationCause}
use digital_employee.Engine.Turn.Events.{
  TerminalReason, cancelled, engine_internal_error, context_budget_exceeded_code,
  approval_requested, approval_granted, approval_denied, ApprovalOutcome, ApprovalRef, expired,
  denied, granted, requested,
}
use digital_employee.Engine.Turn.Program.{Program, return, emit, ◌>>◌}
use digital_employee.Engine.Turn.World.{EngineTurnRequest, World}
use digital_employee.Engine.Turn.Stops.{
  RunState, fail, evidence, settlement_evidence, stop_with_escalation,
}

unfoldable pub sum : List ℕ → ℕ
sum [] = 0
sum (n ∷ ns) = n + sum ns

abbrev refs_of : ApprovalOutcome → List TurnPendingApprovalInput → List ApprovalRef
refs_of outcome = map λ p. record { approval_id = p.approval_id; outcome = outcome }

unfoldable pub is_denied : ApprovalVerdict → Bool
is_denied ApprovalVerdict.denied = true
is_denied ApprovalVerdict.granted = false

-- `pendingApprovals[0]!.decision === "denied"`
unfoldable pub first_denied : List TurnPendingApprovalInput → Bool
first_denied [] = false
first_denied (p ∷ ps) = is_denied p.decision

unfoldable pub emit_denied : List TurnPendingApprovalInput → Program (Unit {0})
emit_denied [] = return tt
emit_denied (p ∷ ps) = do emit (approval_denied p.approval_id); emit_denied ps

unfoldable pub emit_granted : List TurnPendingApprovalInput → Program (Unit {0})
emit_granted [] = return tt
emit_granted (p ∷ ps) = do
  emit (approval_granted p.approval_id (or_else p.scope once))
  emit_granted ps

module _ (w : World) where
  -- The optional cap on the assembled blocks.
  unfoldable pub context_cap : EngineTurnRequest → RunState → Program (Unit {0})
  context_cap request s =
      let context_bytes = sum w.block_bytes in
      if_some request.max_context_bytes
        (λ cap.
          if ltb cap context_bytes
          then stop_with_escalation w s TerminalReason.turn_budget_exceeded
              EscalationCause.turn_budget_exceeded
              (record { dimension = some turn_tokens; used = context_bytes; limit = cap })
              (some context_budget_exceeded_code)
          else return tt)
        (return tt)

  -- `some(…)` over the verdicts; each reads the clock anew.
  unfoldable pub any_expired : ℕ → List TurnPendingApprovalInput → Bool
  any_expired i [] = false
  any_expired i (p ∷ ps) =
      pending_approval_expired w.parse_date p (w.gate_now i) || any_expired (suc i) ps

  unfoldable pub settle_expired : List TurnPendingApprovalInput → RunState → Program RunState
  settle_expired pending s = do
    let s' = record s { approval_refs = refs_of expired pending }
    settlement_evidence w (evidence w s' false cancelled (some approval_expired_code) false)
    fail approval_expired_code cancelled false

  unfoldable pub settle_denied : List TurnPendingApprovalInput → RunState → Program RunState
  settle_denied pending s = do
    let s' = record s { approval_refs = refs_of denied pending }
    settlement_evidence w (evidence w s' false cancelled (some approval_denied_code) false)
    emit_denied pending
    fail approval_denied_code cancelled false

  unfoldable pub settle_granted : List TurnPendingApprovalInput → RunState → Program RunState
  settle_granted pending s = do
    emit_granted pending
    return (record s { approval_refs = refs_of granted pending })

  -- Verdicts that are not usable, or denied, settle the turn; granted ones are recorded and the
  -- turn goes on.
  unfoldable pub settle_verdicts : List TurnPendingApprovalInput → RunState → Program RunState
  settle_verdicts pending s =
      if any_expired 0 pending
      then settle_expired pending s
      else if first_denied pending
      then settle_denied pending s
      else settle_granted pending s

  unfoldable pub refuse_preview : String → RunState → Program RunState
  refuse_preview code s = do
    settlement_evidence w (evidence w s false engine_internal_error (some code) false)
    fail code engine_internal_error false

  unfoldable pub ask_operator : RunState → Program RunState
  ask_operator s = do
    let s' = record s {
      approval_refs = record { approval_id = w.new_id; outcome = requested } ∷ [];
    }
    settlement_evidence w (evidence w s' false cancelled (some approval_required_code) false)
    emit (approval_requested w.new_id)
    fail approval_required_code cancelled true

  -- An action settles the turn as a request for the operator, if its preview has been validated.
  unfoldable pub request_approval : TurnApprovalActionInput → RunState → Program RunState
  request_approval action s =
      if_some (preview_gate_refuses action) (λ code. refuse_preview code s) (ask_operator s)

  unfoldable pub approval_gate : EngineTurnRequest → RunState → Program RunState
  approval_gate request s =
      if_some request.pending_approvals (λ pending. settle_verdicts pending s)
        (if_some request.pending_approval (λ pending. settle_verdicts (pending ∷ []) s)
          (if_some request.approval_action (λ action. request_approval action s) (return s)))
