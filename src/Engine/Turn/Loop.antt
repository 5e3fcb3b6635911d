-- ===== src/Engine/Turn/Loop.antt =====
-- The validate/repair loop: one iteration, the loop, and its exhaustion.
use digital_employee.Common.{
  ℕ, zero, suc, ◌+◌, String, Bool, true, false, ◌||◌, Option, none, some, [], ◌∷◌, ◌++◌, ltb,
  if◌then◌else◌, if_some, or_else, is_some,
}
use digital_employee.Engine.Budget.{
  PositionBudgetDeclaration, BudgetExceeded, Increment, turn_tokens, check_position_budget,
}
use digital_employee.Engine.DoomLoop
use digital_employee.Engine.DoomLoop.{DoomLoopDetector, DoomLoopSignal, no_signal}
use digital_employee.Engine.Escalation.{EscalationCause, EscalationBudgetSnapshot}
use digital_employee.Engine.Turn.Events.{
  TerminalReason, goal_met, cancelled, invalid_output_exhausted, reason_to_code, Output, text, json,
  usage, model_delta, run_completed, ModelTurnResult, ViolationSummary, not_valid_json,
  failed_terminal_schema, model_called, model_replied, ledger_committed,
}
use digital_employee.Engine.Turn.Program.{
  Program, throw, return, perform, emit, settle, try_catch, ◌>>=◌, ◌>>◌,
}
use digital_employee.Engine.Turn.World.{EngineTurnRequest, World}
use digital_employee.Engine.Turn.Stops.{
  RunState, consumed_of, fail, evidence, write_evidence, stop_with_escalation,
}

abbrev no_snapshot : EscalationBudgetSnapshot
no_snapshot = record { dimension = none; used = 0; limit = 0 }

abbrev snapshot_of : BudgetExceeded → EscalationBudgetSnapshot
snapshot_of e = record { dimension = some e.dimension; used = e.used; limit = e.limit }

-- `signal !== "none"`
abbrev pub is_signal : DoomLoopSignal → Bool
is_signal no_signal = false
is_signal _ = true

unfoldable pub call_tokens : ModelTurnResult → ℕ
call_tokens result = or_else result.input_tokens 0 + or_else result.output_tokens 0

module _ (w : World) (request : EngineTurnRequest) where
  -- `declaration && ledger && taskId && dayKey`; the validator has checked the last two.
  unfoldable pub position_budget_in_use : Option PositionBudgetDeclaration
  position_budget_in_use = if w.has_ledger then request.position_budget else none

  unfoldable pub check_cancelled : ℕ → RunState → Program (Unit {0})
  check_cancelled attempt s =
      if w.aborted attempt
      then (do
        try_catch
            (write_evidence w
              (evidence w s false cancelled (some (reason_to_code cancelled)) false))
            (λ _. return tt)
        fail "engine.cancelled" cancelled false)
      else return tt

  -- An unparseable deadline was refused by the validator; `NaN` compares false.
  unfoldable pub past_deadline : ℕ → Bool
  past_deadline attempt =
      if_some request.deadline
        (λ deadline. if_some (w.parse_date deadline) (λ parsed. ltb parsed (w.now attempt)) false)
        false

  unfoldable pub check_deadline : ℕ → RunState → Program (Unit {0})
  check_deadline attempt s =
      if past_deadline attempt
      then stop_with_escalation w s TerminalReason.deadline_exceeded
          EscalationCause.deadline_exceeded no_snapshot none
      else return tt

  unfoldable pub check_turn_tokens : RunState → Program (Unit {0})
  check_turn_tokens s =
      if_some request.max_tokens
        (λ limit.
          if ltb limit s.tokens_used
          then stop_with_escalation w s TerminalReason.turn_budget_exceeded
              EscalationCause.turn_budget_exceeded
              (record { dimension = some turn_tokens; used = s.tokens_used; limit = limit }) none
          else return tt)
        (return tt)

  unfoldable pub check_position : Increment → RunState → Program (Unit {0})
  check_position increment s =
      if_some position_budget_in_use
        (λ declaration.
          if_some (check_position_budget declaration s.position_usage increment)
            (λ exceeded.
              stop_with_escalation w s TerminalReason.position_budget_exceeded
                EscalationCause.position_budget_exceeded (snapshot_of exceeded) none)
            (return tt))
        (return tt)

  -- The call of the model; a rejected promise is thrown.
  unfoldable pub call_model : ℕ → RunState → Program ModelTurnResult
  call_model attempt s = do
    perform (model_called s.violations)
    if_some (w.complete attempt) (λ result. perform (model_replied result) >> return result)
        (throw (consumed_of s))

  unfoldable pub report_usage : ModelTurnResult → Program (Unit {0})
  report_usage result =
      if is_some result.input_tokens || is_some result.output_tokens
      then emit (usage result.input_tokens result.output_tokens)
      else return tt

  -- Commit the consumption and read the new usage.
  unfoldable pub commit_usage : ℕ → ℕ → RunState → Program RunState
  commit_usage attempt tokens s =
      if_some position_budget_in_use
        (λ declaration.
          if w.ledger_commits attempt tokens
          then perform (ledger_committed tokens)
            >> if_some (w.ledger_read_again attempt tokens)
                (λ position_usage. return (record s { position_usage = position_usage }))
                (throw (consumed_of s))
          else throw (consumed_of s))
        (return s)

  unfoldable pub detect_doom_loop : String → RunState → Program RunState
  detect_doom_loop output s =
      let (detector, signal) = DoomLoop.observe w.digest_output s.detector output in
      let s' = record s { detector = detector } in
      if is_signal signal
      then stop_with_escalation w s' TerminalReason.doom_loop EscalationCause.doom_loop no_snapshot
          none
      else return s'

  unfoldable pub complete_run : RunState → Output → Program RunState
  complete_run s output = do
    write_evidence w (evidence w s true goal_met none false)
    settle (run_completed output)

  unfoldable pub add_violation : ℕ → ViolationSummary → RunState → Program RunState
  add_violation attempt summary s = return (record s {
    violations = s.violations ++ record { attempt = attempt; summary = summary } ∷ [];
  })

  -- The terminal check: the text itself where there is no schema.
  unfoldable pub check_output : ℕ → String → RunState → Program RunState
  check_output attempt output s =
      if_some request.schema
        (λ validate.
          if_some (w.parse_json output)
            (λ candidate.
              if validate candidate
              then complete_run s (json candidate)
              else add_violation attempt failed_terminal_schema s)
            (add_violation attempt not_valid_json s))
        (complete_run s (text output))

  -- What precedes the model call.
  unfoldable pub before_call : ℕ → RunState → Program (Unit {0})
  before_call attempt s = do
    check_cancelled attempt s
    check_deadline attempt s
    check_turn_tokens s
    check_position (record { tokens = 0; iterations = 1 }) s

  unfoldable pub count_call : ModelTurnResult → RunState → RunState
  count_call result s = record s {
    iterations_used = suc s.iterations_used;
    tokens_used = s.tokens_used + call_tokens result;
  }

  -- What follows it.
  unfoldable pub after_call : ℕ → ModelTurnResult → RunState → Program RunState
  after_call attempt result s = do
    let counted = count_call result s
    report_usage result
    committed ← commit_usage attempt (call_tokens result) counted
    check_position (record { tokens = 0; iterations = 0 }) committed
    check_turn_tokens committed
    emit (model_delta result.text)
    observed ← detect_doom_loop result.text committed
    check_output attempt result.text observed

  -- One iteration; it goes on to the next with a new violation.
  unfoldable pub iteration : ℕ → RunState → Program RunState
  iteration attempt s = do
    before_call attempt s
    result ← call_model attempt s
    after_call attempt result s

  -- After the last iteration.
  unfoldable pub exhausted : RunState → Program RunState
  exhausted s =
      if_some request.schema
        (λ validate. do
          write_evidence w (
              evidence w s false invalid_output_exhausted
                (some (reason_to_code invalid_output_exhausted)) false)
          fail "engine.output_invalid" invalid_output_exhausted true)
        (stop_with_escalation w s TerminalReason.iteration_cap EscalationCause.iteration_cap
          (record { dimension = none; used = s.iterations_used; limit = request.max_iterations })
          none)

  -- `for (attempt = 1; attempt <= maxIterations; …)`: the iterations left, and the next one.
  unfoldable pub loop : ℕ → ℕ → RunState → Program RunState
  loop zero attempt s = exhausted s
  loop (suc left) attempt s = do s' ← iteration attempt s; loop left (suc attempt) s'
