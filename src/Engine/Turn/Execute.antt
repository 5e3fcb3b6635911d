-- ===== src/Engine/Turn/Execute.antt =====
-- The turn from the assembled context on: the detector, the ledger, the gates, the loop and its
-- handler.
use digital_employee.Common.{true, false, some, [], if_some}
use digital_employee.Common.Result.{Result, ok, err}
use digital_employee.Engine.Budget.{BudgetUsage, empty_budget_usage}
use digital_employee.Engine.DoomLoop
use digital_employee.Engine.DoomLoop.{DoomLoopDetector}
use digital_employee.Engine.Turn.Events.{engine_internal_error, reason_to_code}
use digital_employee.Engine.Turn.Program.{Program, Consumed, throw, return, try_catch, ◌>>=◌, ◌>>◌}
use digital_employee.Engine.Turn.World.{EngineTurnRequest, World}
use digital_employee.Engine.Turn.Stops.{RunState, fail, evidence, write_evidence}
use digital_employee.Engine.Turn.Gate.{context_cap, approval_gate}
use digital_employee.Engine.Turn.Loop.{position_budget_in_use, loop}

abbrev pub nothing_consumed : Consumed
nothing_consumed = record { iterations_used = 0; tokens_used = 0 }

-- What nothing catches.
unfoldable pub or_throw {ℓ κ} : {E : Type ℓ} {A : Type κ} → Result E A → Program A
or_throw (ok a) = return a
or_throw (err e) = throw nothing_consumed

module _ (w : World) (request : EngineTurnRequest) where
  -- The constructor may throw; nothing catches it here.
  unfoldable pub create_detector : Program DoomLoopDetector
  create_detector = or_throw (DoomLoop.create request.doom_loop)

  -- The first read of the ledger, which nothing catches either.
  unfoldable pub read_usage : Program BudgetUsage
  read_usage =
      if_some (position_budget_in_use w request)
        (λ declaration. if_some w.ledger_read (λ usage. return usage) (throw nothing_consumed))
        (return empty_budget_usage)

  -- The `catch` of the loop.
  unfoldable pub handle_error : RunState → Consumed → Program RunState
  handle_error s c = do
    let s' = record s { iterations_used = c.iterations_used; tokens_used = c.tokens_used }
    try_catch
        (write_evidence w (
          evidence w s' false engine_internal_error (some (reason_to_code engine_internal_error))
            false))
        (λ _. return tt)
    fail "engine.internal_error" engine_internal_error true

  -- The gates and the loop, from the initial state.
  unfoldable pub governed : RunState → Program RunState
  governed s = do
    context_cap w request s
    s' ← approval_gate w request s
    try_catch (loop w request request.max_iterations 1 s') (handle_error s')

  unfoldable pub execute : Program RunState
  execute = do
    detector ← create_detector
    position_usage ← read_usage
    governed (record {
      approval_refs = [];
      iterations_used = 0;
      tokens_used = 0;
      position_usage = position_usage;
      detector = detector;
      violations = [];
    })
