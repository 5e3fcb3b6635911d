-- ===== src/Examples/Turn.antt =====
-- Turns run against concrete worlds.
use digital_employee.Common.{
  ◌≤◌, inr, inl, if_some, ℕ, ◌≡◌, refl, Bool, true, false, none, some, [], ◌∷◌, str_eq,
  if◌then◌else◌,
}
use digital_employee.Common.Value.{Value}
use digital_employee.Engine.DoomLoop.{observe, create, PartialConfig}
use digital_employee.Engine.Turn.Program.{
  throw, settle, perform, try_catch, return, ◌>>=◌, Program, stop,
}
use digital_employee.Engine.Turn.World.{EngineTurnRequest, World}
use digital_employee.Engine.Turn.Execute.{
  or_throw, handle_error, read_usage, create_detector, governed, execute,
}
use digital_employee.Engine.Turn.Loop.{
  exhausted, call_tokens, count_call, add_violation, complete_run, check_output, detect_doom_loop,
  commit_usage, report_usage, after_call, call_model, check_position, check_turn_tokens,
  past_deadline, check_deadline, check_cancelled, before_call, iteration, loop,
  position_budget_in_use,
}
use digital_employee.Engine.Turn.Gate.{is_denied, first_denied, approval_gate, context_cap}
use digital_employee.Engine.Turn.Stops.{
  RunState, write_evidence, write_escalation, stop_with_escalation,
}
use digital_employee.Engine.Turn.Documented.{Documents}
use digital_employee.Engine.Turn.Settled.{IsSettled}
use digital_employee.Engine.Turn.Settled.Whole.{execute-IsSettled}
use digital_employee.Engine.Turn.Documented.Steps.{execute-Documents}
use digital_employee.Engine.Turn.Calls.{calls}
use digital_employee.Engine.Approval.{ApprovalVerdict, TurnPendingApprovalInput}
use digital_employee.Engine.Turn.Calls.Bounds.{execute-Calls, verdicts}
use digital_employee.Engine.Turn.Calls.Emitted.{events}
use digital_employee.Engine.Turn.Calls.Closed.{execute-Closes}
use digital_employee.Engine.Turn.Calls.Closing.{Closes}

abbrev defaults : PartialConfig
defaults = record { repetition_threshold = none; oscillation_cycles = none; window_size = none }

abbrev is_true : Value → Bool
is_true (Value.bool b) = b
is_true _ = false

abbrev request : EngineTurnRequest
request = record {
  max_iterations = 3;
  max_tokens = none;
  max_context_bytes = none;
  deadline = none;
  position_budget = none;
  pending_approval = none;
  pending_approvals = none;
  approval_action = none;
  schema = some is_true;
  doom_loop = defaults;
}

-- The first reply is no JSON, the second is the literal `true`.
abbrev world : World
world = record {
  parse_date = λ s. none;
  parse_json = λ s. if str_eq s "true" then some (Value.bool true) else none;
  digest_output = λ s. s;
  new_id = "approval-1";
  block_bytes = 10 ∷ [];
  gate_now = λ i. 0;
  now = λ i. 0;
  aborted = λ i. false;
  complete = λ n. some (record {
    text = elim n [ ℕ.zero ↦ "" | ℕ.suc m ↦ elim m [ ℕ.zero ↦ "oops" | ℕ.suc k ↦ "true" ] ];
    input_tokens = none;
    output_tokens = none;
  });
  has_ledger = false;
  ledger_read = none;
  ledger_commits = λ n t. false;
  ledger_read_again = λ n t. none;
  has_escalation_sink = true;
  escalation_sink_accepts = λ c. true;
  has_evidence_sink = true;
  evidence_sink_accepts = λ r. true;
}

-- The whole turn, opened.
run : World → EngineTurnRequest → Program RunState
unfolding execute governed create_detector read_usage handle_error create position_budget_in_use
    context_cap approval_gate loop iteration before_call check_cancelled check_deadline
    past_deadline check_turn_tokens check_position call_model after_call report_usage commit_usage
    detect_doom_loop check_output complete_run add_violation count_call call_tokens exhausted
    stop_with_escalation write_escalation write_evidence observe or_throw if_some ◌>>=◌ return
    try_catch perform settle throw
run w r = execute w r

repaired_outcome : (run world request).1 ≡ stop
unfolding run
repaired_outcome = refl

execute-IsSettled_example : IsSettled (execute world request).0 × ((execute world request).1 ≡ stop)
unfolding create position_budget_in_use if_some
execute-IsSettled_example = execute-IsSettled world request refl (inl refl)

execute-Documents_example : Documents (execute world request)
execute-Documents_example = execute-Documents world refl refl request

execute-Calls_example : calls (execute world request).0 ≤ 3
execute-Calls_example = execute-Calls world request

-- The operator has denied.
abbrev denial : TurnPendingApprovalInput
denial = record {
  approval_id = "approval-0";
  decision = ApprovalVerdict.denied;
  scope = none;
  reason = none;
  expires_at = none;
}

abbrev resumed : EngineTurnRequest
resumed = record request { pending_approvals = some (denial ∷ []) }

execute-Closes_example :
    Closes world (verdicts world resumed) none (events (execute world resumed).0)
    × ((execute world resumed).1 ≡ stop)
    × (calls (execute world resumed).0 ≡ 0)
unfolding create position_budget_in_use if_some first_denied is_denied
execute-Closes_example =
    execute-Closes world resumed refl (inl refl) (λ r. refl) tt (inl (denial ∷ [], refl, inr refl))
