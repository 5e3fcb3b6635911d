-- ===== src/Examples/Requests.antt =====
-- A request that resumes with a batch of two verdicts.
use digital_employee.Common.{ℕ, String, refl, Option, none, some, List, [], ◌∷◌, if_some}
use digital_employee.Common.Text.{is_blank, utf16_length, utf8_length}
use digital_employee.Common.Value.{Value}
use digital_employee.Engine.Requests.{
  RawTurnRequest, RawPendingApproval, validate_turn_request, assert_bounded_id, assert_bounded_text,
  assert_optional_timestamp, validate_pending_approval, check_batch, check_pending_approvals,
  validate_approval_request_fields, check_budget,
}
use digital_employee.Engine.Requests.Batches.{AtMostOne, AnyBatch, validate_turn_request-IsBatch}
use digital_employee.Engine.Escalation.{superior, Reporting}

abbrev no_dates : String → Option ℕ
no_dates s = none

abbrev granted : String → RawPendingApproval
granted id = record {
  approval_id = Value.str id;
  decision = Value.str "granted";
  decided_by = Value.str "operator";
  scope = Value.undefined;
  reason = Value.undefined;
  expires_at = Value.undefined;
}

abbrev batch : List RawPendingApproval
batch = granted "a" ∷ granted "b" ∷ []

abbrev resuming : RawTurnRequest
resuming = record {
  workspace_ref = Value.str "w";
  position_id = Value.str "p";
  turn_id = Value.str "t";
  run_id = Value.str "r";
  input = Value.str "hello";
  budget = some (record {
    max_iterations = Value.num 3;
    max_tokens = Value.undefined;
    max_context_bytes = Value.undefined;
  });
  deadline = none;
  position_budget = none;
  task_id = Value.undefined;
  day_key = Value.undefined;
  approval_action = none;
  pending_approval = none;
  pending_approvals = some batch;
}

validate_turn_request-IsBatch_example : AtMostOne resuming × AnyBatch resuming.pending_approvals
unfolding validate_turn_request assert_bounded_id assert_bounded_text assert_optional_timestamp
    validate_pending_approval check_batch check_pending_approvals validate_approval_request_fields
    check_budget is_blank utf16_length utf8_length if_some
validate_turn_request-IsBatch_example = validate_turn_request-IsBatch no_dates resuming refl

abbrev line : String → Reporting
line position = superior "lead"
