-- ===== src/Engine/Requests.antt =====
-- packages/engine/src/contracts.ts: validateTurnRequest. The fields that the validator tests are
-- untyped values; every refusal has the code `engine.input_invalid`. Date.parse is a parameter.
pub mod Batches
use digital_employee.Common.{
  ℕ, zero, suc, String, Bool, true, false, ◌&&◌, ◌||◌, Option, none, some, List, [], ◌∷◌, str_eq,
  ltb, leb, if◌then◌else◌, if_some, is_some, not, length, any,
}
use digital_employee.Common.Dict.{includes}
use digital_employee.Common.Result.{Result, ok, err, ◌>>=◌, ◌>>◌, guard}
use digital_employee.Common.Text.{is_blank, utf16_length, utf8_length}
use digital_employee.Common.Value.{Value, Fields, member}
use digital_employee.Engine.Budget.{
  validate_position_budget_declaration, PositionBudgetDeclaration, BudgetError,
}

pub data RequestError : Type 0 where
  input_invalid : RequestError

abbrev pub Checked : Type 0
Checked = Result RequestError (Unit {0})

abbrev demand : Bool → Checked
demand b = guard b input_invalid

pub record RawApprovalAction : Type 0 where
  pub kind : Value
  pub description : Value
  pub target : Value
  pub preview : Value

pub record RawPendingApproval : Type 0 where
  pub approval_id : Value
  pub decision : Value
  pub decided_by : Value
  pub scope : Value
  pub reason : Value
  pub expires_at : Value

pub record RawBudget : Type 0 where
  pub max_iterations : Value
  pub max_tokens : Value
  pub max_context_bytes : Value

pub record RawTurnRequest : Type 0 where
  pub workspace_ref : Value
  pub position_id : Value
  pub turn_id : Value
  pub run_id : Value
  pub input : Value
  pub budget : Option RawBudget
  pub deadline : Option String
  pub position_budget : Option Value
  pub task_id : Value
  pub day_key : Value
  pub approval_action : Option RawApprovalAction
  pub pending_approval : Option RawPendingApproval
  pub pending_approvals : Option (List RawPendingApproval)

-- assertBoundedId
unfoldable pub assert_bounded_id : Value → Checked
assert_bounded_id (Value.str s) = do demand (not (is_blank s)); demand (leb (utf16_length s) 256)
assert_bounded_id _ = err input_invalid

-- assertBoundedText
unfoldable pub assert_bounded_text : Value → ℕ → Checked
assert_bounded_text (Value.str s) max_bytes = do
  demand (not (is_blank s))
  demand (leb (utf8_length s) max_bytes)
assert_bounded_text _ max_bytes = err input_invalid

abbrev is_undefined : Value → Bool
is_undefined Value.undefined = true
is_undefined _ = false

-- `v === "…"`
abbrev pub is_text : String → Value → Bool
is_text t (Value.str s) = str_eq s t
is_text t _ = false

-- `Number.isInteger(n) && n >= 1`
abbrev is_positive_integer : Value → Bool
is_positive_integer (Value.num n) = leb 1 n
is_positive_integer _ = false

abbrev unless_undefined : Value → Checked → Checked
unless_undefined v checked = if is_undefined v then ok tt else checked

-- A preview that is an object, with its four bounded fields.
unfoldable pub validate_preview : Value → Checked
validate_preview (Value.obj preview) = do
  assert_bounded_id (member "previewId" preview)
  assert_bounded_id (member "previewDigest" preview)
  assert_bounded_id (member "version" preview)
  assert_bounded_id (member "state" preview)
validate_preview _ = err input_invalid

unfoldable pub validate_approval_action : RawApprovalAction → Checked
validate_approval_action action = do
  demand (
      is_text "exec" action.kind
      || is_text "write" action.kind
      || is_text "network" action.kind
      || is_text "tool" action.kind)
  assert_bounded_text action.description 1024
  unless_undefined action.target (assert_bounded_text action.target 512)
  validate_preview action.preview

-- A validated id or decision is a text.
abbrev pub text_of : Value → String
text_of (Value.str s) = s
text_of _ = ""

abbrev pub at_most_one : Bool → Bool → Bool → Bool
at_most_one action pending batch = not ((action && (pending || batch)) || (pending && batch))

abbrev pub input_fits : Value → Bool
input_fits (Value.str s) = leb (utf8_length s) 262144
input_fits _ = true

unfoldable pub check_budget : RawBudget → Checked
check_budget budget = do
  demand (is_positive_integer budget.max_iterations)
  unless_undefined budget.max_tokens (demand (is_positive_integer budget.max_tokens))
  unless_undefined budget.max_context_bytes (demand (is_positive_integer budget.max_context_bytes))

-- The error of the declaration is replaced by the turn's own.
abbrev declared : Result BudgetError PositionBudgetDeclaration → Checked
declared (ok declaration) = ok tt
declared (err e) = err input_invalid

unfoldable pub check_position_budget_fields : RawTurnRequest → Value → Checked
check_position_budget_fields request position_budget = do
  declared (validate_position_budget_declaration position_budget)
  assert_bounded_id request.task_id
  assert_bounded_id request.day_key

module _ (parse_date : String → Option ℕ) where
  -- assertOptionalTimestamp
  unfoldable pub assert_optional_timestamp : Value → Checked
  assert_optional_timestamp Value.undefined = ok tt
  assert_optional_timestamp (Value.str s) = demand (is_some (parse_date s))
  assert_optional_timestamp _ = err input_invalid

  unfoldable pub validate_pending_approval : RawPendingApproval → Checked
  validate_pending_approval pending = do
    assert_bounded_id pending.approval_id
    demand (is_text "granted" pending.decision || is_text "denied" pending.decision)
    demand (is_text "operator" pending.decided_by)
    demand
        (is_undefined pending.scope || is_text "once" pending.scope || is_text "run" pending.scope)
    unless_undefined pending.reason (assert_bounded_text pending.reason 1024)
    assert_optional_timestamp pending.expires_at

  -- The loop over the batch: the ids seen so far, and the decision of the one before.
  unfoldable pub check_batch : List String → Option String → List RawPendingApproval → Checked
  check_batch ids decision [] = ok tt
  check_batch ids decision (pending ∷ rest) = do
    validate_pending_approval pending
    demand (not (includes ids (text_of pending.approval_id)))
    demand (if_some decision (λ d. str_eq d (text_of pending.decision)) true)
    check_batch (text_of pending.approval_id ∷ ids) (some (text_of pending.decision)) rest

  unfoldable pub check_pending_approvals : List RawPendingApproval → Checked
  check_pending_approvals pending_approvals = do
    demand (leb 2 (length pending_approvals) && leb (length pending_approvals) 32)
    check_batch [] none pending_approvals

  -- validateApprovalRequestFields
  unfoldable pub validate_approval_request_fields : RawTurnRequest → Checked
  validate_approval_request_fields request = do
    demand (
        at_most_one (is_some request.approval_action) (is_some request.pending_approval)
          (is_some request.pending_approvals))
    if_some request.approval_action validate_approval_action (ok tt)
    if_some request.pending_approval validate_pending_approval (ok tt)
    if_some request.pending_approvals check_pending_approvals (ok tt)

  -- validateTurnRequest
  unfoldable pub validate_turn_request : RawTurnRequest → Checked
  validate_turn_request request = do
    assert_bounded_id request.workspace_ref
    assert_bounded_id request.position_id
    assert_bounded_id request.turn_id
    assert_bounded_id request.run_id
    demand (input_fits request.input)
    if_some request.budget check_budget (err input_invalid)
    if_some request.deadline (λ deadline. demand (is_some (parse_date deadline))) (ok tt)
    if_some request.position_budget (check_position_budget_fields request) (ok tt)
    validate_approval_request_fields request
