-- ===== src/WriteApproval.antt =====
-- packages/core/src/write-approval.ts and write-approval-engine.ts: the life of a write from its
-- preview to its result. Digests, random ids and the clock are arguments of the operations.
pub mod Requests
pub mod Guards
pub mod Authorised
pub mod Flights
pub mod Overlaps
pub mod Once
use digital_employee.Common.{
  ℕ, zero, suc, ◌+◌, String, Bool, true, false, ◌&&◌, ◌||◌, Option, none, some, List, [], ◌∷◌, ◌++◌,
  str_eq, ltb, ◌==◌, if◌then◌else◌, if_some, is_some, any, or_else,
}
use digital_employee.Common.Dict.{Dict, get, set, has}
use digital_employee.Common.Result.{Result, ok, err}
use digital_employee.WriteApproval.Requests.{WritePreviewRequest}

pub data WriteApprovalState : Type 0 where
  preview_pending preview_validated approved denied expired : WriteApprovalState
  executing success failed partial_fail : WriteApprovalState

pub data WriteApprovalErrorCode : Type 0 where
  tampered_preview stale_attempt fencing_mismatch already_consumed approval_expired :
      WriteApprovalErrorCode

-- What an operation throws.
pub data EngineError : Type 0 where
  undeclared_tool unknown_preview : EngineError
  invalid_transition : WriteApprovalState → EngineError
  guard_refused : WriteApprovalErrorCode → EngineError

pub record WritePreview : Type 0 where
  pub preview_id : String
  pub state : WriteApprovalState
  pub request : WritePreviewRequest
  pub preview_digest : String
  pub idempotency_key : String
  pub attempt : ℕ
  pub fencing_token : String

pub record WriteApprovalDecision : Type 0 where
  pub preview_id : String
  pub approved : Bool
  pub preview_digest : String
  pub attempt : ℕ
  pub fencing_token : String
  pub expires_at : ℕ

pub record WriteExecutionResult : Type 0 where
  pub preview_id : String
  pub state : WriteApprovalState
  pub success : Bool
  pub idempotency_key : String

pub record InternalEntry : Type 0 where
  pub preview : WritePreview
  pub decision : Option WriteApprovalDecision
  pub result : Option WriteExecutionResult
  pub timeline : List WriteApprovalState

pub record WriteApprovalEngine : Type 0 where
  pub entries : Dict InternalEntry
  pub consumed_keys : List String
  pub idempotency_cache : Dict WriteExecutionResult

abbrev pub empty_engine : WriteApprovalEngine
empty_engine = record { entries = []; consumed_keys = []; idempotency_cache = [] }

abbrev pub is_member : String → List String → Bool
is_member x xs = any (λ y. str_eq y x) xs

-- classifyApprovalGuard, with the preview and its key as the engine passes them; `none` allows.
unfoldable pub classify_approval_guard :
    WriteApprovalDecision → ℕ → List String → WritePreview → Option WriteApprovalErrorCode
classify_approval_guard decision now_ms consumed_keys preview =
    if str_eq decision.preview_digest preview.preview_digest
    then if decision.attempt == preview.attempt
      then if str_eq decision.fencing_token preview.fencing_token
        then if is_member preview.idempotency_key consumed_keys
          then some already_consumed
          else if ltb decision.expires_at now_ms
          then some approval_expired
          else none
        else some fencing_mismatch
      else some stale_attempt
    else some tampered_preview

-- `entry.preview.state = state; entry.timeline.push(state)`
abbrev pub move_to : WriteApprovalState → InternalEntry → InternalEntry
move_to state e = record e {
  preview = record (e.preview) { state = state };
  timeline = e.timeline ++ state ∷ [];
}

abbrev pub put : InternalEntry → WriteApprovalEngine → WriteApprovalEngine
put e engine = record engine { entries = set e.preview.preview_id e engine.entries }

abbrev pub new_entry : WritePreview → InternalEntry
new_entry preview = record {
  preview = preview;
  decision = none;
  result = none;
  timeline = preview_pending ∷ preview_validated ∷ [];
}

abbrev pub new_preview : String → String → String → String → WritePreviewRequest → WritePreview
new_preview digest key preview_id fencing_token request = record {
  preview_id = preview_id;
  state = preview_validated;
  request = request;
  preview_digest = digest;
  idempotency_key = key;
  attempt = 1;
  fencing_token = fencing_token;
}

-- createPreview, of a validated request; the ids are the random ones.
unfoldable pub create_preview :
    (WritePreviewRequest → String)
    → (WritePreviewRequest → String)
    → String
    → String
    → WritePreviewRequest
    → WriteApprovalEngine
    → Result EngineError (WriteApprovalEngine × WritePreview)
create_preview digest key preview_id fencing_token request engine =
    let preview = new_preview (digest request) (key request) preview_id fencing_token request in
    if if_some request.declared_tools (λ declared. is_member request.tool_name declared) true
    then ok (put (new_entry preview) engine, preview)
    else err undeclared_tool

abbrev is_preview_validated : WriteApprovalState → Bool
is_preview_validated preview_validated = true
is_preview_validated _ = false

-- submitDecision, on the entry.
unfoldable pub decide_entry :
    WriteApprovalDecision → ℕ → List String → InternalEntry → Result EngineError InternalEntry
decide_entry decision now consumed_keys e =
    if is_preview_validated e.preview.state
    then if decision.approved
      then if_some (classify_approval_guard decision now consumed_keys e.preview)
          (λ code. err (guard_refused code))
          (ok (record (move_to approved e) { decision = some decision }))
      else ok (record (move_to denied e) { decision = some decision })
    else err (invalid_transition e.preview.state)

abbrev pub put_result :
    WriteApprovalEngine → Result EngineError InternalEntry → Result EngineError WriteApprovalEngine
put_result engine (ok e) = ok (put e engine)
put_result engine (err error) = err error

unfoldable pub submit_decision :
    WriteApprovalDecision → ℕ → WriteApprovalEngine → Result EngineError WriteApprovalEngine
submit_decision decision now engine =
    if_some (get decision.preview_id engine.entries)
      (λ e. put_result engine (decide_entry decision now engine.consumed_keys e))
      (err unknown_preview)

-- `execute` up to the call of the executor: it answers from the cache, refuses, or starts.
pub data Begun : Type 0 where
  cached : WriteExecutionResult → Begun
  started : WriteApprovalEngine → Begun
  refused : EngineError → Begun

abbrev pub may_execute : WriteApprovalState → Bool
may_execute approved = true
may_execute failed = true
may_execute _ = false

-- `cached && cached.success`
abbrev pub successful : Option WriteExecutionResult → Option WriteExecutionResult
successful none = none
successful (some result) = if result.success then some result else none

unfoldable pub begin_entry : InternalEntry → WriteApprovalEngine → Begun
begin_entry e engine =
    if_some (successful (get e.preview.idempotency_key engine.idempotency_cache))
      (λ result. cached result)
      (if may_execute e.preview.state
        then started (put (move_to executing e) engine)
        else refused (invalid_transition e.preview.state))

unfoldable pub begin_execute : String → WriteApprovalEngine → Begun
begin_execute preview_id engine =
    if_some (get preview_id engine.entries) (λ e. begin_entry e engine) (refused unknown_preview)

-- What the executor's promise brings: an outcome, or `none` where it is rejected.
pub record Outcome : Type 0 where
  pub success : Bool
  pub compensation_required : Bool

abbrev pub final_state : Outcome → WriteApprovalState
final_state outcome =
    if outcome.success
    then success
    else if outcome.compensation_required
    then partial_fail
    else failed

abbrev result_of : InternalEntry → WriteApprovalState → Bool → WriteExecutionResult
result_of e state succeeded = record {
  preview_id = e.preview.preview_id;
  state = state;
  success = succeeded;
  idempotency_key = e.preview.idempotency_key;
}

-- After a failure that the executor reports: the next attempt, under a new token, needs a new
-- approval.
abbrev pub retry : String → InternalEntry → InternalEntry
retry fencing_token e = record (move_to preview_validated e) {
  preview = record (e.preview) {
    state = preview_validated;
    attempt = suc e.preview.attempt;
    fencing_token = fencing_token;
  };
}

-- The rest of `execute`, on the entry that it holds. The token is the random one of a retry.
unfoldable pub finish_entry :
    Option Outcome → String → InternalEntry → WriteApprovalEngine → WriteApprovalEngine
finish_entry none fencing_token e engine =
    put (record (move_to failed e) { result = some (result_of e failed false) }) engine
finish_entry (some outcome) fencing_token e engine =
    let result = result_of e (final_state outcome) outcome.success in
    let settled = record (move_to (final_state outcome) e) { result = some result } in
    if outcome.success
    then record (put settled engine) {
      consumed_keys = e.preview.idempotency_key ∷ engine.consumed_keys;
      idempotency_cache = set e.preview.idempotency_key result engine.idempotency_cache;
    }
    else put (retry fencing_token settled) engine

-- A preview that has begun is never removed.
unfoldable pub finish_execute :
    Option Outcome → String → String → WriteApprovalEngine → WriteApprovalEngine
finish_execute outcome fencing_token preview_id engine =
    if_some (get preview_id engine.entries) (λ e. finish_entry outcome fencing_token e engine)
      engine
