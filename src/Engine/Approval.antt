-- ===== src/Engine/Approval.antt =====
-- packages/engine/src/approval.ts: the preview gate and the expiry of a verdict. `Date.parse` of the
-- runtime is a parameter; `none` is its NaN.
use digital_employee.Common.{
  ℕ, String, Bool, true, false, Option, none, some, str_eq, ltb, if◌then◌else◌,
}

abbrev pub write_approval_version : String
write_approval_version = "write-approval.v1"

abbrev pub approval_required_code : String
approval_required_code = "engine.approval_required"

abbrev pub approval_denied_code : String
approval_denied_code = "engine.approval_denied"

abbrev pub approval_expired_code : String
approval_expired_code = "engine.approval_expired"

abbrev pub approval_preview_invalid_code : String
approval_preview_invalid_code = "engine.approval_preview_invalid"

pub record TurnApprovalPreviewRef : Type 0 where
  pub version : String
  pub preview_id : String
  pub preview_digest : String
  pub state : String

pub data TurnApprovalActionKind : Type 0 where
  exec write network tool : TurnApprovalActionKind

pub record TurnApprovalActionInput : Type 0 where
  pub kind : TurnApprovalActionKind
  pub description : String
  pub target : Option String
  pub preview : TurnApprovalPreviewRef

pub data ApprovalVerdict : Type 0 where
  granted denied : ApprovalVerdict

pub data ApprovalScope : Type 0 where
  once run : ApprovalScope

pub record TurnPendingApprovalInput : Type 0 where
  pub approval_id : String
  pub decision : ApprovalVerdict
  pub scope : Option ApprovalScope
  pub reason : Option String
  pub expires_at : Option String

-- The refusal's code, or `none` where the gate allows the request.
unfoldable pub preview_gate_refuses : TurnApprovalActionInput → Option String
preview_gate_refuses action =
    if str_eq action.preview.version write_approval_version
    then if str_eq action.preview.state "preview_validated"
      then none
      else some approval_preview_invalid_code
    else some approval_preview_invalid_code

past : ℕ → Option ℕ → Bool
past now_ms none = true
past now_ms (some parsed) = ltb parsed now_ms

module _ (parse_date : String → Option ℕ) where
  unfoldable pub pending_approval_expired : TurnPendingApprovalInput → ℕ → Bool
  unfolding past
  pending_approval_expired pending now_ms = elim pending.expires_at [
    | none ↦ false
    | some expires_at ↦ past now_ms (parse_date expires_at)
  ]
