-- ===== src/Org/Permissions.antt =====
-- packages/engine/src/org-permissions.ts: the two scopes of a position, and the gate that counts
-- and records the decisions.
pub mod Scopes
pub mod Within
use digital_employee.Common.{
  ℕ, zero, suc, String, Bool, true, false, ◌&&◌, ◌||◌, Option, none, some, List, [], ◌∷◌, ◌++◌,
  str_eq, if◌then◌else◌, if_some, is_some, any, or_else, length, map, not,
}
use digital_employee.Common.Dict.{inherited_names, includes, Dict, get, has}
use digital_employee.Common.Text.{ends_with_char, drop_last, starts_with, concat}
use digital_employee.Org.Paths.{normalize_context_path}

pub data PositionMode : Type 0 where
  read_only approval_required : PositionMode

pub record PositionPermissions : Type 0 where
  pub mode : Option PositionMode
  pub read : List String
  pub tools_allow : List String

pub record OrganizationPermissions : Type 0 where
  pub owner : String
  pub positions : Dict PositionPermissions

pub data DenialCode : Type 0 where
  authority_denied context_denied position_unknown : DenialCode

abbrev pub denial_code_text : DenialCode → String
denial_code_text authority_denied = "workspace_org_authority_denied"
denial_code_text context_denied = "workspace_org_context_denied"
denial_code_text position_unknown = "workspace_org_position_unknown"

abbrev is_denial_code : DenialCode → DenialCode → Bool
is_denial_code a b = str_eq (denial_code_text a) (denial_code_text b)

pub data PermissionDecision : Type 0 where
  allowed : PermissionDecision
  denied : DenialCode → String → PermissionDecision  -- the code and `redirectTo`

-- `permissions.positions[positionId]`
pub data Lookup : Type 0 where
  entry : PositionPermissions → Lookup
  inherited missing : Lookup

abbrev inherited_lookup : Bool → Lookup
inherited_lookup true = inherited
inherited_lookup false = missing

unfoldable pub lookup : OrganizationPermissions → String → Lookup
lookup permissions position_id =
    if_some (get position_id permissions.positions) (λ found. entry found)
      (inherited_lookup (includes inherited_names position_id))

-- effectiveMode
abbrev pub effective_mode : PositionPermissions → PositionMode
effective_mode found = or_else found.mode read_only

-- evaluateToolAuthority; `none` is the TypeError of an unknown position, or of reading the scope
-- of a value that is no entry.
unfoldable pub tool_authority :
    OrganizationPermissions → String → Lookup → Option PermissionDecision
tool_authority permissions tool (entry found) =
    some (
      if includes found.tools_allow tool
      then allowed
      else denied authority_denied permissions.owner)
tool_authority permissions tool inherited = none
tool_authority permissions tool missing = none

unfoldable pub evaluate_tool_authority :
    OrganizationPermissions → String → String → Option PermissionDecision
evaluate_tool_authority permissions position_id tool =
    tool_authority permissions tool (lookup permissions position_id)

-- `scope.replace(/\/$/, "")`
abbrev pub without_slash : String → String
without_slash scope = if ends_with_char 47 scope then drop_last scope else scope

-- One scope of the loop over `contextScope.read`.
unfoldable pub covers : String → String → Bool
covers normalized scope =
    str_eq scope "./"
    || str_eq normalized (without_slash scope)
    || starts_with normalized (if ends_with_char 47 scope then scope else concat (scope ∷ "/" ∷ []))

-- evaluateContextAccess; `none` is a TypeError, of the position, the path or the scope.
unfoldable pub context_access :
    OrganizationPermissions → String → Lookup → Option PermissionDecision
context_access permissions requested (entry found) =
    if_some (normalize_context_path requested)
      (λ normalized. some (
        if any (covers normalized) found.read
        then allowed
        else denied context_denied permissions.owner))
      none
context_access permissions requested inherited = none
context_access permissions requested missing = none

unfoldable pub evaluate_context_access :
    OrganizationPermissions → String → String → Option PermissionDecision
evaluate_context_access permissions position_id requested =
    context_access permissions requested (lookup permissions position_id)

pub record PermissionDenialAttempt : Type 0 where
  pub position_id : String
  pub requested : String
  pub code : DenialCode
  pub redirect_to : String

-- createPermissionGate's closure.
pub record PermissionGate : Type 0 where
  pub denials : List PermissionDenialAttempt
  pub allow_count : ℕ

abbrev pub create_permission_gate : PermissionGate
create_permission_gate = record { denials = []; allow_count = 0 }

abbrev truthy : Lookup → Bool
truthy (entry found) = true
truthy inherited = true
truthy missing = false

-- checkPosition
unfoldable pub check_position : OrganizationPermissions → String → Bool
check_position permissions position_id = truthy (lookup permissions position_id)

-- The bookkeeping that both evaluations share.
unfoldable pub record_decision :
    String → String → PermissionDecision → PermissionGate → PermissionGate
record_decision position_id requested allowed gate = record gate {
  allow_count = suc gate.allow_count;
}
record_decision position_id requested (denied code redirect_to) gate = record gate {
  denials =
      gate.denials
      ++ record {
        position_id = position_id;
        requested = requested;
        code = code;
        redirect_to = redirect_to;
      }
        ∷ [];
}

-- evaluateContextRead: a thrown error is a denial.
unfoldable pub context_decision : OrganizationPermissions → String → String → PermissionDecision
context_decision permissions position_id requested =
    or_else (evaluate_context_access permissions position_id requested)
      (denied context_denied permissions.owner)

-- evaluateToolCall
unfoldable pub tool_decision : OrganizationPermissions → String → String → PermissionDecision
tool_decision permissions position_id tool =
    or_else (evaluate_tool_authority permissions position_id tool)
      (denied authority_denied permissions.owner)

unfoldable pub evaluate_context_read :
    OrganizationPermissions → String → String → PermissionGate → PermissionDecision × PermissionGate
evaluate_context_read permissions position_id requested gate =
    let decision = context_decision permissions position_id requested in
    (decision, record_decision position_id requested decision gate)

unfoldable pub evaluate_tool_call :
    OrganizationPermissions → String → String → PermissionGate → PermissionDecision × PermissionGate
evaluate_tool_call permissions position_id tool gate =
    let decision = tool_decision permissions position_id tool in
    (decision, record_decision position_id tool decision gate)

-- `[...new Set(texts)]`: each text at its first place.
unfoldable pub distinct : List String → List String → List String
distinct seen [] = []
distinct seen (x ∷ xs) =
    let skipped = distinct seen xs in
    let kept = distinct (x ∷ seen) xs in if includes seen x then skipped else x ∷ kept

pub record PermissionDecisionSummary : Type 0 where
  pub allow_count : ℕ
  pub deny_count : ℕ
  pub codes_seen : List String
  pub redirect_to_targets : List String

unfoldable pub summary : PermissionGate → PermissionDecisionSummary
summary gate = record {
  allow_count = gate.allow_count;
  deny_count = length gate.denials;
  codes_seen = distinct [] (map (λ d. denial_code_text d.code) gate.denials);
  redirect_to_targets = distinct [] (map (λ d. d.redirect_to) gate.denials);
}
