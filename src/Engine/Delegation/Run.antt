-- ===== src/Engine/Delegation/Run.antt =====
-- The execution of a delegation: executeDelegation. The child executor is a port: what it calls back
-- before it settles, and how it settles. The ids and the timestamps of the events, and the fields
-- that every event copies from the envelope, are left out.
pub mod Stream
use digital_employee.Common.{
  ℕ, suc, String, Bool, true, false, ◌&&◌, ◌||◌, not, Option, none, some, List, [], ◌∷◌, ◌++◌, map,
  leb, if◌then◌else◌, if_some, is_some,
}
use digital_employee.Common.Result.{Result, ok, err, ◌>>=◌, ◌>>◌}
use digital_employee.Common.Text.{utf8_length, every_char, utf16_length, is_empty, is_alphanumeric}
use digital_employee.Common.Value.{Value}
use digital_employee.Engine.Delegation.Errors.{
  DelegationError, child_indeterminate, child_terminal_invalid,
}
use digital_employee.Engine.Delegation.Admission.{validate_delegation_admission}
use digital_employee.Engine.Delegation.Canonical.{compute_canonical_digest, fields_of, texts}
use digital_employee.Engine.Delegation.Envelope.{
  DelegationEnvelope, DelegationEngine, qoder, claude_code, ref_of,
}
use digital_employee.Engine.Delegation.Routes.{
  DelegationOrganization, DelegationPermissions, validate_route_and_digests,
}
use digital_employee.Engine.Delegation.Scopes.{EffectiveDelegationScope}
use Prim.Native.Char.{code}

-- A count that is no safe natural number is dropped.
pub record Usage : Type 0 where
  pub input_tokens : Option ℕ
  pub output_tokens : Option ℕ
  pub total_tokens : Option ℕ

pub data Callback : Type 0 where
  started : Callback
  used : Value → Value → Value → Callback

pub record DelegationTerminalError : Type 0 where
  pub error_code : String
  pub message : String
  pub retryable : Bool

pub data ChildResult : Type 0 where
  completed : Value → ChildResult
  failed cancelled : DelegationTerminalError → ChildResult

-- What the child does: its callbacks, and its result unless it rejects.
pub record Child : Type 0 where
  pub callbacks : List Callback
  pub settled : Option ChildResult

pub data Payload : Type 0 where
  delegation_started : String → Payload
  delegation_usage : Usage → Payload
  delegation_completed : String → String → String → Payload
  delegation_failed delegation_cancelled : String → DelegationTerminalError → Payload

pub record DelegationEvent : Type 0 where
  pub sequence : ℕ
  pub payload : Payload

-- How the generator ends.
pub data Outcome : Type 0 where
  returned child_rejected : Outcome
  threw : DelegationError → Outcome

abbrev pub count_of : Value → Option ℕ
count_of (Value.num n) = some n
count_of _ = none

abbrev pub bounded : Value → Value → Value → Usage
bounded input output total = record {
  input_tokens = count_of input;
  output_tokens = count_of output;
  total_tokens = count_of total;
}

-- The callbacks in turn: whether the child has started, and the usage reported since.
unfoldable pub observe_child : Bool → List Callback → Bool × List Usage
observe_child is_started [] = (is_started, [])
observe_child is_started (started ∷ rest) = observe_child true rest
observe_child is_started (used input output total ∷ rest) =
    let (later, usages) = observe_child is_started rest in
    let usage = bounded input output total in
    if is_started
      && (is_some usage.input_tokens || (is_some usage.output_tokens || is_some usage.total_tokens))
    then (later, usage ∷ usages)
    else (later, usages)

-- `[a-z0-9]`, and the rest of ERROR_CODE_PATTERN's letters.
abbrev is_code_start : ℕ → Bool
is_code_start c = (leb 97 c && leb c 122) || (leb 48 c && leb c 57)

abbrev is_code_char : ℕ → Bool
is_code_char c = is_code_start c || (leb 45 c && leb c 46) || (leb 95 c && leb c 95)

unfoldable pub is_error_code : String → Bool
is_error_code String.[] = false
is_error_code (String.◌∷◌ c s) =
    is_code_start (code c) && (every_char is_code_char s && leb (utf16_length s) 127)

unfoldable pub is_terminal_error : DelegationTerminalError → Bool
is_terminal_error e = is_error_code e.error_code && leb (utf8_length e.message) 2000

-- `++sequence`
unfoldable pub number_from : ℕ → List Payload → List DelegationEvent
number_from n [] = []
number_from n (p ∷ ps) = record { sequence = suc n; payload = p } ∷ number_from (suc n) ps

abbrev engine_text : DelegationEngine → String
engine_text qoder = "qoder"
engine_text claude_code = "claude-code"

abbrev pub scope_value : EffectiveDelegationScope → Value
scope_value scope = Value.obj (
    fields_of (
      ("contextRead", Value.arr (texts scope.context_read))
      ∷ ("toolAllow", Value.arr (texts scope.tool_allow))
      ∷ ("toolDeny", Value.arr (texts scope.tool_deny))
      ∷ ("writes", Value.str "deny")
      ∷ ("delegation", Value.str "deny")
      ∷ []))

module _ (json_sha256 : Value → String) where
  -- What the evidence of a completed child is a digest of.
  unfoldable pub evidence_value : DelegationEnvelope → String → String → String → Value
  evidence_value envelope run_id scope_digest output_digest = Value.obj (
      fields_of (
        ("schemaVersion", Value.str "delegation-evidence.v1")
        ∷ ("taskId", Value.str envelope.task_id)
        ∷ ("parentTurnId", Value.str envelope.parent_turn_id)
        ∷ ("childTurnId", Value.str envelope.child_turn_id)
        ∷ ("runId", Value.str run_id)
        ∷ ("engine", Value.str (engine_text envelope.engine))
        ∷ ("organizationDigest", Value.str envelope.organization_digest)
        ∷ ("permissionsDigest", Value.str envelope.permissions_digest)
        ∷ ("scopeDigest", Value.str scope_digest)
        ∷ ("outputDigest", Value.str output_digest)
        ∷ []))

  -- The last event of a child that settled, and how the generator ends.
  unfoldable pub settle_child :
      DelegationEnvelope → String → String → ChildResult → List Payload × Outcome
  settle_child envelope run_id scope_digest (completed output) =
      let output_digest = compute_canonical_digest json_sha256 output in
      let evidence_digest =
        compute_canonical_digest json_sha256
          (evidence_value envelope run_id scope_digest output_digest) in
      (delegation_completed run_id output_digest evidence_digest ∷ [], returned)
  settle_child envelope run_id scope_digest (failed e) =
      if is_terminal_error e
      then (delegation_failed run_id e ∷ [], returned)
      else ([], threw child_terminal_invalid)
  settle_child envelope run_id scope_digest (cancelled e) =
      if is_terminal_error e
      then (delegation_cancelled run_id e ∷ [], returned)
      else ([], threw child_terminal_invalid)

  -- The events after the child has been run.
  unfoldable pub child_events :
      DelegationEnvelope
      → String
      → String
      → Bool × List Usage
      → Option ChildResult
      → List Payload × Outcome
  child_events envelope run_id scope_digest (true, usages) none =
      (delegation_started scope_digest ∷ [], child_rejected)
  child_events envelope run_id scope_digest (false, usages) none = ([], child_rejected)
  child_events envelope run_id scope_digest (false, usages) (some result) =
      ([], threw child_indeterminate)
  child_events envelope run_id scope_digest (true, usages) (some result) =
      let (last, outcome) = settle_child envelope run_id scope_digest result in
      (delegation_started scope_digest ∷ map (λ u. delegation_usage u) usages ++ last, outcome)

  unfoldable pub run_scoped :
      (EffectiveDelegationScope → Child)
      → String
      → DelegationEnvelope
      → Result DelegationError EffectiveDelegationScope
      → List DelegationEvent × Outcome
  run_scoped run run_id envelope (err e) = ([], threw e)
  run_scoped run run_id envelope (ok scope) =
      let (payloads, outcome) =
        child_events envelope run_id (compute_canonical_digest json_sha256 (scope_value scope))
          (observe_child false (run scope).callbacks) (run scope).settled in
      (number_from 0 payloads, outcome)

  unfoldable pub admitted_scope :
      DelegationEnvelope
      → List Value
      → DelegationOrganization
      → DelegationPermissions
      → Result DelegationError EffectiveDelegationScope
  admitted_scope envelope existing organization permissions = do
    refs ← validate_delegation_admission (ref_of envelope) existing
    validate_route_and_digests json_sha256 envelope organization permissions

  -- The whole generator: the child is run only for an admitted delegation on a valid route, with the
  -- effective scope.
  unfoldable pub execute_delegation :
      (EffectiveDelegationScope → Child)
      → String
      → DelegationEnvelope
      → List Value
      → DelegationOrganization
      → DelegationPermissions
      → List DelegationEvent × Outcome
  execute_delegation run run_id envelope existing organization permissions =
      run_scoped run run_id envelope (admitted_scope envelope existing organization permissions)
