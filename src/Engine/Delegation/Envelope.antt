-- ===== src/Engine/Delegation/Envelope.antt =====
-- The envelope of a delegation: parseDelegationEnvelope.
pub mod Bound
use Prim.Native.Char.{code}
use digital_employee.Common.{
  ℕ, String, Bool, true, false, ◌&&◌, ◌||◌, not, Option, none, some, List, [], ◌∷◌, leb, ltb, ◌==◌,
  str_eq, if◌then◌else◌, is_some, all,
}
use digital_employee.Common.Dict.{includes}
use digital_employee.Common.Result.{Result, ok, err, guard, ◌>>=◌, ◌>>◌}
use digital_employee.Common.Text.{fits, is_blank, utf8_length}
use digital_employee.Common.Value.{Value, Fields, member}
use digital_employee.Engine.Delegation.Errors.{
  DelegationError, envelope_invalid, identity_invalid, route_denied, attempt_invalid,
  engine_unsupported, instruction_invalid, deadline_invalid, digest_mismatch,
}
use digital_employee.Engine.Delegation.Identities.{require_id, require_digest}
use digital_employee.Engine.Delegation.Admission.{ExistingDelegationRef, optional_id}
use digital_employee.Engine.Delegation.Canonical.{compute_delegation_envelope_digest}

pub data DelegationEngine : Type 0 where
  qoder claude_code : DelegationEngine

pub record DelegationEnvelope : Type 0 where
  pub task_id : String
  pub parent_turn_id : String
  pub child_turn_id : String
  pub delegated_by : String
  pub routed_to : String
  pub attempt : ℕ
  pub retry_of_task_id : Option String
  pub engine : DelegationEngine
  pub instruction : String
  pub organization_digest : String
  pub permissions_digest : String
  pub deadline : String
  pub envelope_digest : String

-- The reference that the history keeps.
abbrev pub ref_of : DelegationEnvelope → ExistingDelegationRef
ref_of e = record {
  task_id = e.task_id;
  parent_turn_id = e.parent_turn_id;
  child_turn_id = e.child_turn_id;
  attempt = e.attempt;
  retry_of_task_id = e.retry_of_task_id;
}

abbrev pub envelope_keys : List String
envelope_keys =
    "schemaVersion" ∷ "taskId" ∷ "parentTurnId" ∷ "childTurnId" ∷ "delegatedBy" ∷ "routedTo"
    ∷ "trigger" ∷ "delegationDepth" ∷ "attempt" ∷ "retryOfTaskId" ∷ "engine" ∷ "instruction"
    ∷ "organizationDigest" ∷ "permissionsDigest" ∷ "deadline" ∷ "envelopeDigest" ∷ []

unfoldable pub has_field : String → Fields → Bool
has_field k Fields.end = false
has_field k (Fields.field j v fs) = str_eq j k || has_field k fs

unfoldable pub only_known : Fields → Bool
only_known Fields.end = true
only_known (Fields.field k v fs) = includes envelope_keys k && only_known fs

unfoldable pub is_value_text : String → Value → Bool
is_value_text s (Value.str t) = str_eq t s
is_value_text s _ = false

unfoldable pub is_value_one : Value → Bool
is_value_one (Value.num n) = n == 1
is_value_one _ = false

unfoldable pub positive : Value → Result DelegationError ℕ
positive (Value.num n) = if leb 1 n then ok n else err attempt_invalid
positive _ = err attempt_invalid

-- The first attempt retries nothing, a later one another task.
unfoldable pub retry_fits : ℕ → Option String → String → Bool
retry_fits attempt none task_id = not (ltb 1 attempt)
retry_fits attempt (some prior) task_id = not (attempt == 1) && not (str_eq prior task_id)

unfoldable pub engine_of : Value → Result DelegationError DelegationEngine
engine_of (Value.str s) =
    if str_eq s "qoder"
    then ok qoder
    else if str_eq s "claude-code"
    then ok claude_code
    else err engine_unsupported
engine_of _ = err engine_unsupported

unfoldable pub instruction_of : Value → Result DelegationError String
instruction_of (Value.str s) =
    if is_blank s || ltb 20_000 (utf8_length s) then err instruction_invalid else ok s
instruction_of _ = err instruction_invalid

-- `/^\d{4}-\d{2}-\d{2}T/`
abbrev iso_date : List ℕ
iso_date = 0 ∷ 0 ∷ 0 ∷ 0 ∷ 45 ∷ 0 ∷ 0 ∷ 45 ∷ 0 ∷ 0 ∷ 84 ∷ []

pub record Identities : Type 0 where
  pub task : String
  pub parent : String
  pub child : String
  pub delegator : String
  pub target : String

-- The identities, of which three must differ.
unfoldable pub parse_identities : Fields → Result DelegationError Identities
parse_identities raw = do
  task ← require_id (member "taskId" raw)
  parent ← require_id (member "parentTurnId" raw)
  child ← require_id (member "childTurnId" raw)
  delegator ← require_id (member "delegatedBy" raw)
  target ← require_id (member "routedTo" raw)
  guard (not (str_eq task parent || str_eq task child || str_eq parent child)) identity_invalid
  ok (record {
    task = task;
    parent = parent;
    child = child;
    delegator = delegator;
    target = target;
  })

unfoldable pub parse_attempt : String → Fields → Result DelegationError (ℕ × Option String)
parse_attempt task raw = do
  attempt ← positive (member "attempt" raw)
  retry ← optional_id (member "retryOfTaskId" raw)
  guard (retry_fits attempt retry task) attempt_invalid
  ok (attempt, retry)

module _ (json_sha256 : Value → String) (parse_date : String → Option ℕ) where
  unfoldable pub deadline_of : Value → Result DelegationError String
  deadline_of (Value.str s) =
      if fits iso_date s && is_some (parse_date s) then ok s else err deadline_invalid
  deadline_of _ = err deadline_invalid

  -- From the engine on.
  unfoldable pub parse_body :
      Identities → ℕ × Option String → Fields → Result DelegationError DelegationEnvelope
  parse_body ids (attempt, retry) raw = do
    engine ← engine_of (member "engine" raw)
    instruction ← instruction_of (member "instruction" raw)
    organization_digest ← require_digest (member "organizationDigest" raw)
    permissions_digest ← require_digest (member "permissionsDigest" raw)
    deadline ← deadline_of (member "deadline" raw)
    envelope_digest ← require_digest (member "envelopeDigest" raw)
    guard (str_eq envelope_digest (compute_delegation_envelope_digest json_sha256 raw))
        digest_mismatch
    ok (record {
      task_id = ids.task;
      parent_turn_id = ids.parent;
      child_turn_id = ids.child;
      delegated_by = ids.delegator;
      routed_to = ids.target;
      attempt = attempt;
      retry_of_task_id = retry;
      engine = engine;
      instruction = instruction;
      organization_digest = organization_digest;
      permissions_digest = permissions_digest;
      deadline = deadline;
      envelope_digest = envelope_digest;
    })

  unfoldable pub parse_delegation_envelope : Value → Result DelegationError DelegationEnvelope
  parse_delegation_envelope (Value.obj raw) = do
    guard (only_known raw && all (λ k. has_field k raw) envelope_keys) envelope_invalid
    guard (is_value_text "delegation-envelope.v1" (member "schemaVersion" raw)) envelope_invalid
    ids ← parse_identities raw
    guard
        (is_value_text "user_explicit" (member "trigger" raw)
          && is_value_one (member "delegationDepth" raw))
        route_denied
    attempt ← parse_attempt ids.task raw
    parse_body ids attempt raw
  parse_delegation_envelope _ = err envelope_invalid
