-- ===== src/Examples/Delegations.antt =====
-- Delegations at concrete scopes, envelopes and children.
use digital_employee.Common.{
  insert_by, sort_by, if_some, ℕ, String, true, false, ◌&&◌, ◌||◌, not, Option, none, some, [], ◌∷◌,
  ◌≡◌, refl,
}
use digital_employee.Common.Dict.{includes}
use digital_employee.Common.Result.{ok, ◌>>=◌}
use digital_employee.Common.Value.{member, Value, Fields}
use digital_employee.Engine.Delegation.Admission.{
  parse_existing_delegation_history, siblings, retries, last_of, admit_retry, admit_ref, is_chain,
  are_chains, is_new_ref, attempt_of, parse_ref, as_history_error, read_history,
  validate_existing_delegation_history, optional_id, ExistingDelegationRef,
  validate_delegation_admission,
}
use digital_employee.Engine.Delegation.Admission.Chains.{IsHistory}
use digital_employee.Engine.Delegation.Canonical.{
  without_field, insert_field, compute_delegation_envelope_digest, compute_canonical_digest,
  canonical_value, fields_of,
}
use digital_employee.Engine.Delegation.Envelope.{
  parse_body, instruction_of, engine_of, deadline_of, retry_fits, positive, parse_attempt,
  is_value_one, parse_identities, is_value_text, has_field, only_known, DelegationEnvelope, ref_of,
  parse_delegation_envelope, qoder,
}
use digital_employee.Engine.Delegation.Envelope.Bound.{admitted-IsHistory}
use digital_employee.Engine.Delegation.Routes.{DelegationOrganization, DelegationPermissions}
use digital_employee.Engine.Delegation.Run.{
  Child, started, used, completed, execute_delegation, admitted_scope,
}
use digital_employee.Engine.Delegation.Run.Stream.{
  IsNumbered, IsStream, is_returned, payloads, runs_to_end, execute_delegation-IsStream,
}
use digital_employee.Engine.Delegation.Scopes.{
  shorter_first, directory_of, common_scope, keep_minimal, minimal_scopes, intersect_one,
  normalize_scope, intersections, DelegationPositionPermissions, EffectiveDelegationScope,
  scope_contains, intersect_context_scopes, allowed_tools,
}
use digital_employee.Engine.Delegation.Scopes.Coverage.{
  covers_path, declares_path, intersect_context_scopes-covers,
}
use digital_employee.Engine.Delegation.Scopes.Tools.{allowed_tools-includes}
use digital_employee.Common.Text.{
  fits, utf16_length, join, ends_with_char, string_le, drop, concat, every_char, utf8_length,
  split_on, is_blank, starts_with, includes_char,
}
use digital_employee.Org.Paths.{plain_segments, has_drive}
use digital_employee.Engine.Delegation.Identities.{
  require_digest, is_digest, is_identifier, require_id,
}
use digital_employee.Org.Permissions.{distinct}
use digital_employee.Runner.ReplayGuard.Shape.{count_fields}
use digital_employee.Engine.Delegation.Tasks.{
  RequestedTaskRecord, create_requested_task_record, TaskOptions,
}
use digital_employee.Engine.Delegation.Tasks.History.{ref_value, array_of}
use digital_employee.Engine.Delegation.Tasks.Readable.{admitted_history-read}

abbrev delegator_permissions : DelegationPositionPermissions
delegator_permissions = record {
  read = "./docs/" ∷ [];
  allow = "search" ∷ "mail" ∷ [];
  deny = [];
  may_delegate = true;
  targets = "worker" ∷ [];
}

abbrev worker_permissions : DelegationPositionPermissions
worker_permissions = record {
  read = "docs/a/" ∷ "docs/a/b" ∷ [];
  allow = "search" ∷ "mail" ∷ [];
  deny = "mail" ∷ [];
  may_delegate = false;
  targets = [];
}

scopes_meet :
    intersect_context_scopes ("docs" ∷ []) ("docs/a/" ∷ "docs/a/b" ∷ []) ≡ ok ("./docs/a/" ∷ [])
unfolding intersect_context_scopes intersections normalize_scope includes_char starts_with has_drive
    if_some plain_segments split_on intersect_one minimal_scopes sort_by keep_minimal distinct
    common_scope scope_contains concat insert_by drop ends_with_char join string_le utf16_length
    directory_of shorter_first
scopes_meet = refl

intersect_context_scopes-covers_example : covers_path "./docs/a/b" ("./docs/a/" ∷ []) ≡ (
    declares_path "./docs/a/b" ("docs" ∷ [])
    && declares_path "./docs/a/b" ("docs/a/" ∷ "docs/a/b" ∷ []))
intersect_context_scopes-covers_example =
    intersect_context_scopes-covers ("docs" ∷ []) ("docs/a/" ∷ "docs/a/b" ∷ []) ("./docs/a/" ∷ [])
      "./docs/a/b" scopes_meet

allowed_tools-includes_example :
    includes (allowed_tools delegator_permissions worker_permissions) "mail" ≡ (
      includes ("search" ∷ "mail" ∷ []) "mail"
      && (includes ("search" ∷ "mail" ∷ []) "mail"
          && not (includes [] "mail" || includes ("mail" ∷ []) "mail")))
allowed_tools-includes_example =
    allowed_tools-includes delegator_permissions worker_permissions "mail"

abbrev same_digest : Value → String
same_digest v = "sha256:0123456789abcdef0123456789abcdef0123456789abcdef0123456789abcdef"

abbrev some_digest : String
some_digest = "sha256:0123456789abcdef0123456789abcdef0123456789abcdef0123456789abcdef"

abbrev some_date : String → Option ℕ
some_date s = some 0

abbrev body : Fields
body = fields_of (
    ("schemaVersion", Value.str "delegation-envelope.v1")
    ∷ ("taskId", Value.str "task-2")
    ∷ ("parentTurnId", Value.str "parent")
    ∷ ("childTurnId", Value.str "child-2")
    ∷ ("delegatedBy", Value.str "lead")
    ∷ ("routedTo", Value.str "worker")
    ∷ ("trigger", Value.str "user_explicit")
    ∷ ("delegationDepth", Value.num 1)
    ∷ ("attempt", Value.num 2)
    ∷ ("retryOfTaskId", Value.str "task-1")
    ∷ ("engine", Value.str "qoder")
    ∷ ("instruction", Value.str "summarise")
    ∷ ("organizationDigest", Value.str some_digest)
    ∷ ("permissionsDigest", Value.str some_digest)
    ∷ ("deadline", Value.str "2026-01-01T00:00:00Z")
    ∷ ("envelopeDigest", Value.str some_digest)
    ∷ [])

abbrev envelope : DelegationEnvelope
envelope = record {
  task_id = "task-2";
  parent_turn_id = "parent";
  child_turn_id = "child-2";
  delegated_by = "lead";
  routed_to = "worker";
  attempt = 2;
  retry_of_task_id = some "task-1";
  engine = qoder;
  instruction = "summarise";
  organization_digest = some_digest;
  permissions_digest = some_digest;
  deadline = "2026-01-01T00:00:00Z";
  envelope_digest = some_digest;
}

abbrev first_attempt : Value
first_attempt = Value.obj (
    fields_of (
      ("taskId", Value.str "task-1")
      ∷ ("parentTurnId", Value.str "parent")
      ∷ ("childTurnId", Value.str "child-1")
      ∷ ("attempt", Value.num 1)
      ∷ ("retryOfTaskId", Value.null)
      ∷ []))

abbrev first_ref : ExistingDelegationRef
first_ref = record {
  task_id = "task-1";
  parent_turn_id = "parent";
  child_turn_id = "child-1";
  attempt = 1;
  retry_of_task_id = none;
}

envelope_parsed : parse_delegation_envelope same_digest some_date (Value.obj body) ≡ ok envelope
unfolding parse_delegation_envelope only_known fields_of has_field is_value_text member
    parse_identities require_id is_identifier is_blank utf8_length every_char is_value_one
    parse_attempt positive optional_id retry_fits drop starts_with string_le utf16_length
    canonical_value compute_canonical_digest compute_delegation_envelope_digest insert_field
    without_field deadline_of engine_of fits instruction_of parse_body is_digest require_digest
envelope_parsed = refl

retry_admitted :
    validate_delegation_admission (ref_of envelope) (first_attempt ∷ []) ≡ ok (first_ref ∷ [])
unfolding validate_delegation_admission fields_of validate_existing_delegation_history read_history
    as_history_error parse_ref count_fields require_id member is_identifier is_blank utf8_length
    every_char optional_id attempt_of is_new_ref are_chains distinct is_chain insert_by sort_by
    admit_ref admit_retry last_of retries siblings
retry_admitted = refl

admitted-IsHistory_example : IsHistory (first_ref ∷ ref_of envelope ∷ [])
admitted-IsHistory_example =
    admitted-IsHistory same_digest some_date body envelope (first_attempt ∷ []) (first_ref ∷ [])
      envelope_parsed retry_admitted

abbrev organization : DelegationOrganization
organization = record {
  owner = "lead";
  roles = record { id = "worker"; report_to = some "lead" } ∷ [];
  whole = Value.null;
}

abbrev permissions : DelegationPermissions
permissions = record {
  owner = "lead";
  positions = ("lead", delegator_permissions) ∷ ("worker", worker_permissions) ∷ [];
  whole = Value.null;
}

abbrev child : EffectiveDelegationScope → Child
child scope = record {
  callbacks = started ∷ used (Value.num 5) Value.other_num Value.undefined ∷ [];
  settled = some (completed (Value.str "done"));
}

execute_delegation-IsStream_example :
    let (events, outcome) =
      execute_delegation same_digest child "run" envelope
        (first_attempt ∷ [])
        organization
        permissions in
    IsNumbered 0 events
    × IsStream (payloads events) outcome
    × (is_returned outcome
        ≡ runs_to_end same_digest child
            (admitted_scope same_digest envelope (first_attempt ∷ []) organization permissions))
execute_delegation-IsStream_example =
    execute_delegation-IsStream same_digest child "run" envelope (first_attempt ∷ []) organization
      permissions

admitted_history-read_example :
    parse_existing_delegation_history
      (Value.arr (array_of (first_attempt ∷ ref_value (ref_of envelope) ∷ [])))
    ≡ ok (first_ref ∷ ref_of envelope ∷ [])
admitted_history-read_example =
    admitted_history-read same_digest some_date body envelope (first_attempt ∷ []) (first_ref ∷ [])
      envelope_parsed retry_admitted refl

abbrev options : TaskOptions
options = record {
  parent_conversation_id = Value.str "conversation-1";
  child_conversation_id = Value.str "conversation-2";
  effective_scope = record { context_read = "./docs/a/" ∷ []; tool_allow = []; tool_deny = [] };
  created_at = "2026-01-01T00:00:00Z";
}

-- The record of a requested task names the task of its envelope.
task_requested :
    (create_requested_task_record same_digest some_date envelope options
      >>= λ (r : RequestedTaskRecord). ok r.task_id)
    ≡ ok "task-2"
unfolding create_requested_task_record require_id is_identifier is_blank utf8_length every_char
task_requested = refl
