-- ===== src/Engine/Delegation/Tasks.antt =====
-- The record of a task that was requested: createRequestedTaskRecord. Its fields that are constant
-- (the status "requested", the times and digests that are still null, the empty events) are left
-- out; `updatedAt` is `createdAt`.
pub mod History
pub mod Readable
use digital_employee.Common.{String, Option, is_some}
use digital_employee.Common.Result.{Result, ok, err, guard, ◌>>=◌, ◌>>◌}
use digital_employee.Common.Value.{Value}
use digital_employee.Engine.Delegation.Errors.{DelegationError, task_invalid}
use digital_employee.Engine.Delegation.Identities.{require_id}
use digital_employee.Engine.Delegation.Canonical.{compute_canonical_digest}
use digital_employee.Engine.Delegation.Envelope.{DelegationEnvelope, DelegationEngine}
use digital_employee.Engine.Delegation.Scopes.{EffectiveDelegationScope}
use digital_employee.Engine.Delegation.Run.{scope_value}
use Prim.Native.Nat.{ℕ}

pub record TaskOptions : Type 0 where
  pub parent_conversation_id : Value
  pub child_conversation_id : Value
  pub effective_scope : EffectiveDelegationScope
  pub created_at : String

pub record RequestedTaskRecord : Type 0 where
  pub task_id : String
  pub parent_conversation_id : String
  pub child_conversation_id : String
  pub parent_turn_id : String
  pub child_turn_id : String
  pub delegated_by : String
  pub routed_to : String
  pub attempt : ℕ
  pub retry_of_task_id : Option String
  pub engine : DelegationEngine
  pub instruction : String
  pub organization_digest : String
  pub permissions_digest : String
  pub effective_scope : EffectiveDelegationScope
  pub scope_digest : String
  pub created_at : String
  pub updated_at : String

module _ (json_sha256 : Value → String) (parse_date : String → Option ℕ) where
  unfoldable pub create_requested_task_record :
      DelegationEnvelope → TaskOptions → Result DelegationError RequestedTaskRecord
  create_requested_task_record envelope options = do
    parent_conversation_id ← require_id options.parent_conversation_id
    child_conversation_id ← require_id options.child_conversation_id
    guard (is_some (parse_date options.created_at)) task_invalid
    ok (record {
      task_id = envelope.task_id;
      parent_conversation_id = parent_conversation_id;
      child_conversation_id = child_conversation_id;
      parent_turn_id = envelope.parent_turn_id;
      child_turn_id = envelope.child_turn_id;
      delegated_by = envelope.delegated_by;
      routed_to = envelope.routed_to;
      attempt = envelope.attempt;
      retry_of_task_id = envelope.retry_of_task_id;
      engine = envelope.engine;
      instruction = envelope.instruction;
      organization_digest = envelope.organization_digest;
      permissions_digest = envelope.permissions_digest;
      effective_scope = options.effective_scope;
      scope_digest = compute_canonical_digest json_sha256 (scope_value options.effective_scope);
      created_at = options.created_at;
      updated_at = options.created_at;
    })
