-- ===== src/Engine/Delegation/Errors.antt =====
-- The codes of DelegationContractError, and the TypeError of a value that is no object.
pub data DelegationError : Type 0 where
  envelope_invalid identity_invalid route_denied attempt_invalid : DelegationError
  engine_unsupported instruction_invalid deadline_invalid digest_mismatch : DelegationError
  scope_invalid duplicate_identity retry_invalid second_child_denied : DelegationError
  history_invalid task_invalid applied_state_stale context_denied : DelegationError
  child_terminal_invalid child_indeterminate type_error : DelegationError
