-- ===== src/Engine/Delegation/Envelope/Bound.antt =====
-- What an envelope that was accepted satisfies, and what its admission makes of the history.
use digital_employee.Common.{
  subst, ℕ, String, true, not, ◌&&◌, ◌||◌, all, Option, List, [], ◌∷◌, ◌++◌, ◌≡◌, arith, str_eq,
}
use digital_employee.Common.Value.{Value, Fields, member}
use digital_employee.Common.Result.{bind_inv, guard_inv, ok}
use digital_employee.Engine.Delegation.Errors.{
  digest_mismatch, attempt_invalid, route_denied, identity_invalid, envelope_invalid,
}
use digital_employee.Engine.Delegation.Admission.{
  optional_id, ExistingDelegationRef, is_new_ref, validate_delegation_admission,
}
use digital_employee.Engine.Delegation.Admission.Chains.{
  IsHistory, validate_delegation_admission-IsHistory,
}
use digital_employee.Engine.Delegation.Canonical.{compute_delegation_envelope_digest}
use digital_employee.Engine.Delegation.Envelope.{
  Identities, parse_identities, parse_attempt, parse_body, deadline_of, instruction_of, engine_of,
  positive, is_value_one, is_value_text, envelope_keys, has_field, only_known, DelegationEnvelope,
  ref_of, parse_delegation_envelope, retry_fits,
}
use digital_employee.Engine.Delegation.Identities.{require_digest, require_id}

module _ (json_sha256 : Value → String) (parse_date : String → Option ℕ) where
  -- The identities differ, the attempt fits its retry, and the digest is the body's.
  pub record IsBound (raw : Fields) (e : DelegationEnvelope) : Type 0 where
    pub identities : is_new_ref [] [] (ref_of e) ≡ true
    pub attempts : retry_fits e.attempt e.retry_of_task_id e.task_id ≡ true
    pub digest :
        str_eq e.envelope_digest (compute_delegation_envelope_digest json_sha256 raw) ≡ true

  parse_identities-differ :
      (raw : Fields) (ids : Identities)
      → parse_identities raw ≡ ok ids
      → not (str_eq ids.task ids.parent || str_eq ids.task ids.child || str_eq ids.parent ids.child)
        ≡ true
  unfolding parse_identities
  parse_identities-differ raw ids h =
      let (task, p1, h1) = bind_inv (require_id (member "taskId" raw)) _ h in
      let (parent, p2, h2) = bind_inv (require_id (member "parentTurnId" raw)) _ h1 in
      let (child, p3, h3) = bind_inv (require_id (member "childTurnId" raw)) _ h2 in
      let (delegator, p4, h4) = bind_inv (require_id (member "delegatedBy" raw)) _ h3 in
      let (target, p5, h5) = bind_inv (require_id (member "routedTo" raw)) _ h4 in
      let (own, h6) =
        guard_inv (not (str_eq task parent || str_eq task child || str_eq parent child))
          identity_invalid _ h5 in
      subst
        (λ (i : Identities).
          not (str_eq i.task i.parent || str_eq i.task i.child || str_eq i.parent i.child) ≡ true)
        {x = record {
          task = task;
          parent = parent;
          child = child;
          delegator = delegator;
          target = target;
        }}
        {y = ids} (cc h6) own

  parse_attempt-fits :
      (task : String) (raw : Fields) (attempt : ℕ × Option String)
      → parse_attempt task raw ≡ ok attempt
      → retry_fits attempt.0 attempt.1 task ≡ true
  unfolding parse_attempt
  parse_attempt-fits task raw a h =
      let (attempt, p1, h1) = bind_inv (positive (member "attempt" raw)) _ h in
      let (retry, p2, h2) = bind_inv (optional_id (member "retryOfTaskId" raw)) _ h1 in
      let (fits, h3) = guard_inv (retry_fits attempt retry task) attempt_invalid _ h2 in
      subst (λ (x : ℕ × Option String). retry_fits x.0 x.1 task ≡ true) {x = (attempt, retry)}
        {y = a} (cc h3) fits

  parse_body-IsBound :
      (ids : Identities) (attempt : ℕ × Option String) (raw : Fields) (e : DelegationEnvelope)
      → not (str_eq ids.task ids.parent || str_eq ids.task ids.child || str_eq ids.parent ids.child)
        ≡ true
      → retry_fits attempt.0 attempt.1 ids.task ≡ true
      → parse_body json_sha256 parse_date ids attempt raw ≡ ok e
      → IsBound raw e
  unfolding parse_body is_new_ref
  parse_body-IsBound ids (attempt, retry) raw e own fits h =
      let (engine, p1, h1) = bind_inv (engine_of (member "engine" raw)) _ h in
      let (instruction, p2, h2) = bind_inv (instruction_of (member "instruction" raw)) _ h1 in
      let (organization, p3, h3) =
        bind_inv (require_digest (member "organizationDigest" raw)) _ h2 in
      let (permissions, p4, h4) = bind_inv (require_digest (member "permissionsDigest" raw)) _ h3 in
      let (deadline, p5, h5) =
        bind_inv (deadline_of json_sha256 parse_date (member "deadline" raw)) _ h4 in
      let (digest, p6, h6) = bind_inv (require_digest (member "envelopeDigest" raw)) _ h5 in
      let (same, h7) =
        guard_inv (str_eq digest (compute_delegation_envelope_digest json_sha256 raw))
          digest_mismatch _ h6 in
      subst (IsBound raw)
        {x = record {
          task_id = ids.task;
          parent_turn_id = ids.parent;
          child_turn_id = ids.child;
          delegated_by = ids.delegator;
          routed_to = ids.target;
          attempt = attempt;
          retry_of_task_id = retry;
          engine = engine;
          instruction = instruction;
          organization_digest = organization;
          permissions_digest = permissions;
          deadline = deadline;
          envelope_digest = digest;
        }}
        {y = e} (cc h7)
        (record { identities = ground (arith, own); attempts = fits; digest = same })

  -- An accepted envelope is bound: its three identities differ, its attempt fits its retry, and its
  -- digest is the one of its body.
  pub parse_delegation_envelope-IsBound :
      (raw : Fields) (e : DelegationEnvelope)
      → parse_delegation_envelope json_sha256 parse_date (Value.obj raw) ≡ ok e
      → IsBound raw e
  unfolding parse_delegation_envelope
  parse_delegation_envelope-IsBound raw e h =
      let (known, h1) =
        guard_inv (only_known raw && all (λ k. has_field k raw) envelope_keys) envelope_invalid _
          h in
      let (version, h2) =
        guard_inv (is_value_text "delegation-envelope.v1" (member "schemaVersion" raw))
          envelope_invalid _ h1 in
      let (ids, p3, h3) = bind_inv (parse_identities raw) _ h2 in
      let (trigger, h4) =
        guard_inv
          (is_value_text "user_explicit" (member "trigger" raw)
            && is_value_one (member "delegationDepth" raw))
          route_denied _ h3 in
      let (attempt, p5, h5) = bind_inv (parse_attempt ids.task raw) _ h4 in
      parse_body-IsBound ids attempt raw e (parse_identities-differ raw ids p3)
        (parse_attempt-fits ids.task raw attempt p5) h5

  -- A history that the delegation of an accepted envelope was admitted to is, with that delegation,
  -- again a history: no identity is used twice, and the attempts of each parent turn are one chain
  -- of retries.
  pub admitted-IsHistory :
      (raw : Fields) (e : DelegationEnvelope) (existing : List Value)
      (refs : List ExistingDelegationRef)
      → parse_delegation_envelope json_sha256 parse_date (Value.obj raw) ≡ ok e
      → validate_delegation_admission (ref_of e) existing ≡ ok refs
      → IsHistory (refs ++ ref_of e ∷ [])
  admitted-IsHistory raw e existing refs p a =
      validate_delegation_admission-IsHistory (ref_of e) existing refs a
        (parse_delegation_envelope-IsBound raw e p).identities
