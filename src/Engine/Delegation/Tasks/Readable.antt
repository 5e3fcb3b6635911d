-- ===== src/Engine/Delegation/Tasks/Readable.antt =====
-- A delegation that was admitted can be written to the history that the next one is checked against.
use digital_employee.Common.{
  ℕ, String, true, ◌&&◌, ◌||◌, not, Option, none, some, List, [], ◌∷◌, ◌++◌, leb, ltb, ◌≡◌, refl,
  subst, all, length, str_eq,
}
use digital_employee.Common.Result.{ok, bind_inv, guard_inv, check_inv, ◌>>=◌}
use digital_employee.Common.Value.{Value, Fields, member}
use digital_employee.Engine.Delegation.Errors.{
  history_invalid, digest_mismatch, attempt_invalid, route_denied, identity_invalid,
  envelope_invalid,
}
use digital_employee.Engine.Delegation.Identities.{is_identifier, require_id, require_digest}
use digital_employee.Engine.Delegation.Admission.{
  ExistingDelegationRef, optional_id, read_history, max_history_records, are_chains, admit_ref,
  validate_existing_delegation_history, validate_delegation_admission,
  parse_existing_delegation_history,
}
use digital_employee.Engine.Delegation.Canonical.{compute_delegation_envelope_digest}
use digital_employee.Engine.Delegation.Envelope.{
  DelegationEnvelope, Identities, ref_of, parse_identities, parse_attempt, parse_body,
  parse_delegation_envelope, deadline_of, instruction_of, engine_of, positive, retry_fits,
  only_known, has_field, envelope_keys, is_value_text, is_value_one,
}
use digital_employee.Engine.Delegation.Envelope.Bound.{admitted-IsHistory}
use digital_employee.Engine.Delegation.Tasks.History.{
  IsWritable, identifier_if_any, ref_value, array_of, entries_of-array_of, history-snoc,
}

admission-read :
    (new : ExistingDelegationRef) (existing : List Value) (refs : List ExistingDelegationRef)
    → validate_delegation_admission new existing ≡ ok refs
    → read_history [] [] existing ≡ ok refs
unfolding validate_delegation_admission validate_existing_delegation_history
admission-read new existing refs h =
    let (valid, v, h1) = bind_inv (validate_existing_delegation_history existing) _ h in
    let (t, g, h2) = bind_inv (admit_ref new valid) _ h1 in
    let (fits, v1) = guard_inv (leb (length existing) max_history_records) history_invalid _ v in
    let (read, r, v2) = bind_inv (read_history [] [] existing) _ v1 in
    let (chains, v3) = guard_inv (are_chains read) history_invalid _ v2 in
    subst (λ rs. read_history [] [] existing ≡ ok rs) {x = read} {y = refs} (cc (v3, h2)) r

require_id-is_identifier : (v : Value) (s : String) → require_id v ≡ ok s → is_identifier s ≡ true
unfolding require_id
require_id-is_identifier (Value.str t) s h =
    let (valid, e) = check_inv (is_identifier t) t envelope_invalid h in
    subst (λ u. is_identifier u ≡ true) e valid
require_id-is_identifier Value.undefined s h = cc h
require_id-is_identifier Value.null s h = cc h
require_id-is_identifier Value.other_num s h = cc h
require_id-is_identifier (Value.bool b) s h = cc h
require_id-is_identifier (Value.obj fs) s h = cc h
require_id-is_identifier (Value.num n) s h = cc h
require_id-is_identifier (Value.arr items) s h = cc h

positive-least : (v : Value) (n : ℕ) → positive v ≡ ok n → leb 1 n ≡ true
unfolding positive
positive-least (Value.num m) n h =
    let (valid, e) = check_inv (leb 1 m) m attempt_invalid h in subst (λ k. leb 1 k ≡ true) e valid
positive-least Value.undefined n h = cc h
positive-least Value.null n h = cc h
positive-least Value.other_num n h = cc h
positive-least (Value.bool b) n h = cc h
positive-least (Value.obj fs) n h = cc h
positive-least (Value.str s) n h = cc h
positive-least (Value.arr items) n h = cc h

required-identifier :
    (v : Value) (o : Option String)
    → (require_id v >>= λ id. ok (some id)) ≡ ok o
    → identifier_if_any o ≡ true
required-identifier v o h =
    let (id, p, e) = bind_inv (require_id v) _ h in
    subst (λ x. identifier_if_any x ≡ true) {x = some id} {y = o} (cc e)
      (require_id-is_identifier v id p)

optional_id-identifier :
    (v : Value) (o : Option String) → optional_id v ≡ ok o → identifier_if_any o ≡ true
unfolding optional_id
optional_id-identifier Value.null o h =
    subst (λ x. identifier_if_any x ≡ true) {x = none} {y = o} (cc h) refl
optional_id-identifier (Value.str s) o h = required-identifier (Value.str s) o h
optional_id-identifier Value.undefined o h = required-identifier Value.undefined o h
optional_id-identifier Value.other_num o h = required-identifier Value.other_num o h
optional_id-identifier (Value.bool b) o h = required-identifier (Value.bool b) o h
optional_id-identifier (Value.obj fs) o h = required-identifier (Value.obj fs) o h
optional_id-identifier (Value.num n) o h = required-identifier (Value.num n) o h
optional_id-identifier (Value.arr items) o h = required-identifier (Value.arr items) o h

abbrev AreIdentifiers : Identities → Type 0
AreIdentifiers ids =
    (is_identifier ids.task ≡ true)
    × (is_identifier ids.parent ≡ true)
    × (is_identifier ids.child ≡ true)

parse_identities-AreIdentifiers :
    (raw : Fields) (ids : Identities) → parse_identities raw ≡ ok ids → AreIdentifiers ids
unfolding parse_identities
parse_identities-AreIdentifiers raw ids h =
    let (task, p1, h1) = bind_inv (require_id (member "taskId" raw)) _ h in
    let (parent, p2, h2) = bind_inv (require_id (member "parentTurnId" raw)) _ h1 in
    let (child, p3, h3) = bind_inv (require_id (member "childTurnId" raw)) _ h2 in
    let (delegator, p4, h4) = bind_inv (require_id (member "delegatedBy" raw)) _ h3 in
    let (target, p5, h5) = bind_inv (require_id (member "routedTo" raw)) _ h4 in
    let (own, h6) =
      guard_inv (not (str_eq task parent || str_eq task child || str_eq parent child))
        identity_invalid _ h5 in
    subst AreIdentifiers
      {x = record {
        task = task;
        parent = parent;
        child = child;
        delegator = delegator;
        target = target;
      }}
      {y = ids} (cc h6)
      (
        require_id-is_identifier (member "taskId" raw) task p1,
        require_id-is_identifier (member "parentTurnId" raw) parent p2,
        require_id-is_identifier (member "childTurnId" raw) child p3,
      )

parse_attempt-valid :
    (task : String) (raw : Fields) (attempt : ℕ × Option String)
    → parse_attempt task raw ≡ ok attempt
    → (leb 1 attempt.0 ≡ true) × (identifier_if_any attempt.1 ≡ true)
unfolding parse_attempt
parse_attempt-valid task raw a h =
    let (attempt, p1, h1) = bind_inv (positive (member "attempt" raw)) _ h in
    let (retry, p2, h2) = bind_inv (optional_id (member "retryOfTaskId" raw)) _ h1 in
    let (fits, h3) = guard_inv (retry_fits attempt retry task) attempt_invalid _ h2 in
    subst (λ (x : ℕ × Option String). (leb 1 x.0 ≡ true) × (identifier_if_any x.1 ≡ true))
      {x = (attempt, retry)} {y = a} (cc h3)
      (
        positive-least (member "attempt" raw) attempt p1,
        optional_id-identifier (member "retryOfTaskId" raw) retry p2,
      )

module _ (json_sha256 : Value → String) (parse_date : String → Option ℕ) where
  parse_body-IsWritable :
      (ids : Identities) (attempt : ℕ × Option String) (raw : Fields) (e : DelegationEnvelope)
      → AreIdentifiers ids
      → (leb 1 attempt.0 ≡ true) × (identifier_if_any attempt.1 ≡ true)
      → parse_body json_sha256 parse_date ids attempt raw ≡ ok e
      → IsWritable (ref_of e)
  unfolding parse_body
  parse_body-IsWritable ids (attempt, retry) raw e (task, parent, child) (least, retried) h =
      let (engine, p1, h1) = bind_inv (engine_of (member "engine" raw)) _ h in
      let (instruction, p2, h2) = bind_inv (instruction_of (member "instruction" raw)) _ h1 in
      let (organization, p3, h3) =
        bind_inv (require_digest (member "organizationDigest" raw)) _ h2 in
      let (permissions, p4, h4) = bind_inv (require_digest (member "permissionsDigest" raw)) _ h3 in
      let (deadline, p5, h5) =
        bind_inv (deadline_of json_sha256 parse_date (member "deadline" raw)) _ h4 in
      let (digest, p6, h6) = bind_inv (require_digest (member "envelopeDigest" raw)) _ h5 in
      let (same, h7) =
        guard_inv (str_eq digest (compute_delegation_envelope_digest json_sha256 raw))
          digest_mismatch _ h6 in
      subst (λ (x : DelegationEnvelope). IsWritable (ref_of x))
        {x = record {
          task_id = ids.task;
          parent_turn_id = ids.parent;
          child_turn_id = ids.child;
          delegated_by = ids.delegator;
          routed_to = ids.target;
          attempt = attempt;
          retry_of_task_id = retry;
          engine = engine;
          instruction = instruction;
          organization_digest = organization;
          permissions_digest = permissions;
          deadline = deadline;
          envelope_digest = digest;
        }}
        {y = e} (cc h7)
        (record { task = task; parent = parent; child = child; retried = retried; attempt = least })

  parse_delegation_envelope-IsWritable :
      (raw : Fields) (e : DelegationEnvelope)
      → parse_delegation_envelope json_sha256 parse_date (Value.obj raw) ≡ ok e
      → IsWritable (ref_of e)
  unfolding parse_delegation_envelope
  parse_delegation_envelope-IsWritable raw e h =
      let (known, h1) =
        guard_inv (only_known raw && all (λ k. has_field k raw) envelope_keys) envelope_invalid _
          h in
      let (version, h2) =
        guard_inv (is_value_text "delegation-envelope.v1" (member "schemaVersion" raw))
          envelope_invalid _ h1 in
      let (ids, p3, h3) = bind_inv (parse_identities raw) _ h2 in
      let (trigger, h4) =
        guard_inv
          (is_value_text "user_explicit" (member "trigger" raw)
            && is_value_one (member "delegationDepth" raw))
          route_denied _ h3 in
      let (attempt, p5, h5) = bind_inv (parse_attempt ids.task raw) _ h4 in
      parse_body-IsWritable ids attempt raw e (parse_identities-AreIdentifiers raw ids p3)
        (parse_attempt-valid ids.task raw attempt p5) h5

  -- The record of a delegation, written after those that it was admitted to, is read back with them:
  -- the history of the next delegation is valid. The condition is that the history was not full
  -- (1024 records).
  pub admitted_history-read :
      (raw : Fields) (e : DelegationEnvelope) (existing : List Value)
      (refs : List ExistingDelegationRef)
      → parse_delegation_envelope json_sha256 parse_date (Value.obj raw) ≡ ok e
      → validate_delegation_admission (ref_of e) existing ≡ ok refs
      → ltb (length existing) max_history_records ≡ true
      → parse_existing_delegation_history
          (Value.arr (array_of (existing ++ ref_value (ref_of e) ∷ [])))
        ≡ ok (refs ++ ref_of e ∷ [])
  unfolding parse_existing_delegation_history
  admitted_history-read raw e existing refs p a bound =
      rw (entries_of-array_of (existing ++ ref_value (ref_of e) ∷ [])) (
        history-snoc existing refs (ref_of e) (parse_delegation_envelope-IsWritable raw e p)
          (admission-read (ref_of e) existing refs a)
          (admitted-IsHistory json_sha256 parse_date raw e existing refs p a) bound)
