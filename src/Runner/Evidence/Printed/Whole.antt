-- ===== src/Runner/Evidence/Printed/Whole.antt =====
-- A whole record of evidence as a value.
use digital_employee.Common.{ℕ, String, not, Option, [], ◌∷◌, str_eq, ◌≡◌, refl, subst}
use digital_employee.Common.Result.{ok, bind_inv, guard_inv}
use digital_employee.Common.Value.{Value, Fields, member}
use digital_employee.Engine.Delegation.Canonical.{fields_of, texts}
use digital_employee.Runner.Evidence.{invalid_evidence, UsageEvidenceRecord}
use digital_employee.Runner.Evidence.Validate.{
  EvidenceProof, EvidenceUsage, of_parts, identity_part_of, EvidenceIdentity, proof_part_of,
  usage_part_of, assert_string, assert_id, assert_timestamp, assert_positive_int, assert_object,
  assert_optional, assert_redactions, source_of, proof_quality_of, provider_of, tokens_of,
  requests_of, is_before, time_bounds_of, validate_usage_evidence,
}
use digital_employee.Runner.Evidence.Printed.Parts.{
  assert_id-Keeps, assert_timestamp-Keeps, optional_redactions-Keeps, source_of-text,
  proof_quality_of-text, assert_source, assert_quality, provider_of-Keeps,
}
use digital_employee.Runner.Evidence.Printed.{
  Keeps, source_text, quality_text, optional_value, tokens_value, requests_value, time_bounds_value,
  assert_positive_int-Keeps, optional_string-Keeps, tokens_of-Keeps, requests_of-Keeps,
}

-- A record as the fields of an object.
abbrev pub record_fields : EvidenceIdentity → EvidenceUsage → EvidenceProof → Fields
record_fields i u p = fields_of (
    ("evidenceId", Value.str i.evidence_id)
    ∷ ("version", Value.str "usage-evidence.v1")
    ∷ ("taskId", Value.str i.task_id)
    ∷ ("runId", Value.str i.run_id)
    ∷ ("attempt", Value.num i.attempt)
    ∷ ("runnerId", Value.str i.runner_id)
    ∷ ("timestamp", Value.str i.timestamp)
    ∷ ("provider", Value.obj u.provider)
    ∷ ("tokens", tokens_value u.tokens)
    ∷ ("requests", requests_value u.requests)
    ∷ ("timeBounds", time_bounds_value u.time_bounds)
    ∷ ("source", Value.str (source_text p.source))
    ∷ ("proofQuality", Value.str (quality_text p.proof_quality))
    ∷ ("proofReference", optional_value (λ s. Value.str s) p.proof_reference)
    ∷ ("redactions", optional_value (λ ss. Value.arr (texts ss)) p.redactions)
    ∷ [])

abbrev pub record_value : UsageEvidenceRecord → Value
record_value r = Value.obj (
    record_fields
      (record {
        evidence_id = r.evidence_id;
        task_id = r.task_id;
        run_id = r.run_id;
        attempt = r.attempt;
        runner_id = r.runner_id;
        timestamp = r.timestamp;
      })
      (record {
        provider = r.provider;
        tokens = r.tokens;
        requests = r.requests;
        time_bounds = r.time_bounds;
      })
      (record {
        source = r.source;
        proof_quality = r.proof_quality;
        proof_reference = r.proof_reference;
        redactions = r.redactions;
      }))

identity_part-Keeps :
    (raw : Fields) (i : EvidenceIdentity) (u : EvidenceUsage) (p : EvidenceProof)
    → identity_part_of raw ≡ ok i
    → identity_part_of (record_fields i u p) ≡ ok i
unfolding identity_part_of member fields_of assert_string
identity_part-Keeps raw i u p h =
    let (id, e1, h1) = bind_inv (assert_id (member "evidenceId" raw)) _ h in
    let (version, e2, h2) = bind_inv (assert_string (member "version" raw)) _ h1 in
    let (current, h3) = guard_inv (str_eq version "usage-evidence.v1") invalid_evidence _ h2 in
    let (task, e4, h4) = bind_inv (assert_id (member "taskId" raw)) _ h3 in
    let (run, e5, h5) = bind_inv (assert_id (member "runId" raw)) _ h4 in
    let (attempt, e6, h6) = bind_inv (assert_positive_int (member "attempt" raw)) _ h5 in
    let (runner, e7, h7) = bind_inv (assert_id (member "runnerId" raw)) _ h6 in
    let (time, e8, h8) = bind_inv (assert_timestamp (member "timestamp" raw)) _ h7 in
    subst (λ x. identity_part_of (record_fields x u p) ≡ ok x)
      {x = record {
        evidence_id = id;
        task_id = task;
        run_id = run;
        attempt = attempt;
        runner_id = runner;
        timestamp = time;
      }}
      {y = i} (cc h8)
      (rw (assert_id-Keeps _ id e1) (
        rw (assert_id-Keeps _ task e4) (
          rw (assert_id-Keeps _ run e5) (
            rw (assert_positive_int-Keeps _ attempt e6)
              (rw (assert_id-Keeps _ runner e7) (rw (assert_timestamp-Keeps _ time e8) refl))))))

proof_part-Keeps :
    (raw : Fields) (i : EvidenceIdentity) (u : EvidenceUsage) (p : EvidenceProof)
    → proof_part_of raw ≡ ok p
    → proof_part_of (record_fields i u p) ≡ ok p
unfolding proof_part_of member fields_of
proof_part-Keeps raw i u p h =
    let (source_name, e1, h1) = bind_inv (assert_string (member "source" raw)) _ h in
    let (source, e2, h2) = bind_inv (source_of source_name) _ h1 in
    let (quality_name, e3, h3) = bind_inv (assert_string (member "proofQuality" raw)) _ h2 in
    let (quality, e4, h4) = bind_inv (proof_quality_of quality_name) _ h3 in
    let (reference, e5, h5) =
      bind_inv (assert_optional assert_string (member "proofReference" raw)) _ h4 in
    let (redactions, e6, h6) =
      bind_inv (assert_optional assert_redactions (member "redactions" raw)) _ h5 in
    subst (λ x. proof_part_of (record_fields i u x) ≡ ok x)
      {x = record {
        source = source;
        proof_quality = quality;
        proof_reference = reference;
        redactions = redactions;
      }}
      {y = p} (cc h6)
      (rw (assert_source source) (
        rw (source_of-text source) (
          rw (assert_quality quality) (
            rw (proof_quality_of-text quality) (
              rw (optional_string-Keeps _ reference e5)
                (rw (optional_redactions-Keeps _ redactions e6) refl))))))

module _ (time_of : String → Option ℕ) where
  time_bounds_of-Keeps : Keeps (time_bounds_of time_of) time_bounds_value
  unfolding time_bounds_of assert_object member
  time_bounds_of-Keeps v b h =
      let (fields, f, h1) = bind_inv (assert_object v) _ h in
      let (started, s, h2) = bind_inv (assert_timestamp (member "startedAt" fields)) _ h1 in
      let (completed, c, h3) = bind_inv (assert_timestamp (member "completedAt" fields)) _ h2 in
      let (ordered, h4) =
        guard_inv (not (is_before time_of completed started)) invalid_evidence _ h3 in
      subst (λ x. time_bounds_of time_of (time_bounds_value x) ≡ ok x)
        {x = record { started_at = started; completed_at = completed }} {y = b} (cc h4)
        (rw (assert_timestamp-Keeps _ started s)
          (rw (assert_timestamp-Keeps _ completed c) (rw ordered refl)))

  usage_part-Keeps :
      (raw : Fields) (i : EvidenceIdentity) (u : EvidenceUsage) (p : EvidenceProof)
      → usage_part_of time_of raw ≡ ok u
      → usage_part_of time_of (record_fields i u p) ≡ ok u
  unfolding usage_part_of member fields_of
  usage_part-Keeps raw i u p h =
      let (provider, e1, h1) = bind_inv (provider_of (member "provider" raw)) _ h in
      let (tokens, e2, h2) = bind_inv (tokens_of (member "tokens" raw)) _ h1 in
      let (requests, e3, h3) = bind_inv (requests_of (member "requests" raw)) _ h2 in
      let (bounds, e4, h4) = bind_inv (time_bounds_of time_of (member "timeBounds" raw)) _ h3 in
      subst (λ x. usage_part_of time_of (record_fields i x p) ≡ ok x)
        {x = record {
          provider = provider;
          tokens = tokens;
          requests = requests;
          time_bounds = bounds;
        }}
        {y = u} (cc h4)
        (rw (provider_of-Keeps _ provider e1) (
          rw (tokens_of-Keeps _ tokens e2)
            (rw (requests_of-Keeps _ requests e3) (rw (time_bounds_of-Keeps _ bounds e4) refl))))

  -- What was validated, written as a value, is validated again, to the same record.
  pub validate_usage_evidence-Keeps :
      (v : Value) (r : UsageEvidenceRecord)
      → validate_usage_evidence time_of v ≡ ok r
      → validate_usage_evidence time_of (record_value r) ≡ ok r
  unfolding validate_usage_evidence assert_object
  validate_usage_evidence-Keeps v r h =
      let (raw, w, h0) = bind_inv (assert_object v) _ h in
      let (i, e1, h1) = bind_inv (identity_part_of raw) _ h0 in
      let (u, e2, h2) = bind_inv (usage_part_of time_of raw) _ h1 in
      let (p, e3, h3) = bind_inv (proof_part_of raw) _ h2 in
      subst (λ x. validate_usage_evidence time_of (record_value x) ≡ ok x) {x = of_parts i u p}
        {y = r} (cc h3)
        (rw (identity_part-Keeps raw i u p e1)
          (rw (usage_part-Keeps raw i u p e2) (rw (proof_part-Keeps raw i u p e3) refl)))
