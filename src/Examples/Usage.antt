-- ===== src/Examples/Usage.antt =====
-- The usage evidence of a run at concrete records. A time is read off the length of its text.
use digital_employee.Common.Text.{drop}
use digital_employee.Common.Text.{every_char}
use digital_employee.Common.Text.{fits}
use digital_employee.Common.Text.{utf16_length}
use digital_employee.Common.Value.{member}
use digital_employee.Common.{if_some}
use digital_employee.Common.{insert_by}
use digital_employee.Common.{sort_by}
use digital_employee.Engine.Delegation.Canonical.{without_field}
use digital_employee.Runner.Evidence.Normalize.{aggregate}
use digital_employee.Runner.Evidence.Normalize.{aggregated}
use digital_employee.Runner.Evidence.Normalize.{best_quality}
use digital_employee.Runner.Evidence.Normalize.{fold}
use digital_employee.Runner.Evidence.Normalize.{fold_present}
use digital_employee.Runner.Evidence.Normalize.{is_monotone}
use digital_employee.Runner.Evidence.Normalize.{last_record}
use digital_employee.Runner.Evidence.Normalize.{not_after}
use digital_employee.Runner.Evidence.Normalize.{present}
use digital_employee.Runner.Evidence.Normalize.{quality_rank}
use digital_employee.Runner.Evidence.Normalize.{same_identity}
use digital_employee.Runner.Evidence.Normalize.{times}
use digital_employee.Runner.Evidence.Normalize.{widest_bounds}
use digital_employee.Runner.Evidence.Validate.{assert_id}
use digital_employee.Runner.Evidence.Validate.{assert_non_negative_int}
use digital_employee.Runner.Evidence.Validate.{assert_object}
use digital_employee.Runner.Evidence.Validate.{assert_optional}
use digital_employee.Runner.Evidence.Validate.{assert_positive_int}
use digital_employee.Runner.Evidence.Validate.{assert_redactions}
use digital_employee.Runner.Evidence.Validate.{assert_string}
use digital_employee.Runner.Evidence.Validate.{assert_strings}
use digital_employee.Runner.Evidence.Validate.{assert_timestamp}
use digital_employee.Runner.Evidence.Validate.{ends_in_z}
use digital_employee.Runner.Evidence.Validate.{ends_timestamp}
use digital_employee.Runner.Evidence.Validate.{identity_part_of}
use digital_employee.Runner.Evidence.Validate.{is_before}
use digital_employee.Runner.Evidence.Validate.{is_id}
use digital_employee.Runner.Evidence.Validate.{is_timestamp}
use digital_employee.Runner.Evidence.Validate.{proof_part_of}
use digital_employee.Runner.Evidence.Validate.{proof_quality_of}
use digital_employee.Runner.Evidence.Validate.{provider_of}
use digital_employee.Runner.Evidence.Validate.{requests_of}
use digital_employee.Runner.Evidence.Validate.{source_of}
use digital_employee.Runner.Evidence.Validate.{time_bounds_of}
use digital_employee.Runner.Evidence.Validate.{tokens_of}
use digital_employee.Runner.Evidence.Validate.{usage_part_of}
use digital_employee.Runner.Evidence.{quality_of_source}
use digital_employee.Common.{ℕ, String, true, Option, none, some, [], ◌∷◌, ◌≡◌, refl}
use digital_employee.Common.Result.{ok}
use digital_employee.Common.Value.{Value, Fields}
use digital_employee.Engine.Delegation.Canonical.{fields_of}
use digital_employee.Runner.Evidence.{
  UsageEvidenceRecord, runner_self_report, gateway_trusted, unverified, gateway_verified,
  classify_proof_quality, bind_evidence_to_receipt,
}
use digital_employee.Runner.Evidence.Validate.{validate_usage_evidence}
use digital_employee.Runner.Evidence.Normalize.{normalize_usage_evidence}
use digital_employee.Runner.Evidence.Totals.{Aggregates, normalize_usage_evidence-Aggregates}
use digital_employee.Runner.Evidence.Trust.{IsClassified, classify_proof_quality-IsClassified}
use digital_employee.Runner.Evidence.Printed.Whole.{record_value, validate_usage_evidence-Keeps}

abbrev clock : String → Option ℕ
clock s = some 7

abbrev iso : ℕ → String
iso n = "2026-01-01T00:00:00Z"

-- The runner's own report, which claims a proof.
abbrev report : UsageEvidenceRecord
report = record {
  evidence_id = "e1";
  task_id = "t";
  run_id = "r";
  attempt = 1;
  runner_id = "runner";
  timestamp = "2026-01-01T00:00:00Z";
  provider = Fields.field "id" (Value.str "p") (Fields.field "model" (Value.str "m") Fields.end);
  tokens = record { input = 5; output = 2; cached = none };
  requests = record { count = 1; tool_calls = some 2 };
  time_bounds = record {
    started_at = "2026-01-01T00:00:00Z";
    completed_at = "2026-01-01T00:00:00Z";
  };
  source = runner_self_report;
  proof_quality = gateway_verified;
  proof_reference = none;
  redactions = none;
}

-- What a gateway says without a proof.
abbrev said : UsageEvidenceRecord
said = record report {
  evidence_id = "e2";
  tokens = record { input = 9; output = 3; cached = some 1 };
  source = gateway_trusted;
  proof_quality = unverified;
}

-- The two as one record.
abbrev both : UsageEvidenceRecord
both = record said {
  tokens = record { input = 9; output = 3; cached = some 1 };
  requests = record { count = 2; tool_calls = some 4 };
  proof_quality = gateway_verified;
}

normalized : normalize_usage_evidence clock iso (report ∷ said ∷ []) ≡ ok both
unfolding normalize_usage_evidence same_identity aggregate sort_by insert_by not_after is_before
    if_some widest_bounds times aggregated last_record fold fold_present is_monotone present
    best_quality quality_rank
normalized = refl

normalize_usage_evidence-Aggregates_example : Aggregates clock iso (report ∷ said ∷ []) both
normalize_usage_evidence-Aggregates_example =
    normalize_usage_evidence-Aggregates clock iso report said [] both normalized

classify_proof_quality-IsClassified_example :
    IsClassified report.source report.proof_quality (classify_proof_quality report)
classify_proof_quality-IsClassified_example = classify_proof_quality-IsClassified report

-- The proof that the runner claimed is that of the normalised record, whose source is the gateway.
claim_laundered : classify_proof_quality both ≡ gateway_verified
unfolding classify_proof_quality quality_of_source
claim_laundered = refl

-- A record with a field of the provider that is not known, and an absent region.
abbrev raw : Value
raw = Value.obj (
    fields_of (
      ("evidenceId", Value.str "e1")
      ∷ ("version", Value.str "usage-evidence.v1")
      ∷ ("taskId", Value.str "t")
      ∷ ("runId", Value.str "r")
      ∷ ("attempt", Value.num 1)
      ∷ ("runnerId", Value.str "runner")
      ∷ ("timestamp", Value.str "2026-01-01T00:00:00Z")
      ∷ ("provider", Value.obj (fields_of (("id", Value.str "p") ∷ ("model", Value.str "m") ∷ [])))
      ∷ ("tokens", Value.obj (fields_of (("input", Value.num 5) ∷ ("output", Value.num 2) ∷ [])))
      ∷ (
        "requests",
        Value.obj (fields_of (("count", Value.num 1) ∷ ("toolCalls", Value.num 2) ∷ [])),
      )
      ∷ (
        "timeBounds",
        Value.obj (
            fields_of (
              ("startedAt", Value.str "2026-01-01T00:00:00Z")
              ∷ ("completedAt", Value.str "2026-01-01T00:00:00Z")
              ∷ [])),
      )
      ∷ ("source", Value.str "runner_self_report")
      ∷ ("proofQuality", Value.str "gateway_verified")
      ∷ []))

validated : validate_usage_evidence clock raw ≡ ok report
unfolding validate_usage_evidence assert_object identity_part_of assert_id assert_string member
    fields_of is_id every_char utf16_length assert_positive_int assert_timestamp is_timestamp fits
    ends_timestamp ends_in_z drop usage_part_of if_some without_field assert_non_negative_int
    assert_optional assert_redactions assert_strings is_before proof_part_of proof_quality_of
    provider_of requests_of source_of time_bounds_of tokens_of
validated = refl

validate_usage_evidence-Keeps_example :
    validate_usage_evidence clock (record_value report) ≡ ok report
validate_usage_evidence-Keeps_example = validate_usage_evidence-Keeps clock raw report validated

bound : bind_evidence_to_receipt report "t" "r" 1 ≡ true
unfolding bind_evidence_to_receipt
bound = refl
