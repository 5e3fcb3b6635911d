-- ===== src/Runner/Evidence.antt =====
-- packages/core/src/runner-usage-evidence.ts: the evidence of what a run used. Message texts are left
-- out, and an integer beyond the safe ones is refused.
pub mod Validate
pub mod Normalize
pub mod Folds
pub mod Totals
pub mod Trust
pub mod Printed
use digital_employee.Common.{ℕ, String, Bool, true, false, ◌&&◌, Option, List, ◌==◌, str_eq}
use digital_employee.Common.Value.{Fields}

-- A UsageEvidenceError, or the RangeError of a date that is none.
pub data EvidenceError : Type 0 where
  invalid_evidence range_error : EvidenceError

pub data UsageEvidenceSource : Type 0 where
  runner_self_report signed_by_provider gateway_trusted unknown : UsageEvidenceSource

pub data UsageEvidenceProofQuality : Type 0 where
  unverified runner_attested provider_signed gateway_verified : UsageEvidenceProofQuality

pub record UsageEvidenceTokens : Type 0 where
  pub input : ℕ
  pub output : ℕ
  pub cached : Option ℕ

pub record UsageEvidenceRequests : Type 0 where
  pub count : ℕ
  pub tool_calls : Option ℕ

pub record UsageEvidenceTimeBounds : Type 0 where
  pub started_at : String
  pub completed_at : String

-- The provider is kept with its unknown fields.
pub record UsageEvidenceRecord : Type 0 where
  pub evidence_id : String
  pub task_id : String
  pub run_id : String
  pub attempt : ℕ
  pub runner_id : String
  pub timestamp : String
  pub provider : Fields
  pub tokens : UsageEvidenceTokens
  pub requests : UsageEvidenceRequests
  pub time_bounds : UsageEvidenceTimeBounds
  pub source : UsageEvidenceSource
  pub proof_quality : UsageEvidenceProofQuality
  pub proof_reference : Option String
  pub redactions : Option (List String)

unfoldable pub quality_of_source :
    UsageEvidenceSource → UsageEvidenceProofQuality → UsageEvidenceProofQuality
quality_of_source runner_self_report quality = unverified
quality_of_source unknown quality = unverified
quality_of_source signed_by_provider provider_signed = provider_signed
quality_of_source signed_by_provider quality = runner_attested
quality_of_source gateway_trusted gateway_verified = gateway_verified
quality_of_source gateway_trusted quality = runner_attested

unfoldable pub classify_proof_quality : UsageEvidenceRecord → UsageEvidenceProofQuality
classify_proof_quality r = quality_of_source r.source r.proof_quality

unfoldable pub bind_evidence_to_receipt : UsageEvidenceRecord → String → String → ℕ → Bool
bind_evidence_to_receipt evidence task_id run_id attempt =
    str_eq evidence.task_id task_id
    && (str_eq evidence.run_id run_id && evidence.attempt == attempt)
