-- ===== src/Runner/Evidence/Trust.antt =====
-- How far the evidence of a run is trusted.
use digital_employee.Common.{◌≡◌, ◌↔◌, ◌⊎◌, arith}
use digital_employee.Runner.Evidence.{
  UsageEvidenceSource, UsageEvidenceProofQuality, UsageEvidenceRecord, runner_self_report,
  signed_by_provider, gateway_trusted, unknown, unverified, runner_attested, provider_signed,
  gateway_verified, quality_of_source, classify_proof_quality,
}

-- What each classification needs.
abbrev pub IsClassified :
    UsageEvidenceSource → UsageEvidenceProofQuality → UsageEvidenceProofQuality → Type 0
IsClassified source quality result =
    ((result ≡ gateway_verified) ↔ ((source ≡ gateway_trusted) × (quality ≡ gateway_verified)))
    × ((result ≡ provider_signed) ↔ ((source ≡ signed_by_provider) × (quality ≡ provider_signed)))
    × ((result ≡ unverified) ↔ ((source ≡ runner_self_report) ⊎ (source ≡ unknown)))

quality_of_source-IsClassified :
    (s : UsageEvidenceSource) (q : UsageEvidenceProofQuality)
    → IsClassified s q (quality_of_source s q)
unfolding quality_of_source
quality_of_source-IsClassified runner_self_report q = grind arith
quality_of_source-IsClassified unknown q = grind arith
quality_of_source-IsClassified signed_by_provider unverified = grind arith
quality_of_source-IsClassified signed_by_provider runner_attested = grind arith
quality_of_source-IsClassified signed_by_provider provider_signed = grind arith
quality_of_source-IsClassified signed_by_provider gateway_verified = grind arith
quality_of_source-IsClassified gateway_trusted unverified = grind arith
quality_of_source-IsClassified gateway_trusted runner_attested = grind arith
quality_of_source-IsClassified gateway_trusted provider_signed = grind arith
quality_of_source-IsClassified gateway_trusted gateway_verified = grind arith

-- Evidence is classified as verified by a gateway, or as signed by a provider, exactly when its source
-- is the one that can say so and its proof says so; it is classified as unverified exactly when it is
-- the runner's own report or of unknown source.
pub classify_proof_quality-IsClassified :
    (r : UsageEvidenceRecord) → IsClassified r.source r.proof_quality (classify_proof_quality r)
unfolding classify_proof_quality
classify_proof_quality-IsClassified r = quality_of_source-IsClassified r.source r.proof_quality
