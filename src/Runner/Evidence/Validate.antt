-- ===== src/Runner/Evidence/Validate.antt =====
-- validateUsageEvidence.
use digital_employee.Common.{
  ℕ, zero, suc, String, Bool, false, ◌&&◌, ◌||◌, not, Option, none, some, List, [], ◌∷◌, leb, ltb,
  ◌==◌, str_eq, if◌then◌else◌, if_some, is_some,
}
use digital_employee.Common.Result.{Result, ok, err, guard, ◌>>=◌, ◌>>◌}
use digital_employee.Common.Text.{
  is_empty, every_char, utf16_length, is_alphanumeric, drop, fits, is_figure,
}
use digital_employee.Common.Value.{Value, Fields, Items, member}
use digital_employee.Engine.Delegation.Canonical.{without_field}
use digital_employee.Runner.Evidence.{
  EvidenceError, invalid_evidence, UsageEvidenceSource, UsageEvidenceProofQuality,
  UsageEvidenceTokens, UsageEvidenceRequests, UsageEvidenceTimeBounds, UsageEvidenceRecord,
  runner_self_report, signed_by_provider, gateway_trusted, unknown, unverified, runner_attested,
  provider_signed, gateway_verified,
}
use Prim.Native.Char.{code}

-- `[A-Za-z0-9._:/-]`
abbrev is_id_char : ℕ → Bool
is_id_char c = is_alphanumeric c || (leb 45 c && leb c 47) || c == 58 || c == 95

-- ID_PATTERN
unfoldable pub is_id : String → Bool
is_id String.[] = false
is_id (String.◌∷◌ c s) =
    is_alphanumeric (code c) && (every_char is_id_char s && leb (utf16_length s) 199)

-- `\d{4}-\d{2}-\d{2}T\d{2}:\d{2}:\d{2}`, for `fits`
abbrev date_time : List ℕ
date_time = 0 ∷ 0 ∷ 0 ∷ 0 ∷ 45 ∷ 0 ∷ 0 ∷ 45 ∷ 0 ∷ 0 ∷ 84 ∷ 0 ∷ 0 ∷ 58 ∷ 0 ∷ 0 ∷ 58 ∷ 0 ∷ 0 ∷ []

-- `\d{0,n}Z`
unfoldable pub ends_in_z : ℕ → String → Bool
ends_in_z n String.[] = false
ends_in_z zero (String.◌∷◌ c s) = code c == 90 && is_empty s
ends_in_z (suc n) (String.◌∷◌ c s) =
    let rest = ends_in_z n s in (code c == 90 && is_empty s) || (is_figure (code c) && rest)

-- `(\.\d{1,3})?Z`
unfoldable pub ends_timestamp : String → Bool
ends_timestamp s = ends_in_z 0 s || (fits (46 ∷ 0 ∷ []) s && ends_in_z 2 (drop 2 s))

-- ISO_TIMESTAMP_PATTERN
unfoldable pub is_timestamp : String → Bool
is_timestamp s = fits date_time s && ends_timestamp (drop 19 s)

unfoldable pub assert_string : Value → Result EvidenceError String
assert_string (Value.str s) = if is_empty s then err invalid_evidence else ok s
assert_string _ = err invalid_evidence

unfoldable pub assert_id : Value → Result EvidenceError String
assert_id value = do s ← assert_string value; guard (is_id s) invalid_evidence; ok s

unfoldable pub assert_timestamp : Value → Result EvidenceError String
assert_timestamp value = do s ← assert_string value; guard (is_timestamp s) invalid_evidence; ok s

unfoldable pub assert_non_negative_int : Value → Result EvidenceError ℕ
assert_non_negative_int (Value.num n) = ok n
assert_non_negative_int _ = err invalid_evidence

unfoldable pub assert_positive_int : Value → Result EvidenceError ℕ
assert_positive_int (Value.num n) = if ltb n 1 then err invalid_evidence else ok n
assert_positive_int _ = err invalid_evidence

-- A plain object.
unfoldable pub assert_object : Value → Result EvidenceError Fields
assert_object (Value.obj fs) = ok fs
assert_object _ = err invalid_evidence

-- A field that may be absent.
unfoldable pub assert_optional {ℓ} :
    {A : Type ℓ} → (Value → Result EvidenceError A) → Value → Result EvidenceError (Option A)
assert_optional check Value.undefined = ok none
assert_optional check value = do a ← check value; ok (some a)

unfoldable pub assert_strings : Items → Result EvidenceError (List String)
assert_strings Items.nil = ok []
assert_strings (Items.cons v items) = do
  s ← assert_string v
  rest ← assert_strings items
  ok (s ∷ rest)

unfoldable pub assert_redactions : Value → Result EvidenceError (List String)
assert_redactions (Value.arr items) = assert_strings items
assert_redactions _ = err invalid_evidence

-- VALID_SOURCES
unfoldable pub source_of : String → Result EvidenceError UsageEvidenceSource
source_of s =
    if str_eq s "runner_self_report"
    then ok runner_self_report
    else if str_eq s "provider_signed"
    then ok signed_by_provider
    else if str_eq s "gateway_trusted"
    then ok gateway_trusted
    else if str_eq s "unknown"
    then ok unknown
    else err invalid_evidence

-- VALID_PROOF_QUALITIES
unfoldable pub proof_quality_of : String → Result EvidenceError UsageEvidenceProofQuality
proof_quality_of s =
    if str_eq s "unverified"
    then ok unverified
    else if str_eq s "runner_attested"
    then ok runner_attested
    else if str_eq s "provider_signed"
    then ok provider_signed
    else if str_eq s "gateway_verified"
    then ok gateway_verified
    else err invalid_evidence

-- The copy of the provider: an absent region is no field of it.
unfoldable pub provider_of : Value → Result EvidenceError Fields
provider_of value = do
  fields ← assert_object value
  id ← assert_string (member "id" fields)
  model ← assert_string (member "model" fields)
  region ← assert_optional assert_string (member "region" fields)
  ok (if is_some region then fields else without_field "region" fields)

unfoldable pub tokens_of : Value → Result EvidenceError UsageEvidenceTokens
tokens_of value = do
  fields ← assert_object value
  input ← assert_non_negative_int (member "input" fields)
  output ← assert_non_negative_int (member "output" fields)
  cached ← assert_optional assert_non_negative_int (member "cached" fields)
  ok (record { input = input; output = output; cached = cached })

unfoldable pub requests_of : Value → Result EvidenceError UsageEvidenceRequests
requests_of value = do
  fields ← assert_object value
  count ← assert_positive_int (member "count" fields)
  tool_calls ← assert_optional assert_non_negative_int (member "toolCalls" fields)
  ok (record { count = count; tool_calls = tool_calls })

-- The fields that the validation reads one after the other, in three parts.
pub record EvidenceIdentity : Type 0 where
  pub evidence_id : String
  pub task_id : String
  pub run_id : String
  pub attempt : ℕ
  pub runner_id : String
  pub timestamp : String

pub record EvidenceUsage : Type 0 where
  pub provider : Fields
  pub tokens : UsageEvidenceTokens
  pub requests : UsageEvidenceRequests
  pub time_bounds : UsageEvidenceTimeBounds

pub record EvidenceProof : Type 0 where
  pub source : UsageEvidenceSource
  pub proof_quality : UsageEvidenceProofQuality
  pub proof_reference : Option String
  pub redactions : Option (List String)

abbrev pub of_parts : EvidenceIdentity → EvidenceUsage → EvidenceProof → UsageEvidenceRecord
of_parts i u p = record {
  evidence_id = i.evidence_id;
  task_id = i.task_id;
  run_id = i.run_id;
  attempt = i.attempt;
  runner_id = i.runner_id;
  timestamp = i.timestamp;
  provider = u.provider;
  tokens = u.tokens;
  requests = u.requests;
  time_bounds = u.time_bounds;
  source = p.source;
  proof_quality = p.proof_quality;
  proof_reference = p.proof_reference;
  redactions = p.redactions;
}

unfoldable pub identity_part_of : Fields → Result EvidenceError EvidenceIdentity
identity_part_of raw = do
  evidence_id ← assert_id (member "evidenceId" raw)
  version ← assert_string (member "version" raw)
  guard (str_eq version "usage-evidence.v1") invalid_evidence
  task_id ← assert_id (member "taskId" raw)
  run_id ← assert_id (member "runId" raw)
  attempt ← assert_positive_int (member "attempt" raw)
  runner_id ← assert_id (member "runnerId" raw)
  timestamp ← assert_timestamp (member "timestamp" raw)
  ok (record {
    evidence_id = evidence_id;
    task_id = task_id;
    run_id = run_id;
    attempt = attempt;
    runner_id = runner_id;
    timestamp = timestamp;
  })

unfoldable pub proof_part_of : Fields → Result EvidenceError EvidenceProof
proof_part_of raw = do
  source_text ← assert_string (member "source" raw)
  source ← source_of source_text
  quality_text ← assert_string (member "proofQuality" raw)
  proof_quality ← proof_quality_of quality_text
  proof_reference ← assert_optional assert_string (member "proofReference" raw)
  redactions ← assert_optional assert_redactions (member "redactions" raw)
  ok (record {
    source = source;
    proof_quality = proof_quality;
    proof_reference = proof_reference;
    redactions = redactions;
  })

-- `new Date(s).getTime()`, none where that is no number. Counted from the year 0, the first one that a
-- timestamp can name.
module _ (time_of : String → Option ℕ) where
  -- `a < b`, which is false where one of them is no number.
  unfoldable pub is_before : String → String → Bool
  is_before a b = if_some (time_of a) (λ s. if_some (time_of b) (λ t. ltb s t) false) false

  unfoldable pub time_bounds_of : Value → Result EvidenceError UsageEvidenceTimeBounds
  time_bounds_of value = do
    fields ← assert_object value
    started_at ← assert_timestamp (member "startedAt" fields)
    completed_at ← assert_timestamp (member "completedAt" fields)
    guard (not (is_before completed_at started_at)) invalid_evidence
    ok (record { started_at = started_at; completed_at = completed_at })

  unfoldable pub usage_part_of : Fields → Result EvidenceError EvidenceUsage
  usage_part_of raw = do
    provider ← provider_of (member "provider" raw)
    tokens ← tokens_of (member "tokens" raw)
    requests ← requests_of (member "requests" raw)
    time_bounds ← time_bounds_of (member "timeBounds" raw)
    ok (record {
      provider = provider;
      tokens = tokens;
      requests = requests;
      time_bounds = time_bounds;
    })

  unfoldable pub validate_usage_evidence : Value → Result EvidenceError UsageEvidenceRecord
  validate_usage_evidence value = do
    raw ← assert_object value
    identity ← identity_part_of raw
    usage ← usage_part_of raw
    proof ← proof_part_of raw
    ok (of_parts identity usage proof)
