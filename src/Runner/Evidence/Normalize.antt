-- ===== src/Runner/Evidence/Normalize.antt =====
-- normalizeUsageEvidence: the evidence of one attempt as one record. The order of records whose
-- timestamps are no dates is left to the implementation of `sort`; here it is that of an insertion.
use digital_employee.Common.{
  ℕ, ◌+◌, min, max, String, Bool, true, ◌&&◌, not, Option, none, some, List, [], ◌∷◌, map, leb, ltb,
  ◌==◌, str_eq, if◌then◌else◌, if_some, all, sort_by,
}
use digital_employee.Common.Result.{Result, ok, err, guard, ◌>>=◌, ◌>>◌}
use digital_employee.Runner.Evidence.{
  EvidenceError, invalid_evidence, range_error, UsageEvidenceProofQuality, UsageEvidenceTimeBounds,
  UsageEvidenceRecord, unverified, runner_attested, provider_signed, gateway_verified,
}
use digital_employee.Runner.Evidence.Validate.{is_before}

unfoldable pub same_identity : UsageEvidenceRecord → UsageEvidenceRecord → Bool
same_identity a b =
    str_eq a.task_id b.task_id && (str_eq a.run_id b.run_id && a.attempt == b.attempt)

-- No violation: the tokens do not decrease from one record to the next.
unfoldable pub is_monotone : List UsageEvidenceRecord → Bool
is_monotone [] = true
is_monotone (a ∷ []) = true
is_monotone (a ∷ b ∷ rest) =
    leb a.tokens.input b.tokens.input
    && (leb a.tokens.output b.tokens.output && is_monotone (b ∷ rest))

-- `reduce` over the numbers.
unfoldable pub fold : (ℕ → ℕ → ℕ) → ℕ → List ℕ → ℕ
fold f z [] = z
fold f z (n ∷ ns) = f n (fold f z ns)

-- The values that are not undefined.
unfoldable pub present : List (Option ℕ) → List ℕ
present [] = []
present (none ∷ rest) = present rest
present (some n ∷ rest) = n ∷ present rest

-- The combined value, where there is one.
unfoldable pub fold_present : (ℕ → ℕ → ℕ) → List (Option ℕ) → Option ℕ
fold_present f values = combined (present values)
  where
    combined : List ℕ → Option ℕ
    combined [] = none
    combined (n ∷ ns) = some (fold f 0 (n ∷ ns))

unfoldable pub quality_rank : UsageEvidenceProofQuality → ℕ
quality_rank unverified = 0
quality_rank runner_attested = 1
quality_rank provider_signed = 2
quality_rank gateway_verified = 3

unfoldable pub best_quality :
    UsageEvidenceProofQuality → List UsageEvidenceRecord → UsageEvidenceProofQuality
best_quality best [] = best
best_quality best (e ∷ rest) =
    best_quality
      (if ltb (quality_rank best) (quality_rank e.proof_quality) then e.proof_quality else best)
      rest

unfoldable pub last_record : UsageEvidenceRecord → List UsageEvidenceRecord → UsageEvidenceRecord
last_record e [] = e
last_record e (f ∷ rest) = last_record f rest

-- `Math.min` of times, of which there are some.
unfoldable pub earliest : List ℕ → ℕ
earliest [] = 0
earliest (t ∷ ts) = fold min t ts

-- The record that is returned.
unfoldable pub aggregated :
    UsageEvidenceRecord
    → UsageEvidenceRecord
    → List UsageEvidenceRecord
    → UsageEvidenceTimeBounds
    → UsageEvidenceRecord
aggregated first e rest time_bounds =
    let last = last_record e rest in
    record {
      evidence_id = last.evidence_id;
      task_id = first.task_id;
      run_id = first.run_id;
      attempt = first.attempt;
      runner_id = first.runner_id;
      timestamp = last.timestamp;
      provider = last.provider;
      tokens = record {
        input = fold max 0 (map (λ x. x.tokens.input) (e ∷ rest));
        output = fold max 0 (map (λ x. x.tokens.output) (e ∷ rest));
        cached = fold_present max (map (λ x. x.tokens.cached) (e ∷ rest));
      };
      requests = record {
        count = fold ◌+◌ 0 (map (λ x. x.requests.count) (e ∷ rest));
        tool_calls = fold_present ◌+◌ (map (λ x. x.requests.tool_calls) (e ∷ rest));
      };
      time_bounds = time_bounds;
      source = last.source;
      proof_quality =
          if is_monotone (e ∷ rest) then best_quality e.proof_quality (e ∷ rest) else unverified;
      proof_reference = last.proof_reference;
      redactions = last.redactions;
    }

module _ (time_of : String → Option ℕ) (to_iso_string : ℕ → String) where
  -- The times, unless one of them is no number.
  unfoldable pub times : List String → Result EvidenceError (List ℕ)
  times [] = ok []
  times (s ∷ rest) = do
    t ← if_some (time_of s) (λ t. ok t) (err range_error)
    ts ← times rest
    ok (t ∷ ts)

  -- `Math.min` and `Math.max` of the times, as timestamps.
  unfoldable pub widest_bounds :
      List UsageEvidenceRecord → Result EvidenceError UsageEvidenceTimeBounds
  widest_bounds events = do
    started ← times (map (λ e. e.time_bounds.started_at) events)
    completed ← times (map (λ e. e.time_bounds.completed_at) events)
    ok (record {
      started_at = to_iso_string (earliest started);
      completed_at = to_iso_string (fold max 0 completed);
    })

  -- The comparison of the sort: not after.
  unfoldable pub not_after : UsageEvidenceRecord → UsageEvidenceRecord → Bool
  not_after a b = not (is_before time_of b.timestamp a.timestamp)

  -- One record of the sorted ones.
  unfoldable pub aggregate :
      UsageEvidenceRecord → List UsageEvidenceRecord → Result EvidenceError UsageEvidenceRecord
  aggregate first [] = err invalid_evidence
  aggregate first (e ∷ rest) = do
    time_bounds ← widest_bounds (e ∷ rest)
    ok (aggregated first e rest time_bounds)

  unfoldable pub normalize_usage_evidence :
      List UsageEvidenceRecord → Result EvidenceError UsageEvidenceRecord
  normalize_usage_evidence [] = err invalid_evidence
  normalize_usage_evidence (e ∷ []) = ok e
  normalize_usage_evidence (first ∷ second ∷ rest) = do
    guard (all (λ e. same_identity e first) (first ∷ second ∷ rest)) invalid_evidence
    aggregate first (sort_by not_after (first ∷ second ∷ rest))
