-- ===== src/Runner/Evidence/Totals.antt =====
-- What a normalised record totals.
use digital_employee.Common.{
  ℕ, ◌+◌, max, String, Bool, true, false, ◌&&◌, Option, none, some, List, [], ◌∷◌, map, leb, ltb,
  if◌then◌else◌, if_some, all, sort_by, all-sort_by, Bool-cases, ◌≡◌, refl, sym, ◌∙◌, ap, subst,
  inl, inr, ◌≤◌, arith,
}
use digital_employee.Common.Result.{ok, err, bind_inv, guard_inv}
use digital_employee.Runner.Evidence.Folds.{
  max-IsLeftCommutative, add-IsLeftCommutative, all-map, fold_sorted, fold_present_sorted,
  earliest-least, fold-latest,
}
use digital_employee.Runner.Evidence.{
  invalid_evidence, range_error, UsageEvidenceProofQuality, UsageEvidenceRecord,
  UsageEvidenceTimeBounds, unverified,
}
use digital_employee.Runner.Evidence.Normalize.{
  aggregated, earliest, same_identity, is_monotone, fold, fold_present, quality_rank, best_quality,
  times, widest_bounds, not_after, aggregate, normalize_usage_evidence,
}

best_quality-rank :
    (b : UsageEvidenceProofQuality) (es : List UsageEvidenceRecord)
    → quality_rank (best_quality b es)
      ≡ max (quality_rank b) (fold max 0 (map (λ e. quality_rank e.proof_quality) es))
unfolding best_quality fold
best_quality-rank b [] = omega arith
best_quality-rank b (e ∷ es) =
    elim (Bool-cases (ltb (quality_rank b) (quality_rank e.proof_quality))) [
      | inl k ↦ rw k (best_quality-rank e.proof_quality es ∙ grind (arith, k))
      | inr k ↦ rw k (best_quality-rank b es ∙ grind (arith, k))
    ]

-- A time that is a number and passes a test.
abbrev pub timed : Option ℕ → (ℕ → Bool) → Bool
timed none p = false
timed (some t) p = p t

number-timed :
    (p : ℕ → Bool) (o : Option ℕ) (t : ℕ)
    → if_some o (λ t. ok t) (err range_error) ≡ ok t
    → timed o p ≡ p t
unfolding if_some
number-timed p none t h = cc h
number-timed p (some u) t h = ap p (cc h)

-- A record totals the records of one attempt: the numbers do not depend on their order, and its time
-- bounds cover theirs.
pub record Aggregates (time_of : String → Option ℕ) (to_iso_string : ℕ → String)
    (events : List UsageEvidenceRecord) (r : UsageEvidenceRecord) : Type 0 where
  pub identity : all (λ e. same_identity e r) events ≡ true
  pub input : r.tokens.input ≡ fold max 0 (map (λ e. e.tokens.input) events)
  pub output : r.tokens.output ≡ fold max 0 (map (λ e. e.tokens.output) events)
  pub cached : r.tokens.cached ≡ fold_present max (map (λ e. e.tokens.cached) events)
  pub count : r.requests.count ≡ fold ◌+◌ 0 (map (λ e. e.requests.count) events)
  pub tool_calls :
      r.requests.tool_calls ≡ fold_present ◌+◌ (map (λ e. e.requests.tool_calls) events)
  pub earliest_start : ℕ
  pub latest_end : ℕ
  pub starts : r.time_bounds.started_at ≡ to_iso_string earliest_start
  pub ends : r.time_bounds.completed_at ≡ to_iso_string latest_end
  pub spans :
      all
        (λ e.
          timed (time_of e.time_bounds.started_at) (λ t. leb earliest_start t)
          && timed (time_of e.time_bounds.completed_at) (λ t. leb t latest_end))
        events
      ≡ true
  pub quality :
      quality_rank r.proof_quality ≤ fold max 0 (map (λ e. quality_rank e.proof_quality) events)

all-both {ℓ} :
    {A : Type ℓ} (p q : A → Bool) (xs : List A)
    → all p xs ≡ true
    → all q xs ≡ true
    → all (λ x. p x && q x) xs ≡ true
all-both p q [] h k = refl
all-both p q (x ∷ xs) h k =
    let hs : all p xs ≡ true = ground (arith, h) in
    let ks : all q xs ≡ true = ground (arith, k) in ground (arith, h, k, all-both p q xs hs ks)

quality-most :
    (b : Bool) (e : UsageEvidenceRecord) (es : List UsageEvidenceRecord)
    → quality_rank (if b then best_quality e.proof_quality (e ∷ es) else unverified)
      ≤ fold max 0 (map (λ x. quality_rank x.proof_quality) (e ∷ es))
unfolding fold quality_rank
quality-most true e es = omega (arith, best_quality-rank e.proof_quality (e ∷ es))
quality-most false e es = omega arith

module _ (time_of : String → Option ℕ) (to_iso_string : ℕ → String) where
  times-all :
      (p : ℕ → Bool) (ss : List String) (ts : List ℕ)
      → times time_of to_iso_string ss ≡ ok ts
      → all (λ s. timed (time_of s) p) ss ≡ all p ts
  unfolding times
  times-all p [] ts h = ap (all p) {x = []} {y = ts} (cc h)
  times-all p (s ∷ ss) ts h =
      let (t, n, h1) = bind_inv (if_some (time_of s) (λ t. ok t) (err range_error)) _ h in
      let (rest, r, h2) = bind_inv (times time_of to_iso_string ss) _ h1 in
      subst (λ us. all (λ s. timed (time_of s) p) (s ∷ ss) ≡ all p us) {x = t ∷ rest} {y = ts}
        (cc h2) (rw (number-timed p (time_of s) t n) (rw (times-all p ss rest r) refl))

  widest_bounds-covers :
      (events : List UsageEvidenceRecord) (b : UsageEvidenceTimeBounds)
      → widest_bounds time_of to_iso_string events ≡ ok b
      → (start : ℕ) × (end : ℕ) × (b.started_at ≡ to_iso_string start)
        × (b.completed_at ≡ to_iso_string end)
        × (all
              (λ e.
                timed (time_of e.time_bounds.started_at) (λ t. leb start t)
                && timed (time_of e.time_bounds.completed_at) (λ t. leb t end))
              events
            ≡ true)
  unfolding widest_bounds
  widest_bounds-covers events b h =
      let (started, s, h1) =
        bind_inv (times time_of to_iso_string (map (λ e. e.time_bounds.started_at) events)) _ h in
      let (completed, c, h2) =
        bind_inv (times time_of to_iso_string (map (λ e. e.time_bounds.completed_at) events)) _
          h1 in
      (
        earliest started,
        fold max 0 completed,
        cc h2,
        cc h2,
        all-both (λ e. timed (time_of e.time_bounds.started_at) (λ t. leb (earliest started) t))
            (λ e. timed (time_of e.time_bounds.completed_at) (λ t. leb t (fold max 0 completed)))
            events
            (sym (all-map _ (λ e. e.time_bounds.started_at) events)
              ∙ times-all (λ t. leb (earliest started) t) _ started s
              ∙ earliest-least started)
            (sym (all-map _ (λ e. e.time_bounds.completed_at) events)
              ∙ times-all (λ t. leb t (fold max 0 completed)) _ completed c
              ∙ fold-latest completed),
      )

  aggregated-Aggregates :
      (first : UsageEvidenceRecord) (events : List UsageEvidenceRecord) (x : UsageEvidenceRecord)
      (xs : List UsageEvidenceRecord) (bounds : UsageEvidenceTimeBounds)
      → x ∷ xs ≡ sort_by (not_after time_of to_iso_string) events
      → all (λ e. same_identity e first) events ≡ true
      → widest_bounds time_of to_iso_string (x ∷ xs) ≡ ok bounds
      → Aggregates time_of to_iso_string events (aggregated first x xs bounds)
  unfolding aggregated same_identity
  aggregated-Aggregates first events x xs bounds e i w =
      let le = not_after time_of to_iso_string in
      let ys : List UsageEvidenceRecord = x ∷ xs in
      let most = fold_sorted le max max-IsLeftCommutative in
      let (start, end, starts, ends, covers) = widest_bounds-covers (x ∷ xs) bounds w in
      record {
        identity = i;
        input = most (λ e. e.tokens.input) events ys e;
        output = most (λ e. e.tokens.output) events ys e;
        cached =
            fold_present_sorted le max max-IsLeftCommutative (λ e. e.tokens.cached) events ys e;
        count = fold_sorted le ◌+◌ add-IsLeftCommutative (λ e. e.requests.count) events ys e;
        tool_calls =
            fold_present_sorted le ◌+◌ add-IsLeftCommutative (λ e. e.requests.tool_calls) events ys
              e;
        earliest_start = start;
        latest_end = end;
        starts = starts;
        ends = ends;
        spans = sym (all-sort_by le _ events) ∙ ap (all _) (sym e) ∙ covers;
        quality =
            subst (λ n. quality_rank (aggregated first x xs bounds).proof_quality ≤ n)
              (most (λ y. quality_rank y.proof_quality) events ys e)
              (quality-most (is_monotone (x ∷ xs)) x xs);
      }

  -- The evidence of one attempt, of which there are at least two records, is normalised to a record that
  -- totals it, or refused: its token counts are the greatest, its requests are the sum, its time bounds
  -- cover those of every record, and its proof is no better than the best, whatever their order.
  pub normalize_usage_evidence-Aggregates :
      (a b : UsageEvidenceRecord) (rest : List UsageEvidenceRecord) (r : UsageEvidenceRecord)
      → normalize_usage_evidence time_of to_iso_string (a ∷ b ∷ rest) ≡ ok r
      → Aggregates time_of to_iso_string (a ∷ b ∷ rest) r
  unfolding normalize_usage_evidence aggregate
  normalize_usage_evidence-Aggregates a b rest r h =
      let events : List UsageEvidenceRecord = a ∷ b ∷ rest in
      let (same, h1) = guard_inv (all (λ e. same_identity e a) events) invalid_evidence _ h in
      sorted (sort_by (not_after time_of to_iso_string) events) refl same h1
    where
      sorted :
          (ys : List UsageEvidenceRecord)
          → ys ≡ sort_by (not_after time_of to_iso_string) (a ∷ b ∷ rest)
          → all (λ e. same_identity e a) (a ∷ b ∷ rest) ≡ true
          → aggregate time_of to_iso_string a ys ≡ ok r
          → Aggregates time_of to_iso_string (a ∷ b ∷ rest) r
      sorted [] e same k = cc k
      sorted (x ∷ xs) e same k =
          let (bounds, w, k1) = bind_inv (widest_bounds time_of to_iso_string (x ∷ xs)) _ k in
          subst (Aggregates time_of to_iso_string (a ∷ b ∷ rest)) {x = aggregated a x xs bounds}
            {y = r} (cc k1) (aggregated-Aggregates a (a ∷ b ∷ rest) x xs bounds e same w)
