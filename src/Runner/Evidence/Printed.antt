-- ===== src/Runner/Evidence/Printed.antt =====
-- Validated evidence, written as a value, is validated again to the same record.
pub mod Parts
pub mod Whole
use digital_employee.Common.{
  ℕ, String, Bool, true, false, ◌&&◌, ◌||◌, not, Option, none, some, List, [], ◌∷◌, leb, ltb, ◌==◌,
  str_eq, if◌then◌else◌, if_some, is_some, Bool-cases, ◌≡◌, refl, sym, ◌∙◌, ap, subst, inl, inr,
  arith,
}
use digital_employee.Common.Result.{
  refuse_inv, Result, ok, err, guard, ◌>>=◌, ◌>>◌, bind_inv, guard_inv, check_inv,
}
use digital_employee.Common.Text.{is_empty}
use digital_employee.Common.Value.{Value, Fields, Items, member}
use digital_employee.Engine.Delegation.Canonical.{without_field, texts}
use digital_employee.Runner.Evidence.{
  EvidenceError, invalid_evidence, UsageEvidenceSource, UsageEvidenceProofQuality,
  UsageEvidenceTokens, UsageEvidenceRequests, UsageEvidenceTimeBounds, UsageEvidenceRecord,
  runner_self_report, signed_by_provider, gateway_trusted, unknown, unverified, runner_attested,
  provider_signed, gateway_verified,
}
use digital_employee.Runner.Evidence.Validate.{
  is_id, is_timestamp, assert_string, assert_id, assert_timestamp, assert_non_negative_int,
  assert_positive_int, assert_object, assert_optional, assert_strings, assert_redactions, source_of,
  proof_quality_of, provider_of, tokens_of, requests_of, is_before, time_bounds_of,
  validate_usage_evidence,
}

abbrev pub source_text : UsageEvidenceSource → String
source_text runner_self_report = "runner_self_report"
source_text signed_by_provider = "provider_signed"
source_text gateway_trusted = "gateway_trusted"
source_text unknown = "unknown"

abbrev pub quality_text : UsageEvidenceProofQuality → String
quality_text unverified = "unverified"
quality_text runner_attested = "runner_attested"
quality_text provider_signed = "provider_signed"
quality_text gateway_verified = "gateway_verified"

abbrev pub optional_value {ℓ} : {A : Type ℓ} → (A → Value) → Option A → Value
optional_value f none = Value.undefined
optional_value f (some a) = f a

abbrev pub tokens_value : UsageEvidenceTokens → Value
tokens_value t = Value.obj (
    Fields.field "input" (Value.num t.input) (
      Fields.field "output" (Value.num t.output)
        (Fields.field "cached" (optional_value (λ n. Value.num n) t.cached) Fields.end)))

abbrev pub requests_value : UsageEvidenceRequests → Value
requests_value r = Value.obj (
    Fields.field "count" (Value.num r.count)
      (Fields.field "toolCalls" (optional_value (λ n. Value.num n) r.tool_calls) Fields.end))

abbrev pub time_bounds_value : UsageEvidenceTimeBounds → Value
time_bounds_value b = Value.obj (
    Fields.field "startedAt" (Value.str b.started_at)
      (Fields.field "completedAt" (Value.str b.completed_at) Fields.end))

-- The parser keeps what it returned, as it is printed.
abbrev pub Keeps {ℓ} : {A : Type ℓ} → (Value → Result EvidenceError A) → (A → Value) → Type ℓ
Keeps {A} parse print = (v : Value) (a : A) → parse v ≡ ok a → parse (print a) ≡ ok a

pub assert_string-Keeps : Keeps assert_string (λ s. Value.str s)
unfolding assert_string
assert_string-Keeps (Value.str t) s h =
    let (there, e) = refuse_inv (is_empty t) t invalid_evidence h in
    subst (λ u. (if is_empty u then err invalid_evidence else ok u) ≡ ok u) e (rw there refl)
assert_string-Keeps Value.undefined s h = cc h
assert_string-Keeps Value.null s h = cc h
assert_string-Keeps Value.other_num s h = cc h
assert_string-Keeps (Value.bool b) s h = cc h
assert_string-Keeps (Value.obj fs) s h = cc h
assert_string-Keeps (Value.num n) s h = cc h
assert_string-Keeps (Value.arr items) s h = cc h

-- A text that passes a further test.
pub tested-Keeps :
    (p : String → Bool)
    → Keeps (λ v. assert_string v >>= λ s. guard (p s) invalid_evidence >> ok s) (λ s. Value.str s)
tested-Keeps p v s h =
    let (t, a, h1) = bind_inv (assert_string v) _ h in
    let (valid, h2) = guard_inv (p t) invalid_evidence _ h1 in
    subst (λ u. (assert_string (Value.str u) >>= λ s. guard (p s) invalid_evidence >> ok s) ≡ ok u)
      {x = t} {y = s} (cc h2) (rw (assert_string-Keeps v t a) (rw valid refl))

pub assert_positive_int-Keeps : Keeps assert_positive_int (λ n. Value.num n)
unfolding assert_positive_int
assert_positive_int-Keeps (Value.num m) n h =
    let (positive, e) = refuse_inv (ltb m 1) m invalid_evidence h in
    subst (λ k. (if ltb k 1 then err invalid_evidence else ok k) ≡ ok k) e (rw positive refl)
assert_positive_int-Keeps Value.undefined n h = cc h
assert_positive_int-Keeps Value.null n h = cc h
assert_positive_int-Keeps Value.other_num n h = cc h
assert_positive_int-Keeps (Value.bool b) n h = cc h
assert_positive_int-Keeps (Value.obj fs) n h = cc h
assert_positive_int-Keeps (Value.str s) n h = cc h
assert_positive_int-Keeps (Value.arr items) n h = cc h

-- A parser of a field that may be absent, where no printed value is undefined.
module _ {ℓ} {A : Type ℓ} (parse : Value → Result EvidenceError A) (print : A → Value)
    (defined : (a : A) → assert_optional parse (print a) ≡ (parse (print a) >>= λ x. ok (some x)))
    (keeps : Keeps parse print) where
  present-Keeps :
      (v : Value) (o : Option A)
      → (parse v >>= λ x. ok (some x)) ≡ ok o
      → assert_optional parse (optional_value print o) ≡ ok o
  present-Keeps v o h =
      let (a, p, e) = bind_inv (parse v) _ h in
      subst (λ x. assert_optional parse (optional_value print x) ≡ ok x) {x = some a} {y = o} (cc e)
        (defined a ∙ rw (keeps v a p) refl)

  pub optional-Keeps : Keeps (assert_optional parse) (optional_value print)
  unfolding assert_optional
  optional-Keeps Value.undefined o h =
      subst (λ x. assert_optional parse (optional_value print x) ≡ ok x) {x = none} {y = o} (cc h)
        refl
  optional-Keeps Value.null o h = present-Keeps Value.null o h
  optional-Keeps Value.other_num o h = present-Keeps Value.other_num o h
  optional-Keeps (Value.bool b) o h = present-Keeps (Value.bool b) o h
  optional-Keeps (Value.obj fs) o h = present-Keeps (Value.obj fs) o h
  optional-Keeps (Value.num n) o h = present-Keeps (Value.num n) o h
  optional-Keeps (Value.str s) o h = present-Keeps (Value.str s) o h
  optional-Keeps (Value.arr items) o h = present-Keeps (Value.arr items) o h

number-Keeps : Keeps assert_non_negative_int (λ n. Value.num n)
unfolding assert_non_negative_int
number-Keeps v n h = refl

pub optional_number-Keeps :
    Keeps (assert_optional assert_non_negative_int) (optional_value (λ n. Value.num n))
unfolding assert_optional
optional_number-Keeps =
    optional-Keeps assert_non_negative_int (λ n. Value.num n) (λ a. refl) number-Keeps

pub optional_string-Keeps :
    Keeps (assert_optional assert_string) (optional_value (λ s. Value.str s))
unfolding assert_optional
optional_string-Keeps =
    optional-Keeps assert_string (λ s. Value.str s) (λ a. refl) assert_string-Keeps

pub tokens_of-Keeps : Keeps tokens_of tokens_value
unfolding tokens_of assert_object member
tokens_of-Keeps v t h =
    let (fields, f, h1) = bind_inv (assert_object v) _ h in
    let (input, i, h2) = bind_inv (assert_non_negative_int (member "input" fields)) _ h1 in
    let (output, o, h3) = bind_inv (assert_non_negative_int (member "output" fields)) _ h2 in
    let (cached, c, h4) =
      bind_inv (assert_optional assert_non_negative_int (member "cached" fields)) _ h3 in
    subst (λ x. tokens_of (tokens_value x) ≡ ok x)
      {x = record { input = input; output = output; cached = cached }} {y = t} (cc h4)
      (rw (number-Keeps _ input i)
        (rw (number-Keeps _ output o) (rw (optional_number-Keeps _ cached c) refl)))

pub requests_of-Keeps : Keeps requests_of requests_value
unfolding requests_of assert_object member
requests_of-Keeps v r h =
    let (fields, f, h1) = bind_inv (assert_object v) _ h in
    let (count, c, h2) = bind_inv (assert_positive_int (member "count" fields)) _ h1 in
    let (tools, t, h3) =
      bind_inv (assert_optional assert_non_negative_int (member "toolCalls" fields)) _ h2 in
    subst (λ x. requests_of (requests_value x) ≡ ok x)
      {x = record { count = count; tool_calls = tools }} {y = r} (cc h3)
      (rw (assert_positive_int-Keeps _ count c) (rw (optional_number-Keeps _ tools t) refl))
