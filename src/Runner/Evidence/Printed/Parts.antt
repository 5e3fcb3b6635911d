-- ===== src/Runner/Evidence/Printed/Parts.antt =====
-- The identifiers, the redactions, the provider and the named values of evidence.
use digital_employee.Common.{
  String, false, Option, none, some, List, [], ◌∷◌, str_eq, if◌then◌else◌, is_some, Bool-cases, ◌≡◌,
  refl, sym, subst, inl, inr, arith, eq_iff,
}
use digital_employee.Common.Result.{ok, bind_inv}
use digital_employee.Common.Value.{Value, Fields, Items, member}
use digital_employee.Engine.Delegation.Canonical.{without_field, texts}
use digital_employee.Runner.Evidence.{
  UsageEvidenceSource, UsageEvidenceProofQuality, runner_self_report, signed_by_provider,
  gateway_trusted, unknown, unverified, runner_attested, provider_signed, gateway_verified,
}
use digital_employee.Runner.Evidence.Validate.{
  is_id, is_timestamp, assert_string, assert_id, assert_timestamp, assert_object, assert_optional,
  assert_strings, assert_redactions, source_of, proof_quality_of, provider_of,
}
use digital_employee.Runner.Evidence.Printed.{
  Keeps, source_text, quality_text, optional_value, assert_string-Keeps, tested-Keeps,
  optional-Keeps,
}

pub assert_id-Keeps : Keeps assert_id (λ s. Value.str s)
unfolding assert_id
assert_id-Keeps = tested-Keeps is_id

pub assert_timestamp-Keeps : Keeps assert_timestamp (λ s. Value.str s)
unfolding assert_timestamp
assert_timestamp-Keeps = tested-Keeps is_timestamp

assert_strings-texts :
    (items : Items) (ss : List String)
    → assert_strings items ≡ ok ss
    → assert_strings (texts ss) ≡ ok ss
unfolding assert_strings texts
assert_strings-texts Items.nil ss h =
    subst (λ x. assert_strings (texts x) ≡ ok x) {x = []} {y = ss} (cc h) refl
assert_strings-texts (Items.cons v items) ss h =
    let (s, a, h1) = bind_inv (assert_string v) _ h in
    let (rest, r, h2) = bind_inv (assert_strings items) _ h1 in
    subst (λ x. assert_strings (texts x) ≡ ok x) {x = s ∷ rest} {y = ss} (cc h2)
      (rw (assert_string-Keeps v s a) (rw (assert_strings-texts items rest r) refl))

assert_redactions-Keeps : Keeps assert_redactions (λ ss. Value.arr (texts ss))
unfolding assert_redactions
assert_redactions-Keeps (Value.arr items) ss h = assert_strings-texts items ss h
assert_redactions-Keeps Value.undefined s h = cc h
assert_redactions-Keeps Value.null s h = cc h
assert_redactions-Keeps Value.other_num s h = cc h
assert_redactions-Keeps (Value.bool b) s h = cc h
assert_redactions-Keeps (Value.obj fs) s h = cc h
assert_redactions-Keeps (Value.num n) s h = cc h
assert_redactions-Keeps (Value.str t) s h = cc h

pub optional_redactions-Keeps :
    Keeps (assert_optional assert_redactions) (optional_value (λ ss. Value.arr (texts ss)))
unfolding assert_optional
optional_redactions-Keeps =
    optional-Keeps assert_redactions (λ ss. Value.arr (texts ss)) (λ a. refl)
      assert_redactions-Keeps

member-without_ne :
    (k j : String) (fs : Fields) → str_eq j k ≡ false → member k (without_field j fs) ≡ member k fs
unfolding member without_field
member-without_ne k j Fields.end h = refl
member-without_ne k j (Fields.field i v fs) h = elim (Bool-cases (str_eq i j)) [
  | inl e ↦
      let other : str_eq i k ≡ false = subst (λ x. str_eq x k ≡ false) (sym ((eq_iff i j).0 e)) h in
      rw e (rw other (member-without_ne k j fs h))
  | inr n ↦ rw n (ground (arith, member-without_ne k j fs h))
]

member-without_eq : (k : String) (fs : Fields) → member k (without_field k fs) ≡ Value.undefined
unfolding member without_field
member-without_eq k Fields.end = refl
member-without_eq k (Fields.field i v fs) = elim (Bool-cases (str_eq i k)) [
  | inl e ↦ rw e (member-without_eq k fs)
  | inr n ↦ rw n (rw n (member-without_eq k fs))
]

without_field_idem :
    (k : String) (fs : Fields) → without_field k (without_field k fs) ≡ without_field k fs
unfolding without_field
without_field_idem k Fields.end = refl
without_field_idem k (Fields.field i v fs) = elim (Bool-cases (str_eq i k)) [
  | inl e ↦ rw e (without_field_idem k fs)
  | inr n ↦ rw n (rw n (rw (without_field_idem k fs) refl))
]

pub source_of-text : (s : UsageEvidenceSource) → source_of (source_text s) ≡ ok s
unfolding source_of
source_of-text runner_self_report = refl
source_of-text signed_by_provider = refl
source_of-text gateway_trusted = refl
source_of-text unknown = refl

pub proof_quality_of-text :
    (q : UsageEvidenceProofQuality) → proof_quality_of (quality_text q) ≡ ok q
unfolding proof_quality_of
proof_quality_of-text unverified = refl
proof_quality_of-text runner_attested = refl
proof_quality_of-text provider_signed = refl
proof_quality_of-text gateway_verified = refl

pub assert_source :
    (s : UsageEvidenceSource) → assert_string (Value.str (source_text s)) ≡ ok (source_text s)
unfolding assert_string
assert_source runner_self_report = refl
assert_source signed_by_provider = refl
assert_source gateway_trusted = refl
assert_source unknown = refl

pub assert_quality :
    (q : UsageEvidenceProofQuality)
    → assert_string (Value.str (quality_text q)) ≡ ok (quality_text q)
unfolding assert_string
assert_quality unverified = refl
assert_quality runner_attested = refl
assert_quality provider_signed = refl
assert_quality gateway_verified = refl

-- The copy of a provider whose fields are valid is copied as it is.
copied :
    (fields : Fields) (id model : String) (region : Option String)
    → assert_string (member "id" fields) ≡ ok id
    → assert_string (member "model" fields) ≡ ok model
    → assert_optional assert_string (member "region" fields) ≡ ok region
    → let p = if is_some region then fields else without_field "region" fields in
      provider_of (Value.obj p) ≡ ok p
unfolding provider_of assert_object assert_optional
copied fields id model (some r) i m h = rw i (rw m (rw h refl))
copied fields id model none i m h = rw (member-without_ne "id" "region" fields refl) (
    rw i (
      rw (member-without_ne "model" "region" fields refl) (
        rw m
          (rw (member-without_eq "region" fields) (rw (without_field_idem "region" fields) refl)))))

pub provider_of-Keeps : Keeps provider_of (λ fs. Value.obj fs)
unfolding provider_of
provider_of-Keeps v p h =
    let (fields, f, h1) = bind_inv (assert_object v) _ h in
    let (id, i, h2) = bind_inv (assert_string (member "id" fields)) _ h1 in
    let (model, m, h3) = bind_inv (assert_string (member "model" fields)) _ h2 in
    let (region, r, h4) = bind_inv (assert_optional assert_string (member "region" fields)) _ h3 in
    subst (λ x. provider_of (Value.obj x) ≡ ok x)
      {x = if is_some region then fields else without_field "region" fields} {y = p} (cc h4)
      (copied fields id model region i m r)
