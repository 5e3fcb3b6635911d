-- ===== src/Runner/Intake/Final.antt =====
-- Every state but `pending` is final.
use digital_employee.Common.{
  str_eq, if_some, if◌then◌else◌, refl, ℕ, String, ◌≡◌, ◌≢◌, inl, inr, arith, false, Option, none,
  some, List, [], ◌∷◌, eq_iff, Option-cases, Bool-cases, leb, ◌&&◌,
}
use digital_employee.Common.Dict.{Dict, get, set, get-set}
use digital_employee.Common.Value.{Value}
use digital_employee.Common.Result.{Result, ok, err}
use digital_employee.Runner.Intake.{
  TaskIntakeGate, TaskIntakeRecord, TaskIntakeDecision, TaskIntakeRequest, IntakeError, is_pending,
  submit, admit, admit_valid, decide, expire_pending, expire_each, expire, drain_events,
  validate_task_intake_request,
}
use digital_employee.Common.Text.{is_empty}

-- The operations, each with what it reads of the clock.
pub data Operation : Type 0 where
  submit_task : ℕ → ℕ → Value → Operation
  decide_task : ℕ → ℕ → TaskIntakeDecision → Operation
  expire_due : ℕ → (String → ℕ) → Operation
  drain : Operation

abbrev pub Holds : String → TaskIntakeRecord → Dict TaskIntakeRecord → Type 0
Holds id r m = get id m ≡ some r

-- A write to a key that does not hold a settled record leaves every settled record.
set-Holds :
    (id k : String) (r v : TaskIntakeRecord) (m : Dict TaskIntakeRecord)
    → get k m ≢ some r
    → Holds id r m
    → Holds id r (set k v m)
set-Holds id k r v m other h = ground (arith, get-set k id v m, eq_iff k id)

module _ (sha256 : String → String) (parse_date : String → Option ℕ)
    (to_iso_string : ℕ → String) where
  unfoldable pub apply : Operation → TaskIntakeGate → TaskIntakeGate
  apply (submit_task now event_now input) gate =
      (submit sha256 parse_date to_iso_string now event_now input gate).0
  apply (decide_task now event_now decision) gate =
      (decide sha256 parse_date to_iso_string now event_now decision gate).0
  apply (expire_due now event_now) gate =
      (expire_pending sha256 parse_date to_iso_string now event_now gate).0
  apply drain gate = (drain_events gate).0

  unfoldable pub apply_all : List Operation → TaskIntakeGate → TaskIntakeGate
  apply_all [] gate = gate
  apply_all (op ∷ ops) gate = apply_all ops (apply op gate)

  -- What the expiry makes of a record.
  abbrev pub aged : ℕ → TaskIntakeRecord → TaskIntakeRecord
  aged now r =
      if is_pending r.state && leb r.expires_at now
      then expire sha256 parse_date to_iso_string now r
      else r

  pub get-expire_each :
      (now : ℕ) (event_now : String → ℕ) (id : String) (m : Dict TaskIntakeRecord)
      → get id (expire_each sha256 parse_date to_iso_string now event_now m).records
        ≡ if_some (get id m) (λ r. some (aged now r)) none
  unfolding get expire_each if_some
  get-expire_each now event_now id [] = refl
  get-expire_each now event_now id ((k, x) ∷ m) =
      elim (Bool-cases (is_pending x.state && leb x.expires_at now)) [
        | inl due ↦ rw due (elim (Bool-cases (str_eq k id)) [
          | inl s ↦ rw s (rw due refl)
          | inr s ↦ rw s (get-expire_each now event_now id m)
        ])
        | inr due ↦ rw due (elim (Bool-cases (str_eq k id)) [
          | inl s ↦ rw s (rw due refl)
          | inr s ↦ rw s (get-expire_each now event_now id m)
        ])
      ]

  aged-settled : (now : ℕ) (r : TaskIntakeRecord) → is_pending r.state ≡ false → aged now r ≡ r
  aged-settled now r s = rw s refl

  admit-Holds :
      (now event_now : ℕ) (request : TaskIntakeRequest) (gate : TaskIntakeGate) (id : String)
      (r : TaskIntakeRecord)
      → Holds id r gate.records
      → Holds id r (admit sha256 parse_date to_iso_string now event_now request gate).0.records
  unfolding admit if_some
  admit-Holds now event_now request gate id r h =
      elim (Option-cases (get request.task_id gate.records)) [
        | inl new ↦ rw new (elim (Option-cases (parse_date request.lease_expires_at)) [
          | inl bad ↦ rw bad h
          | inr (at, good) ↦ rw good (set-Holds id request.task_id r _ gate.records (λ same. cc) h)
        ])
        | inr (x, old) ↦ rw old h
      ]

  admit_valid-Holds :
      (now event_now : ℕ) (parsed : Result IntakeError TaskIntakeRequest) (gate : TaskIntakeGate)
      (id : String) (r : TaskIntakeRecord)
      → Holds id r gate.records
      → Holds id r (admit_valid sha256 parse_date to_iso_string now event_now parsed gate).0.records
  unfolding admit_valid
  admit_valid-Holds now event_now (err e) gate id r h = h
  admit_valid-Holds now event_now (ok request) gate id r h =
      admit-Holds now event_now request gate id r h

  decide-Holds :
      (now event_now : ℕ) (decision : TaskIntakeDecision) (gate : TaskIntakeGate) (id : String)
      (r : TaskIntakeRecord)
      → is_pending r.state ≡ false
      → Holds id r gate.records
      → Holds id r (decide sha256 parse_date to_iso_string now event_now decision gate).0.records
  unfolding decide if_some
  decide-Holds now event_now decision gate id r s h =
      elim (Bool-cases (is_empty decision.task_id)) [
        | inl empty ↦ rw empty h
        | inr named ↦ rw named (elim (Option-cases (get decision.task_id gate.records)) [
          | inl none_there ↦ rw none_there h
          | inr (x, there) ↦ rw there (elim (Bool-cases (is_pending x.state)) [
            | inl waiting ↦ rw waiting (elim (Bool-cases (leb x.expires_at now)) [
              | inl late ↦ rw late (set-Holds id decision.task_id r _ gate.records (λ same. cc) h)
              | inr early ↦ rw early (set-Holds id decision.task_id r _ gate.records (λ same. cc) h)
            ])
            | inr closed ↦ rw closed h
          ])
        ])
      ]

  apply-Holds :
      (op : Operation) (gate : TaskIntakeGate) (id : String) (r : TaskIntakeRecord)
      → is_pending r.state ≡ false
      → Holds id r gate.records
      → Holds id r (apply op gate).records
  unfolding apply submit expire_pending drain_events if_some
  apply-Holds (submit_task now event_now input) gate id r s h =
      admit_valid-Holds now event_now (validate_task_intake_request input) gate id r h
  apply-Holds (decide_task now event_now decision) gate id r s h =
      decide-Holds now event_now decision gate id r s h
  apply-Holds (expire_due now event_now) gate id r s h =
      rw (get-expire_each now event_now id gate.records) (rw h (rw (aged-settled now r s) refl))
  apply-Holds drain gate id r s h = h

  -- A record that is not pending is never changed or removed, whatever operations come.
  pub apply_all-final :
      (ops : List Operation) (gate : TaskIntakeGate) (id : String) (r : TaskIntakeRecord)
      → get id gate.records ≡ some r
      → is_pending r.state ≡ false
      → get id (apply_all ops gate).records ≡ some r
  unfolding apply_all
  apply_all-final [] gate id r h s = h
  apply_all-final (op ∷ ops) gate id r h s =
      apply_all-final ops (apply op gate) id r (apply-Holds op gate id r s h) s
