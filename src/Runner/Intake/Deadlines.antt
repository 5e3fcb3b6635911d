-- ===== src/Runner/Intake/Deadlines.antt =====
-- When a record was decided, by whom a task is launched, and what its digest covers.
use digital_employee.Common.{
  ℕ, ◌≤◌, ◌<◌, String, ◌≡◌, refl, subst, ◌⊎◌, inl, inr, arith, Bool, true, false, Option, none,
  some, List, [], ◌∷◌, Option-cases, Bool-cases, leb, str_eq, if_some,
}
use digital_employee.Common.Dict.{Dict, get, set, get-set}
use digital_employee.Common.Result.{Result, ok, err}
use digital_employee.Common.Text.{is_empty}
use digital_employee.Runner.Intake.{
  TaskIntakeGate, TaskIntakeRecord, TaskIntakeDecision, TaskIntakeRequest, TaskIntakePolicy,
  TaskIntakeState, IntakeError, pending, approved, declined, timed_out, auto_accepted, is_pending,
  verdict, initial_record, admit, admit_valid, submit, decide, settle_decision, expire,
  expire_pending, new_gate, launches, drain_events, can_launch, compute_task_intake_digest,
  validate_task_intake_request,
}
use digital_employee.Runner.Intake.Final.{
  Operation, submit_task, decide_task, expire_due, drain, apply, apply_all, aged, get-expire_each,
}

-- A decision was made before the record expired, an expiry not before; only a policy that asks for
-- no approval accepts by itself.
abbrev pub IsTimed : TaskIntakeState → Bool → Option ℕ → ℕ → Type 0
IsTimed pending required decided_at expires_at = decided_at ≡ none
IsTimed approved required decided_at expires_at =
    (at : ℕ) × (decided_at ≡ some at) × (at < expires_at)
IsTimed declined required decided_at expires_at =
    (at : ℕ) × (decided_at ≡ some at) × (at < expires_at)
IsTimed timed_out required decided_at expires_at =
    (at : ℕ) × (decided_at ≡ some at) × (expires_at ≤ at)
IsTimed auto_accepted required decided_at expires_at = required ≡ false

module _ (sha256 : String → String) (parse_date : String → Option ℕ)
    (to_iso_string : ℕ → String) where
  -- The record is timed, and its digest is the one of its request in its state.
  pub record IsSound (policy : TaskIntakePolicy) (r : TaskIntakeRecord) : Type 0 where
    pub timed : IsTimed r.state policy.require_owner_approval r.decided_at r.expires_at
    pub sealed :
        r.digest ≡ compute_task_intake_digest sha256 parse_date to_iso_string r.request r.state

  abbrev pub AllSound : TaskIntakePolicy → Dict TaskIntakeRecord → Type 0
  AllSound policy m = (id : String) (r : TaskIntakeRecord) → get id m ≡ some r → IsSound policy r

  set-AllSound :
      (policy : TaskIntakePolicy) (k : String) (v : TaskIntakeRecord) (m : Dict TaskIntakeRecord)
      → IsSound policy v
      → AllSound policy m
      → AllSound policy (set k v m)
  set-AllSound policy k v m s h id r g = elim (Bool-cases (str_eq k id)) [
    | inl same ↦ subst (IsSound policy) {x = v} {y = r} (cc (get-set k id v m, same, g)) s
    | inr other ↦ h id r (cc (get-set k id v m, other, g))
  ]

  expire-IsSound :
      (policy : TaskIntakePolicy) (now : ℕ) (r : TaskIntakeRecord)
      → leb r.expires_at now ≡ true
      → IsSound policy (expire sha256 parse_date to_iso_string now r)
  unfolding expire
  expire-IsSound policy now r late = record {
    timed = (now, refl, ground (arith, late));
    sealed = refl;
  }

  settle_decision-IsSound :
      (policy : TaskIntakePolicy) (d : TaskIntakeDecision) (now : ℕ) (r : TaskIntakeRecord)
      → leb r.expires_at now ≡ false
      → IsSound policy (settle_decision sha256 parse_date to_iso_string d now r)
  unfolding settle_decision
  settle_decision-IsSound policy d now r early = record {
    timed = timed (Bool-cases d.approved);
    sealed = refl;
  }
    where
      timed :
          (d.approved ≡ true) ⊎ (d.approved ≡ false)
          → IsTimed (verdict d.approved) policy.require_owner_approval (some now) r.expires_at
      timed (inl t) = rw t (now, refl, ground (arith, early))
      timed (inr f) = rw f (now, refl, ground (arith, early))

  initial_record-IsSound :
      (policy : TaskIntakePolicy) (request : TaskIntakeRequest) (now lease_expiry : ℕ)
      → IsSound policy
          (initial_record sha256 parse_date to_iso_string policy request now lease_expiry)
  unfolding initial_record
  initial_record-IsSound policy request now lease_expiry =
      elim (Bool-cases policy.require_owner_approval) [
        | inl t ↦ record { timed = rw t refl; sealed = refl }
        | inr f ↦ record { timed = rw f refl; sealed = refl }
      ]

  -- A gate under its own policy.
  abbrev pub GateSound : TaskIntakeGate → Type 0
  GateSound gate = AllSound gate.policy gate.records

  admit_valid-GateSound :
      (now event_now : ℕ) (parsed : Result IntakeError TaskIntakeRequest) (gate : TaskIntakeGate)
      → GateSound gate
      → GateSound (admit_valid sha256 parse_date to_iso_string now event_now parsed gate).0
  unfolding admit_valid admit if_some
  admit_valid-GateSound now event_now (err e) gate h = h
  admit_valid-GateSound now event_now (ok request) gate h =
      elim (Option-cases (get request.task_id gate.records)) [
        | inl new ↦ rw new (elim (Option-cases (parse_date request.lease_expires_at)) [
          | inl bad ↦ rw bad h
          | inr (at, good) ↦ rw good (
              set-AllSound gate.policy request.task_id _ gate.records
                (initial_record-IsSound gate.policy request now at) h)
        ])
        | inr (x, old) ↦ rw old h
      ]

  decide-GateSound :
      (now event_now : ℕ) (decision : TaskIntakeDecision) (gate : TaskIntakeGate)
      → GateSound gate
      → GateSound (decide sha256 parse_date to_iso_string now event_now decision gate).0
  unfolding decide if_some
  decide-GateSound now event_now decision gate h = elim (Bool-cases (is_empty decision.task_id)) [
    | inl empty ↦ rw empty h
    | inr named ↦ rw named (elim (Option-cases (get decision.task_id gate.records)) [
      | inl absent ↦ rw absent h
      | inr (x, there) ↦ rw there (elim (Bool-cases (is_pending x.state)) [
        | inl waiting ↦ rw waiting (elim (Bool-cases (leb x.expires_at now)) [
          | inl late ↦ rw late (
              set-AllSound gate.policy decision.task_id _ gate.records
                (expire-IsSound gate.policy now x late) h)
          | inr early ↦ rw early (
              set-AllSound gate.policy decision.task_id _ gate.records
                (settle_decision-IsSound gate.policy decision now x early) h)
        ])
        | inr closed ↦ rw closed h
      ])
    ])
  ]

  aged-IsSound :
      (policy : TaskIntakePolicy) (now : ℕ) (r : TaskIntakeRecord)
      → IsSound policy r
      → IsSound policy (aged sha256 parse_date to_iso_string now r)
  aged-IsSound policy now r h = elim (Bool-cases (is_pending r.state)) [
    | inl waiting ↦ rw waiting (elim (Bool-cases (leb r.expires_at now)) [
      | inl late ↦ rw late (expire-IsSound policy now r late)
      | inr early ↦ rw early h
    ])
    | inr closed ↦ rw closed h
  ]

  from_aged :
      (policy : TaskIntakePolicy) (now : ℕ) (found : Option TaskIntakeRecord) (r : TaskIntakeRecord)
      → ((x : TaskIntakeRecord) → found ≡ some x → IsSound policy x)
      → if_some found (λ x. some (aged sha256 parse_date to_iso_string now x)) none ≡ some r
      → IsSound policy r
  unfolding if_some
  from_aged policy now none r h g = cc
  from_aged policy now (some x) r h g =
      subst (IsSound policy) {x = aged sha256 parse_date to_iso_string now x} {y = r} (cc g)
        (aged-IsSound policy now x (h x refl))

  expire_pending-GateSound :
      (now : ℕ) (event_now : String → ℕ) (gate : TaskIntakeGate)
      → GateSound gate
      → GateSound (expire_pending sha256 parse_date to_iso_string now event_now gate).0
  unfolding expire_pending
  expire_pending-GateSound now event_now gate h id r g =
      from_aged gate.policy now (get id gate.records) r (h id)
        (cc (get-expire_each sha256 parse_date to_iso_string now event_now id gate.records, g))

  apply-GateSound :
      (op : Operation) (gate : TaskIntakeGate)
      → GateSound gate
      → GateSound (apply sha256 parse_date to_iso_string op gate)
  unfolding apply submit drain_events
  apply-GateSound (submit_task now event_now input) gate h =
      admit_valid-GateSound now event_now (validate_task_intake_request input) gate h
  apply-GateSound (decide_task now event_now decision) gate h =
      decide-GateSound now event_now decision gate h
  apply-GateSound (expire_due now event_now) gate h = expire_pending-GateSound now event_now gate h
  apply-GateSound drain gate h = h

  apply_all-GateSound :
      (ops : List Operation) (gate : TaskIntakeGate)
      → GateSound gate
      → GateSound (apply_all sha256 parse_date to_iso_string ops gate)
  unfolding apply_all
  apply_all-GateSound [] gate h = h
  apply_all-GateSound (op ∷ ops) gate h =
      apply_all-GateSound ops (apply sha256 parse_date to_iso_string op gate)
        (apply-GateSound op gate h)

  apply-policy :
      (op : Operation) (gate : TaskIntakeGate)
      → (apply sha256 parse_date to_iso_string op gate).policy ≡ gate.policy
  unfolding apply submit admit_valid admit decide expire_pending drain_events if_some
  apply-policy (submit_task now event_now input) gate = ground arith
  apply-policy (decide_task now event_now decision) gate = ground arith
  apply-policy (expire_due now event_now) gate = refl
  apply-policy drain gate = refl

  apply_all-policy :
      (ops : List Operation) (gate : TaskIntakeGate)
      → (apply_all sha256 parse_date to_iso_string ops gate).policy ≡ gate.policy
  unfolding apply_all
  apply_all-policy [] gate = refl
  apply_all-policy (op ∷ ops) gate =
      cc
        (apply_all-policy ops (apply sha256 parse_date to_iso_string op gate), apply-policy op gate)

  -- The record of a task that an owner has approved in time.
  pub record IsApproved (id : String) (gate : TaskIntakeGate) : Type 0 where
    pub task : TaskIntakeRecord
    pub found : get id gate.records ≡ some task
    pub is_approved : task.state ≡ approved
    pub decided_at : ℕ
    pub decided : task.decided_at ≡ some decided_at
    pub in_time : decided_at < task.expires_at

  launches-IsTimed :
      (s : TaskIntakeState) (required : Bool) (d : Option ℕ) (e : ℕ)
      → IsTimed s required d e
      → required ≡ true
      → launches s ≡ true
      → (s ≡ approved) × ((at : ℕ) × (d ≡ some at) × (at < e))
  unfolding launches
  launches-IsTimed pending required d e t r l = cc l
  launches-IsTimed approved required d e t r l = (refl, t)
  launches-IsTimed declined required d e t r l = cc l
  launches-IsTimed timed_out required d e t r l = cc l
  launches-IsTimed auto_accepted required d e t r l = cc (t, r)

  launched-IsApproved :
      (id : String) (gate : TaskIntakeGate)
      → GateSound gate
      → gate.policy.require_owner_approval ≡ true
      → can_launch id gate ≡ true
      → IsApproved id gate
  unfolding can_launch if_some
  launched-IsApproved id gate h required launch = elim (Option-cases (get id gate.records)) [
    | inl absent ↦ cc (absent, launch)
    | inr (x, there) ↦
        let (is_approved, (at, decided, in_time)) =
          launches-IsTimed x.state gate.policy.require_owner_approval x.decided_at x.expires_at
            (h id x there).timed required (cc (there, launch)) in
        record {
          task = x;
          found = there;
          is_approved = is_approved;
          decided_at = at;
          decided = decided;
          in_time = in_time;
        }
  ]

  -- Under a policy that asks for an owner's approval, a task that may be launched, after any
  -- operations on a new gate, has a record that was approved before it expired.
  pub can_launch-IsApproved :
      (ops : List Operation) (policy : TaskIntakePolicy) (id : String)
      → policy.require_owner_approval ≡ true
      → can_launch id (apply_all sha256 parse_date to_iso_string ops (new_gate policy)) ≡ true
      → IsApproved id (apply_all sha256 parse_date to_iso_string ops (new_gate policy))
  unfolding get
  can_launch-IsApproved ops policy id required =
      launched-IsApproved id (apply_all sha256 parse_date to_iso_string ops (new_gate policy))
        (apply_all-GateSound ops (new_gate policy) (λ j r g. cc g))
        (cc (apply_all-policy ops (new_gate policy), required))
