-- ===== src/Runner/Intake.antt =====
-- packages/core/src/task-intake-approval.ts: the policy, the request and TaskIntakeGate. Times are
-- milliseconds; the hash, the parsing of a date and its printing are the runtime's, and parameters.
-- A printed `expiresAt` is kept as the time that it is read back as.
pub mod Final
pub mod Deadlines
use digital_employee.Common.{
  ℕ, ◌+◌, String, Bool, true, false, ◌&&◌, not, Option, none, some, List, [], ◌∷◌, ◌++◌, ltb, leb,
  if◌then◌else◌, if_some, or_else, suc,
}
use digital_employee.Common.Dict.{Dict, get, set, has}
use digital_employee.Common.Result.{Result, ok, err, ◌>>=◌}
use digital_employee.Common.Text.{is_empty, join}
use digital_employee.Common.Value.{Value, member}

pub data IntakeError : Type 0 where
  policy_invalid request_invalid not_found already_decided intake_expired : IntakeError
  invalid_time : IntakeError

pub data TaskIntakeState : Type 0 where
  pending approved declined timed_out auto_accepted : TaskIntakeState

pub record TaskIntakePolicy : Type 0 where
  pub require_owner_approval : Bool
  pub timeout_ms : Option ℕ

pub record TaskIntakeRequest : Type 0 where
  pub task_id : String
  pub lease_id : String
  pub lease_expires_at : String
  pub employee_id : String
  pub runner_id : String
  pub requested_at : String

pub record TaskIntakeRecord : Type 0 where
  pub request : TaskIntakeRequest
  pub state : TaskIntakeState
  pub decided_at : Option ℕ
  pub decided_by : Option String
  pub reason : Option String
  pub expires_at : ℕ
  pub digest : String

pub record TaskIntakeDecision : Type 0 where
  pub task_id : String
  pub approved : Bool
  pub decided_by : String
  pub reason : Option String

pub record TaskIntakeEvent : Type 0 where
  pub task_id : String
  pub lease_id : String
  pub previous_state : Option TaskIntakeState
  pub new_state : TaskIntakeState
  pub timestamp : ℕ
  pub digest : String

pub record TaskIntakeGate : Type 0 where
  pub records : Dict TaskIntakeRecord
  pub events : List TaskIntakeEvent
  pub policy : TaskIntakePolicy

-- The constructor.
abbrev pub new_gate : TaskIntakePolicy → TaskIntakeGate
new_gate policy = record { records = []; events = []; policy = policy }

abbrev pub default_timeout_ms : ℕ
default_timeout_ms = 300_000

unfoldable pub state_text : TaskIntakeState → String
state_text pending = "pending"
state_text approved = "approved"
state_text declined = "declined"
state_text timed_out = "expired"
state_text auto_accepted = "auto_accepted"

abbrev pub is_pending : TaskIntakeState → Bool
is_pending pending = true
is_pending _ = false

-- A timeout lies between ten seconds and an hour.
unfoldable pub timeout_of : Value → Result IntakeError (Option ℕ)
timeout_of Value.undefined = ok none
timeout_of (Value.num n) =
    if leb 10_000 n && leb n 3_600_000 then ok (some n) else err policy_invalid
timeout_of _ = err policy_invalid

unfoldable pub required_of : Value → Result IntakeError Bool
required_of (Value.bool b) = ok b
required_of _ = err policy_invalid

unfoldable pub validate_task_intake_policy : Value → Result IntakeError TaskIntakePolicy
validate_task_intake_policy (Value.obj fields) = do
  required ← required_of (member "requireOwnerApproval" fields)
  timeout ← timeout_of (member "timeoutMs" fields)
  ok (record { require_owner_approval = required; timeout_ms = timeout })
validate_task_intake_policy _ = err policy_invalid

unfoldable pub nonempty : Value → Result IntakeError String
nonempty (Value.str s) = if is_empty s then err request_invalid else ok s
nonempty _ = err request_invalid

unfoldable pub validate_task_intake_request : Value → Result IntakeError TaskIntakeRequest
validate_task_intake_request (Value.obj fields) = do
  task_id ← nonempty (member "taskId" fields)
  lease_id ← nonempty (member "leaseId" fields)
  lease_expires_at ← nonempty (member "leaseExpiresAt" fields)
  employee_id ← nonempty (member "employeeId" fields)
  runner_id ← nonempty (member "runnerId" fields)
  requested_at ← nonempty (member "requestedAt" fields)
  ok (record {
    task_id = task_id;
    lease_id = lease_id;
    lease_expires_at = lease_expires_at;
    employee_id = employee_id;
    runner_id = runner_id;
    requested_at = requested_at;
  })
validate_task_intake_request _ = err request_invalid

-- `policyExpiry < leaseExpiry ? policyExpiry : leaseExpiry`
abbrev pub earlier : ℕ → ℕ → ℕ
earlier policy lease = if ltb policy lease then policy else lease

abbrev pub initial_state : TaskIntakePolicy → TaskIntakeState
initial_state policy = if policy.require_owner_approval then pending else auto_accepted

abbrev pub verdict : Bool → TaskIntakeState
verdict accepted = if accepted then approved else declined

unfoldable pub launches : TaskIntakeState → Bool
launches approved = true
launches auto_accepted = true
launches _ = false

unfoldable pub can_launch : String → TaskIntakeGate → Bool
can_launch task_id gate = if_some (get task_id gate.records) (λ r. launches r.state) false

unfoldable pub pending_count : Dict TaskIntakeRecord → ℕ
pending_count [] = 0
pending_count ((k, r) ∷ rs) =
    let rest = pending_count rs in if is_pending r.state then suc rest else rest

unfoldable pub drain_events : TaskIntakeGate → TaskIntakeGate × List TaskIntakeEvent
drain_events gate = (record gate { events = [] }, gate.events)

pub record Expiry : Type 0 where
  pub records : Dict TaskIntakeRecord
  pub events : List TaskIntakeEvent
  pub expired : List String

module _ (sha256 : String → String) (parse_date : String → Option ℕ)
    (to_iso_string : ℕ → String) where
  unfoldable pub compute_task_intake_digest : TaskIntakeRequest → TaskIntakeState → String
  compute_task_intake_digest request state =
      sha256 (
        join "|"
          (request.task_id ∷ request.lease_id ∷ state_text state ∷ request.requested_at ∷ []))

  unfoldable pub event_of :
      TaskIntakeRequest → Option TaskIntakeState → TaskIntakeState → ℕ → TaskIntakeEvent
  event_of request previous state now = record {
    task_id = request.task_id;
    lease_id = request.lease_id;
    previous_state = previous;
    new_state = state;
    timestamp = now;
    digest = sha256 (
        join "|" (
          "task-intake-approval.v1"
          ∷ request.task_id
          ∷ request.lease_id
          ∷ if_some previous state_text "null"
          ∷ state_text state
          ∷ to_iso_string now
          ∷ []));
  }

  unfoldable pub initial_record : TaskIntakePolicy → TaskIntakeRequest → ℕ → ℕ → TaskIntakeRecord
  initial_record policy request now lease_expiry = record {
    request = request;
    state = initial_state policy;
    decided_at = if policy.require_owner_approval then none else some now;
    decided_by = if policy.require_owner_approval then none else some "policy:auto_accept";
    reason = none;
    expires_at = earlier (now + or_else policy.timeout_ms default_timeout_ms) lease_expiry;
    digest = compute_task_intake_digest request (initial_state policy);
  }

  -- A lease that expires at no time makes `toISOString` throw, before anything is stored.
  unfoldable pub admit :
      ℕ
      → ℕ
      → TaskIntakeRequest
      → TaskIntakeGate
      → TaskIntakeGate × Result IntakeError TaskIntakeRecord
  admit now event_now request gate =
      if has request.task_id gate.records
      then (gate, err already_decided)
      else if_some (parse_date request.lease_expires_at)
          (λ lease_expiry.
            let r = initial_record gate.policy request now lease_expiry in
            (
              record gate {
                records = set request.task_id r gate.records;
                events = gate.events ++ event_of request none r.state event_now ∷ [];
              },
              ok r,
            ))
          (gate, err invalid_time)

  unfoldable pub admit_valid :
      ℕ
      → ℕ
      → Result IntakeError TaskIntakeRequest
      → TaskIntakeGate
      → TaskIntakeGate × Result IntakeError TaskIntakeRecord
  admit_valid now event_now (err e) gate = (gate, err e)
  admit_valid now event_now (ok request) gate = admit now event_now request gate

  unfoldable pub submit :
      ℕ → ℕ → Value → TaskIntakeGate → TaskIntakeGate × Result IntakeError TaskIntakeRecord
  submit now event_now input gate =
      admit_valid now event_now (validate_task_intake_request input) gate

  unfoldable pub expire : ℕ → TaskIntakeRecord → TaskIntakeRecord
  expire now r = record r {
    state = timed_out;
    decided_at = some now;
    decided_by = some "system:timeout";
    digest = compute_task_intake_digest r.request timed_out;
  }

  unfoldable pub settle_decision : TaskIntakeDecision → ℕ → TaskIntakeRecord → TaskIntakeRecord
  settle_decision decision now r = record r {
    state = verdict decision.approved;
    decided_at = some now;
    decided_by = some decision.decided_by;
    reason = decision.reason;
    digest = compute_task_intake_digest r.request (verdict decision.approved);
  }

  abbrev pub store :
      String → TaskIntakeRecord → Option TaskIntakeState → ℕ → TaskIntakeGate → TaskIntakeGate
  store task_id r previous event_now gate = record gate {
    records = set task_id r gate.records;
    events = gate.events ++ event_of r.request previous r.state event_now ∷ [];
  }

  unfoldable pub decide :
      ℕ
      → ℕ
      → TaskIntakeDecision
      → TaskIntakeGate
      → TaskIntakeGate × Result IntakeError TaskIntakeRecord
  decide now event_now decision gate =
      if is_empty decision.task_id
      then (gate, err request_invalid)
      else if_some (get decision.task_id gate.records)
          (λ r.
            if not (is_pending r.state)
            then (gate, err already_decided)
            else if leb r.expires_at now
            then (
              store decision.task_id (expire now r) (some r.state) event_now gate,
              err intake_expired,
            )
            else (
              store decision.task_id (settle_decision decision now r) (some r.state) event_now gate,
              ok (settle_decision decision now r),
            ))
          (gate, err not_found)

  -- The loop over the records; `event_now` is the clock read of an event.
  unfoldable pub expire_each : ℕ → (String → ℕ) → Dict TaskIntakeRecord → Expiry
  expire_each now event_now [] = record { records = []; events = []; expired = [] }
  expire_each now event_now ((k, r) ∷ rs) =
      let rest = expire_each now event_now rs in
      if is_pending r.state && leb r.expires_at now
      then record {
        records = (k, expire now r) ∷ rest.records;
        events = event_of r.request (some r.state) timed_out (event_now k) ∷ rest.events;
        expired = r.request.task_id ∷ rest.expired;
      }
      else record { records = (k, r) ∷ rest.records; events = rest.events; expired = rest.expired }

  unfoldable pub expire_pending : ℕ → (String → ℕ) → TaskIntakeGate → TaskIntakeGate × List String
  expire_pending now event_now gate =
      let e = expire_each now event_now gate.records in
      (record gate { records = e.records; events = gate.events ++ e.events }, e.expired)
