-- ===== src/Runner/Lease.antt =====
-- packages/core/src/runner-lease.ts: the state of a verified lease. Times are milliseconds since 1970,
-- and a test `a >= b - margin` is written `b <= a + margin`. A reading of the clock is an input, `none`
-- where it is no valid date. A task is what remains of it after verification: its expiry, and an
-- identity of its other fields in canonical form. The options object of `create` is not inspected.
pub mod Spec
pub mod Refines
pub mod Watched
use digital_employee.Common.{
  [], ◌∷◌, not, List, ℕ, ◌+◌, ◌-◌, min, String, Bool, true, false, ◌&&◌, ◌||◌, Option, none, some,
  leb, ltb, ◌==◌, str_eq, if◌then◌else◌, if_some,
}
use digital_employee.Common.Result.{Result, ok, err, guard, ◌>>=◌, ◌>>◌}
use digital_employee.Common.Value.{Value}

-- RunnerLeaseErrorCode, and whatever the verification of a task throws.
pub data LeaseError : Type 0 where
  clock_invalid key_unavailable identity_mismatch : LeaseError
  not_yet_valid lease_expired not_extended unverified : LeaseError

pub record SignedEnvelope : Type 0 where
  pub protocol_version : String
  pub key_id : String
  pub algorithm : String
  pub payload : String
  pub signature : String

-- What a renewal may not change.
pub record LeaseIdentity : Type 0 where
  pub issued_at : ℕ
  pub expires_at : ℕ
  pub others : String

pub record LeaseTask : Type 0 where
  pub identity : LeaseIdentity
  pub lease_expires_at : ℕ

-- `timer` is the time at which the pending timeout is due. `aborted` is the signal of the controller.
pub record LeaseState : Type 0 where
  pub task : LeaseTask
  pub envelope : SignedEnvelope
  pub previous : Option ℕ
  pub timer : Option ℕ
  pub closed : Bool
  pub aborted : Bool

abbrev pub max_timer_delay : ℕ
max_timer_delay = 2_147_483_647

abbrev pub safety_margin : ℕ
safety_margin = 5_000

abbrev pub max_clock_skew : ℕ
max_clock_skew = 30_000

unfoldable pub same_signed_envelope : SignedEnvelope → SignedEnvelope → Bool
same_signed_envelope a b =
    str_eq a.protocol_version b.protocol_version
    && (str_eq a.key_id b.key_id
        && (str_eq a.algorithm b.algorithm
            && (str_eq a.payload b.payload && str_eq a.signature b.signature)))

-- The canonical forms without the expiry of the lease are equal.
unfoldable pub matches_task : LeaseTask → LeaseTask → Bool
matches_task a b =
    a.identity.issued_at == b.identity.issued_at
    && (a.identity.expires_at == b.identity.expires_at
        && str_eq a.identity.others b.identity.others)

-- The lease is over but for the safety margin.
abbrev pub is_lease_over : ℕ → LeaseTask → Bool
is_lease_over current task = leb task.lease_expires_at (current + safety_margin)

unfoldable pub is_over : ℕ → LeaseTask → Bool
is_over current task = is_lease_over current task || leb task.identity.expires_at current

-- The captured clock: it never goes back.
unfoldable pub read_clock : Option ℕ → LeaseState → Result LeaseError ℕ × LeaseState
read_clock none s = (err clock_invalid, s)
read_clock (some t) s =
    if if_some s.previous (λ p. ltb t p) false
    then (err clock_invalid, s)
    else (ok t, record s { previous = some t })

unfoldable pub expire : LeaseState → LeaseState
expire s = record s { aborted = true; timer = none }

unfoldable pub close : LeaseState → LeaseState
close s = record s { closed = true; aborted = true; timer = none }

unfoldable pub schedule_at :
    Result LeaseError ℕ × LeaseState → Result LeaseError (Unit {0}) × LeaseState
schedule_at (err e, s) = (err e, s)
schedule_at (ok current, s) = if is_lease_over current s.task then (ok tt, expire s) else (
  ok tt,
  record s {
    timer =
        some (current + min (s.task.lease_expires_at - (current + safety_margin)) max_timer_delay);
  },
)

-- The old timeout is cleared before the clock is read.
unfoldable pub schedule_expiry : Option ℕ → LeaseState → Result LeaseError (Unit {0}) × LeaseState
schedule_expiry reading s =
    if s.closed || s.aborted
    then (ok tt, s)
    else schedule_at (read_clock reading (record s { timer = none }))

unfoldable pub assert_at :
    Result LeaseError ℕ × LeaseState → Result LeaseError (Unit {0}) × LeaseState
assert_at (err e, s) = (err e, s)
assert_at (ok current, s) =
    if is_over current s.task then (err lease_expired, expire s) else (ok tt, s)

unfoldable pub assert_active : Option ℕ → LeaseState → Result LeaseError (Unit {0}) × LeaseState
assert_active reading s =
    if s.closed || s.aborted then (err lease_expired, s) else assert_at (read_clock reading s)

-- The state takes the renewed task over, and its timer is set.
unfoldable pub renew_at :
    Option ℕ
    → SignedEnvelope
    → LeaseTask
    → Result LeaseError ℕ × LeaseState
    → Result LeaseError (Unit {0}) × LeaseState
renew_at reading envelope task (err e, s) = (err e, s)
renew_at reading envelope task (ok current, s) =
    if is_lease_over current task
    then (err lease_expired, s)
    else schedule_expiry reading (record s { task = task; envelope = envelope })

-- The decision on a verified renewal, after the second check that the lease is active.
unfoldable pub renew_checked :
    Option ℕ
    → Option ℕ
    → SignedEnvelope
    → LeaseTask
    → Result LeaseError (Unit {0}) × LeaseState
    → Result LeaseError (Unit {0}) × LeaseState
renew_checked now later envelope task (err e, s) = (err e, s)
renew_checked now later envelope task (ok t, s) =
    if matches_task task s.task
    then if task.lease_expires_at == s.task.lease_expires_at
        && same_signed_envelope envelope s.envelope
      then (ok tt, s)
      else if leb task.lease_expires_at s.task.lease_expires_at
      then (err not_extended, s)
      else renew_at later envelope task (read_clock now s)
    else (err identity_mismatch, s)

-- acceptRenewal up to the verification is `assert_active`; this is the rest, with what the
-- verification returned or threw.
unfoldable pub finish_renewal :
    Option ℕ
    → Option ℕ
    → Option ℕ
    → Result LeaseError (SignedEnvelope × LeaseTask)
    → LeaseState
    → Result LeaseError (Unit {0}) × LeaseState
finish_renewal again now later (err e) s = (err e, s)
finish_renewal again now later (ok (envelope, task)) s =
    renew_checked now later envelope task (assert_active again s)

unfoldable pub or_expire : Result LeaseError (Unit {0}) × LeaseState → LeaseState
or_expire (ok t, s) = s
or_expire (err e, s) = expire s

unfoldable pub fire_at : Option ℕ → Result LeaseError ℕ × LeaseState → LeaseState
fire_at reading (err e, s) = expire s
fire_at reading (ok current, s) =
    if is_lease_over current s.task then expire s else or_expire (schedule_expiry reading s)

-- The callback of the timeout, which any error ends in an expiry.
unfoldable pub fire : Option ℕ → Option ℕ → LeaseState → LeaseState
fire reading later s =
    if_some s.timer (λ due. fire_at later (read_clock reading (record s { timer = none }))) s

-- The checks of create at the first reading of the clock, and the constructor.
unfoldable pub start_at : Option ℕ → Result LeaseError ℕ × LeaseState → Result LeaseError LeaseState
start_at reading (err e, s) = err e
start_at reading (ok current, s) = do
  guard (leb s.task.identity.issued_at (current + max_clock_skew)) not_yet_valid
  guard (not (is_over current s.task)) lease_expired
  let (scheduled, started) = schedule_expiry reading s in scheduled >> ok started

unfoldable pub create :
    Option ℕ
    → Option ℕ
    → Result LeaseError (SignedEnvelope × LeaseTask)
    → Result LeaseError LeaseState
create reading later (err e) = err e
create reading later (ok (envelope, task)) = start_at later (
    read_clock reading (record {
      task = task;
      envelope = envelope;
      previous = none;
      timer = none;
      closed = false;
      aborted = false;
    }))

-- The verification: of the envelope's shape, of its key, and of the task it signs.
module _ {K : Type 0} (validate_envelope : Value → Option SignedEnvelope)
    (resolve_key : String → Option K) (verify_task : SignedEnvelope → K → Option LeaseTask) where
  unfoldable pub verified_task : Value → Result LeaseError (SignedEnvelope × LeaseTask)
  verified_task value =
      if_some (validate_envelope value)
        (λ (envelope : SignedEnvelope).
          if_some (resolve_key envelope.key_id)
            (λ key.
              if_some (verify_task envelope key) (λ task. ok (envelope, task)) (err unverified))
            (err key_unavailable))
        (err unverified)

  -- acceptRenewal with nothing between its parts.
  unfoldable pub accept_renewal :
      Option ℕ
      → Option ℕ
      → Option ℕ
      → Option ℕ
      → Value
      → LeaseState
      → Result LeaseError (Unit {0}) × LeaseState
  accept_renewal reading again now later value s =
      let (active, checked) = assert_active reading s in
      elim active [
        | ok t ↦ finish_renewal again now later (verified_task value) checked
        | err e ↦ (err e, checked)
      ]

-- The operations, in the order in which they take effect: a renewal is an assertion and, after its
-- verification, a decision; any others may lie between.
pub data LeaseOp : Type 0 where
  asserts : Option ℕ → LeaseOp
  renews : Option ℕ → Option ℕ → Option ℕ → Result LeaseError (SignedEnvelope × LeaseTask) → LeaseOp
  fires : Option ℕ → Option ℕ → LeaseOp
  closes : LeaseOp

unfoldable pub apply : LeaseOp → LeaseState → Result LeaseError (Unit {0}) × LeaseState
apply (asserts reading) s = assert_active reading s
apply (renews again now later verified) s = finish_renewal again now later verified s
apply (fires reading later) s = (ok tt, fire reading later s)
apply closes s = (ok tt, close s)

unfoldable pub apply_all : List LeaseOp → LeaseState → LeaseState
apply_all [] s = s
apply_all (op ∷ ops) s = apply_all ops (apply op s).1
