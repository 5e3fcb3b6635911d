-- ===== src/Examples/Leases.antt =====
-- A lease at concrete readings of the clock.
use digital_employee.Runner.Lease.{start_at, assert_at}
use digital_employee.Runner.Lease.{is_over}
use digital_employee.Runner.Lease.{matches_task}
use digital_employee.Runner.Lease.{read_clock}
use digital_employee.Runner.Lease.{renew_at}
use digital_employee.Runner.Lease.{renew_checked}
use digital_employee.Runner.Lease.{schedule_at}
use digital_employee.Runner.Lease.{schedule_expiry}
use digital_employee.Common.{ℕ, false, none, some, [], ◌∷◌, ◌≡◌, ◌↔◌, refl, ◌+◌, ◌<◌, ltb, if_some}
use digital_employee.Common.Result.{ok, err}
use digital_employee.Runner.Lease.{
  LeaseTask, LeaseIdentity, SignedEnvelope, LeaseState, assert_active, finish_renewal, apply_all,
  apply, safety_margin, lease_expired, clock_invalid, renews, asserts, closes, fires, create,
}
use digital_employee.Runner.Lease.Spec.{Steps, view}
use digital_employee.Runner.Lease.Refines.{apply_all_refines}
use digital_employee.Runner.Lease.Watched.{
  IsWatched, has_ended, assert_active-ok_iff, expired_final, apply_all-IsWatched,
}

abbrev identity : LeaseIdentity
identity = record { issued_at = 0; expires_at = 100_000; others = "{}" }

abbrev grant : LeaseTask
grant = record { identity = identity; lease_expires_at = 20_000 }

abbrev renewal : LeaseTask
renewal = record { identity = identity; lease_expires_at = 40_000 }

abbrev signed : SignedEnvelope
signed = record {
  protocol_version = "runner.v1";
  key_id = "k";
  algorithm = "Ed25519";
  payload = "p";
  signature = "s";
}

abbrev lease : LeaseState
lease = record {
  task = grant;
  envelope = signed;
  previous = some 1_000;
  timer = some 15_000;
  closed = false;
  aborted = false;
}

apply_all_refines_example : Steps (view lease) (
    view (
      apply_all
        (asserts (some 2_000)
          ∷ renews (some 2_100) (some 2_200) (some 2_300) (ok (signed, renewal))
          ∷ fires (some 15_000) (some 15_000)
          ∷ closes
          ∷ [])
        lease))
apply_all_refines_example = apply_all_refines _ lease

assert_active-ok_iff_example : ((assert_active (some 2_000) lease).0 ≡ ok tt) ↔ (
    (t : ℕ) × (some 2_000 ≡ some t)
    × (has_ended lease ≡ false)
    × (if_some lease.previous (λ p. ltb t p) false ≡ false)
    × (t + safety_margin < lease.task.lease_expires_at)
    × (t < lease.task.identity.expires_at))
assert_active-ok_iff_example = assert_active-ok_iff (some 2_000) lease

-- The margin before the expiry has begun.
late_assertion : (assert_active (some 15_000) lease).0 ≡ err lease_expired
unfolding assert_active assert_at read_clock if_some is_over
late_assertion = refl

expired_final_example :
    let u = (assert_active (some 15_000) lease).1 in
    let ops = renews (some 15_001) (some 15_001) (some 15_001) (ok (signed, renewal)) ∷ [] in
    ((assert_active (some 15_002) (apply_all ops u)).0 ≡ err lease_expired)
    × ((apply_all ops u).task.lease_expires_at ≡ u.task.lease_expires_at)
expired_final_example = expired_final (some 15_000) lease _ (some 15_002) late_assertion

-- The renewal of a live lease.
renewal_accepted :
    (apply (renews (some 2_100) (some 2_200) (some 2_300) (ok (signed, renewal))) lease).0 ≡ ok tt
unfolding apply finish_renewal renew_checked assert_active assert_at read_clock if_some is_over
    matches_task renew_at schedule_expiry schedule_at
renewal_accepted = refl

apply_all-IsWatched_example :
    IsWatched
      (apply_all (renews (some 2_100) (some 2_200) (some 2_300) (ok (signed, renewal)) ∷ []) lease)
unfolding create start_at read_clock is_over schedule_expiry schedule_at if_some
apply_all-IsWatched_example =
    apply_all-IsWatched (some 1_000) (some 1_000) (ok (signed, grant)) lease
      (renews (some 2_100) (some 2_200) (some 2_300) (ok (signed, renewal)) ∷ []) refl
      (λ e. cc (e, renewal_accepted), tt)

-- A clock that fails after a renewal was taken over: the caller sees the error, the expiry is the new
-- one, and no timer is pending.
renewal_unwatched :
    let (result, s) = apply (renews (some 2_100) (some 2_200) none (ok (signed, renewal))) lease in
    (result ≡ err clock_invalid)
    × (s.task.lease_expires_at ≡ 40_000)
    × (s.timer ≡ none)
    × (has_ended s ≡ false)
unfolding apply finish_renewal renew_checked assert_active assert_at read_clock if_some is_over
    matches_task renew_at schedule_expiry schedule_at
renewal_unwatched = (refl, refl, refl, refl)
