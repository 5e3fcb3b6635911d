-- ===== src/Runner/Lease/Watched.antt =====
-- What an assertion says of a lease, that the end of a lease is final, and that a live lease has a
-- timer that ends it in time.
use digital_employee.Common.{
  ℕ, ◌+◌, Bool, true, false, ◌&&◌, ◌||◌, not, Option, none, some, List, [], ◌∷◌, leb, ltb, ◌==◌,
  if_some, if_cases, if_some_cases, ◌≡◌, ◌≢◌, ◌↔◌, refl, subst, ap, inl, inr, ◌≤◌, ◌<◌, arith,
}
use digital_employee.Common.Result.{◌>>◌, guard_inv, Result, ok, err}
use digital_employee.Runner.Lease.{
  not_yet_valid, max_clock_skew, LeaseError, clock_invalid, lease_expired, SignedEnvelope,
  LeaseTask, LeaseState, safety_margin, matches_task, same_signed_envelope, is_lease_over, is_over,
  read_clock, expire, close, schedule_at, schedule_expiry, assert_at, assert_active, renew_at,
  renew_checked, finish_renewal, or_expire, fire_at, fire, LeaseOp, asserts, renews, fires, closes,
  apply, apply_all, start_at, create,
}
use digital_employee.Runner.Lease.Spec.{Steps-Extends}
use digital_employee.Runner.Lease.Refines.{read_clock-cases, assert_active-cases, apply_all_refines}

-- The lease has ended: it was closed, or its signal was aborted.
abbrev pub has_ended : LeaseState → Bool
has_ended s = s.closed || s.aborted

-- An assertion succeeds exactly when the lease has not ended and the clock is readable, not behind its
-- last reading, more than the safety margin before the expiry of the lease, and before the expiry of
-- the task.
pub assert_active-ok_iff :
    (r : Option ℕ) (s : LeaseState)
    → ((assert_active r s).0 ≡ ok tt) ↔ (
        (t : ℕ) × (r ≡ some t)
        × (has_ended s ≡ false)
        × (if_some s.previous (λ p. ltb t p) false ≡ false)
        × (t + safety_margin < s.task.lease_expires_at)
        × (t < s.task.identity.expires_at))
unfolding is_over assert_active read_clock assert_at
assert_active-ok_iff r s = (to, from)
  where
    to :
        (assert_active r s).0 ≡ ok tt
        → (t : ℕ) × (r ≡ some t)
          × (has_ended s ≡ false)
          × (if_some s.previous (λ p. ltb t p) false ≡ false)
          × (t + safety_margin < s.task.lease_expires_at)
          × (t < s.task.identity.expires_at)
    to h = elim (assert_active-cases r s) [
      | inl (t, e, alive, p, o, a) ↦ (t, e, alive, p, grind (arith, o), grind (arith, o))
      | inr (e, u, a, steps, why) ↦ cc (h, a)
    ]

    from :
        (t : ℕ) × (r ≡ some t)
          × (has_ended s ≡ false)
          × (if_some s.previous (λ p. ltb t p) false ≡ false)
          × (t + safety_margin < s.task.lease_expires_at)
          × (t < s.task.identity.expires_at)
        → (assert_active r s).0 ≡ ok tt
    from (t, e, alive, p, o, q) =
        let live : is_over t s.task ≡ false = ground (arith, o, q) in
        rw e (rw alive (rw p (rw live refl)))

ended-assert :
    (r : Option ℕ) (s : LeaseState)
    → has_ended s ≡ true
    → assert_active r s ≡ (err lease_expired, s)
unfolding assert_active
ended-assert r s h = rw h refl

expired-ended :
    (r : Option ℕ) (s : LeaseState)
    → (assert_active r s).0 ≡ err lease_expired
    → has_ended (assert_active r s).1 ≡ true
expired-ended r s h = elim (assert_active-cases r s) [
  | inl (t, e, alive, p, o, a) ↦ cc (h, a)
  | inr (e, u, a, steps, inl c) ↦ cc (h, a, c)
  | inr (e, u, a, steps, inr ended) ↦ rw a ended
]

-- Once an assertion has reported the expiry, every later assertion reports it, whatever operations
-- lie between, and no later renewal succeeds: the expiry of the lease stays what it was.
pub expired_final :
    (r : Option ℕ) (s : LeaseState) (ops : List LeaseOp) (next : Option ℕ)
    → (assert_active r s).0 ≡ err lease_expired
    → let u = (assert_active r s).1 in
      ((assert_active next (apply_all ops u)).0 ≡ err lease_expired)
      × ((apply_all ops u).task.lease_expires_at ≡ u.task.lease_expires_at)
expired_final r s ops next h =
    let u = (assert_active r s).1 in
    let e = Steps-Extends (apply_all_refines ops u) in
    let ended = expired-ended r s h in
    (ap (λ x. x.0) (ended-assert next (apply_all ops u) (e.final ended)), e.frozen ended)

-- A live lease has a timer, due no later than the safety margin before its expiry.
pub data IsWatched (s : LeaseState) : Type 0 where
  ended : has_ended s ≡ true → IsWatched s
  watched :
      (due : ℕ) → s.timer ≡ some due → due + safety_margin ≤ s.task.lease_expires_at → IsWatched s

expire-IsWatched : (s : LeaseState) → IsWatched (expire s)
unfolding expire
expire-IsWatched s = ended (ground arith)

-- What is watched unless the clock failed.
abbrev Watches : Result LeaseError (Unit {0}) × LeaseState → Type 0
Watches x = x.0 ≢ err clock_invalid → IsWatched x.1

schedule_at-IsWatched : (t : ℕ) (s : LeaseState) → IsWatched (schedule_at (ok t, s)).1
unfolding schedule_at
schedule_at-IsWatched t s =
    if_cases (λ (x : Result LeaseError (Unit {0}) × LeaseState). IsWatched x.1)
      (is_lease_over t s.task) _ _ (λ k. expire-IsWatched s)
      (λ k. watched _ refl (grind (arith, k)))

schedule_expiry-Watches : (r : Option ℕ) (s : LeaseState) → Watches (schedule_expiry r s)
unfolding schedule_expiry schedule_at
schedule_expiry-Watches r s =
    if_cases Watches (s.closed || s.aborted) _ _ (λ k h. ended k)
      (λ k. elim (read_clock-cases r (record s { timer = none })) [
        | inl c ↦ rw c (λ h. absurd (h refl))
        | inr (t, e, p, c) ↦
            rw c (λ h. schedule_at-IsWatched t (record s { timer = none; previous = some t }))
      ])

later_reading : (t : ℕ) (s : LeaseState) → IsWatched s → IsWatched (record s { previous = some t })
later_reading t s (ended h) = ended h
later_reading t s (watched due e l) = watched due e l

assert_active-Watches : (r : Option ℕ) (s : LeaseState) → IsWatched s → Watches (assert_active r s)
assert_active-Watches r s w = elim (assert_active-cases r s) [
  | inl (t, e, alive, p, o, a) ↦ rw a (λ h. later_reading t s w)
  | inr (e, u, a, steps, inl c) ↦ rw a (λ h. absurd (h (ap (λ x. err x) c)))
  | inr (e, u, a, steps, inr over) ↦ rw a (λ h. ended over)
]

renew_at-Watches :
    (now later : Option ℕ) (envelope : SignedEnvelope) (task : LeaseTask) (s : LeaseState)
    → IsWatched s
    → Watches (renew_at later envelope task (read_clock now s))
unfolding renew_at
renew_at-Watches now later envelope task s w = elim (read_clock-cases now s) [
  | inl c ↦ rw c (λ h. absurd (h refl))
  | inr (t, e, p, c) ↦ rw c (
      if_cases Watches (is_lease_over t task) _ _ (λ k h. later_reading t s w)
        (λ k.
          schedule_expiry-Watches later
            (record s { previous = some t; task = task; envelope = envelope })))
]

finish_renewal-Watches :
    (again now later : Option ℕ) (v : Result LeaseError (SignedEnvelope × LeaseTask))
    (s : LeaseState)
    → IsWatched s
    → Watches (finish_renewal again now later v s)
unfolding finish_renewal renew_checked
finish_renewal-Watches again now later (err e) s w = λ h. w
finish_renewal-Watches again now later (ok (envelope, task)) s w =
    elim (assert_active-cases again s) [
      | inl (t, e, alive, p, o, a) ↦
          let u : LeaseState = record s { previous = some t } in
          let kept : IsWatched u = later_reading t s w in
          rw a (
            if_cases Watches (matches_task task s.task) _ _
              (λ m.
                if_cases Watches
                  (task.lease_expires_at == s.task.lease_expires_at
                    && same_signed_envelope envelope s.envelope)
                  _ _ (λ k h. kept)
                  (λ k.
                    if_cases Watches (leb task.lease_expires_at s.task.lease_expires_at) _ _
                      (λ l h. kept) (λ l. renew_at-Watches now later envelope task u kept)))
              (λ m h. kept))
      | inr (e, u, a, steps, inl c) ↦ rw a (λ h. absurd (h (ap (λ x. err x) c)))
      | inr (e, u, a, steps, inr over) ↦ rw a (λ h. ended over)
    ]

or_expire-IsWatched :
    (x : Result LeaseError (Unit {0}) × LeaseState) → Watches x → IsWatched (or_expire x)
unfolding or_expire
or_expire-IsWatched (ok t, s) w = w (λ e. cc e)
or_expire-IsWatched (err e, s) w = expire-IsWatched s

fired-IsWatched :
    (later : Option ℕ) (s : LeaseState) (r : Result LeaseError ℕ) → IsWatched (fire_at later (r, s))
unfolding fire_at
fired-IsWatched later s (err e) = expire-IsWatched s
fired-IsWatched later s (ok t) =
    if_cases IsWatched (is_lease_over t s.task) _ _ (λ k. expire-IsWatched s)
      (λ k. or_expire-IsWatched (schedule_expiry later s) (schedule_expiry-Watches later s))

fire-IsWatched : (r later : Option ℕ) (s : LeaseState) → IsWatched s → IsWatched (fire r later s)
unfolding fire
fire-IsWatched r later s w =
    if_some_cases IsWatched s.timer _ s
      (λ due e. let x = read_clock r (record s { timer = none }) in fired-IsWatched later x.1 x.0)
      (λ e. w)

close-IsWatched : (s : LeaseState) → IsWatched (close s)
unfolding close
close-IsWatched s = ended refl

-- An operation that does not report a failing clock keeps a watched lease watched.
apply-IsWatched :
    (op : LeaseOp) (s : LeaseState)
    → IsWatched s
    → (apply op s).0 ≢ err clock_invalid
    → IsWatched (apply op s).1
unfolding apply
apply-IsWatched (asserts r) s w h = assert_active-Watches r s w h
apply-IsWatched (renews again now later v) s w h = finish_renewal-Watches again now later v s w h
apply-IsWatched (fires r later) s w h = fire-IsWatched r later s w
apply-IsWatched closes s w h = close-IsWatched s

started-IsWatched :
    (x : Result LeaseError (Unit {0}) × LeaseState) (s : LeaseState)
    → Watches x
    → (x.0 >> ok x.1) ≡ ok s
    → IsWatched s
started-IsWatched (ok t, u) s w h = subst IsWatched {x = u} {y = s} (cc h) (w (λ e. cc e))
started-IsWatched (err e, u) s w h = cc h

start_at-IsWatched :
    (later : Option ℕ) (x : Result LeaseError ℕ × LeaseState) (s : LeaseState)
    → start_at later x ≡ ok s
    → IsWatched s
unfolding start_at
start_at-IsWatched later (err e, u) s h = cc h
start_at-IsWatched later (ok t, u) s h =
    let (issued, h1) =
      guard_inv (leb u.task.identity.issued_at (t + max_clock_skew)) not_yet_valid _ h in
    let (live, h2) = guard_inv (not (is_over t u.task)) lease_expired _ h1 in
    started-IsWatched (schedule_expiry later u) s (schedule_expiry-Watches later u) h2

create-IsWatched :
    (r later : Option ℕ) (v : Result LeaseError (SignedEnvelope × LeaseTask)) (s : LeaseState)
    → create r later v ≡ ok s
    → IsWatched s
unfolding create
create-IsWatched r later (err e) s h = cc h
create-IsWatched r later (ok (envelope, task)) s h = start_at-IsWatched later _ s h

-- No operation of the sequence reports a failing clock.
abbrev pub ClockHolds : List LeaseOp → LeaseState → Type 0
ClockHolds [] s = Unit
ClockHolds (op ∷ ops) s = ((apply op s).0 ≢ err clock_invalid) × ClockHolds ops (apply op s).1

steps-IsWatched :
    (ops : List LeaseOp) (s : LeaseState)
    → IsWatched s
    → ClockHolds ops s
    → IsWatched (apply_all ops s)
unfolding apply_all
steps-IsWatched [] s w h = w
steps-IsWatched (op ∷ ops) s w h =
    steps-IsWatched ops (apply op s).1 (apply-IsWatched op s w h.0) h.1

-- A lease that was created, after any operations of which none reports a failing clock, has ended or
-- has a timer that is due no later than the safety margin before its expiry.
pub apply_all-IsWatched :
    (r later : Option ℕ) (v : Result LeaseError (SignedEnvelope × LeaseTask)) (s : LeaseState)
    (ops : List LeaseOp)
    → create r later v ≡ ok s
    → ClockHolds ops s
    → IsWatched (apply_all ops s)
apply_all-IsWatched r later v s ops c h = steps-IsWatched ops s (create-IsWatched r later v s c) h
