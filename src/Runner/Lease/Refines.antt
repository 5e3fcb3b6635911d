-- ===== src/Runner/Lease/Refines.antt =====
-- The operations of a lease implement the promise.
use digital_employee.Common.{
  ℕ, true, false, ◌&&◌, ◌||◌, Option, none, some, List, [], ◌∷◌, leb, ltb, ◌==◌, str_eq, if_some,
  if_cases, if_some_cases, Bool-cases, ◌≡◌, refl, sym, subst, ◌⊎◌, inl, inr, ◌<◌, arith, eq_iff,
}
use digital_employee.Common.Result.{Result, ok, err}
use digital_employee.Runner.Lease.{
  LeaseError, clock_invalid, lease_expired, SignedEnvelope, LeaseTask, LeaseState, matches_task,
  same_signed_envelope, is_lease_over, is_over, read_clock, expire, close, schedule_at,
  schedule_expiry, assert_at, assert_active, renew_at, renew_checked, finish_renewal, or_expire,
  fire_at, fire, LeaseOp, asserts, renews, fires, closes, apply, apply_all,
}
use digital_employee.Runner.Lease.Spec.{Grant, extends, ends, Steps, stays, more, Steps-trans, view}

pub read_clock-cases :
    (r : Option ℕ) (s : LeaseState)
    → (read_clock r s ≡ (err clock_invalid, s))
      ⊎ ((t : ℕ) × (r ≡ some t)
          × (if_some s.previous (λ p. ltb t p) false ≡ false)
          × (read_clock r s ≡ (ok t, record s { previous = some t })))
unfolding read_clock
read_clock-cases none s = inl refl
read_clock-cases (some t) s = elim (Bool-cases (if_some s.previous (λ p. ltb t p) false)) [
  | inl k ↦ inl (rw k refl)
  | inr k ↦ inr (t, refl, k, rw k refl)
]

same : {g h : Grant} → g ≡ h → Steps g h
same {g} e = subst (λ h. Steps g h) e stays

expire-Steps : (s : LeaseState) → Steps (view s) (view (expire s))
unfolding expire
expire-Steps s =
    subst
      (λ b.
        Steps (view s)
          (record { identity = s.task.identity; until = s.task.lease_expires_at; over = b }))
      {x = true} {y = s.closed || true} (ground arith) (more stays (ends (view s)))

ended-expire : (s : LeaseState) → ((expire s).closed || (expire s).aborted) ≡ true
unfolding expire
ended-expire s = ground arith

-- What an operation returns with a state that it may leave.
abbrev Leads : LeaseState → Result LeaseError (Unit {0}) × LeaseState → Type 0
Leads s x = Steps (view s) (view x.1)

schedule_at-Steps :
    (r : Result LeaseError ℕ) (s : LeaseState) → Steps (view s) (view (schedule_at (r, s)).1)
unfolding schedule_at
schedule_at-Steps (err e) s = stays
schedule_at-Steps (ok t) s =
    if_cases (Leads s) (is_lease_over t s.task) _ _ (λ k. expire-Steps s) (λ k. stays)

schedule_read :
    (s : LeaseState) (x : Result LeaseError ℕ × LeaseState)
    → view x.1 ≡ view s
    → Steps (view s) (view (schedule_at x).1)
schedule_read s (r, u) e = Steps-trans (same (sym e)) (schedule_at-Steps r u)

read_clock-view : (r : Option ℕ) (s : LeaseState) → view (read_clock r s).1 ≡ view s
read_clock-view r s = elim (read_clock-cases r s) [
  | inl k ↦ rw k refl
  | inr (t, e, p, k) ↦ rw k refl
]

schedule_expiry-Steps :
    (r : Option ℕ) (s : LeaseState) → Steps (view s) (view (schedule_expiry r s).1)
unfolding schedule_expiry
schedule_expiry-Steps r s =
    if_cases (Leads s) (s.closed || s.aborted) _ _ (λ k. stays)
      (λ k.
        schedule_read s (read_clock r (record s { timer = none }))
          (read_clock-view r (record s { timer = none })))

-- An assertion succeeds on a live lease that is not over at the time read, and changes no more than
-- the last reading.
pub assert_active-cases :
    (r : Option ℕ) (s : LeaseState)
    → ((t : ℕ) × (r ≡ some t)
        × ((s.closed || s.aborted) ≡ false)
        × (if_some s.previous (λ p. ltb t p) false ≡ false)
        × (is_over t s.task ≡ false)
        × (assert_active r s ≡ (ok tt, record s { previous = some t })))
      ⊎ ((e : LeaseError) × (u : LeaseState) × (assert_active r s ≡ (err e, u))
          × Steps (view s) (view u)
          × ((e ≡ clock_invalid) ⊎ ((u.closed || u.aborted) ≡ true)))
unfolding assert_active assert_at
assert_active-cases r s = elim (Bool-cases (s.closed || s.aborted)) [
  | inl k ↦ inr (lease_expired, s, rw k refl, stays, inr k)
  | inr k ↦ elim (read_clock-cases r s) [
    | inl c ↦ inr (clock_invalid, s, rw k (rw c refl), stays, inl refl)
    | inr (t, e, p, c) ↦ elim (Bool-cases (is_over t s.task)) [
      | inl o ↦ inr (
        lease_expired,
        expire (record s { previous = some t }),
        rw k (rw c (rw o refl)),
        expire-Steps (record s { previous = some t }),
        inr (ended-expire (record s { previous = some t })),
      )
      | inr o ↦ inl (t, e, k, p, o, rw k (rw c (rw o refl)))
    ]
  ]
]

matches_task-identity : (a b : LeaseTask) → matches_task a b ≡ true → a.identity ≡ b.identity
unfolding matches_task
matches_task-identity a b h =
    let issued : a.identity.issued_at ≡ b.identity.issued_at = grind (arith, h) in
    let expires : a.identity.expires_at ≡ b.identity.expires_at = grind (arith, h) in
    let others : str_eq a.identity.others b.identity.others ≡ true = ground (arith, h) in
    cc (issued, expires, (eq_iff a.identity.others b.identity.others).0 others)

extended :
    (s : LeaseState) (envelope : SignedEnvelope) (task : LeaseTask)
    → (s.closed || s.aborted) ≡ false
    → task.identity ≡ s.task.identity
    → s.task.lease_expires_at < task.lease_expires_at
    → Steps (view s) (view (record s { task = task; envelope = envelope }))
extended s envelope task alive identity longer =
    subst
      (λ i.
        Steps (view s)
          (record { identity = i; until = task.lease_expires_at; over = s.closed || s.aborted }))
      {x = s.task.identity} {y = task.identity} (sym identity)
      (more stays (extends (view s) task.lease_expires_at alive longer))

renew_at-Steps :
    (now later : Option ℕ) (envelope : SignedEnvelope) (task : LeaseTask) (s : LeaseState)
    → (s.closed || s.aborted) ≡ false
    → task.identity ≡ s.task.identity
    → s.task.lease_expires_at < task.lease_expires_at
    → Steps (view s) (view (renew_at later envelope task (read_clock now s)).1)
unfolding renew_at
renew_at-Steps now later envelope task s alive identity longer = elim (read_clock-cases now s) [
  | inl c ↦ rw c stays
  | inr (t, e, p, c) ↦
      let u : LeaseState = record s { previous = some t } in
      rw c (
        if_cases (Leads s) (is_lease_over t task) _ _ (λ k. stays)
          (λ k.
            Steps-trans (extended u envelope task alive identity longer)
              (schedule_expiry-Steps later (record u { task = task; envelope = envelope }))))
]

renew_checked-Steps :
    (now later : Option ℕ) (envelope : SignedEnvelope) (task : LeaseTask) (s : LeaseState)
    → (s.closed || s.aborted) ≡ false
    → Steps (view s) (view (renew_checked now later envelope task (ok tt, s)).1)
unfolding renew_checked
renew_checked-Steps now later envelope task s alive =
    if_cases (Leads s) (matches_task task s.task) _ _
      (λ m.
        if_cases (Leads s)
          (task.lease_expires_at == s.task.lease_expires_at
            && same_signed_envelope envelope s.envelope)
          _ _ (λ k. stays)
          (λ k.
            if_cases (Leads s) (leb task.lease_expires_at s.task.lease_expires_at) _ _ (λ l. stays)
              (λ l.
                renew_at-Steps now later envelope task s alive (matches_task-identity task s.task m)
                  (grind (arith, l)))))
      (λ m. stays)

finish_renewal-Steps :
    (again now later : Option ℕ) (v : Result LeaseError (SignedEnvelope × LeaseTask))
    (s : LeaseState)
    → Steps (view s) (view (finish_renewal again now later v s).1)
unfolding finish_renewal renew_checked
finish_renewal-Steps again now later (err e) s = stays
finish_renewal-Steps again now later (ok (envelope, task)) s = elim (assert_active-cases again s) [
  | inl (t, r, alive, p, o, a) ↦
      rw a (renew_checked-Steps now later envelope task (record s { previous = some t }) alive)
  | inr (e, u, a, steps, why) ↦ rw a steps
]

or_expire-Steps :
    (s : LeaseState) (x : Result LeaseError (Unit {0}) × LeaseState)
    → Steps (view s) (view x.1)
    → Steps (view s) (view (or_expire x))
unfolding or_expire
or_expire-Steps s (ok t, u) h = h
or_expire-Steps s (err e, u) h = Steps-trans h (expire-Steps u)

fired :
    (later : Option ℕ) (s : LeaseState) (r : Result LeaseError ℕ)
    → Steps (view s) (view (fire_at later (r, s)))
unfolding fire_at
fired later s (err e) = expire-Steps s
fired later s (ok t) =
    if_cases (λ (u : LeaseState). Steps (view s) (view u)) (is_lease_over t s.task) _ _
      (λ k. expire-Steps s)
      (λ k. or_expire-Steps s (schedule_expiry later s) (schedule_expiry-Steps later s))

fire-Steps : (r later : Option ℕ) (s : LeaseState) → Steps (view s) (view (fire r later s))
unfolding fire
fire-Steps r later s =
    if_some_cases (λ (u : LeaseState). Steps (view s) (view u)) s.timer _ s
      (λ due e. elim (read_clock-cases r (record s { timer = none })) [
        | inl c ↦ rw c (fired later (record s { timer = none }) (err clock_invalid))
        | inr (t, h, p, c) ↦
            rw c (fired later (record s { timer = none; previous = some t }) (ok t))
      ])
      (λ e. stays)

close-Steps : (s : LeaseState) → Steps (view s) (view (close s))
unfolding close
close-Steps s = more stays (ends (view s))

-- Every operation is a sequence of the steps that a lease promises: its identity stays, its expiry
-- grows only while the lease is alive, and its end is final.
pub apply_refines : (op : LeaseOp) (s : LeaseState) → Steps (view s) (view (apply op s).1)
unfolding apply
apply_refines (asserts r) s = elim (assert_active-cases r s) [
  | inl (t, e, alive, p, o, a) ↦ rw a stays
  | inr (e, u, a, steps, why) ↦ rw a steps
]
apply_refines (renews again now later v) s = finish_renewal-Steps again now later v s
apply_refines (fires r later) s = fire-Steps r later s
apply_refines closes s = close-Steps s

-- So does every sequence of operations.
pub apply_all_refines :
    (ops : List LeaseOp) (s : LeaseState) → Steps (view s) (view (apply_all ops s))
unfolding apply_all
apply_all_refines [] s = stays
apply_all_refines (op ∷ ops) s =
    Steps-trans (apply_refines op s) (apply_all_refines ops (apply op s).1)
