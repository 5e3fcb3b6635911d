-- ===== src/Engine/Delegation/Admission/Attempts.antt =====
-- A chain of attempts goes on with an attempt that is admitted after its last.
use digital_employee.Common.{
  ℕ, suc, ◌+◌, String, Bool, true, false, ◌&&◌, not, Option, none, some, List, [], ◌∷◌, ◌++◌, leb,
  ◌≤◌, ◌==◌, length, any, sort_by, ◌≡◌, refl, sym, ◌∙◌, subst, arith, inl, inr, Option-cases,
  if_cases, is_some, any-sort_by, sort_by-snoc,
}
use digital_employee.Common.Result.{Result, ok, guard}
use digital_employee.Engine.Delegation.Errors.{DelegationError}
use digital_employee.Engine.Delegation.Admission.{
  ExistingDelegationRef, earlier_attempt, retries, is_chain, last_of, admit_retry,
}

pub guard_ok : {E : Type 0} (b : Bool) (e : E) (t : Unit {0}) → guard b e ≡ ok t → b ≡ true
guard_ok true e t h = refl
guard_ok false e t h = cc h

-- No attempt of a chain exceeds its length.
is_chain-bound :
    (n k : ℕ) (prior : Option String) (refs : List ExistingDelegationRef)
    → is_chain n prior refs ≡ true
    → n + length refs ≤ k
    → any (λ r. not (leb r.attempt k)) refs ≡ false
unfolding is_chain
is_chain-bound n k prior [] h l = refl
is_chain-bound n k prior (r ∷ refs) h l = ground (
  arith,
  h,
  is_chain-bound (suc n) k (some r.task_id) refs (ground (arith, h)) (omega (arith, l)),
)

is_chain-last :
    (n : ℕ) (prior : Option String) (refs : List ExistingDelegationRef) (p : ExistingDelegationRef)
    → is_chain n prior refs ≡ true
    → last_of refs ≡ some p
    → p.attempt ≡ n + length refs
unfolding is_chain last_of
is_chain-last n prior [] p h k = cc k
is_chain-last n prior (r ∷ []) p h k =
    subst (λ (x : ExistingDelegationRef). x.attempt ≡ n + 1) {x = r} {y = p} (cc k)
      (ground (arith, h))
is_chain-last n prior (r ∷ s ∷ refs) p h k =
    omega (arith, is_chain-last (suc n) (some r.task_id) (s ∷ refs) p (ground (arith, h)) k)

is_chain-snoc :
    (n : ℕ) (prior : Option String) (refs : List ExistingDelegationRef)
    (p new : ExistingDelegationRef)
    → is_chain n prior refs ≡ true
    → last_of refs ≡ some p
    → (new.attempt == suc p.attempt) ≡ true
    → retries (some p.task_id) new.retry_of_task_id ≡ true
    → is_chain n prior (refs ++ new ∷ []) ≡ true
unfolding is_chain last_of
is_chain-snoc n prior [] p new h k a t = cc k
is_chain-snoc n prior (r ∷ []) p new h k a t =
    let same : p ≡ r = cc k in
    ground (
      arith,
      h,
      subst (λ (x : ExistingDelegationRef). (new.attempt == suc x.attempt) ≡ true) same a,
      subst (λ (x : ExistingDelegationRef). retries (some x.task_id) new.retry_of_task_id ≡ true)
          same t,
    )
is_chain-snoc n prior (r ∷ s ∷ refs) p new h k a t =
    ground
      (arith, h, is_chain-snoc (suc n) (some r.task_id) (s ∷ refs) p new (ground (arith, h)) k a t)

last_of-none : (refs : List ExistingDelegationRef) → last_of refs ≡ none → refs ≡ []
unfolding last_of
last_of-none [] h = refl
last_of-none (r ∷ []) h = cc h
last_of-none (r ∷ s ∷ refs) h = cc (last_of-none (s ∷ refs) h)

sort-snoc :
    (refs : List ExistingDelegationRef) (new : ExistingDelegationRef)
    → any (λ r. not (leb r.attempt new.attempt)) (sort_by earlier_attempt refs) ≡ false
    → sort_by earlier_attempt (refs ++ new ∷ []) ≡ sort_by earlier_attempt refs ++ new ∷ []
sort-snoc refs new h =
    sort_by-snoc earlier_attempt refs new
      (sym (any-sort_by earlier_attempt (λ r. not (leb r.attempt new.attempt)) refs) ∙ h)

retries-none : (r : Option String) → retries none r ≡ not (is_some r)
unfolding retries
retries-none none = refl
retries-none (some task) = refl

admit_retry-none :
    (new : ExistingDelegationRef) (t : Unit {0})
    → admit_retry new none ≡ ok t
    → is_chain 0 none (new ∷ []) ≡ true
unfolding admit_retry is_chain
admit_retry-none new t h = ground (
  arith,
  guard_ok (new.attempt == 1 && not (is_some new.retry_of_task_id)) _ t h,
  retries-none new.retry_of_task_id,
)

admit_retry-some :
    (new p : ExistingDelegationRef) (t : Unit {0})
    → admit_retry new (some p) ≡ ok t
    → (retries (some p.task_id) new.retry_of_task_id && new.attempt == suc p.attempt) ≡ true
unfolding admit_retry
admit_retry-some new p t =
    if_cases P (is_some new.retry_of_task_id) _ _ (λ s h. guard_ok _ _ t h) (λ s h. cc h)
  where
    P : Result DelegationError (Unit {0}) → Type 0
    P r =
        r ≡ ok t
        → (retries (some p.task_id) new.retry_of_task_id && new.attempt == suc p.attempt) ≡ true

-- The chain of a parent goes on with an attempt that is admitted after its last.
pub retry-chain :
    (refs : List ExistingDelegationRef) (new : ExistingDelegationRef) (t : Unit {0})
    → is_chain 0 none (sort_by earlier_attempt refs) ≡ true
    → admit_retry new (last_of (sort_by earlier_attempt refs)) ≡ ok t
    → is_chain 0 none (sort_by earlier_attempt (refs ++ new ∷ [])) ≡ true
retry-chain refs new t h k = elim (Option-cases (last_of (sort_by earlier_attempt refs))) [
  | inl n ↦
      let nil = last_of-none (sort_by earlier_attempt refs) n in
      rw (sort-snoc refs new (rw nil refl)) (rw nil (admit_retry-none new t (cc (k, n))))
  | inr (p, l) ↦
      let both = admit_retry-some new p t (cc (k, l)) in
      let size = is_chain-last 0 none (sort_by earlier_attempt refs) p h l in
      rw
        (sort-snoc refs new (
          is_chain-bound 0 new.attempt none (sort_by earlier_attempt refs) h
            (ground (arith, both, size))))
        (is_chain-snoc 0 none (sort_by earlier_attempt refs) p new h l (ground (arith, both))
          (ground (arith, both)))
]
