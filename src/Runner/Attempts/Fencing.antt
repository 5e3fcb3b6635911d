-- ===== src/Runner/Attempts/Fencing.antt =====
-- A claim is granted once, and never behind a newer one.
use digital_employee.Common.{
  ◌≤◌, ◌<◌, String, ◌≡◌, ◌≢◌, refl, arith, Bool, true, false, ◌||◌, some, [], ◌∷◌, str_eq, eq_iff,
  eq_refl, if_some, Bool-cases, inl, inr, is_some, subst, ap, ◌∙◌,
}
use digital_employee.Common.Dict.{get, has, get-set}
use digital_employee.Runner.Attempts.{
  RunnerAttemptState, superseded, Attempts, attempt_key, any_attempt, fences, claim_nonce,
  AttemptUpdate, supersedes, advance_attempt,
}

left_lem : (a b : Bool) → (a || b) ≡ false → a ≡ false
left_lem true b h = cc
left_lem false b h = refl

right_lem : (a b : Bool) → (a || b) ≡ false → b ≡ false
right_lem true b h = cc
right_lem false b h = h

-- What holds of no attempt does not hold of the one under a key.
any_attempt-get :
    (p : RunnerAttemptState → Bool) (key : String) (attempts : Attempts) (a : RunnerAttemptState)
    → any_attempt p attempts ≡ false
    → get key attempts ≡ some a
    → p a ≡ false
unfolding any_attempt get
any_attempt-get p key [] a n g = cc
any_attempt-get p key ((j, b) ∷ rest) a n g = elim (Bool-cases (str_eq j key)) [
  | inl s ↦
      let same : b ≡ a = cc in
      subst (λ x. p x ≡ false) {x = b} {y = a} same (left_lem (p b) (any_attempt p rest) n)
  | inr s ↦ any_attempt-get p key rest a (right_lem (p b) (any_attempt p rest) n) (cc)
]

-- An accepted claim is not behind any attempt of its task: the token of each is known, and no
-- greater than its own.
pub claim_nonce-not_behind :
    (attempt existing : RunnerAttemptState) (attempts : Attempts) (key : String)
    → (claim_nonce attempt attempts).1 ≡ true
    → get key attempts ≡ some existing
    → existing.task_id ≡ attempt.task_id
    → (0 < existing.fencing_token) × (existing.fencing_token ≤ attempt.fencing_token)
unfolding claim_nonce
claim_nonce-not_behind attempt existing attempts key h g same =
    elim (Bool-cases (any_attempt (fences attempt) attempts)) [
      | inl f ↦ ground (arith, f)
      | inr f ↦
          let n : fences attempt existing ≡ false =
            any_attempt-get (fences attempt) key attempts existing f g in
          ground (arith, n, eq_iff existing.task_id attempt.task_id)
    ]

claim_nonce-get :
    (attempt : RunnerAttemptState) (attempts : Attempts)
    → (claim_nonce attempt attempts).1 ≡ true
    → get (attempt_key attempt.task_id attempt.nonce) (claim_nonce attempt attempts).0
      ≡ some attempt
unfolding claim_nonce
claim_nonce-get attempt attempts h =
    let key = attempt_key attempt.task_id attempt.nonce in
    ground (arith, get-set key key attempt attempts, eq_refl key)

claim_nonce_taken :
    (again : RunnerAttemptState) (attempts : Attempts)
    → has (attempt_key again.task_id again.nonce) attempts ≡ true
    → claim_nonce again attempts ≡ (attempts, false)
unfolding claim_nonce
claim_nonce_taken again attempts h = rw h refl

-- A nonce of a task is claimed once, whoever claims it again.
pub claim_nonce-once :
    (attempt again : RunnerAttemptState) (attempts : Attempts)
    → (claim_nonce attempt attempts).1 ≡ true
    → again.task_id ≡ attempt.task_id
    → again.nonce ≡ attempt.nonce
    → claim_nonce again (claim_nonce attempt attempts).0 ≡ ((claim_nonce attempt attempts).0, false)
claim_nonce-once attempt again attempts h t n =
    claim_nonce_taken again (claim_nonce attempt attempts).0
      (rw t (rw n (ap is_some (claim_nonce-get attempt attempts h))))

-- An attempt that a newer claim of its task has overtaken does not advance; it is marked as
-- superseded.
pub advance_attempt-superseded :
    (task_id nonce other_key : String) (update : AttemptUpdate) (attempts : Attempts)
    (existing other : RunnerAttemptState)
    → get (attempt_key task_id nonce) attempts ≡ some existing
    → get other_key attempts ≡ some other
    → other.task_id ≡ task_id
    → other.nonce ≢ nonce
    → existing.fencing_token < other.fencing_token
    → ((advance_attempt task_id nonce update attempts).1 ≡ false)
      × (get (attempt_key task_id nonce) (advance_attempt task_id nonce update attempts).0
          ≡ some (record existing { status = superseded }))
unfolding advance_attempt if_some
advance_attempt-superseded task_id nonce other_key update attempts existing other g o t n l =
    rw g (elim (Bool-cases (any_attempt (supersedes task_id nonce existing) attempts)) [
      | inl s ↦
          let key = attempt_key task_id nonce in
          rw s (
            refl,
            get-set key key (record existing { status = superseded }) attempts
                ∙ (rw (eq_refl key) refl),
          )
      | inr s ↦
          let f : supersedes task_id nonce existing other ≡ false =
            any_attempt-get (supersedes task_id nonce existing) other_key attempts other s o in
          absurd (ground (arith, f, eq_iff other.task_id task_id, eq_iff other.nonce nonce))
    ])
