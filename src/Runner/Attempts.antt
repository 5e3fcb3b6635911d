-- ===== src/Runner/Attempts.antt =====
-- packages/core/src/runner-durable-store.ts: the attempts of InMemoryDurableStore.
pub mod Fencing
use digital_employee.Common.{
  ℕ, zero, suc, String, Bool, true, false, ◌&&◌, ◌||◌, not, Option, none, some, List, [], ◌∷◌,
  str_eq, ltb, ◌==◌, if◌then◌else◌, if_some, or_else, any,
}
use digital_employee.Common.Dict.{Dict, get, set, has}
use digital_employee.Common.Text.{concat}

pub data RunnerAttemptStatus : Type 0 where
  claimed running completed failed superseded : RunnerAttemptStatus

pub record RunnerAttemptState : Type 0 where
  pub task_id : String
  pub runner_id : String
  pub nonce : String
  pub fencing_token : ℕ
  pub status : RunnerAttemptStatus
  pub events_emitted : ℕ
  pub receipt_digest : Option String

abbrev pub Attempts : Type 0
Attempts = Dict RunnerAttemptState

unfoldable pub attempt_key : String → String → String
attempt_key task_id nonce = concat (task_id ∷ "::" ∷ nonce ∷ [])

-- `some` over the values of the map.
unfoldable pub any_attempt : (RunnerAttemptState → Bool) → Attempts → Bool
any_attempt p [] = false
any_attempt p ((key, attempt) ∷ rest) = p attempt || any_attempt p rest

-- An attempt of the same task that a newer claim must not pass: a newer token, or the zero token,
-- whose order is unknown.
abbrev pub fences : RunnerAttemptState → RunnerAttemptState → Bool
fences attempt existing =
    str_eq existing.task_id attempt.task_id
    && (existing.fencing_token == 0 || ltb attempt.fencing_token existing.fencing_token)

-- claimNonce
unfoldable pub claim_nonce : RunnerAttemptState → Attempts → Attempts × Bool
claim_nonce attempt attempts =
    if has (attempt_key attempt.task_id attempt.nonce) attempts
    then (attempts, false)
    else if any_attempt (fences attempt) attempts
    then (attempts, false)
    else (set (attempt_key attempt.task_id attempt.nonce) attempt attempts, true)

pub record AttemptUpdate : Type 0 where
  pub status : Option RunnerAttemptStatus
  pub events_emitted : Option ℕ
  pub receipt_digest : Option String

abbrev pub supersedes : String → String → RunnerAttemptState → RunnerAttemptState → Bool
supersedes task_id nonce existing other =
    str_eq other.task_id task_id
    && not (str_eq other.nonce nonce)
    && ltb existing.fencing_token other.fencing_token

abbrev pub updated : AttemptUpdate → RunnerAttemptState → RunnerAttemptState
updated update existing = record existing {
  status = or_else update.status existing.status;
  events_emitted = or_else update.events_emitted existing.events_emitted;
  receipt_digest = if_some update.receipt_digest (λ digest. some digest) existing.receipt_digest;
}

-- advanceAttempt
unfoldable pub advance_attempt : String → String → AttemptUpdate → Attempts → Attempts × Bool
advance_attempt task_id nonce update attempts =
    let key = attempt_key task_id nonce in
    if_some (get key attempts)
      (λ existing.
        if any_attempt (supersedes task_id nonce existing) attempts
        then (set key (record existing { status = superseded }) attempts, false)
        else (set key (updated update existing) attempts, true))
      (attempts, false)
