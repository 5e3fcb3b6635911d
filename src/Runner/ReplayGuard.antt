-- ===== src/Runner/ReplayGuard.antt =====
-- packages/core/src/runner-replay-guard.ts: InMemoryRunnerReplayGuard. The parsing of an ISO
-- timestamp and the base64url codec are the runtime's, and parameters; prototypes and proxies have
-- no counterpart among the values.
pub mod Shape
pub mod Replay
pub mod Capacity
use digital_employee.Common.{
  ℕ, zero, suc, ◌+◌, String, Bool, true, false, ◌&&◌, ◌||◌, Option, none, some, List, [], ◌∷◌,
  str_eq, ltb, leb, max, if◌then◌else◌, if_some, or_else, length, is_some, ◌==◌,
}
use digital_employee.Common.Dict.{Dict, get, set, has}
use digital_employee.Common.Result.{Result, ok, err}
use digital_employee.Common.Text.{concat, utf16_length, decimal}
use digital_employee.Common.Value.{Value}
use digital_employee.Runner.ReplayGuard.Shape.{RunnerReplayClaim, parse_claim}

pub data ClaimError : Type 0 where
  claim_invalid clock_invalid guard_capacity : ClaimError

pub record ReplayGuard : Type 0 where
  pub nonce_entries : Dict ℕ
  pub task_high_watermarks : Dict ℕ
  pub max_entries : ℕ
  pub last_clock_milliseconds : Option ℕ

-- The constructor: `none` is the ValidationError.
unfoldable pub create : Option ℕ → Option ReplayGuard
create max_entries =
    let entries = or_else max_entries 10000 in
    if ltb entries 1
    then none
    else some (record {
      nonce_entries = [];
      task_high_watermarks = [];
      max_entries = entries;
      last_clock_milliseconds = none;
    })

unfoldable pub nonce_key : String → String → String
nonce_key runner_id nonce = concat (
    decimal (utf16_length runner_id)
    ∷ ":"
    ∷ runner_id
    ∷ decimal (utf16_length nonce)
    ∷ ":"
    ∷ nonce
    ∷ [])

-- The sweep of the expired nonces.
unfoldable pub sweep : ℕ → Dict ℕ → Dict ℕ
sweep now [] = []
sweep now ((key, expiry) ∷ m) =
    let rest = sweep now m in if leb expiry now then rest else (key, expiry) ∷ rest

-- `highWatermark !== undefined && highWatermark > fencingToken`
abbrev pub is_fenced : Option ℕ → ℕ → Bool
is_fenced none token = false
is_fenced (some high) token = ltb token high

abbrev pub is_full : ReplayGuard → Option ℕ → Bool
is_full g high =
    leb g.max_entries (length g.nonce_entries)
    || (if is_some high then false else leb g.max_entries (length g.task_high_watermarks))

-- Both tables are written together.
unfoldable pub record_claim : RunnerReplayClaim → ℕ → ReplayGuard → ReplayGuard
record_claim claim expiry g = record g {
  task_high_watermarks =
      set claim.task_id
        (max (or_else (get claim.task_id g.task_high_watermarks) claim.fencing_token)
          claim.fencing_token)
        g.task_high_watermarks;
  nonce_entries = set (nonce_key claim.runner_id claim.nonce) expiry g.nonce_entries;
}

-- From the sweep on: the decision, with the tables of a swept guard.
unfoldable pub decide :
    ℕ → RunnerReplayClaim → ℕ → ReplayGuard → ReplayGuard × Result ClaimError Bool
decide now claim expiry g =
    if leb expiry now
    then (g, ok false)
    else if has (nonce_key claim.runner_id claim.nonce) g.nonce_entries
    then (g, ok false)
    else if is_fenced (get claim.task_id g.task_high_watermarks) claim.fencing_token
    then (g, ok false)
    else if is_full g (get claim.task_id g.task_high_watermarks)
    then (g, err guard_capacity)
    else (record_claim claim expiry g, ok true)

abbrev pub swept : ℕ → ReplayGuard → ReplayGuard
swept now g = record g { nonce_entries = sweep now g.nonce_entries }

-- `nowMilliseconds < lastClockMilliseconds`, which starts at minus infinity.
abbrev pub clock_ran_back : ReplayGuard → ℕ → Bool
clock_ran_back g now = if_some g.last_clock_milliseconds (λ last. ltb now last) false

module _ (parse_timestamp : String → Option ℕ) (canonical_bytes : String → Option ℕ) where
  -- With the clock read: it never runs back.
  unfoldable pub claim_at :
      ℕ → RunnerReplayClaim → ReplayGuard → ReplayGuard × Result ClaimError Bool
  claim_at now claim g =
      let g' = record g { last_clock_milliseconds = some now } in
      if clock_ran_back g now
      then (g, err clock_invalid)
      else if_some (parse_timestamp claim.expires_at)
          (λ expiry. decide now claim expiry (swept now g')) (g', err claim_invalid)

  -- `claim(claim)`; a clock that throws or answers no time reads `none`.
  unfoldable pub claim : Option ℕ → Value → ReplayGuard → ReplayGuard × Result ClaimError Bool
  claim clock input g =
      if_some (parse_claim canonical_bytes input)
        (λ parsed. if_some clock (λ now. claim_at now parsed g) (g, err clock_invalid))
        (g, err claim_invalid)
