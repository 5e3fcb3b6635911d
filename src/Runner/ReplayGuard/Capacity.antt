-- ===== src/Runner/ReplayGuard/Capacity.antt =====
-- The two tables stay within their bound, and a task's fence never goes back.
use digital_employee.Common.{
  ℕ, String, Bool, true, Option, some, [], ◌∷◌, ◌≡◌, ◌≤◌, eq_iff, eq_refl, arith, max, if_cases,
  if_some_cases, length, or_else,
}
use digital_employee.Common.Dict.{Dict, get, get-set, length-set}
use digital_employee.Common.Result.{Result, ok}
use digital_employee.Common.Value.{Value}
use digital_employee.Runner.ReplayGuard.{
  ReplayGuard, sweep, swept, decide, claim_at, claim, nonce_key, ClaimError, record_claim,
  clock_ran_back,
}
use digital_employee.Runner.ReplayGuard.Shape.{RunnerReplayClaim, parse_claim}

abbrev Answer : Type 0
Answer = ReplayGuard × Result ClaimError Bool

-- Both tables hold at most `max_entries` entries.
abbrev pub IsBounded : ReplayGuard → Type 0
IsBounded g =
    (length g.nonce_entries ≤ g.max_entries) × (length g.task_high_watermarks ≤ g.max_entries)

length-sweep-le : (now : ℕ) (m : Dict ℕ) → length (sweep now m) ≤ length m
unfolding sweep
length-sweep-le now [] = omega arith
length-sweep-le now ((k, e) ∷ m) = ground (arith, length-sweep-le now m)

decide-IsBounded :
    (now : ℕ) (c : RunnerReplayClaim) (e : ℕ) (g : ReplayGuard)
    → IsBounded g
    → IsBounded (decide now c e g).0
unfolding decide record_claim
decide-IsBounded now c e g h = ground (
  arith,
  length-set (nonce_key c.runner_id c.nonce) e g.nonce_entries,
  length-set c.task_id
      (max (or_else (get c.task_id g.task_high_watermarks) c.fencing_token) c.fencing_token)
      g.task_high_watermarks,
)

-- The fence of a task: no smaller token is accepted. A task without one is fenced at 0.
abbrev pub fence_of : String → ReplayGuard → ℕ
fence_of task g = or_else (get task g.task_high_watermarks) 0

decide-fence :
    (now : ℕ) (c : RunnerReplayClaim) (e : ℕ) (g : ReplayGuard) (task : String)
    → fence_of task g ≤ fence_of task (decide now c e g).0
unfolding decide record_claim
decide-fence now c e g task = ground (
  arith,
  get-set c.task_id task
      (max (or_else (get c.task_id g.task_high_watermarks) c.fencing_token) c.fencing_token)
      g.task_high_watermarks,
  eq_iff c.task_id task,
)

decide-accepts-fence :
    (now : ℕ) (c : RunnerReplayClaim) (e : ℕ) (g : ReplayGuard)
    → (decide now c e g).1 ≡ ok true
    → (fence_of c.task_id g ≤ c.fencing_token)
      × (c.fencing_token ≤ fence_of c.task_id (decide now c e g).0)
unfolding decide record_claim
decide-accepts-fence now c e g h = ground (
  arith,
  get-set c.task_id c.task_id
      (max (or_else (get c.task_id g.task_high_watermarks) c.fencing_token) c.fencing_token)
      g.task_high_watermarks,
  eq_refl c.task_id,
)

module _ (parse_timestamp : String → Option ℕ) (canonical_bytes : String → Option ℕ) where
  -- What a claim does to the guard: nothing, the clock, or the decision on the swept tables.
  claim_cases {ℓ} :
      (P : ReplayGuard → Type ℓ) (clock : Option ℕ) (input : Value) (g : ReplayGuard)
      → P g
      → ((now : ℕ) → P (record g { last_clock_milliseconds = some now }))
      → ((now : ℕ) (c : RunnerReplayClaim) (e : ℕ)
          → P (decide now c e (swept now (record g { last_clock_milliseconds = some now }))).0)
      → P (claim parse_timestamp canonical_bytes clock input g).0
  unfolding claim claim_at
  claim_cases P clock input g same ticked decided =
      if_some_cases Q (parse_claim canonical_bytes input) _ _
        (λ c parsed.
          if_some_cases Q clock _ _
            (λ now read.
              if_cases Q (clock_ran_back g now) _ _ (λ back. same)
                (λ forth.
                  if_some_cases Q (parse_timestamp c.expires_at) _ _ (λ e expires. decided now c e)
                    (λ unread. ticked now)))
            (λ unread. same))
        (λ malformed. same)
    where
      Q : Answer → Type ℓ
      Q r = P r.0

  -- A claim keeps both tables within the guard's bound, whether it is accepted or not.
  pub claim-IsBounded :
      (clock : Option ℕ) (input : Value) (g : ReplayGuard)
      → IsBounded g
      → IsBounded (claim parse_timestamp canonical_bytes clock input g).0
  claim-IsBounded clock input g h =
      claim_cases IsBounded clock input g h (λ now. h)
        (λ now c e.
          decide-IsBounded now c e _ (omega (arith, h, length-sweep-le now g.nonce_entries)))

  -- No claim lowers the fence of any task.
  pub claim-fence :
      (clock : Option ℕ) (input : Value) (g : ReplayGuard) (task : String)
      → fence_of task g ≤ fence_of task (claim parse_timestamp canonical_bytes clock input g).0
  claim-fence clock input g task =
      claim_cases (λ g'. fence_of task g ≤ fence_of task g') clock input g (omega arith)
        (λ now. omega arith) (λ now c e. decide-fence now c e _ task)
