-- ===== src/Runner/ReplayGuard/Replay.antt =====
-- A nonce is consumed once.
use digital_employee.Common.{
  ℕ, String, Bool, true, Option, none, some, List, [], ◌∷◌, ◌≡◌, ◌≢◌, ◌<◌, eq_iff, eq_refl, arith,
  if_some, All, if_cases, if_some_cases, subst,
}
use digital_employee.Common.Dict.{Dict, get, get-set}
use digital_employee.Common.Result.{Result, ok}
use digital_employee.Common.Value.{Value}
use digital_employee.Runner.ReplayGuard.{
  ReplayGuard, sweep, decide, claim_at, claim, nonce_key, ClaimError, record_claim, clock_ran_back,
}
use digital_employee.Runner.ReplayGuard.Shape.{RunnerReplayClaim, parse_claim}

-- The nonce is consumed until `expiry`.
abbrev pub IsConsumed : String → ℕ → ReplayGuard → Type 0
IsConsumed key expiry g = get key g.nonce_entries ≡ some expiry

abbrev Answer : Type 0
Answer = ReplayGuard × Result ClaimError Bool

-- The clock, if it answers, reads a time before `expiry`.
abbrev pub ReadsBefore : ℕ → Option ℕ → Type 0
ReadsBefore expiry none = Unit
ReadsBefore expiry (some now) = now < expiry

get-sweep :
    (now : ℕ) (key : String) (expiry : ℕ) (m : Dict ℕ)
    → get key m ≡ some expiry
    → now < expiry
    → get key (sweep now m) ≡ some expiry
unfolding get sweep
get-sweep now key expiry [] h l = h
get-sweep now key expiry ((j, e) ∷ m) h l = ground (arith, get-sweep now key expiry m, eq_iff j key)

decide-IsConsumed :
    (now : ℕ) (c : RunnerReplayClaim) (e : ℕ) (g : ReplayGuard) (key : String) (expiry : ℕ)
    → IsConsumed key expiry g
    → IsConsumed key expiry (decide now c e g).0
unfolding decide record_claim
decide-IsConsumed now c e g key expiry h = ground (
  arith,
  get-set (nonce_key c.runner_id c.nonce) key e g.nonce_entries,
  eq_iff (nonce_key c.runner_id c.nonce) key,
)

-- A claim of a consumed nonce before its expiry is not accepted.
decide-IsConsumed-refused :
    (now : ℕ) (c : RunnerReplayClaim) (e : ℕ) (g : ReplayGuard) (expiry : ℕ)
    → IsConsumed (nonce_key c.runner_id c.nonce) expiry g
    → (decide now c e g).1 ≢ ok true
unfolding decide
decide-IsConsumed-refused now c e g expiry h = ground arith

module _ (parse_timestamp : String → Option ℕ) (canonical_bytes : String → Option ℕ) where
  claim_at-IsConsumed :
      (now : ℕ) (c : RunnerReplayClaim) (g : ReplayGuard) (key : String) (expiry : ℕ)
      → IsConsumed key expiry g
      → now < expiry
      → IsConsumed key expiry (claim_at parse_timestamp canonical_bytes now c g).0
  unfolding claim_at
  claim_at-IsConsumed now c g key expiry h l =
      if_cases (λ (r : Answer). IsConsumed key expiry r.0) (clock_ran_back g now) _ _ (λ back. h)
        (λ forth.
          if_some_cases (λ (r : Answer). IsConsumed key expiry r.0) (parse_timestamp c.expires_at) _
            _
            (λ e read.
              decide-IsConsumed now c e _ key expiry (get-sweep now key expiry g.nonce_entries h l))
            (λ none_read. h))

  claim-IsConsumed :
      (clock : Option ℕ) (input : Value) (g : ReplayGuard) (key : String) (expiry : ℕ)
      → IsConsumed key expiry g
      → ReadsBefore expiry clock
      → IsConsumed key expiry (claim parse_timestamp canonical_bytes clock input g).0
  unfolding claim
  claim-IsConsumed clock input g key expiry h l =
      if_some_cases (λ (r : Answer). IsConsumed key expiry r.0) (parse_claim canonical_bytes input)
        _ _
        (λ c parsed.
          if_some_cases (λ (r : Answer). IsConsumed key expiry r.0) clock _ _
            (λ now read.
              claim_at-IsConsumed now c g key expiry h (subst (ReadsBefore expiry) read l))
            (λ unread. h))
        (λ malformed. h)

  -- The guard after a sequence of claims, each with its own reading of the clock.
  unfoldable pub claim_all : List (Option ℕ × Value) → ReplayGuard → ReplayGuard
  claim_all [] g = g
  claim_all ((clock, input) ∷ rest) g =
      claim_all rest (claim parse_timestamp canonical_bytes clock input g).0

  claim_all-IsConsumed :
      (calls : List (Option ℕ × Value)) (g : ReplayGuard) (key : String) (expiry : ℕ)
      → IsConsumed key expiry g
      → All (λ call. ReadsBefore expiry call.0) calls
      → IsConsumed key expiry (claim_all calls g)
  unfolding claim_all
  claim_all-IsConsumed [] g key expiry h l = h
  claim_all-IsConsumed ((clock, input) ∷ rest) g key expiry h l =
      claim_all-IsConsumed rest _ key expiry (claim-IsConsumed clock input g key expiry h l.0) l.1

  -- An accepted claim leaves its nonce consumed until it expires.
  decide-accepts :
      (now : ℕ) (c : RunnerReplayClaim) (e : ℕ) (g : ReplayGuard)
      → (decide now c e g).1 ≡ ok true
      → IsConsumed (nonce_key c.runner_id c.nonce) e (decide now c e g).0
  unfolding decide record_claim
  decide-accepts now c e g h = ground (
    arith,
    get-set (nonce_key c.runner_id c.nonce) (nonce_key c.runner_id c.nonce) e g.nonce_entries,
    eq_refl (nonce_key c.runner_id c.nonce),
  )

  claim_at-accepts :
      (now : ℕ) (c : RunnerReplayClaim) (g : ReplayGuard) (expiry : ℕ)
      → parse_timestamp c.expires_at ≡ some expiry
      → (claim_at parse_timestamp canonical_bytes now c g).1 ≡ ok true
      → IsConsumed
          (nonce_key c.runner_id c.nonce)
          expiry
          (claim_at parse_timestamp canonical_bytes now c g).0
  unfolding claim_at if_some
  claim_at-accepts now c g expiry read = rw read (
      if_cases
        (λ (r : Answer). r.1 ≡ ok true → IsConsumed (nonce_key c.runner_id c.nonce) expiry r.0)
        (clock_ran_back g now) _ _ (λ back h. cc) (λ forth h. decide-accepts now c expiry _ h))

  claim_at-IsConsumed-refused :
      (now : ℕ) (c : RunnerReplayClaim) (g : ReplayGuard) (expiry : ℕ)
      → IsConsumed (nonce_key c.runner_id c.nonce) expiry g
      → now < expiry
      → (claim_at parse_timestamp canonical_bytes now c g).1 ≢ ok true
  unfolding claim_at
  claim_at-IsConsumed-refused now c g expiry h l =
      if_cases (λ (r : Answer). r.1 ≢ ok true) (clock_ran_back g now) _ _ (λ back e. cc)
        (λ forth.
          if_some_cases (λ (r : Answer). r.1 ≢ ok true) (parse_timestamp c.expires_at) _ _
            (λ e read.
              decide-IsConsumed-refused now c e _ expiry
                (get-sweep now _ expiry g.nonce_entries h l))
            (λ none_read e. cc))

  -- A nonce that the guard has accepted from a runner is not accepted from it again before the
  -- first claim's expiry, whatever claims come in between and whatever task the second one names,
  -- as long as the clock has not reached that expiry.
  pub claim-once :
      (now later : ℕ) (first again : Value) (c c' : RunnerReplayClaim) (g : ReplayGuard)
      (expiry : ℕ) (calls : List (Option ℕ × Value))
      → parse_claim canonical_bytes first ≡ some c
      → parse_claim canonical_bytes again ≡ some c'
      → parse_timestamp c.expires_at ≡ some expiry
      → c'.runner_id ≡ c.runner_id
      → c'.nonce ≡ c.nonce
      → All (λ call. ReadsBefore expiry call.0) calls
      → later < expiry
      → (claim parse_timestamp canonical_bytes (some now) first g).1 ≡ ok true
      → (claim parse_timestamp canonical_bytes
          (some later)
          again
          (claim_all calls (claim parse_timestamp canonical_bytes (some now) first g).0)).1
        ≢ ok true
  unfolding claim if_some
  claim-once now later first again c c' g expiry calls p p' read same_runner same_nonce before l =
      rw p (
        rw p' (λ accepted.
          claim_at-IsConsumed-refused later c' _ expiry
            (rw same_runner (
              rw same_nonce (
                claim_all-IsConsumed calls _ (nonce_key c.runner_id c.nonce) expiry
                  (claim_at-accepts now c g expiry read accepted) before)))
            l))
