-- ===== src/Engine/Delegation/Run/Stream.antt =====
-- What the stream of a delegation's events is, and when it ends normally.
use digital_employee.Common.{
  ℕ, suc, String, Bool, true, false, ◌&&◌, ◌||◌, Option, none, some, List, [], ◌∷◌, ◌++◌, map,
  is_some, ◌≡◌, ◌∙◌, refl, arith, if◌then◌else◌, any, Bool-cases, inl, inr,
}
use digital_employee.Common.Result.{Result, ok, err}
use digital_employee.Common.Value.{Value}
use digital_employee.Engine.Delegation.Errors.{child_terminal_invalid, DelegationError}
use digital_employee.Engine.Delegation.Canonical.{compute_canonical_digest}
use digital_employee.Engine.Delegation.Envelope.{DelegationEnvelope}
use digital_employee.Engine.Delegation.Routes.{DelegationOrganization, DelegationPermissions}
use digital_employee.Engine.Delegation.Scopes.{EffectiveDelegationScope}
use digital_employee.Engine.Delegation.Run.{
  Usage, bounded, Callback, started, used, ChildResult, completed, failed, cancelled, Child,
  Payload, delegation_started, delegation_usage, delegation_completed, delegation_failed,
  delegation_cancelled, DelegationEvent, Outcome, returned, threw, observe_child, is_terminal_error,
  number_from, scope_value, settle_child, child_events, run_scoped, admitted_scope,
  execute_delegation,
}

-- The events that end a delegation.
abbrev pub is_terminal : Payload → Bool
is_terminal (delegation_completed run output evidence) = true
is_terminal (delegation_failed run e) = is_terminal_error e
is_terminal (delegation_cancelled run e) = is_terminal_error e
is_terminal p = false

abbrev pub is_returned : Outcome → Bool
is_returned returned = true
is_returned o = false

-- `sequence` counts from `suc n`.
abbrev pub IsNumbered : ℕ → List DelegationEvent → Type 0
IsNumbered n [] = Unit
IsNumbered n (e ∷ es) = (e.sequence ≡ suc n) × IsNumbered (suc n) es

abbrev pub payloads : List DelegationEvent → List Payload
payloads es = map (λ e. e.payload) es

-- A stream that ends normally is one start, the usage, and one terminal event; one that does not has
-- no terminal event.
pub data IsStream : List Payload → Outcome → Type 0 where
  silent : (o : Outcome) → is_returned o ≡ false → IsStream [] o
  broken :
      (scope_digest : String) (usages : List Usage) (o : Outcome)
      → is_returned o ≡ false
      → IsStream (delegation_started scope_digest ∷ map (λ u. delegation_usage u) usages ++ []) o
  finished :
      (scope_digest : String) (usages : List Usage) (last : Payload)
      → is_terminal last ≡ true
      → IsStream
          (delegation_started scope_digest ∷ map (λ u. delegation_usage u) usages ++ last ∷ [])
          returned

number_from-IsNumbered : (n : ℕ) (ps : List Payload) → IsNumbered n (number_from n ps)
unfolding number_from
number_from-IsNumbered n [] = tt
number_from-IsNumbered n (p ∷ ps) = (refl, number_from-IsNumbered (suc n) ps)

number_from-payloads : (n : ℕ) (ps : List Payload) → payloads (number_from n ps) ≡ ps
unfolding number_from
number_from-payloads n [] = refl
number_from-payloads n (p ∷ ps) = rw (number_from-payloads (suc n) ps) refl

-- The child reported its start.
abbrev pub is_started : Callback → Bool
is_started started = true
is_started c = false

-- The result is one the engine passes on.
abbrev pub settles : Option ChildResult → Bool
settles none = false
settles (some (completed output)) = true
settles (some (failed e)) = is_terminal_error e
settles (some (cancelled e)) = is_terminal_error e

observe_child-started :
    (b : Bool) (cs : List Callback) → (observe_child b cs).0 ≡ (b || any is_started cs)
unfolding observe_child
observe_child-started b [] = ground arith
observe_child-started b (started ∷ cs) = ground (arith, observe_child-started true cs)
observe_child-started b (used i o t ∷ cs) =
    let usage = bounded i o t in
    elim (Bool-cases (
      b
      && (is_some usage.input_tokens
          || (is_some usage.output_tokens || is_some usage.total_tokens)))) [
            | inl k ↦ rw k (observe_child-started b cs)
            | inr k ↦ rw k (observe_child-started b cs)
          ]

-- The events and the end of a run follow the protocol, and the end is normal where the test holds.
abbrev Follows : String → List Usage → Bool → List Payload × Outcome → Type 0
Follows digest usages b (last, outcome) =
    IsStream (delegation_started digest ∷ map (λ u. delegation_usage u) usages ++ last) outcome
    × (is_returned outcome ≡ b)

failure-Follows :
    (digest : String) (usages : List Usage) (last : Payload) (b : Bool)
    → is_terminal last ≡ b
    → Follows digest usages b
        (if b then (last ∷ [], returned) else ([], threw child_terminal_invalid))
failure-Follows digest usages last true h = (finished digest usages last h, refl)
failure-Follows digest usages last false h = (broken digest usages _ refl, refl)

module _ (json_sha256 : Value → String) where
  settle_child-Follows :
      (envelope : DelegationEnvelope) (run_id digest : String) (usages : List Usage)
      (r : ChildResult)
      → Follows digest usages (settles (some r)) (settle_child json_sha256 envelope run_id digest r)
  unfolding settle_child
  settle_child-Follows envelope run_id digest usages (completed output) =
      (finished digest usages _ refl, refl)
  settle_child-Follows envelope run_id digest usages (failed e) =
      failure-Follows digest usages (delegation_failed run_id e) (is_terminal_error e) refl
  settle_child-Follows envelope run_id digest usages (cancelled e) =
      failure-Follows digest usages (delegation_cancelled run_id e) (is_terminal_error e) refl

  child_events-IsStream :
      (envelope : DelegationEnvelope) (run_id digest : String) (seen : Bool × List Usage)
      (r : Option ChildResult)
      → let (ps, outcome) = child_events json_sha256 envelope run_id digest seen r in
        IsStream ps outcome × (is_returned outcome ≡ (seen.0 && settles r))
  unfolding child_events
  child_events-IsStream envelope run_id digest (true, usages) none = (broken digest [] _ refl, refl)
  child_events-IsStream envelope run_id digest (false, usages) none = (silent _ refl, refl)
  child_events-IsStream envelope run_id digest (false, usages) (some r) = (silent _ refl, refl)
  child_events-IsStream envelope run_id digest (true, usages) (some r) =
      settle_child-Follows envelope run_id digest usages r

  -- Whether the child of an admitted delegation reports its start and settles with a result that is
  -- passed on.
  abbrev pub runs_to_end :
      (EffectiveDelegationScope → Child) → Result DelegationError EffectiveDelegationScope → Bool
  runs_to_end run (err e) = false
  runs_to_end run (ok scope) = any is_started (run scope).callbacks && settles (run scope).settled

  run_scoped-IsStream :
      (run : EffectiveDelegationScope → Child) (run_id : String) (envelope : DelegationEnvelope)
      (r : Result DelegationError EffectiveDelegationScope)
      → let (events, outcome) = run_scoped json_sha256 run run_id envelope r in
        IsNumbered 0 events
        × IsStream (payloads events) outcome
        × (is_returned outcome ≡ runs_to_end run r)
  unfolding run_scoped
  run_scoped-IsStream run run_id envelope (err e) = (tt, silent _ refl, refl)
  run_scoped-IsStream run run_id envelope (ok scope) =
      let digest = compute_canonical_digest json_sha256 (scope_value scope) in
      let seen = observe_child false (run scope).callbacks in
      let r = child_events json_sha256 envelope run_id digest seen (run scope).settled in
      let (stream, ends) = child_events-IsStream envelope run_id digest seen (run scope).settled in
      (
        number_from-IsNumbered 0 r.0,
        rw (number_from-payloads 0 r.0) stream,
        ends ∙ ground (arith, observe_child-started false (run scope).callbacks),
      )

  -- The events of a delegation are numbered from 1 without a gap. They are none, or one start, then
  -- the usage reports, then at most one terminal event; the terminal event is there exactly when
  -- the generator returns. It returns exactly when the delegation is admitted, on a valid route, and
  -- its child reports its start and settles with a completed result or a well-formed error.
  pub execute_delegation-IsStream :
      (run : EffectiveDelegationScope → Child) (run_id : String) (envelope : DelegationEnvelope)
      (existing : List Value) (organization : DelegationOrganization)
      (permissions : DelegationPermissions)
      → let (events, outcome) =
          execute_delegation json_sha256 run run_id envelope existing organization permissions in
        IsNumbered 0 events
        × IsStream (payloads events) outcome
        × (is_returned outcome
            ≡ runs_to_end run
                (admitted_scope json_sha256 envelope existing organization permissions))
  unfolding execute_delegation
  execute_delegation-IsStream run run_id envelope existing organization permissions =
      run_scoped-IsStream run run_id envelope
        (admitted_scope json_sha256 envelope existing organization permissions)
