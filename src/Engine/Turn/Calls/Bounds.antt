-- ===== src/Engine/Turn/Calls/Bounds.antt =====
-- How many calls of the model a turn makes: no more than its iterations, and none at a closed gate.
use digital_employee.Common.{
  ℕ, zero, suc, ◌+◌, ◌≤◌, ◌≡◌, ◌⊎◌, inl, inr, Bool, true, Option, none, some, is_some, List, [],
  ◌∷◌, arith, if_some, Option-cases, Bool-cases, subst,
}
use digital_employee.Common.Result.{Result, ok, err}
use digital_employee.Engine.DoomLoop
use digital_employee.Engine.Approval.{TurnPendingApprovalInput, TurnApprovalActionInput}
use digital_employee.Engine.Turn.Events.{Effect}
use digital_employee.Engine.Turn.Program.{Program, go, stop, threw, ◌>>=◌, perform}
use digital_employee.Engine.Turn.World.{EngineTurnRequest, World}
use digital_employee.Engine.Turn.Stops.{RunState}
use digital_employee.Engine.Turn.Gate.{
  any_expired, first_denied, approval_gate, settle_verdicts, settle_expired, settle_denied,
  request_approval, refuse_preview, ask_operator,
}
use digital_employee.Engine.Turn.Loop.{call_model, iteration, loop}
use digital_employee.Engine.Turn.Execute.{
  create_detector, read_usage, governed, execute, or_throw, nothing_consumed,
}
use digital_employee.Engine.Turn.Settled.Whole.{Ends, ends_rules}
use digital_employee.Engine.Turn.Calls.{
  Calls, Silent, calls, Calls-bind, Calls-after, Calls-le, Calls-try, silent_rules, Silent-return,
  Silent-throw,
}
use digital_employee.Engine.Turn.Calls.Steps.{
  before_call-Silent, after_call-Silent, exhausted-Silent, context_cap-Silent, approval_gate-Silent,
  handle_error-Silent,
}

or_throw-Silent {ℓ κ} : {E : Type ℓ} {A : Type κ} (r : Result E A) → Silent (or_throw r)
unfolding or_throw
or_throw-Silent (ok a) = Silent-return a
or_throw-Silent (err e) = Silent-throw nothing_consumed

perform-Calls : (e : Effect) → Calls 1 (perform e)
unfolding perform
perform-Calls e = record { at_most = ground arith }

-- A program that ends does not reach what follows.
Silent-Ends {ℓ κ} :
    {A : Type ℓ} {B : Type κ} (m : Program A) (f : A → Program B)
    → Silent m
    → Ends m
    → Silent (m >>= f)
unfolding ◌>>=◌
Silent-Ends (t, go a) f h e = elim e.never_goes [ ]
Silent-Ends (t, stop) f h e = record { at_most = h.at_most }
Silent-Ends (t, threw c) f h e = record { at_most = h.at_most }

module _ (w : World) (request : EngineTurnRequest) where
  call_model-Calls : (attempt : ℕ) (s : RunState) → Calls 1 (call_model w request attempt s)
  unfolding call_model
  call_model-Calls attempt s =
      Calls-bind 1 0 _ _ (perform-Calls _) (λ u. search silent_rules depth 7)

  iteration-Calls : (attempt : ℕ) (s : RunState) → Calls 1 (iteration w request attempt s)
  unfolding iteration
  iteration-Calls attempt s = Calls-after _ _ (before_call-Silent w request attempt s) (λ u.
      Calls-bind 1 0 _ _ (call_model-Calls attempt s)
        (λ r. after_call-Silent w request attempt r s))

  loop-Calls : (left attempt : ℕ) (s : RunState) → Calls left (loop w request left attempt s)
  unfolding loop
  loop-Calls zero attempt s = exhausted-Silent w request s
  loop-Calls (suc left) attempt s =
      Calls-le (1 + left) (suc left) _
        (Calls-bind 1 left _ _ (iteration-Calls attempt s) (λ s'. loop-Calls left (suc attempt) s'))
        (omega arith)

  governed-Calls : (s : RunState) → Calls request.max_iterations (governed w request s)
  unfolding governed
  governed-Calls s = Calls-after _ _ (context_cap-Silent w request s) (λ u.
      Calls-after _ _ (approval_gate-Silent w request s) (λ s'.
        Calls-try _ _ (loop-Calls request.max_iterations 1 s') (handle_error-Silent w request s')))

  create_detector-Silent : Silent (create_detector w request)
  unfolding create_detector
  create_detector-Silent = or_throw-Silent (DoomLoop.create request.doom_loop)

  read_usage-Silent : Silent (read_usage w request)
  unfolding read_usage
  read_usage-Silent = search silent_rules depth 7

  -- A turn calls the model at most `max_iterations` times.
  pub execute-Calls : calls (execute w request).0 ≤ request.max_iterations
  unfolding execute
  execute-Calls =
      (Calls-after _ _ create_detector-Silent
        (λ d. Calls-after _ _ read_usage-Silent (λ u. governed-Calls _))).at_most

  -- The verdicts that a resumed turn brings.
  abbrev pub verdicts : Option (List TurnPendingApprovalInput)
  verdicts =
      if_some request.pending_approvals (λ pending. some pending)
        (if_some request.pending_approval (λ pending. some (pending ∷ [])) none)

  -- A verdict is expired or the first is a denial; or there is none and the turn asks for an
  -- approval.
  abbrev pub IsClosed : Type 0
  IsClosed =
      ((pending : List TurnPendingApprovalInput) × (verdicts ≡ some pending)
        × ((any_expired w 0 pending ≡ true) ⊎ (first_denied pending ≡ true)))
      ⊎ ((verdicts ≡ none) × (is_some request.approval_action ≡ true))

  settle_expired-Ends :
      (pending : List TurnPendingApprovalInput) (s : RunState) → Ends (settle_expired w pending s)
  unfolding settle_expired
  settle_expired-Ends pending s = search ends_rules depth 7

  settle_denied-Ends :
      (pending : List TurnPendingApprovalInput) (s : RunState) → Ends (settle_denied w pending s)
  unfolding settle_denied
  settle_denied-Ends pending s = search ends_rules depth 7

  settle_verdicts-Ends :
      (pending : List TurnPendingApprovalInput) (s : RunState)
      → (any_expired w 0 pending ≡ true) ⊎ (first_denied pending ≡ true)
      → Ends (settle_verdicts w pending s)
  unfolding settle_verdicts
  settle_verdicts-Ends pending s (inl x) = rw x (settle_expired-Ends pending s)
  settle_verdicts-Ends pending s (inr d) = elim (Bool-cases (any_expired w 0 pending)) [
    | inl x ↦ rw x (settle_expired-Ends pending s)
    | inr x ↦ rw x (rw d (settle_denied-Ends pending s))
  ]

  request_approval-Ends :
      (action : TurnApprovalActionInput) (s : RunState) → Ends (request_approval w action s)
  unfolding request_approval refuse_preview ask_operator
  request_approval-Ends action s = search ends_rules depth 9

  -- A gate on some verdicts.
  abbrev pub IsRefused : List TurnPendingApprovalInput → Type 0
  IsRefused pending = (any_expired w 0 pending ≡ true) ⊎ (first_denied pending ≡ true)

  pub refused_lem :
      (pending : List TurnPendingApprovalInput) (action : Bool)
      → ((pending' : List TurnPendingApprovalInput) × (some pending ≡ some pending')
          × IsRefused pending')
        ⊎ ((some pending ≡ none) × (action ≡ true))
      → IsRefused pending
  refused_lem pending action (inl (pending', e, r)) =
      subst IsRefused {x = pending'} {y = pending} (cc) r
  refused_lem pending action (inr (e, a)) = cc

  approval_gate-Ends : (s : RunState) → IsClosed → Ends (approval_gate w request s)
  unfolding approval_gate if_some
  approval_gate-Ends s = elim (Option-cases request.pending_approvals) [
    | inr (ps, p) ↦ rw p (λ h. settle_verdicts-Ends ps s (refused_lem ps _ h))
    | inl n ↦ rw n (elim (Option-cases request.pending_approval) [
      | inr (q, p) ↦ rw p (λ h. settle_verdicts-Ends (q ∷ []) s (refused_lem (q ∷ []) _ h))
      | inl n' ↦ rw n' (elim (Option-cases request.approval_action) [
        | inr (action, a) ↦ rw a (λ h. request_approval-Ends action s)
        | inl n'' ↦ rw n'' (λ h. elim h [ inl (ps, e, r) ↦ cc | inr (e, a) ↦ cc ])
      ])
    ])
  ]

  governed-Silent : (s : RunState) → IsClosed → Silent (governed w request s)
  unfolding governed
  governed-Silent s h =
      Calls-after _ _ (context_cap-Silent w request s)
        (λ u. Silent-Ends _ _ (approval_gate-Silent w request s) (approval_gate-Ends s h))

  execute-Silent : IsClosed → Silent (execute w request)
  unfolding execute
  execute-Silent h =
      Calls-after _ _ create_detector-Silent
        (λ d. Calls-after _ _ read_usage-Silent (λ u. governed-Silent _ h))

  pub closed_silent : IsClosed → calls (execute w request).0 ≡ 0
  closed_silent h = omega (arith, (execute-Silent h).at_most)
