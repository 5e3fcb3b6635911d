-- ===== src/Engine/Turn/Settled/Whole.antt =====
-- The whole of executeTurn after the assembly: it ends, and with one terminal event.
use digital_employee.Common.{arith, [], ◌∷◌, ◌⊎◌, inl, inr}
use digital_employee.Common.{
  or_else, ◌∷◌, Option-cases, ℕ, zero, suc, ◌≡◌, refl, Bool, true, false, Option, none, some,
  is_some, List, if_some, if◌then◌else◌,
}
use digital_employee.Common.Result.{ok}
use digital_employee.Engine.DoomLoop
use digital_employee.Engine.Turn.Events.{approval_denied, approval_granted, Event, Effect}
use digital_employee.Engine.Turn.Program.{
  emit, Program, Outcome, Consumed, go, stop, threw, ◌>>=◌, return, perform, settle, try_catch,
  resume, recover,
}
use digital_employee.Engine.Turn.World.{EngineTurnRequest, World}
use digital_employee.Engine.Turn.Stops.{settlement_evidence, stop_with_escalation, RunState}
use digital_employee.Engine.Turn.Loop.{position_budget_in_use, loop, iteration, exhausted}
use digital_employee.Engine.Turn.Execute.{
  create_detector, read_usage, governed, execute, or_throw, handle_error,
}
use digital_employee.Engine.Turn.Settled.{Settles, IsSettled}
use digital_employee.Engine.Turn.Settled.Steps.{governed-Settles}
use digital_employee.Engine.Turn.Gate.{
  settle_granted, ask_operator, settle_denied, refuse_preview, settle_expired, approval_gate,
  emit_granted, settle_verdicts, emit_denied, request_approval, context_cap,
}
use digital_employee.Engine.DoomLoop.{DoomLoopDetector}
use digital_employee.Engine.Budget.{empty_budget_usage, BudgetUsage}
use digital_employee.Engine.Approval.{once, TurnApprovalActionInput, TurnPendingApprovalInput}

-- The program does not go on: it has returned or thrown.
abbrev pub NeverGoes {ℓ} : {A : Type ℓ} → Outcome A → Type 0
NeverGoes (go a) = ⊥
NeverGoes _ = Unit

pub record Ends {ℓ} {A : Type ℓ} (m : Program A) : Type 0 where
  pub never_goes : NeverGoes m.1

-- Nor does it throw.
abbrev NeverThrows {ℓ} : {A : Type ℓ} → Outcome A → Type 0
NeverThrows (threw c) = ⊥
NeverThrows _ = Unit

record Catches {ℓ} {A : Type ℓ} (m : Program A) : Type 0 where
  never_throws : NeverThrows m.1

Ends-resume {ℓ κ} :
    {A : Type ℓ} {B : Type κ} (t : List Effect) (o : Outcome A) (f : A → Program B)
    → ((a : A) → Ends (f a))
    → Ends (resume t o f)
Ends-resume t (go a) f k = record { never_goes = (k a).never_goes }
Ends-resume t stop f k = record { never_goes = tt }
Ends-resume t (threw c) f k = record { never_goes = tt }

pub Ends-bind {ℓ κ} :
    {A : Type ℓ} {B : Type κ} (m : Program A) (f : A → Program B)
    → ((a : A) → Ends (f a))
    → Ends (m >>= f)
unfolding ◌>>=◌
Ends-bind (t, o) f k = Ends-resume t o f k

Ends-recover {ℓ} :
    {A : Type ℓ} (t : List Effect) (o : Outcome A) (handler : Consumed → Program A)
    → NeverGoes o
    → ((c : Consumed) → Ends (handler c))
    → Ends (recover t o handler)
Ends-recover t (go a) handler h k = elim h [ ]
Ends-recover t stop handler h k = record { never_goes = tt }
Ends-recover t (threw c) handler h k = record { never_goes = (k c).never_goes }

pub Ends-try {ℓ} :
    {A : Type ℓ} (m : Program A) (handler : Consumed → Program A)
    → Ends m
    → ((c : Consumed) → Ends (handler c))
    → Ends (try_catch m handler)
unfolding try_catch
Ends-try (t, o) handler h k = Ends-recover t o handler h.never_goes k

pub Ends-settle {ℓ} : {A : Type ℓ} (e : Event) → Ends (settle {A = A} e)
unfolding settle
Ends-settle e = record { never_goes = tt }

pub Ends-if_some {ℓ κ} :
    {A : Type ℓ} {B : Type κ} (o : Option B) (f : B → Program A) (m : Program A)
    → ((b : B) → Ends (f b))
    → Ends m
    → Ends (if_some o f m)
unfolding if_some
Ends-if_some none f m hf hm = hm
Ends-if_some (some b) f m hf hm = hf b

pub ruleset ends_rules = (Ends-bind, Ends-try, Ends-settle, Ends-if_some)

Catches-resume {ℓ κ} :
    {A : Type ℓ} {B : Type κ} (t : List Effect) (o : Outcome A) (f : A → Program B)
    → NeverThrows o
    → ((a : A) → Catches (f a))
    → Catches (resume t o f)
Catches-resume t (go a) f h k = record { never_throws = (k a).never_throws }
Catches-resume t stop f h k = record { never_throws = tt }
Catches-resume t (threw c) f h k = elim h [ ]

Catches-bind {ℓ κ} :
    {A : Type ℓ} {B : Type κ} (m : Program A) (f : A → Program B)
    → Catches m
    → ((a : A) → Catches (f a))
    → Catches (m >>= f)
unfolding ◌>>=◌
Catches-bind (t, o) f h k = Catches-resume t o f h.never_throws k

Catches-recover {ℓ} :
    {A : Type ℓ} (t : List Effect) (o : Outcome A) (handler : Consumed → Program A)
    → ((c : Consumed) → Catches (handler c))
    → Catches (recover t o handler)
Catches-recover t (go a) handler k = record { never_throws = tt }
Catches-recover t stop handler k = record { never_throws = tt }
Catches-recover t (threw c) handler k = record { never_throws = (k c).never_throws }

Catches-try {ℓ} :
    {A : Type ℓ} (m : Program A) (handler : Consumed → Program A)
    → ((c : Consumed) → Catches (handler c))
    → Catches (try_catch m handler)
unfolding try_catch
Catches-try (t, o) handler k = Catches-recover t o handler k

Catches-return {ℓ} : {A : Type ℓ} (a : A) → Catches (return a)
unfolding return
Catches-return a = record { never_throws = tt }

Catches-perform : (e : Effect) → Catches (perform e)
unfolding perform
Catches-perform e = record { never_throws = tt }

Catches-settle {ℓ} : {A : Type ℓ} (e : Event) → Catches (settle {A = A} e)
unfolding settle
Catches-settle e = record { never_throws = tt }

Catches-if {ℓ} :
    {A : Type ℓ} (b : Bool) (m n : Program A) → Catches m → Catches n → Catches (if b then m else n)
Catches-if true m n hm hn = hm
Catches-if false m n hm hn = hn

Catches-if_some {ℓ κ} :
    {A : Type ℓ} {B : Type κ} (o : Option B) (f : B → Program A) (m : Program A)
    → ((b : B) → Catches (f b))
    → Catches m
    → Catches (if_some o f m)
unfolding if_some
Catches-if_some none f m hf hm = hm
Catches-if_some (some b) f m hf hm = hf b

ruleset catches_rules = (
  Catches-bind, Catches-try, Catches-return, Catches-perform, Catches-settle, Catches-if,
  Catches-if_some,
)

emit_denied-Catches : (ps : List TurnPendingApprovalInput) → Catches (emit_denied ps)
unfolding emit_denied
emit_denied-Catches [] = Catches-return tt
emit_denied-Catches (p ∷ ps) =
    Catches-bind (emit (approval_denied p.approval_id)) _ (Catches-perform _)
      (λ u. emit_denied-Catches ps)

emit_granted-Catches : (ps : List TurnPendingApprovalInput) → Catches (emit_granted ps)
unfolding emit_granted
emit_granted-Catches [] = Catches-return tt
emit_granted-Catches (p ∷ ps) =
    Catches-bind (emit (approval_granted p.approval_id (or_else p.scope once))) _
      (Catches-perform _) (λ u. emit_granted-Catches ps)

module _ (w : World) (request : EngineTurnRequest) where
  exhausted-Ends : (s : RunState) → Ends (exhausted w request s)
  unfolding exhausted stop_with_escalation
  exhausted-Ends s = search ends_rules depth 7

  loop-Ends : (left attempt : ℕ) (s : RunState) → Ends (loop w request left attempt s)
  unfolding loop
  loop-Ends zero attempt s = exhausted-Ends s
  loop-Ends (suc left) attempt s =
      Ends-bind (iteration w request attempt s) _ (λ s'. loop-Ends left (suc attempt) s')

  handle_error-Ends : (s : RunState) (c : Consumed) → Ends (handle_error w request s c)
  unfolding handle_error
  handle_error-Ends s c = search ends_rules depth 7

  governed-Ends : (s : RunState) → Ends (governed w request s)
  unfolding governed
  governed-Ends s = search (ends_rules, loop-Ends, handle_error-Ends)

  handle_error-Catches : (s : RunState) (c : Consumed) → Catches (handle_error w request s c)
  unfolding handle_error
  handle_error-Catches s c = search catches_rules depth 7

  context_cap-Catches : (s : RunState) → Catches (context_cap w request s)
  unfolding context_cap stop_with_escalation
  context_cap-Catches s = search catches_rules depth 7

  settle_verdicts-Catches :
      (pending : List TurnPendingApprovalInput) (s : RunState)
      → Catches (settle_verdicts w pending s)
  unfolding settle_verdicts settle_expired settle_denied settle_granted settlement_evidence
  settle_verdicts-Catches pending s =
      search (catches_rules, emit_denied-Catches, emit_granted-Catches) depth 7

  request_approval-Catches :
      (action : TurnApprovalActionInput) (s : RunState) → Catches (request_approval w action s)
  unfolding request_approval refuse_preview ask_operator settlement_evidence
  request_approval-Catches action s = search catches_rules depth 7

  approval_gate-Catches : (s : RunState) → Catches (approval_gate w request s)
  unfolding approval_gate
  approval_gate-Catches s =
      search (catches_rules, settle_verdicts-Catches, request_approval-Catches)

  governed-Catches : (s : RunState) → Catches (governed w request s)
  unfolding governed
  governed-Catches s =
      search (catches_rules, context_cap-Catches, approval_gate-Catches, handle_error-Catches)

-- The first read of the ledger is not rejected, where the ledger is in use.
abbrev pub LedgerAnswers : World → EngineTurnRequest → Type 0
LedgerAnswers w request =
    (is_some (position_budget_in_use w request) ≡ false) ⊎ (is_some w.ledger_read ≡ true)

returned_lem :
    (m : Program RunState) → Settles m → Ends m → Catches m → IsSettled m.0 × (m.1 ≡ stop)
returned_lem (t, go a) h e c = elim e.never_goes [ ]
returned_lem (t, stop) h e c = (h.ends, refl)
returned_lem (t, threw x) h e c = elim c.never_throws [ ]

pub bind_go {ℓ κ} : {A : Type ℓ} {B : Type κ} (a : A) (f : A → Program B) → (return a >>= f) ≡ f a
unfolding return ◌>>=◌
bind_go a f = refl

pub read_usage_some :
    (w : World) (request : EngineTurnRequest)
    → LedgerAnswers w request
    → (usage : BudgetUsage) × (read_usage w request ≡ return usage)
unfolding read_usage if_some
read_usage_some w request h = elim (Option-cases (position_budget_in_use w request)) [
  | inl p ↦ (empty_budget_usage, rw p refl)
  | inr (d, p) ↦ elim (Option-cases w.ledger_read) [
    | inl q ↦ ground arith
    | inr (u, q) ↦ (u, rw p (rw q refl))
  ]
]

-- Whatever the model, the clock, the ledger and the sinks do in the course of the turn: if the
-- doom-loop detector can be created and the first read of the ledger is not rejected, the turn
-- returns, having emitted exactly one terminal event, after which it does nothing.
pub execute-IsSettled :
    (w : World) (request : EngineTurnRequest) {d : DoomLoopDetector}
    → DoomLoop.create request.doom_loop ≡ ok d
    → LedgerAnswers w request
    → IsSettled (execute w request).0 × ((execute w request).1 ≡ stop)
unfolding execute create_detector or_throw
execute-IsSettled w request {d} h l =
    let (u, r) = read_usage_some w request l in
    rw h (
      rw (bind_go d) (
        rw r (
          rw (bind_go u) (
            returned_lem _ (governed-Settles w request _) (governed-Ends w request _)
              (governed-Catches w request _)))))
