-- ===== src/Engine/Turn/Documented.antt =====
-- What is on record when a turn ends: the effects that precede a terminal event.
pub mod Steps
use digital_employee.Engine.Turn.Events.{
  model_delta, run_started, usage, approval_requested, approval_granted, approval_denied,
  model_called, model_replied, ledger_committed, escalation_failed, evidence_failed,
}
use digital_employee.Common.{
  ℕ, zero, suc, String, ◌≡◌, refl, Bool, true, false, Option, none, some, List, [], ◌∷◌, ◌++◌,
  if◌then◌else◌, if_some, str_eq, ◌&&◌, arith,
}
use digital_employee.Engine.Escalation.{EscalationCause}
use digital_employee.Engine.Turn.Events.{
  TerminalReason, Event, run_completed, run_failed, Effect, emitted, evidence_written,
  escalation_written, TurnEvidenceRecord, goal_met,
}
use digital_employee.Engine.Turn.Program.{
  Program, Outcome, Consumed, go, stop, threw, return, perform, settle, throw, try_catch, recover,
  resume, ◌>>=◌,
}

-- The escalation that a reason calls for.
abbrev pub cause_of : TerminalReason → Option EscalationCause
cause_of TerminalReason.turn_budget_exceeded = some EscalationCause.turn_budget_exceeded
cause_of TerminalReason.position_budget_exceeded = some EscalationCause.position_budget_exceeded
cause_of TerminalReason.iteration_cap = some EscalationCause.iteration_cap
cause_of TerminalReason.doom_loop = some EscalationCause.doom_loop
cause_of TerminalReason.deadline_exceeded = some EscalationCause.deadline_exceeded
cause_of _ = none

abbrev IsCompletionEvidence : Effect → Type 0
IsCompletionEvidence (evidence_written r) =
    (r.completed ≡ true) × (r.reason ≡ goal_met) × (r.error_code ≡ none)
IsCompletionEvidence _ = ⊥

abbrev IsStopEvidence : Effect → String → TerminalReason → Type 0
IsStopEvidence (evidence_written r) code reason =
    (r.completed ≡ false)
    × (r.reason ≡ reason)
    × (r.error_code ≡ some code)
    × (r.escalation_ref ≡ true)
IsStopEvidence _ code reason = ⊥

abbrev IsEscalationOf : Effect → EscalationCause → Type 0
IsEscalationOf (escalation_written cause' snapshot) cause = cause' ≡ cause
IsEscalationOf _ cause = ⊥

-- The last effect is the evidence of a completed run.
abbrev pub CompletionOnRecord : List Effect → Type 0
CompletionOnRecord [] = ⊥
CompletionOnRecord (e ∷ past) = IsCompletionEvidence e

-- The last two are the escalation for the cause and the evidence of the stop, with its code.
abbrev pub StopOnRecord : List Effect → String → TerminalReason → EscalationCause → Type 0
StopOnRecord [] code reason cause = ⊥
StopOnRecord (e ∷ []) code reason cause = ⊥
StopOnRecord (e ∷ e' ∷ past) code reason cause =
    IsStopEvidence e code reason × IsEscalationOf e' cause

abbrev pub Needs : List Effect → String → TerminalReason → Option EscalationCause → Type 0
Needs past code reason none = Unit
Needs past code reason (some cause) = StopOnRecord past code reason cause

-- What an effect needs of the ones before it, the last first.
abbrev pub OnRecord : List Effect → Effect → Type 0
OnRecord past (emitted (run_completed o)) = CompletionOnRecord past
OnRecord past (emitted (run_failed code reason retryable)) =
    Needs past code reason (cause_of reason)
OnRecord past _ = Unit

abbrev pub IsDocumented : List Effect → List Effect → Type 0
IsDocumented past [] = Unit
IsDocumented past (e ∷ t) = OnRecord past e × IsDocumented (e ∷ past) t

-- Every terminal event of the program is on record.
pub record Documents {ℓ} {A : Type ℓ} (m : Program A) : Type 0 where
  pub documented : IsDocumented [] m.0

CompletionOnRecord-append : (s t : List Effect) → CompletionOnRecord s → CompletionOnRecord (s ++ t)
CompletionOnRecord-append [] t h = elim h [ ]
CompletionOnRecord-append (e ∷ s) t h = h

StopOnRecord-append :
    (s t : List Effect) (code : String) (reason : TerminalReason) (cause : EscalationCause)
    → StopOnRecord s code reason cause
    → StopOnRecord (s ++ t) code reason cause
StopOnRecord-append [] t code reason cause h = elim h [ ]
StopOnRecord-append (e ∷ []) t code reason cause h = elim h [ ]
StopOnRecord-append (e ∷ e' ∷ s) t code reason cause h = h

Needs-append :
    (s t : List Effect) (code : String) (reason : TerminalReason) (c : Option EscalationCause)
    → Needs s code reason c
    → Needs (s ++ t) code reason c
Needs-append s t code reason none h = tt
Needs-append s t code reason (some cause) h = StopOnRecord-append s t code reason cause h

EventOnRecord-append :
    (s t : List Effect) (e : Event) → OnRecord s (emitted e) → OnRecord (s ++ t) (emitted e)
EventOnRecord-append s t (run_completed o) h = CompletionOnRecord-append s t h
EventOnRecord-append s t (run_failed code reason retryable) h =
    Needs-append s t code reason (cause_of reason) h
EventOnRecord-append s t run_started h = tt
EventOnRecord-append s t (model_delta x) h = tt
EventOnRecord-append s t (usage i o) h = tt
EventOnRecord-append s t (approval_requested x) h = tt
EventOnRecord-append s t (approval_granted x y) h = tt
EventOnRecord-append s t (approval_denied x) h = tt

-- An effect on record stays so when more has happened before.
OnRecord-append : (s t : List Effect) (e : Effect) → OnRecord s e → OnRecord (s ++ t) e
OnRecord-append s t (emitted e) h = EventOnRecord-append s t e h
OnRecord-append s t (model_called v) h = tt
OnRecord-append s t (model_replied r) h = tt
OnRecord-append s t (ledger_committed n) h = tt
OnRecord-append s t (escalation_written c x) h = tt
OnRecord-append s t (escalation_failed c x) h = tt
OnRecord-append s t (evidence_written r) h = tt
OnRecord-append s t (evidence_failed r) h = tt

IsDocumented-append : (s t past : List Effect) → IsDocumented s t → IsDocumented (s ++ past) t
IsDocumented-append s [] past h = tt
IsDocumented-append s (e ∷ t) past h =
    (OnRecord-append s past e h.0, IsDocumented-append (e ∷ s) t past h.1)

IsDocumented-concat :
    (past s t : List Effect) → IsDocumented past s → IsDocumented [] t → IsDocumented past (s ++ t)
IsDocumented-concat past [] t hs ht = IsDocumented-append [] t past ht
IsDocumented-concat past (e ∷ s) t hs ht = (hs.0, IsDocumented-concat (e ∷ past) s t hs.1 ht)

Documents-resume {ℓ κ} :
    {A : Type ℓ} {B : Type κ} (t : List Effect) (o : Outcome A) (f : A → Program B)
    → IsDocumented [] t
    → ((a : A) → Documents (f a))
    → Documents (resume t o f)
Documents-resume t (go a) f h k = record {
  documented = IsDocumented-concat [] t (f a).0 h (k a).documented;
}
Documents-resume t stop f h k = record { documented = h }
Documents-resume t (threw c) f h k = record { documented = h }

pub Documents-bind {ℓ κ} :
    {A : Type ℓ} {B : Type κ} (m : Program A) (f : A → Program B)
    → Documents m
    → ((a : A) → Documents (f a))
    → Documents (m >>= f)
unfolding ◌>>=◌
Documents-bind (t, o) f h k = Documents-resume t o f h.documented k

Documents-recover {ℓ} :
    {A : Type ℓ} (t : List Effect) (o : Outcome A) (handler : Consumed → Program A)
    → IsDocumented [] t
    → ((c : Consumed) → Documents (handler c))
    → Documents (recover t o handler)
Documents-recover t (go a) handler h k = record { documented = h }
Documents-recover t stop handler h k = record { documented = h }
Documents-recover t (threw c) handler h k = record {
  documented = IsDocumented-concat [] t (handler c).0 h (k c).documented;
}

pub Documents-try {ℓ} :
    {A : Type ℓ} (m : Program A) (handler : Consumed → Program A)
    → Documents m
    → ((c : Consumed) → Documents (handler c))
    → Documents (try_catch m handler)
unfolding try_catch
Documents-try (t, o) handler h k = Documents-recover t o handler h.documented k

pub Documents-return {ℓ} : {A : Type ℓ} (a : A) → Documents (return a)
unfolding return
Documents-return a = record { documented = tt }

pub Documents-throw {ℓ} : {A : Type ℓ} (c : Consumed) → Documents (throw {A = A} c)
unfolding throw
Documents-throw c = record { documented = tt }

pub Documents-perform : (e : Effect) → OnRecord [] e → Documents (perform e)
unfolding perform
Documents-perform e h = record { documented = (h, tt) }

pub Documents-settle {ℓ} :
    {A : Type ℓ} (e : Event) → OnRecord [] (emitted e) → Documents (settle {A = A} e)
unfolding settle
Documents-settle e h = record { documented = (h, tt) }

pub Documents-if {ℓ} :
    {A : Type ℓ} (b : Bool) (m n : Program A)
    → Documents m
    → Documents n
    → Documents (if b then m else n)
Documents-if true m n hm hn = hm
Documents-if false m n hm hn = hn

pub Documents-if_some {ℓ κ} :
    {A : Type ℓ} {B : Type κ} (o : Option B) (f : B → Program A) (m : Program A)
    → ((b : B) → Documents (f b))
    → Documents m
    → Documents (if_some o f m)
unfolding if_some
Documents-if_some none f m hf hm = hm
Documents-if_some (some b) f m hf hm = hf b

pub ruleset documents_rules = (
  Documents-bind, Documents-try, Documents-return, Documents-throw, Documents-perform,
  Documents-settle, Documents-if, Documents-if_some, tt,
)
