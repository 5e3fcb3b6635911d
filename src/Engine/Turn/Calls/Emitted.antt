-- ===== src/Engine/Turn/Calls/Emitted.antt =====
-- The events that a program emits, and how it goes on.
use digital_employee.Common.{◌≡◌, refl, ap, ◌∙◌, subst, List, [], ◌∷◌, ◌++◌}
use digital_employee.Engine.Turn.Events.{Event, Effect, emitted}
use digital_employee.Engine.Turn.Program.{Program, go, stop, threw, perform, emit, settle, ◌>>=◌}

-- What the caller sees of some effects.
abbrev with_event : Effect → List Event → List Event
with_event (emitted e) es = e ∷ es
with_event _ es = es

abbrev pub events : List Effect → List Event
events [] = []
events (e ∷ t) = with_event e (events t)

with_event-append :
    (e : Effect) (xs ys : List Event) → with_event e (xs ++ ys) ≡ with_event e xs ++ ys
with_event-append (emitted e) xs ys = refl
with_event-append _ xs ys = refl

events-append : (s t : List Effect) → events (s ++ t) ≡ events s ++ events t
events-append [] t = refl
events-append (e ∷ s) t =
    ap (with_event e) (events-append s t) ∙ with_event-append e (events s) (events t)

-- The program emits these events and goes on with `a`, or returns.
abbrev pub Goes {ℓ} : {A : Type ℓ} → List Event → A → Program A → Type ℓ
Goes es a m = (events m.0 ≡ es) × (m.1 ≡ go a)

abbrev pub Emits {ℓ} : {A : Type ℓ} → List Event → Program A → Type ℓ
Emits es m = (events m.0 ≡ es) × (m.1 ≡ stop)

pub Emits-bind {ℓ κ} :
    {A : Type ℓ} {B : Type κ} (xs ys : List Event) (a : A) (m : Program A) (f : A → Program B)
    → Goes xs a m
    → Emits ys (f a)
    → Emits (xs ++ ys) (m >>= f)
unfolding ◌>>=◌
Emits-bind xs ys a (t, go b) f (h, e) k =
    let same : a ≡ b = cc e in
    subst (λ b. Emits (xs ++ ys) ((t, go b) >>= f)) same
      (events-append t (f a).0 ∙ ap (λ x. x ++ events (f a).0) h ∙ ap (λ x. xs ++ x) k.0, k.1)
Emits-bind xs ys a (t, stop) f (h, e) k = cc e
Emits-bind xs ys a (t, threw c) f (h, e) k = cc e

-- What returns does not reach what follows.
pub Emits-stop {ℓ κ} :
    {A : Type ℓ} {B : Type κ} (es : List Event) (m : Program A) (f : A → Program B)
    → Emits es m
    → Emits es (m >>= f)
unfolding ◌>>=◌
Emits-stop es (t, go b) f (h, e) = cc e
Emits-stop es (t, stop) f (h, e) = (h, refl)
Emits-stop es (t, threw c) f (h, e) = cc e

pub emit-Goes : (e : Event) → Goes (e ∷ []) tt (emit e)
unfolding perform
emit-Goes e = (refl, refl)

pub settle-Emits {ℓ} : {A : Type ℓ} (e : Event) → Emits (e ∷ []) (settle {A = A} e)
unfolding settle
settle-Emits e = (refl, refl)
