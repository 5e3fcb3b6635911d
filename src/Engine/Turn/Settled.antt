-- ===== src/Engine/Turn/Settled.antt =====
-- A turn ends with one terminal event, which is the last thing that it does.
pub mod Steps
pub mod Whole
use digital_employee.Common.{
  if_some, ℕ, zero, suc, String, ◌≡◌, refl, Bool, true, false, Option, none, some, List, [], ◌∷◌,
  ◌++◌, arith, if◌then◌else◌,
}
use digital_employee.Engine.Turn.Events.{Event, Effect, emitted, is_terminal_engine_event}
use digital_employee.Engine.Turn.Program.{
  throw, Program, Outcome, Consumed, go, stop, threw, return, perform, settle, try_catch, recover,
  resume, ◌>>=◌, ◌>>◌,
}

abbrev pub is_terminal : Effect → Bool
is_terminal (emitted e) = is_terminal_engine_event e
is_terminal _ = false

-- No terminal event.
abbrev pub IsOpen : List Effect → Type 0
IsOpen [] = Unit
IsOpen (e ∷ t) = (is_terminal e ≡ false) × IsOpen t

-- One terminal event, and nothing after it.
abbrev pub IsSettled : List Effect → Type 0
IsSettled [] = ⊥
IsSettled (e ∷ t) = if is_terminal e then t ≡ [] else IsSettled t

abbrev EndsWell {ℓ} : {A : Type ℓ} → List Effect → Outcome A → Type 0
EndsWell t (go a) = IsOpen t
EndsWell t stop = IsSettled t
EndsWell t (threw c) = IsOpen t

-- A program that has returned has settled; one that goes on or throws has not.
pub record Settles {ℓ} {A : Type ℓ} (m : Program A) : Type 0 where
  pub ends : EndsWell m.0 m.1

IsOpen-append : (s t : List Effect) → IsOpen s → IsOpen t → IsOpen (s ++ t)
IsOpen-append [] t hs ht = ht
IsOpen-append (e ∷ s) t hs ht = (hs.0, IsOpen-append s t hs.1 ht)

IsSettled-append : (s t : List Effect) → IsOpen s → IsSettled t → IsSettled (s ++ t)
IsSettled-append [] t hs ht = ht
IsSettled-append (e ∷ s) t hs ht = rw hs.0 (IsSettled-append s t hs.1 ht)

EndsWell-append {ℓ} :
    {A : Type ℓ} (s t : List Effect) (o : Outcome A) → IsOpen s → EndsWell t o → EndsWell (s ++ t) o
EndsWell-append s t (go a) hs ht = IsOpen-append s t hs ht
EndsWell-append s t stop hs ht = IsSettled-append s t hs ht
EndsWell-append s t (threw c) hs ht = IsOpen-append s t hs ht

Settles-resume {ℓ κ} :
    {A : Type ℓ} {B : Type κ} (t : List Effect) (o : Outcome A) (f : A → Program B)
    → EndsWell t o
    → ((a : A) → Settles (f a))
    → Settles (resume t o f)
Settles-resume t (go a) f h k = record { ends = EndsWell-append t (f a).0 (f a).1 h (k a).ends }
Settles-resume t stop f h k = record { ends = h }
Settles-resume t (threw c) f h k = record { ends = h }

pub Settles-bind {ℓ κ} :
    {A : Type ℓ} {B : Type κ} (m : Program A) (f : A → Program B)
    → Settles m
    → ((a : A) → Settles (f a))
    → Settles (m >>= f)
unfolding ◌>>=◌
Settles-bind (t, o) f h k = Settles-resume t o f h.ends k

Settles-recover {ℓ} :
    {A : Type ℓ} (t : List Effect) (o : Outcome A) (handler : Consumed → Program A)
    → EndsWell t o
    → ((c : Consumed) → Settles (handler c))
    → Settles (recover t o handler)
Settles-recover t (go a) handler h k = record { ends = h }
Settles-recover t stop handler h k = record { ends = h }
Settles-recover t (threw c) handler h k = record {
  ends = EndsWell-append t (handler c).0 (handler c).1 h (k c).ends;
}

pub Settles-try {ℓ} :
    {A : Type ℓ} (m : Program A) (handler : Consumed → Program A)
    → Settles m
    → ((c : Consumed) → Settles (handler c))
    → Settles (try_catch m handler)
unfolding try_catch
Settles-try (t, o) handler h k = Settles-recover t o handler h.ends k

pub Settles-return {ℓ} : {A : Type ℓ} (a : A) → Settles (return a)
unfolding return
Settles-return a = record { ends = tt }

pub Settles-throw {ℓ} : {A : Type ℓ} (c : Consumed) → Settles (throw {A = A} c)
unfolding throw
Settles-throw c = record { ends = tt }

pub Settles-perform : (e : Effect) → is_terminal e ≡ false → Settles (perform e)
unfolding perform
Settles-perform e h = record { ends = (h, tt) }

pub Settles-settle {ℓ} :
    {A : Type ℓ} (e : Event) → is_terminal_engine_event e ≡ true → Settles (settle {A = A} e)
unfolding settle
Settles-settle e h = record { ends = rw h refl }

pub Settles-if {ℓ} :
    {A : Type ℓ} (b : Bool) (m n : Program A) → Settles m → Settles n → Settles (if b then m else n)
Settles-if true m n hm hn = hm
Settles-if false m n hm hn = hn

pub Settles-if_some {ℓ κ} :
    {A : Type ℓ} {B : Type κ} (o : Option B) (f : B → Program A) (m : Program A)
    → ((b : B) → Settles (f b))
    → Settles m
    → Settles (if_some o f m)
unfolding if_some
Settles-if_some none f m hf hm = hm
Settles-if_some (some b) f m hf hm = hf b

pub ruleset settles_rules = (
  Settles-bind, Settles-try, Settles-return, Settles-throw, Settles-perform, Settles-settle,
  Settles-if, Settles-if_some, refl,
)
