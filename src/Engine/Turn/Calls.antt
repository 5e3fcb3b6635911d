-- ===== src/Engine/Turn/Calls.antt =====
-- How often a turn calls the model.
pub mod Steps
pub mod Bounds
pub mod Emitted
pub mod Closing
pub mod Closed
use digital_employee.Common.{
  ℕ, zero, suc, ◌+◌, ◌≤◌, String, ◌≡◌, refl, Bool, true, false, Option, none, some, List, [], ◌∷◌,
  ◌++◌, arith, if◌then◌else◌, if_some,
}
use digital_employee.Engine.Turn.Events.{Event, Effect, emitted, model_called}
use digital_employee.Engine.Turn.Program.{
  Program, Outcome, Consumed, go, stop, threw, throw, return, perform, settle, try_catch, recover,
  resume, ◌>>=◌,
}

abbrev is_call : Effect → Bool
is_call (model_called violations) = true
is_call _ = false

-- The calls of the model among some effects.
abbrev pub calls : List Effect → ℕ
calls [] = 0
calls (e ∷ t) = if is_call e then suc (calls t) else calls t

-- The program calls the model at most `n` times.
pub record Calls {ℓ} (n : ℕ) {A : Type ℓ} (m : Program A) : Type 0 where
  pub at_most : calls m.0 ≤ n

-- The program does not call the model.
abbrev pub Silent {ℓ} : {A : Type ℓ} → Program A → Type 0
Silent m = Calls 0 m

pub calls-append : (s t : List Effect) → calls (s ++ t) ≡ calls s + calls t
calls-append [] t = omega arith
calls-append (e ∷ s) t = ground (arith, calls-append s t)

Calls-resume {ℓ κ} :
    {A : Type ℓ} {B : Type κ} (n k : ℕ) (t : List Effect) (o : Outcome A) (f : A → Program B)
    → calls t ≤ n
    → ((a : A) → Calls k (f a))
    → Calls (n + k) (resume t o f)
Calls-resume n k t (go a) f h hf = record {
  at_most = omega (arith, calls-append t (f a).0, (hf a).at_most);
}
Calls-resume n k t stop f h hf = record { at_most = omega arith }
Calls-resume n k t (threw c) f h hf = record { at_most = omega arith }

pub Calls-bind {ℓ κ} :
    {A : Type ℓ} {B : Type κ} (n k : ℕ) (m : Program A) (f : A → Program B)
    → Calls n m
    → ((a : A) → Calls k (f a))
    → Calls (n + k) (m >>= f)
unfolding ◌>>=◌
Calls-bind n k (t, o) f h hf = Calls-resume n k t o f h.at_most hf

-- A silent program in front adds no call.
pub Calls-after {ℓ κ} :
    {A : Type ℓ} {B : Type κ} {k : ℕ} (m : Program A) (f : A → Program B)
    → Silent m
    → ((a : A) → Calls k (f a))
    → Calls k (m >>= f)
Calls-after {k = k} m f h hf = record { at_most = omega (arith, (Calls-bind 0 k m f h hf).at_most) }

pub Calls-le {ℓ} : {A : Type ℓ} (n k : ℕ) (m : Program A) → Calls n m → n ≤ k → Calls k m
Calls-le n k m h l = record { at_most = omega (arith, h.at_most) }

Calls-recover {ℓ} :
    {A : Type ℓ} (n : ℕ) (t : List Effect) (o : Outcome A) (handler : Consumed → Program A)
    → calls t ≤ n
    → ((c : Consumed) → Silent (handler c))
    → Calls n (recover t o handler)
Calls-recover n t (go a) handler h k = record { at_most = h }
Calls-recover n t stop handler h k = record { at_most = h }
Calls-recover n t (threw c) handler h k = record {
  at_most = omega (arith, calls-append t (handler c).0, (k c).at_most);
}

pub Calls-try {ℓ} :
    {A : Type ℓ} {n : ℕ} (m : Program A) (handler : Consumed → Program A)
    → Calls n m
    → ((c : Consumed) → Silent (handler c))
    → Calls n (try_catch m handler)
unfolding try_catch
Calls-try {n = n} (t, o) handler h k = Calls-recover n t o handler h.at_most k

pub Silent-return {ℓ} : {A : Type ℓ} (a : A) → Silent (return a)
unfolding return
Silent-return a = record { at_most = omega arith }

pub Silent-throw {ℓ} : {A : Type ℓ} (c : Consumed) → Silent (throw {A = A} c)
unfolding throw
Silent-throw c = record { at_most = omega arith }

pub Silent-perform : (e : Effect) → is_call e ≡ false → Silent (perform e)
unfolding perform
Silent-perform e h = record { at_most = ground arith }

pub Silent-settle {ℓ} : {A : Type ℓ} (e : Event) → Silent (settle {A = A} e)
unfolding settle
Silent-settle e = record { at_most = omega arith }

pub Calls-if {ℓ} :
    {A : Type ℓ} {n : ℕ} (b : Bool) (m k : Program A)
    → Calls n m
    → Calls n k
    → Calls n (if b then m else k)
Calls-if true m k hm hk = hm
Calls-if false m k hm hk = hk

pub Calls-if_some {ℓ κ} :
    {A : Type ℓ} {B : Type κ} {n : ℕ} (o : Option B) (f : B → Program A) (m : Program A)
    → ((b : B) → Calls n (f b))
    → Calls n m
    → Calls n (if_some o f m)
unfolding if_some
Calls-if_some none f m hf hm = hm
Calls-if_some (some b) f m hf hm = hf b

pub ruleset silent_rules = (
  Calls-after, Calls-try, Silent-return, Silent-throw, Silent-perform, Silent-settle, Calls-if,
  Calls-if_some, refl,
)
