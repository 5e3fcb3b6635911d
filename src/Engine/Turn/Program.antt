-- ===== src/Engine/Turn/Program.antt =====
-- An asynchronous generator with early returns and exceptions: its effects so far, and how it
-- goes on.
use digital_employee.Common.{ℕ, List, [], ◌∷◌, ◌++◌}
use digital_employee.Engine.Turn.Events.{Event, Effect, emitted}

-- The counters of `executeTurn`, which its handler still sees after a throw.
pub record Consumed : Type 0 where
  pub iterations_used : ℕ
  pub tokens_used : ℕ

pub data Outcome {ℓ} (A : Type ℓ) : Type ℓ where
  go : A → Outcome A
  stop : Outcome A  -- the generator has returned
  threw : Consumed → Outcome A

abbrev pub Program {ℓ} : Type ℓ → Type ℓ
Program A = List Effect × Outcome A

abbrev pub resume {ℓ κ} :
    {A : Type ℓ} {B : Type κ} → List Effect → Outcome A → (A → Program B) → Program B
resume t (go a) f = let (t', o) = f a in (t ++ t', o)
resume t stop f = (t, stop)
resume t (threw c) f = (t, threw c)

infixl 5 ◌>>=◌ ◌>>◌
unfoldable pub ◌>>=◌ {ℓ κ} : {A : Type ℓ} {B : Type κ} → Program A → (A → Program B) → Program B
(t, o) >>= f = resume t o f

abbrev pub ◌>>◌ {ℓ} : {B : Type ℓ} → Program (Unit {0}) → Program B → Program B
m >> k = m >>= λ _. k

unfoldable pub return {ℓ} : {A : Type ℓ} → A → Program A
return a = ([], go a)

unfoldable pub perform : Effect → Program (Unit {0})
perform e = (e ∷ [], go tt)

-- `yield e`
abbrev pub emit : Event → Program (Unit {0})
emit e = perform (emitted e)

-- `yield e; return`
unfoldable pub settle {ℓ} : {A : Type ℓ} → Event → Program A
settle e = (emitted e ∷ [], stop)

unfoldable pub throw {ℓ} : {A : Type ℓ} → Consumed → Program A
throw c = ([], threw c)

abbrev pub recover {ℓ} : {A : Type ℓ} → List Effect → Outcome A → (Consumed → Program A) → Program A
recover t (go a) handler = (t, go a)
recover t stop handler = (t, stop)
recover t (threw c) handler = let (t', o) = handler c in (t ++ t', o)

-- `try m catch handler`
unfoldable pub try_catch {ℓ} : {A : Type ℓ} → Program A → (Consumed → Program A) → Program A
try_catch (t, o) handler = recover t o handler
