-- ===== src/Common/Result.antt =====
-- Fallible code: a value, or what was thrown.
use mathlib.Core.Path.{◌≡◌, refl}
use mathlib.Core.Bool.{Bool, true, false}
use mathlib.Core.Logic.{◌⊎◌, inl, inr}
use digital_employee.Common.Tests.{if◌then◌else◌}

pub data Result {ℓ κ} (E : Type ℓ) (A : Type κ) : Type (ℓ ⊔ κ) where
  ok : A → Result E A
  err : E → Result E A

infixl 5 ◌>>=◌ ◌>>◌
abbrev pub ◌>>=◌ {ℓ κ μ} :
    {E : Type ℓ} {A : Type κ} {B : Type μ} → Result E A → (A → Result E B) → Result E B
ok a >>= f = f a
err e >>= f = err e

abbrev pub ◌>>◌ {ℓ κ} : {E : Type ℓ} {B : Type κ} → Result E (Unit {0}) → Result E B → Result E B
m >> k = m >>= λ _. k

-- `if (!b) throw e`
abbrev pub guard {ℓ} : {E : Type ℓ} → Bool → E → Result E (Unit {0})
guard true e = ok tt
guard false e = err e

pub Result-cases {ℓ κ} :
    {E : Type ℓ} {A : Type κ} (r : Result E A) → ((a : A) × (r ≡ ok a)) ⊎ ((e : E) × (r ≡ err e))
Result-cases (ok a) = inl (a, refl)
Result-cases (err e) = inr (e, refl)

-- What a step that did not throw returned.
pub bind_inv {ℓ κ μ} :
    {E : Type ℓ} {A : Type κ} {B : Type μ} (r : Result E A) (k : A → Result E B) {y : B}
    → (r >>= k) ≡ ok y
    → (x : A) × (r ≡ ok x) × (k x ≡ ok y)
bind_inv (ok x) k h = (x, refl, h)
bind_inv (err e) k h = cc

-- A guard that did not throw.
pub guard_inv {ℓ κ} :
    {E : Type ℓ} {A : Type κ} (b : Bool) (e : E) (k : Result E A) {y : A}
    → (guard b e >> k) ≡ ok y
    → (b ≡ true) × (k ≡ ok y)
guard_inv true e k h = (refl, h)
guard_inv false e k h = cc h

-- A value that was checked and returned.
pub check_inv {ℓ κ} :
    {E : Type ℓ} {A : Type κ} (b : Bool) (x : A) (e : E) {y : A}
    → (if b then ok x else err e) ≡ ok y
    → (b ≡ true) × (x ≡ y)
check_inv true x e h = (refl, cc h)
check_inv false x e h = cc h

-- A value that was not refused.
pub refuse_inv {ℓ κ} :
    {E : Type ℓ} {A : Type κ} (b : Bool) (x : A) (e : E) {y : A}
    → (if b then err e else ok x) ≡ ok y
    → (b ≡ false) × (x ≡ y)
refuse_inv true x e h = cc h
refuse_inv false x e h = (refl, cc h)

pub ok_inj {ℓ κ} : {E : Type ℓ} {A : Type κ} {a b : A} → Path (Result E A) (ok a) (ok b) → a ≡ b
ok_inj h = cc h
