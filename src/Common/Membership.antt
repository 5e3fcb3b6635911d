-- ===== src/Common/Membership.antt =====
-- Some element of a list satisfies a predicate.
use digital_employee.Common.Tests.{Bool-cases}
use mathlib.Core.Path.{◌≡◌, refl}
use mathlib.Core.Logic.{◌↔◌, ◌⊎◌, inl, inr}
use mathlib.Core.Bool.{Bool, true}
use mathlib.Core.List.{List, [], ◌∷◌}
use native.Mathlib.Omega.{arith}
use Prim.Native.String.{String}
use text.Mathlib.Text.{◌==◌ as str_eq}
use text.Mathlib.TextEquality.{eq_iff}
use digital_employee.Common.Lists.{any}
use digital_employee.Common.Dict.{includes}

module _ {ℓ} {A : Type ℓ} (P : A → Type 0) where
  abbrev pub Any : List A → Type 0
  Any [] = ⊥
  Any (x ∷ xs) = P x ⊎ Any xs

-- A Boolean test of which `P` says when it passes.
module _ {ℓ} {A : Type ℓ} (p : A → Bool) (P : A → Type 0) where
  pub any-Any : (xs : List A) → ((x : A) → p x ≡ true → P x) → any p xs ≡ true → Any P xs
  any-Any [] to h = cc
  any-Any (x ∷ xs) to h = elim (Bool-cases (p x)) [
    | inl e ↦ inl (to x e)
    | inr e ↦ inr (any-Any xs to (ground (arith, h, e)))
  ]

  pub Any-any : (xs : List A) → ((x : A) → P x → p x ≡ true) → Any P xs → any p xs ≡ true
  Any-any [] from h = elim h [ ]
  Any-any (x ∷ xs) from (inl h) = rw (from x h) refl
  Any-any (x ∷ xs) from (inr h) = ground (arith, Any-any xs from h)

-- The text is one of the list.
abbrev pub Among : String → List String → Type 0
Among x = Any (λ y. y ≡ x)

pub includes_iff : (xs : List String) (x : String) → (includes xs x ≡ true) ↔ Among x xs
includes_iff xs x = (
  any-Any (λ y. str_eq y x) (λ y. y ≡ x) xs (λ y h. ground (arith, eq_iff y x)),
  Any-any (λ y. str_eq y x) (λ y. y ≡ x) xs (λ y h. ground (arith, eq_iff y x)),
)
