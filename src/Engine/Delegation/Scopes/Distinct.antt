-- ===== src/Engine/Delegation/Scopes/Distinct.antt =====
-- A list without its repetitions holds the same texts.
use digital_employee.Common.{
  String, Bool, true, ◌||◌, ◌≡◌, refl, arith, inl, inr, List, [], ◌∷◌, any, All, eq_iff, str_eq,
  Bool-cases, if_cases,
}
use digital_employee.Common.Dict.{includes}
use digital_employee.Org.Permissions.{distinct}

includes-any :
    (f : String → Bool) (x : String) (seen : List String)
    → includes seen x ≡ true
    → f x ≡ true
    → any f seen ≡ true
includes-any f x [] h k = cc h
includes-any f x (y ∷ seen) h k = elim (Bool-cases (str_eq y x)) [
  | inl s ↦ ground (arith, (eq_iff y x).0 s, k)
  | inr s ↦ ground (arith, includes-any f x seen (ground (arith, h, s)) k)
]

pub distinct-any :
    (f : String → Bool) (seen xs : List String)
    → (any f (distinct seen xs) || any f seen) ≡ (any f xs || any f seen)
unfolding distinct
distinct-any f seen [] = refl
distinct-any f seen (x ∷ xs) = elim (Bool-cases (includes seen x)) [
  | inl old ↦ rw old (elim (Bool-cases (f x)) [
    | inl k ↦ ground (arith, includes-any f x seen old k, distinct-any f seen xs)
    | inr k ↦ ground (arith, k, distinct-any f seen xs)
  ])
  | inr new ↦ rw new (ground (arith, distinct-any f (x ∷ seen) xs))
]

pub distinct-All {κ} :
    (P : String → Type κ) (seen xs : List String) → All P xs → All P (distinct seen xs)
unfolding distinct
distinct-All P seen [] h = tt
distinct-All P seen (x ∷ xs) h =
    if_cases (All P) (includes seen x) (distinct seen xs) (x ∷ distinct (x ∷ seen) xs)
      (λ old. distinct-All P seen xs h.1) (λ new. (h.0, distinct-All P (x ∷ seen) xs h.1))
