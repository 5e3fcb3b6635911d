-- ===== src/Engine/Delegation/Scopes/Order.antt =====
-- Containment of scopes: transitive, and linear above a path.
use Prim.Native.String.{◌++◌ as str_append}
use text.Mathlib.TextLemmas.{append_cancel_right}
use digital_employee.Common.{
  String, true, false, ◌≡◌, refl, subst, sym, ◌∙◌, arith, ◌⊎◌, inl, inr, str_eq, eq_iff, Bool-cases,
}
use digital_employee.Common.Text.{ends_with_char}
use digital_employee.Common.Prefixes.{
  Begins, Begins-refl, Begins-trans, Begins-append, Begins-antisym, Begins-chain, Begins-snoc,
}
use digital_employee.Engine.Delegation.Scopes.{directory_of, scope_contains}

-- Scopes and workspace paths are relative to "./".
abbrev pub IsRelative : String → Type 0
IsRelative s = Begins s "./"

-- What containment says.
data Contained (container candidate : String) : Type 0 where
  everything : container ≡ "./" → Contained container candidate
  itself : candidate ≡ container → Contained container candidate
  inside : Begins candidate (directory_of container) → Contained container candidate

contained_inv : (a b : String) → scope_contains a b ≡ true → Contained a b
unfolding scope_contains
contained_inv a b h = elim (Bool-cases (str_eq a "./")) [
  | inl e ↦ everything ((eq_iff a "./").0 e)
  | inr e ↦ elim (Bool-cases (str_eq b a)) [
    | inl s ↦ itself ((eq_iff b a).0 s)
    | inr s ↦ inside (ground (arith, h, e, s))
  ]
]

contains_root : (a b : String) → a ≡ "./" → scope_contains a b ≡ true
unfolding scope_contains
contains_root a b h = ground (arith, h, eq_iff a "./")

contains_itself : (a b : String) → b ≡ a → scope_contains a b ≡ true
unfolding scope_contains
contains_itself a b h = ground (arith, h, eq_iff b a)

contains_inside : (a b : String) → Begins b (directory_of a) → scope_contains a b ≡ true
unfolding scope_contains
contains_inside a b h = ground (arith, h)

directory_of-Begins : (a : String) → Begins (directory_of a) a
unfolding directory_of
directory_of-Begins a = elim (Bool-cases (ends_with_char 47 a)) [
  | inl d ↦ rw d (Begins-refl a)
  | inr f ↦ rw f (Begins-append a "/")
]

-- Nothing but the root holds the root.
root_inside : (a : String) → IsRelative a → Begins "./" (directory_of a) → a ≡ "./"
root_inside a r h =
    Begins-antisym a "./" r (Begins-trans "./" (directory_of a) a h (directory_of-Begins a))

pub scope_contains_trans :
    (a b p : String)
    → IsRelative a
    → scope_contains a b ≡ true
    → scope_contains b p ≡ true
    → scope_contains a p ≡ true
scope_contains_trans a b p r h k = elim (contained_inv a b h) [
  | everything e ↦ contains_root a p e
  | itself e ↦ subst (λ x. scope_contains x p ≡ true) e k
  | inside i ↦ elim (contained_inv b p k) [
    | everything e ↦
        contains_root a p (root_inside a r (subst (λ x. Begins x (directory_of a)) e i))
    | itself e ↦ contains_inside a p (subst (λ x. Begins x (directory_of a)) (sym e) i)
    | inside j ↦ contains_inside a p (
        Begins-trans p b (directory_of a)
          (Begins-trans p (directory_of b) b j (directory_of-Begins b)) i)
  ]
]

directory_of-slash : (a : String) → ends_with_char 47 a ≡ true → directory_of a ≡ a
unfolding directory_of
directory_of-slash a d = rw d refl

directory_of-none : (a : String) → ends_with_char 47 a ≡ false → directory_of a ≡ str_append a "/"
unfolding directory_of
directory_of-none a f = rw f refl

abbrev Comparable : String → String → Type 0
Comparable a b = (scope_contains a b ≡ true) ⊎ (scope_contains b a ≡ true)

-- Two scopes of one directory.
same_directory : (a b : String) → directory_of a ≡ directory_of b → Comparable a b
same_directory a b h = elim (Bool-cases (ends_with_char 47 a)) [
  | inl d ↦ inr (
      contains_inside b a (subst (λ x. Begins a x) h (rw (directory_of-slash a d) (Begins-refl a))))
  | inr f ↦ elim (Bool-cases (ends_with_char 47 b)) [
    | inl d ↦ inl (
        contains_inside a b
          (subst (λ x. Begins b x) (sym h) (rw (directory_of-slash b d) (Begins-refl b))))
    | inr g ↦ inl (
        contains_itself a b
          (append_cancel_right b a "/" (cc (h, directory_of-none a f, directory_of-none b g))))
  ]
]

-- Of two directories where one begins with the other, one scope contains the other.
nested : (a b : String) → Begins (directory_of b) (directory_of a) → Comparable a b
nested a b h = elim (Bool-cases (ends_with_char 47 b)) [
  | inl d ↦
      inl (contains_inside a b (subst (λ x. Begins x (directory_of a)) (directory_of-slash b d) h))
  | inr f ↦
      elim (Begins-snoc b (directory_of a) _
        (subst (λ x. Begins x (directory_of a)) (directory_of-none b f) h)) [
          | inl l ↦ inl (contains_inside a b l)
          | inr e ↦ same_directory a b (e ∙ sym (directory_of-none b f))
        ]
]

-- Of two scopes that contain one path, one contains the other.
pub scope_contains-linear :
    (a b p : String)
    → scope_contains a p ≡ true
    → scope_contains b p ≡ true
    → (scope_contains a b ≡ true) ⊎ (scope_contains b a ≡ true)
scope_contains-linear a b p h k = elim (contained_inv a p h) [
  | everything e ↦ inl (contains_root a b e)
  | itself e ↦ inr (subst (λ x. scope_contains b x ≡ true) e k)
  | inside i ↦ elim (contained_inv b p k) [
    | everything e ↦ inr (contains_root b a e)
    | itself e ↦ inl (contains_inside a b (subst (λ x. Begins x (directory_of a)) e i))
    | inside j ↦ elim (Begins-chain p (directory_of a) (directory_of b) i j) [
      | inl l ↦ elim (nested b a l) [ inl x ↦ inr x | inr y ↦ inl y ]
      | inr r ↦ nested a b r
    ]
  ]
]
