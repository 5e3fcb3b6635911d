-- ===== src/Engine/Delegation/Scopes/Tools.antt =====
-- What the tool lists of a delegation hold.
use digital_employee.Common.{
  sort_by, String, Bool, ◌&&◌, ◌||◌, not, ◌≡◌, refl, ◌∙◌, arith, inl, inr, List, [], ◌∷◌, ◌++◌,
  any-sort_by, eq_iff, str_eq, Bool-cases,
}
use digital_employee.Common.Dict.{includes}
use digital_employee.Common.Text.{string_le}
use digital_employee.Org.Permissions.{distinct}
use digital_employee.Engine.Delegation.Scopes.{
  DelegationPositionPermissions, select, denied_tools, allowed_tools,
}
use digital_employee.Engine.Delegation.Scopes.Distinct.{distinct-any}

-- Sorting and dropping repetitions leave what a list holds.
tidy-includes :
    (xs : List String) (t : String)
    → includes (sort_by string_le (distinct [] xs)) t ≡ includes xs t
tidy-includes xs t =
    any-sort_by string_le (λ y. str_eq y t) (distinct [] xs)
    ∙ ground (arith, distinct-any (λ y. str_eq y t) [] xs)

includes-append :
    (xs ys : List String) (t : String) → includes (xs ++ ys) t ≡ (includes xs t || includes ys t)
includes-append [] ys t = refl
includes-append (x ∷ xs) ys t = ground (arith, includes-append xs ys t)

select-includes :
    (p : String → Bool) (xs : List String) (t : String)
    → includes (select p xs) t ≡ (includes xs t && p t)
unfolding select
select-includes p [] t = refl
select-includes p (x ∷ xs) t = elim (Bool-cases (str_eq x t)) [
  | inl s ↦ elim (Bool-cases (p x)) [
    | inl k ↦ ground (arith, s, k, (eq_iff x t).0 s, select-includes p xs t)
    | inr k ↦ ground (arith, s, k, (eq_iff x t).0 s, select-includes p xs t)
  ]
  | inr s ↦ ground (arith, s, select-includes p xs t)
]

denied_tools-includes :
    (parent worker : DelegationPositionPermissions) (t : String)
    → includes (denied_tools parent worker) t ≡ (includes parent.deny t || includes worker.deny t)
unfolding denied_tools
denied_tools-includes parent worker t =
    tidy-includes (parent.deny ++ worker.deny) t ∙ includes-append parent.deny worker.deny t

-- A delegation allows exactly the tools that both positions allow and neither denies.
pub allowed_tools-includes :
    (parent worker : DelegationPositionPermissions) (t : String)
    → includes (allowed_tools parent worker) t ≡ (
        includes parent.allow t
        && (includes worker.allow t && not (includes parent.deny t || includes worker.deny t)))
unfolding allowed_tools
allowed_tools-includes parent worker t =
    tidy-includes
      (select
        (λ tool. includes worker.allow tool && not (includes (denied_tools parent worker) tool))
        parent.allow)
      t
    ∙ select-includes
        (λ tool. includes worker.allow tool && not (includes (denied_tools parent worker) tool))
        parent.allow t
    ∙ rw (denied_tools-includes parent worker t) refl
