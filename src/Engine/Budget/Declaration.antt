-- ===== src/Engine/Budget/Declaration.antt =====
-- What a budget declaration that passed validatePositionBudgetDeclaration is known to hold.
use digital_employee.Common.{
  ℕ, String, subst, ◌≡◌, ◌≢◌, ◌≤◌, ◌<◌, ◌⊎◌, inl, inr, refl, true, Option, none, some, arith,
  eq_iff, ◌&&◌, Bool-cases,
}
use digital_employee.Common.Result.{ok, guard, bind_inv}
use digital_employee.Common.Value.{Value, Fields, undefined, num, end, field, member}
use digital_employee.Engine.Budget.{
  BudgetScope, PositionBudgetDeclaration, max_budget_cap, is_positive_bounded_int, check_keys,
  cap_of, scope_of, scope_allocated, validate_position_budget_declaration, validate_scopes,
  as_object, missing, not_allocated,
}

-- Every cap that is present is between 1 and the maximum.
abbrev pub IsCap : Option ℕ → Type 0
IsCap none = Unit
IsCap (some n) = (0 < n) × (n ≤ max_budget_cap)

-- A scope has a cap, and its caps are in range.
pub record IsAllocated (scope : BudgetScope) : Type 0 where
  pub tokens : IsCap scope.tokens
  pub iterations : IsCap scope.iterations
  pub some_cap : (scope.tokens ≢ none) ⊎ (scope.iterations ≢ none)

cap_of-IsCap : (v : Value) → is_positive_bounded_int v ≡ true → IsCap (cap_of v)
unfolding is_positive_bounded_int cap_of
cap_of-IsCap (num n) h = ground arith
cap_of-IsCap _ h = cc

cap_of-ne-none : (v : Value) → is_positive_bounded_int v ≡ true → cap_of v ≢ none
unfolding is_positive_bounded_int cap_of
cap_of-ne-none (num n) h = ground arith
cap_of-ne-none _ h = cc

-- A key that the loop has passed is a cap, or is absent.
check_keys-IsCap :
    (scope keys : Fields) (k : String)
    → check_keys scope keys ≡ ok tt
    → member k keys ≢ undefined
    → is_positive_bounded_int (member k scope) ≡ true
unfolding check_keys member
check_keys-IsCap scope end k h p = absurd (p refl)
check_keys-IsCap scope (field j v keys) k h p =
    ground (arith, eq_iff j k, check_keys-IsCap scope keys k)

cap_of-IsCap_present :
    (v : Value) → (v ≢ undefined → is_positive_bounded_int v ≡ true) → IsCap (cap_of v)
unfolding cap_of
cap_of-IsCap_present undefined h = tt
cap_of-IsCap_present (num n) h = cap_of-IsCap (num n) (h (λ e. cc))
cap_of-IsCap_present _ h = tt

scope_of-IsAllocated :
    (scope : Fields)
    → check_keys scope scope ≡ ok tt
    → scope_allocated scope ≡ true
    → IsAllocated (scope_of scope)
unfolding scope_of scope_allocated
scope_of-IsAllocated scope h a = record {
  tokens = cap_of-IsCap_present _ (check_keys-IsCap scope scope "tokens" h);
  iterations = cap_of-IsCap_present _ (check_keys-IsCap scope scope "iterations" h);
  some_cap = elim (Bool-cases (is_positive_bounded_int (member "tokens" scope))) [
    | inl t ↦ inl (cap_of-ne-none _ t)
    | inr f ↦ inr (cap_of-ne-none _ (ground arith))
  ];
}

validate_scopes-IsAllocated :
    (task_scope day_scope : Fields) {d : PositionBudgetDeclaration}
    → validate_scopes task_scope day_scope ≡ ok d
    → IsAllocated d.per_task × IsAllocated d.per_day
unfolding validate_scopes
validate_scopes-IsAllocated t s {d} h =
    let (_, ct, h1) = bind_inv (check_keys t t) _ h in
    let (_, cs, h2) = bind_inv (check_keys s s) _ h1 in
    let (_, a, h3) = bind_inv (guard (scope_allocated t && scope_allocated s) not_allocated) _ h2 in
    let e : ◌≡◌ {A = PositionBudgetDeclaration}
        (record { per_task = scope_of t; per_day = scope_of s }) d =
      cc in
    (
      subst (λ (x : PositionBudgetDeclaration). IsAllocated x.per_task) e
          (scope_of-IsAllocated t ct (ground arith)),
      subst (λ (x : PositionBudgetDeclaration). IsAllocated x.per_day) e
          (scope_of-IsAllocated s cs (ground arith)),
    )

-- A declaration that the validator accepts is fully allocated: each of its two scopes has a cap, and
-- every cap lies between 1 and the maximum.
pub validate_position_budget_declaration-IsAllocated :
    (v : Value) {d : PositionBudgetDeclaration}
    → validate_position_budget_declaration v ≡ ok d
    → IsAllocated d.per_task × IsAllocated d.per_day
unfolding validate_position_budget_declaration
validate_position_budget_declaration-IsAllocated v h =
    let (declared, _, h1) = bind_inv (as_object v missing) _ h in
    let (t, _, h2) = bind_inv (as_object (member "perTask" declared) not_allocated) _ h1 in
    let (s, _, h3) = bind_inv (as_object (member "perDay" declared) not_allocated) _ h2 in
    validate_scopes-IsAllocated t s h3
