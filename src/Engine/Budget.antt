-- ===== src/Engine/Budget.antt =====
-- packages/engine/src/budget.ts: the declaration's validator, the ledger and the budget check.
pub mod Declaration
pub mod Check
pub mod Ledger
use Prim.Native.String.{◌++◌ as append}
use digital_employee.Common.{
  ℕ, ◌+◌, String, Bool, false, ◌&&◌, ◌||◌, Option, none, some, List, str_eq, ltb, leb,
  if◌then◌else◌, or_else,
}
use digital_employee.Common.Dict
use digital_employee.Common.Dict.{Dict}
use digital_employee.Common.Result.{Result, ok, err, ◌>>=◌, ◌>>◌, guard}
use digital_employee.Common.Value.{Value, Fields, num, obj, undefined, null, end, field, member}

abbrev pub max_budget_cap : ℕ
max_budget_cap = 1_000_000_000

pub record BudgetScope : Type 0 where
  pub tokens : Option ℕ
  pub iterations : Option ℕ

pub record PositionBudgetDeclaration : Type 0 where
  pub per_task : BudgetScope
  pub per_day : BudgetScope

pub record BudgetUsage : Type 0 where
  pub task_used_tokens : ℕ
  pub task_used_iterations : ℕ
  pub day_used_tokens : ℕ
  pub day_used_iterations : ℕ

pub data BudgetDimension : Type 0 where
  position_day_tokens position_day_iterations : BudgetDimension
  position_task_tokens position_task_iterations : BudgetDimension
  turn_tokens turn_iterations : BudgetDimension

pub record BudgetExceeded : Type 0 where
  pub dimension : BudgetDimension
  pub used : ℕ
  pub limit : ℕ

pub record Increment : Type 0 where
  pub tokens : ℕ
  pub iterations : ℕ

-- The codes `workspace_org_budget_*`.
pub data BudgetError : Type 0 where
  missing not_allocated invalid : BudgetError

is_positive_bounded_int : Value → Bool
is_positive_bounded_int (num n) = ltb 0 n && leb n max_budget_cap
is_positive_bounded_int _ = false

scope_allocated : Fields → Bool
unfolding is_positive_bounded_int
scope_allocated scope =
    is_positive_bounded_int (member "tokens" scope)
    || is_positive_bounded_int (member "iterations" scope)

-- The loop over `Object.keys(scope)`; `keys` are the keys still to come.
check_keys : Fields → Fields → Result BudgetError (Unit {0})
unfolding is_positive_bounded_int
check_keys scope end = ok tt
check_keys scope (field key _ keys) = do
  guard (str_eq key "tokens" || str_eq key "iterations") invalid
  guard (is_positive_bounded_int (member key scope)) invalid
  check_keys scope keys

-- What a typed reader of a scope's entry sees.
cap_of : Value → Option ℕ
cap_of (num n) = some n
cap_of _ = none

scope_of : Fields → BudgetScope
unfolding cap_of
scope_of scope = record {
  tokens = cap_of (member "tokens" scope);
  iterations = cap_of (member "iterations" scope);
}

-- `typeof scope === "object"`, not null and no array
as_object : Value → BudgetError → Result BudgetError Fields
as_object (obj fs) e = ok fs
as_object _ e = err e

-- From the key checks of the two scopes on.
validate_scopes : Fields → Fields → Result BudgetError PositionBudgetDeclaration
unfolding check_keys scope_allocated scope_of
validate_scopes task_scope day_scope = do
  check_keys task_scope task_scope
  check_keys day_scope day_scope
  guard (scope_allocated task_scope && scope_allocated day_scope) not_allocated
  ok (record { per_task = scope_of task_scope; per_day = scope_of day_scope })

unfoldable pub validate_position_budget_declaration :
    Value → Result BudgetError PositionBudgetDeclaration
unfolding as_object validate_scopes
validate_position_budget_declaration value = do
  declared ← as_object value missing
  task_scope ← as_object (member "perTask" declared) not_allocated
  day_scope ← as_object (member "perDay" declared) not_allocated
  validate_scopes task_scope day_scope

abbrev pub empty_budget_usage : BudgetUsage
empty_budget_usage = record {
  task_used_tokens = 0;
  task_used_iterations = 0;
  day_used_tokens = 0;
  day_used_iterations = 0;
}

-- The in-memory ledger's `store`.
abbrev pub Ledger : Type 0
Ledger = Dict BudgetUsage

-- `${positionId}\u0000${taskId}\u0000${dayKey}`
unfoldable pub ledger_key : String → String → String → String
ledger_key position_id task_id day_key =
    append position_id (append "\0" (append task_id (append "\0" day_key)))

unfoldable pub read : Ledger → String → String → String → BudgetUsage
unfolding ledger_key
read store position_id task_id day_key =
    or_else (Dict.get (ledger_key position_id task_id day_key) store) empty_budget_usage

abbrev pub add_usage : BudgetUsage → Increment → BudgetUsage
add_usage current entry = record {
  task_used_tokens = current.task_used_tokens + entry.tokens;
  task_used_iterations = current.task_used_iterations + entry.iterations;
  day_used_tokens = current.day_used_tokens + entry.tokens;
  day_used_iterations = current.day_used_iterations + entry.iterations;
}

unfoldable pub commit : Ledger → String → String → String → Increment → Ledger
unfolding ledger_key
commit store position_id task_id day_key entry =
    let k = ledger_key position_id task_id day_key in
    Dict.set k (add_usage (or_else (Dict.get k store) empty_budget_usage) entry) store

-- `cap !== undefined && used > cap`
abbrev pub exceeds : Option ℕ → ℕ → Option ℕ
exceeds none used = none
exceeds (some cap) used = if ltb cap used then some cap else none

abbrev first_exceeded :
    BudgetDimension → Option ℕ → ℕ → Option BudgetExceeded → Option BudgetExceeded
first_exceeded dimension cap used rest = elim (exceeds cap used) [
  | none ↦ rest
  | some limit ↦ some (record { dimension = dimension; used = used; limit = limit })
]

unfoldable pub check_position_budget :
    PositionBudgetDeclaration → BudgetUsage → Increment → Option BudgetExceeded
check_position_budget declaration usage increment =
    first_exceeded position_day_tokens declaration.per_day.tokens
      (usage.day_used_tokens + increment.tokens)
      (first_exceeded position_day_iterations declaration.per_day.iterations
        (usage.day_used_iterations + increment.iterations)
        (first_exceeded position_task_tokens declaration.per_task.tokens
          (usage.task_used_tokens + increment.tokens)
          (first_exceeded position_task_iterations declaration.per_task.iterations
            (usage.task_used_iterations + increment.iterations) none)))
