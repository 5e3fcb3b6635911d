-- ===== src/Examples/Budgets.antt =====
-- The position budget and its ledger at concrete entries.
use digital_employee.Common.{◌≡◌, ◌↔◌, refl, none, some, [], ◌∷◌}
use digital_employee.Common.Text.{includes_char}
use digital_employee.Common.Value.{Value, Fields, member}
use digital_employee.Engine.Budget.{
  PositionBudgetDeclaration, BudgetUsage, BudgetExceeded, Increment, check_position_budget,
  position_task_tokens, validate_position_budget_declaration, read,
}
use digital_employee.Engine.Budget.Check.{FitsAll, check_position_budget-none}
use digital_employee.Engine.Budget.Ledger.{read-commit_all, Entry, commit_all, charged}
use digital_employee.Engine.Budget.Declaration.{
  IsAllocated, validate_position_budget_declaration-IsAllocated,
}

abbrev declaration : PositionBudgetDeclaration
declaration = record {
  per_task = record { tokens = some 100; iterations = none };
  per_day = record { tokens = some 1000; iterations = some 5 };
}

abbrev usage : BudgetUsage
usage = record {
  task_used_tokens = 90;
  task_used_iterations = 1;
  day_used_tokens = 90;
  day_used_iterations = 1;
}

abbrev increment : Increment
increment = record { tokens = 20; iterations = 1 }

abbrev exceeded : BudgetExceeded
exceeded = record { dimension = position_task_tokens; used = 110; limit = 100 }

check_position_budget-none_example :
    (check_position_budget declaration usage increment ≡ none) ↔ FitsAll declaration usage increment
check_position_budget-none_example = check_position_budget-none declaration usage increment

abbrev entry : Entry
entry = record { position_id = "p"; task_id = "t"; day_key = "2026-01-01"; amount = increment }

-- Another task of the same position and day.
abbrev other : Entry
other = record entry { task_id = "u" }

read-commit_all_example :
    read (commit_all [] (entry ∷ other ∷ entry ∷ [])) "p" "t" "2026-01-01"
    ≡ charged "p" "t" "2026-01-01" (entry ∷ other ∷ entry ∷ [])
unfolding includes_char
read-commit_all_example =
    read-commit_all (entry ∷ other ∷ entry ∷ []) "p" "t" "2026-01-01"
      ((refl, refl), ((refl, refl), ((refl, refl), tt))) refl refl

-- `{ perTask: { tokens: 100 }, perDay: { tokens: 1000, iterations: 5 } }`
abbrev declared : Value
declared = Value.obj (
    Fields.field "perTask" (Value.obj (Fields.field "tokens" (Value.num 100) Fields.end)) (
      Fields.field "perDay"
        (Value.obj (
          Fields.field "tokens" (Value.num 1000)
            (Fields.field "iterations" (Value.num 5) Fields.end)))
        Fields.end))

validate_position_budget_declaration-IsAllocated_example :
    IsAllocated declaration.per_task × IsAllocated declaration.per_day
unfolding validate_position_budget_declaration member
validate_position_budget_declaration-IsAllocated_example =
    validate_position_budget_declaration-IsAllocated declared {d = declaration} refl
