-- ===== src/Engine/Budget/Check.antt =====
-- checkPositionBudget against the caps that it enforces.
use digital_employee.Common.{ℕ, ◌+◌, ◌≤◌, ◌<◌, ◌≡◌, ◌↔◌, Option, none, some, arith}
use digital_employee.Engine.Budget.{
  PositionBudgetDeclaration, BudgetUsage, BudgetDimension, BudgetExceeded, Increment,
  position_day_tokens, position_day_iterations, position_task_tokens, position_task_iterations,
  turn_tokens, turn_iterations, check_position_budget,
}

-- An absent cap admits any use.
abbrev pub Fits : Option ℕ → ℕ → Type 0
Fits none used = Unit
Fits (some cap) used = used ≤ cap

-- The use that a dimension would reach.
abbrev pub reached : BudgetUsage → Increment → BudgetDimension → ℕ
reached u i position_day_tokens = u.day_used_tokens + i.tokens
reached u i position_day_iterations = u.day_used_iterations + i.iterations
reached u i position_task_tokens = u.task_used_tokens + i.tokens
reached u i position_task_iterations = u.task_used_iterations + i.iterations
reached u i turn_tokens = 0
reached u i turn_iterations = 0

abbrev pub cap_for : PositionBudgetDeclaration → BudgetDimension → Option ℕ
cap_for d position_day_tokens = d.per_day.tokens
cap_for d position_day_iterations = d.per_day.iterations
cap_for d position_task_tokens = d.per_task.tokens
cap_for d position_task_iterations = d.per_task.iterations
cap_for d turn_tokens = none
cap_for d turn_iterations = none

pub record FitsAll (d : PositionBudgetDeclaration) (u : BudgetUsage) (i : Increment) : Type 0 where
  pub day_tokens : Fits d.per_day.tokens (u.day_used_tokens + i.tokens)
  pub day_iterations : Fits d.per_day.iterations (u.day_used_iterations + i.iterations)
  pub task_tokens : Fits d.per_task.tokens (u.task_used_tokens + i.tokens)
  pub task_iterations : Fits d.per_task.iterations (u.task_used_iterations + i.iterations)

-- The check passes exactly when all four caps, where present, hold after the increment.
pub check_position_budget-none :
    (d : PositionBudgetDeclaration) (u : BudgetUsage) (i : Increment)
    → (check_position_budget d u i ≡ none) ↔ FitsAll d u i
unfolding check_position_budget
check_position_budget-none d u i = ground arith

-- The order in which the dimensions are looked at.
abbrev pub rank : BudgetDimension → ℕ
rank position_day_tokens = 0
rank position_day_iterations = 1
rank position_task_tokens = 2
rank position_task_iterations = 3
rank turn_tokens = 4
rank turn_iterations = 4

check_position_budget-earlier_fit :
    (d : PositionBudgetDeclaration) (u : BudgetUsage) (i : Increment) {e : BudgetExceeded}
    → check_position_budget d u i ≡ some e
    → (j : BudgetDimension) → rank j < rank e.dimension
    → Fits (cap_for d j) (reached u i j)
unfolding check_position_budget
check_position_budget-earlier_fit d u i h position_day_tokens lt = ground arith
check_position_budget-earlier_fit d u i h _ lt = ground arith

-- When the check fails, the dimension it reports is the first, in the order day tokens, day
-- iterations, task tokens, task iterations, whose cap the use passes; the reported limit is that
-- cap, and the reported use is the use after the increment.
pub check_position_budget-some :
    (d : PositionBudgetDeclaration) (u : BudgetUsage) (i : Increment) {e : BudgetExceeded}
    → check_position_budget d u i ≡ some e
    → (cap_for d e.dimension ≡ some e.limit)
      × (e.used ≡ reached u i e.dimension)
      × (e.limit < e.used)
      × ((j : BudgetDimension) → rank j < rank e.dimension → Fits (cap_for d j) (reached u i j))
unfolding check_position_budget
check_position_budget-some d u i h =
    (ground arith, ground arith, ground arith, check_position_budget-earlier_fit d u i h)
