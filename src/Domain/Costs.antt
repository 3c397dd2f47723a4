-- ===== src/Domain/Costs.antt =====
-- document.go, report.go and expense.go: what costs come to for the whole group.
use tripvault.Base.{Bool, Option, none, some, List, map, if◌then◌else◌}
use tripvault.Base.Int64.{Int64, mul64, max64, sum64}
use tripvault.Domain.Values.{Money}
use tripvault.Domain.Records.{Item, Expense}

-- `moneyOrZero`
abbrev pub money_or_zero : Option Money → Money
money_or_zero none = 0
money_or_zero (some m) = m

-- `perGroup`
unfoldable pub per_group : Option Money → Bool → Int64 → Money
per_group none per_person travelers = 0
per_group (some amount) per_person travelers =
    if per_person then mul64 amount (max64 travelers 1) else amount

-- `Item.PlannedCostTotal`
unfoldable pub planned_cost_total : Item → Int64 → Money
unfolding per_group
planned_cost_total i travelers = per_group i.planned_cost i.cost_per_person travelers

-- `Item.ActualCostTotal`
unfoldable pub actual_cost_total : Item → Int64 → Money
unfolding per_group
actual_cost_total i travelers = per_group i.actual_cost i.cost_per_person travelers

-- `PlannedTotal`
unfoldable pub planned_total : List Expense → Money
unfolding sum64
planned_total expenses = sum64 (map (λ e. money_or_zero e.planned) expenses)

-- `ActualTotal`
unfoldable pub actual_total : List Expense → Money
unfolding sum64
actual_total expenses = sum64 (map (λ e. money_or_zero e.actual) expenses)
