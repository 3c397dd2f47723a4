-- ===== src/Budget/Tests.antt =====
-- The budget of a small plan, and the theorems on budgets at that plan.
use tripvault.Base.{◌*◌, ◌/◌, [], ◌∷◌, map, some, none, false, true, ◌≡◌, refl}
use tripvault.Domain.Kinds.{is_visit, item_stay_anchor, anchor_morning}
use tripvault.Domain.Records.{Item, Track}
use tripvault.Domain.Content.{DocumentContent}
use tripvault.Domain.Samples.{trip, content, first_day, lunch, room, walk, view}
use tripvault.Domain.Costs.{planned_total}
use tripvault.Base.Int64.{◌⊕◌}
use tripvault.Plan.{day_items, opening_leg, day_legs, day_expenses, stops_of}
use tripvault.Plan.Schedule.{schedule_day}
use tripvault.Budget.DayCosts.{budget_day_lem}
use tripvault.Budget.Build.{BudgetDay, add_all_to_day, day_entries, Rounding, build_budget}
use tripvault.Budget.Totals.{IsCounted, build_budget-IsCounted}

-- Quotients that are rounded down.
abbrev down : Rounding
down = record { quotient = λ a b. a / b; percent = λ a b. 100 * a / b }

plan_totals :
    let b = build_budget down trip content in
    (b.planned ≡ 35000)
    × (b.unassigned ≡ 1000)
    × (b.stays ≡ 30000)
    × (b.untied ≡ 4000)
    × (b.per_person ≡ 11666)
    × (b.remaining ≡ some 35000)
    × (b.used_percent ≡ some 50)
    × (map (λ d. d.planned) b.days ≡ 1000 ∷ [])
unfolding build_budget
plan_totals = (refl, refl, refl, refl, refl, refl, refl, refl)

build_budget-IsCounted_example : IsCounted (build_budget down trip content)
build_budget-IsCounted_example = build_budget-IsCounted down trip content

abbrev no_costs : BudgetDay
no_costs = record { day_id = 1; position = 0; date = none; planned = 0; actual = 0 }

-- The lunch is a walk with a view that costs 5.00 for each, from a room that the morning leaves.
abbrev morning : Item
morning = record lunch {
  id = 6;
  kind = item_stay_anchor;
  anchor = anchor_morning;
  stay_id = some room.id;
  planned_cost = none;
}

abbrev priced_walk : Track
priced_walk = record walk {
  stops = record view { planned_cost = some 500; cost_per_person = true } ∷ [];
}

abbrev with_walk : DocumentContent
with_walk = record content { items = morning ∷ content.items; tracks = priced_walk ∷ [] }

-- 10.00 for the lunch and 5.00 for each of three.
walk_planned : (add_all_to_day (day_entries with_walk 3 false 1) no_costs).planned ≡ 2500
unfolding day_items day_entries opening_leg day_legs day_expenses stops_of add_all_to_day
walk_planned = refl

budget_day_lem_example :
    let items = day_items with_walk.items (some 1) in
    let (schedules, summary) =
      schedule_day first_day items
        (opening_leg with_walk.legs items)
        (day_legs with_walk.legs items)
        3
        with_walk.tracks in
    (add_all_to_day (day_entries with_walk 3 false 1) no_costs).planned
    ≡ summary.planned_cost ⊕ planned_total (day_expenses with_walk.expenses (some 1))
unfolding stops_of is_visit
budget_day_lem_example =
    budget_day_lem with_walk first_day 3 false no_costs refl
      ((λ mark. refl), ((λ visit. cc), ((λ visit. refl), tt)))
