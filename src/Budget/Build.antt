-- ===== src/Budget/Build.antt =====
-- budget.go: `BuildBudget`. Where the code appends an entry and adds it to the totals as it comes
-- to it, the model lists the entries of a part of the document and folds them in that order.
use tripvault.Base.{
  Bool, Option, none, some, List, [], ◌∷◌, ◌++◌, map, if◌then◌else◌, opt_list, flat_map, ◌==◌,
}
use tripvault.Base.Int64.{Int64, ◌⊕◌, ◌⊖◌, max64, le64, lt64}
use tripvault.Base.Text.{Text}
use tripvault.Domain.Kinds.{CostCategory, category_eq, cost_categories, DocumentKind, is_report}
use tripvault.Domain.Values.{Uuid, Money, Time}
use tripvault.Domain.Records.{Item, Stay, Expense, Track, Day}
use tripvault.Domain.Journeys.{Transfer}
use tripvault.Domain.Content.{DocumentContent, Trip}
use tripvault.Domain.Costs.{money_or_zero}
use tripvault.Plan.{day_items, opening_leg, day_legs, day_expenses, stop_cost_items}
use tripvault.Split.Balances.{MemberBalance, Settlement, build_balances}
use tripvault.Budget.Entries.{
  BudgetEntry, place_entry, stop_entries, stay_entry, transfer_entry, leg_entry, expense_entry,
}

-- `BudgetCategory`
pub record BudgetCategory : Type 0 where
  pub category : CostCategory
  pub planned : Money
  pub actual : Money

-- `BudgetDay`
pub record BudgetDay : Type 0 where
  pub day_id : Uuid
  pub position : Int64
  pub date : Option Time
  pub planned : Money
  pub actual : Money

-- `Budget`; `settlements` is `none` only if the loop that finds them ran out of its bound.
pub record Budget : Type 0 where
  pub kind : DocumentKind
  pub currency : Text
  pub travelers : Int64
  pub budget : Option Money
  pub planned : Money
  pub unassigned : Money
  pub stays : Money
  pub transfers : Money
  pub untied : Money
  pub actual : Money
  pub per_person : Money
  pub remaining : Option Money
  pub used_percent : Option Int64
  pub categories : List BudgetCategory
  pub days : List BudgetDay
  pub entries : List BudgetEntry
  pub balances : List MemberBalance
  pub settlements : Option (List Settlement)

-- Adding to the category that an entry names; a name that is not listed adds nowhere.
unfoldable pub add_to_category :
    CostCategory → Money → Money → List BudgetCategory → List BudgetCategory
unfolding category_eq
add_to_category category planned actual [] = []
add_to_category category planned actual (c ∷ cs) =
    if category_eq c.category category
    then record c { planned = c.planned ⊕ planned; actual = c.actual ⊕ actual } ∷ cs
    else c ∷ add_to_category category planned actual cs

-- Appending an entry, and `addEntry` on the budget.
unfoldable pub add_entry : BudgetEntry → Budget → Budget
unfolding add_to_category
add_entry e b =
    let b' = record b { entries = b.entries ++ e ∷ [] } in
    if e.unassigned then record b' { unassigned = b.unassigned ⊕ e.amount } else record b' {
      planned = b.planned ⊕ e.amount;
      actual = b.actual ⊕ money_or_zero e.actual;
      categories = add_to_category e.category e.amount (money_or_zero e.actual) b.categories;
    }

-- `addEntry` on the day that it is given.
unfoldable pub add_to_day : BudgetEntry → BudgetDay → BudgetDay
add_to_day e d =
    if e.unassigned
    then d
    else record d { planned = d.planned ⊕ e.amount; actual = d.actual ⊕ money_or_zero e.actual }

unfoldable pub add_entries : List BudgetEntry → Budget → Budget
unfolding add_entry
add_entries [] b = b
add_entries (e ∷ es) b = add_entries es (add_entry e b)

unfoldable pub add_all_to_day : List BudgetEntry → BudgetDay → BudgetDay
unfolding add_to_day
add_all_to_day [] d = d
add_all_to_day (e ∷ es) d = add_all_to_day es (add_to_day e d)

-- A place or an activity, and the stops along its line.
unfoldable pub item_entries : List Track → Int64 → Bool → Item → List BudgetEntry
unfolding place_entry stop_entries
item_entries tracks travelers report i =
    opt_list (place_entry i travelers report) ++ stop_entries i tracks travelers report

-- The entries of one day, in the order of the loop over the days.
unfoldable pub day_entries : DocumentContent → Int64 → Bool → Uuid → List BudgetEntry
unfolding item_entries leg_entry expense_entry day_items day_legs opening_leg day_expenses
day_entries content travelers report day =
    let items = day_items content.items (some day) in
    flat_map (item_entries content.tracks travelers report) items
    ++ (flat_map (λ l. opt_list (leg_entry l content.items content.stays (some day) report))
          (opening_leg content.legs items ∷ day_legs content.legs items)
        ++ flat_map (λ e. opt_list (expense_entry e report))
            (day_expenses content.expenses (some day)))

-- One round of the loop over the days.
unfoldable pub add_day : DocumentContent → Bool → Day → Budget → Budget
unfolding add_entries add_all_to_day day_entries
add_day content report day b =
    let entries = day_entries content b.travelers report day.id in
    let total : BudgetDay = record {
      day_id = day.id;
      position = day.position;
      date = day.date;
      planned = 0;
      actual = 0;
    } in
    let b' = add_entries entries b in
    record b' { days = b'.days ++ add_all_to_day entries total ∷ [] }

unfoldable pub add_days : DocumentContent → Bool → List Day → Budget → Budget
unfolding add_day
add_days content report [] b = b
add_days content report (d ∷ ds) b = add_days content report ds (add_day content report d b)

-- One round of the loop over the stays: an entry, if there is one, counts among the stays.
abbrev pub add_stay_entry : Option BudgetEntry → Budget → Budget
add_stay_entry none b = b
add_stay_entry (some e) b = let b' = add_entry e b in record b' { stays = b'.stays ⊕ e.amount }

unfoldable pub add_stays : Bool → List Stay → Budget → Budget
unfolding stay_entry add_entry
add_stays report [] b = b
add_stays report (s ∷ ss) b = add_stays report ss (add_stay_entry (stay_entry s report) b)

abbrev pub add_transfer_entry : Option BudgetEntry → Budget → Budget
add_transfer_entry none b = b
add_transfer_entry (some e) b =
    let b' = add_entry e b in record b' { transfers = b'.transfers ⊕ e.amount }

unfoldable pub add_transfers : Bool → List Transfer → Budget → Budget
unfolding transfer_entry add_entry
add_transfers report [] b = b
add_transfers report (t ∷ ts) b =
    add_transfers report ts (add_transfer_entry (transfer_entry t b.travelers report) b)

abbrev pub add_untied_entry : Option BudgetEntry → Budget → Budget
add_untied_entry none b = b
add_untied_entry (some e) b = let b' = add_entry e b in record b' { untied = b'.untied ⊕ e.amount }

unfoldable pub add_untied : Bool → List Expense → Budget → Budget
unfolding expense_entry add_entry
add_untied report [] b = b
add_untied report (e ∷ es) b = add_untied report es (add_untied_entry (expense_entry e report) b)

-- The places that are on no day, with their stops.
unfoldable pub unassigned_entries : DocumentContent → Int64 → Bool → List BudgetEntry
unfolding item_entries day_items
unassigned_entries content travelers report =
    flat_map (item_entries content.tracks travelers report) (day_items content.items none)

-- The divisions of floating-point numbers that `perPerson` and `usedPercent` round:
-- `math.Round(float64(a) / float64(b))`, and the same times 100.
pub record Rounding : Type 0 where
  pub quotient : Int64 → Int64 → Int64
  pub percent : Int64 → Int64 → Int64

-- `perPerson`
unfoldable pub per_person_of : Rounding → Money → Int64 → Money
per_person_of rounding total travelers = if total == 0 then 0 else rounding.quotient total travelers

-- `usedPercent`
unfoldable pub used_percent_of : Rounding → Money → Money → Int64
used_percent_of rounding planned budget =
    if le64 budget 0 then (if lt64 0 planned then 100 else 0) else rounding.percent planned budget

-- The budget before anything is counted.
unfoldable pub empty_budget : Trip → Budget
empty_budget trip = record {
  kind = trip.kind;
  currency = trip.currency;
  travelers = max64 trip.travelers 1;
  budget = trip.budget;
  planned = 0;
  unassigned = 0;
  stays = 0;
  transfers = 0;
  untied = 0;
  actual = 0;
  per_person = 0;
  remaining = none;
  used_percent = none;
  categories = map (λ c. record { category = c; planned = 0; actual = 0 }) cost_categories;
  days = [];
  entries = [];
  balances = [];
  settlements = some [];
}

-- The loops of `BuildBudget`, one after the other.
unfoldable pub count_costs : Trip → DocumentContent → Budget
unfolding empty_budget add_days add_stays add_transfers add_untied unassigned_entries add_entries
    day_expenses
count_costs trip content =
    let report = is_report trip.kind in
    let b = add_days content report content.days (empty_budget trip) in
    let b₁ = add_stays report content.stays b in
    let b₂ = add_transfers report content.transfers b₁ in
    let b₃ = add_untied report (day_expenses content.expenses none) b₂ in
    add_entries (unassigned_entries content b₃.travelers report) b₃

-- What is left of the trip's budget, and how much of it is used.
abbrev pub compare_budget : Rounding → Option Money → Money → Budget → Budget
compare_budget rounding none spent b = b
compare_budget rounding (some budget) spent b = record b {
  remaining = some (budget ⊖ spent);
  used_percent = some (used_percent_of rounding spent budget);
}

-- `BuildBudget`
unfoldable pub build_budget : Rounding → Trip → DocumentContent → Budget
unfolding count_costs build_balances stop_cost_items per_person_of used_percent_of
build_budget rounding trip content =
    let b = count_costs trip content in
    let report = is_report trip.kind in
    let (balances, settlements) =
      build_balances (content.items ++ stop_cost_items content) b.travelers report in
    let spent = if report then b.actual else b.planned in
    compare_budget rounding trip.budget spent (record b {
      balances = balances;
      settlements = settlements;
      per_person = per_person_of rounding spent b.travelers;
    })
