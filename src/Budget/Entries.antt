-- ===== src/Budget/Entries.antt =====
-- budget.go: what carries a cost, as lines of the budget.
use tripvault.Base.{
  Bool, false, not, ◌&&◌, ◌||◌, Option, none, some, List, [], ◌∷◌, ◌++◌, is_some, last_such,
  if◌then◌else◌, flat_map, ◌==◌,
}
use tripvault.Base.Int64.{Int64}
use tripvault.Base.Text.{Text}
use tripvault.Domain.Kinds.{
  CostCategory, cost_accommodation, cost_transport, ItemKind, item_stay_anchor, is_visit,
}
use tripvault.Domain.Values.{Uuid, Money}
use tripvault.Domain.Records.{Item, Stay, Track, Expense}
use tripvault.Domain.Journeys.{Leg, Transfer, transfer_planned_total, transfer_actual_total}
use tripvault.Domain.Costs.{money_or_zero, planned_cost_total, actual_cost_total}
use tripvault.Plan.{cost_item, stops_of}

-- `BudgetEntryKind`
pub data BudgetEntryKind : Type 0 where
  budget_place budget_stop budget_stay budget_transfer budget_leg budget_expense : BudgetEntryKind

-- `BudgetEntry`
pub record BudgetEntry : Type 0 where
  pub kind : BudgetEntryKind
  pub id : Uuid
  pub label : Text
  pub category : CostCategory
  pub day_id : Option Uuid
  pub amount : Money
  pub unit : Money
  pub per_person : Bool
  pub is_optional : Bool
  pub unassigned : Bool
  pub actual : Option Money

-- The map from a stay's identifier that `BuildBudget` makes: the last one wins.
unfoldable pub stay_by_id : List Stay → Uuid → Option Stay
stay_by_id stays id = last_such (λ (s : Stay). s.id == id) stays

abbrev stay_name : Option Stay → Text
stay_name none = []
stay_name (some s) = s.name

abbrev anchor_label : ItemKind → Option Uuid → Text → List Stay → Text
anchor_label item_stay_anchor (some stay) name stays = stay_name (stay_by_id stays stay)
anchor_label _ _ name stays = name

-- `ItemLabel`
unfoldable pub item_label : Item → List Stay → Text
unfolding stay_by_id
item_label i stays = anchor_label i.kind i.stay_id i.name stays

-- `hasCost`
unfoldable pub has_cost : Option Money → Option Money → Bool → Bool
has_cost planned actual report = is_some planned || report && is_some actual

-- `actualOf`
unfoldable pub actual_of : Option Money → Bool → Option Money
actual_of actual report = if not report then none else actual

-- `placeEntry`; `none` is the false beside an empty entry.
unfoldable pub place_entry : Item → Int64 → Bool → Option BudgetEntry
unfolding is_visit has_cost planned_cost_total actual_cost_total
place_entry i travelers report =
    if not (is_visit i.kind) || not (has_cost i.planned_cost i.actual_cost report)
    then none
    else some (record {
      kind = budget_place;
      id = i.id;
      label = i.name;
      category = i.cost_category;
      day_id = i.day_id;
      amount = planned_cost_total i travelers;
      unit = money_or_zero i.planned_cost;
      per_person = i.cost_per_person;
      is_optional = i.is_optional;
      unassigned = not (is_some i.day_id);
      actual =
          if report && is_some i.actual_cost then some (actual_cost_total i travelers) else none;
    })

abbrev pub as_stop : Option BudgetEntry → List BudgetEntry
as_stop none = []
as_stop (some entry) = record entry { kind = budget_stop } ∷ []

-- `stopEntries`
unfoldable pub stop_entries : Item → List Track → Int64 → Bool → List BudgetEntry
unfolding place_entry cost_item stops_of
stop_entries activity tracks travelers report =
    flat_map (λ s. as_stop (place_entry (cost_item s activity) travelers report))
      (stops_of tracks activity.id)

-- `stayEntry`
unfoldable pub stay_entry : Stay → Bool → Option BudgetEntry
unfolding has_cost actual_of
stay_entry s report =
    if not (has_cost s.planned_cost s.actual_cost report)
    then none
    else some (record {
      kind = budget_stay;
      id = s.id;
      label = s.name;
      category = cost_accommodation;
      day_id = none;
      amount = money_or_zero s.planned_cost;
      unit = money_or_zero s.planned_cost;
      per_person = false;
      is_optional = false;
      unassigned = false;
      actual = actual_of s.actual_cost report;
    })

-- `transferEntry`; the label has an arrow between spaces.
unfoldable pub transfer_entry : Transfer → Int64 → Bool → Option BudgetEntry
unfolding has_cost transfer_planned_total transfer_actual_total
transfer_entry t travelers report =
    if not (has_cost t.planned_cost t.actual_cost report)
    then none
    else some (record {
      kind = budget_transfer;
      id = t.id;
      label = t.from_name ++ 32 ∷ 0x2192 ∷ 32 ∷ t.to_name;
      category = cost_transport;
      day_id = none;
      amount = transfer_planned_total t travelers;
      unit = money_or_zero t.planned_cost;
      per_person = t.cost_per_person;
      is_optional = false;
      unassigned = false;
      actual =
          if report && is_some t.actual_cost
          then some (transfer_actual_total t travelers)
          else none;
    })

-- The loop of `legLabel`, with the names found so far.
unfoldable pub leg_label_from : Text → Text → Leg → List Item → List Stay → Text
unfolding item_label
leg_label_from from to l [] stays = from ++ 32 ∷ b'-' ∷ 32 ∷ to
leg_label_from from to l (i ∷ items) stays =
    let is_from = i.id == l.from_item_id in
    leg_label_from (if is_from then item_label i stays else from)
      (if not is_from && i.id == l.to_item_id then item_label i stays else to) l items stays

-- `legLabel`
unfoldable pub leg_label : Leg → List Item → List Stay → Text
unfolding leg_label_from
leg_label l items stays = leg_label_from [] [] l items stays

-- `legEntry`
unfoldable pub leg_entry :
    Option Leg → List Item → List Stay → Option Uuid → Bool → Option BudgetEntry
unfolding has_cost actual_of leg_label
leg_entry none items stays day report = none
leg_entry (some l) items stays day report =
    if not (has_cost l.planned_cost l.actual_cost report)
    then none
    else some (record {
      kind = budget_leg;
      id = l.id;
      label = leg_label l items stays;
      category = cost_transport;
      day_id = day;
      amount = money_or_zero l.planned_cost;
      unit = money_or_zero l.planned_cost;
      per_person = false;
      is_optional = false;
      unassigned = false;
      actual = actual_of l.actual_cost report;
    })

-- `expenseEntry`
unfoldable pub expense_entry : Expense → Bool → Option BudgetEntry
unfolding has_cost actual_of
expense_entry e report =
    if not (has_cost e.planned e.actual report)
    then none
    else some (record {
      kind = budget_expense;
      id = e.id;
      label = e.note;
      category = e.category;
      day_id = e.day_id;
      amount = money_or_zero e.planned;
      unit = money_or_zero e.planned;
      per_person = false;
      is_optional = false;
      unassigned = false;
      actual = actual_of e.actual report;
    })
