-- ===== src/Budget/Planned.antt =====
-- What the entries of a day plan to spend, kind by kind.
use tripvault.Base.{
  ◌<◌, Bool, true, Option, none, some, List, [], ◌∷◌, ◌++◌, map, select, flat_map, opt_list,
  if◌then◌else◌, ◌≡◌, refl, ◌∙◌, is_some, All, arith, Bool-cases, inl, inr,
}
use tripvault.Base.Int64.{Int64, ◌⊕◌, sum64, sum64-lt, word}
use tripvault.Domain.Kinds.{is_visit}
use tripvault.Domain.Values.{Money, Uuid}
use tripvault.Domain.Costs.{money_or_zero, planned_cost_total, per_group}
use tripvault.Domain.Records.{Item, Stop, Track, Stay, Expense}
use tripvault.Domain.Journeys.{Leg}
use tripvault.Plan.{stops_of, cost_item}
use tripvault.Budget.Entries.{
  BudgetEntry, place_entry, stop_entries, leg_entry, expense_entry, has_cost, as_stop,
}
use tripvault.Budget.Build.{BudgetDay, add_all_to_day, add_to_day}
use tripvault.Budget.Totals.{sum_over, is_assigned, amount_of}

-- What the entries plan to spend.
abbrev pub planned_of : List BudgetEntry → Money
planned_of = sum_over is_assigned amount_of

pub planned_of-append :
    (es fs : List BudgetEntry) → planned_of (es ++ fs) ≡ planned_of es ⊕ planned_of fs
unfolding sum64
planned_of-append [] fs = omega (arith, sum64-lt (map amount_of (select is_assigned fs)))
planned_of-append (e ∷ es) fs = elim (Bool-cases e.unassigned) [
  | inl u ↦ simp u (planned_of-append es fs)
  | inr a ↦ simp a (omega (arith, planned_of-append es fs))
]

pub planned_of-flat_map {ℓ} :
    {A : Type ℓ} (f : A → List BudgetEntry) (cost : A → Money) (P : A → Type 0) (xs : List A)
    → ((x : A) → P x → planned_of (f x) ≡ sum64 (cost x ∷ []))
    → All P xs
    → planned_of (flat_map f xs) ≡ sum64 (map cost xs)
unfolding sum64
planned_of-flat_map f cost P [] h k = refl
planned_of-flat_map f cost P (x ∷ xs) h k =
    planned_of-append (f x) (flat_map f xs)
    ∙ omega (arith, h x k.0, planned_of-flat_map f cost P xs h k.1)

pub add_all_to_day-planned :
    (es : List BudgetEntry) (d : BudgetDay)
    → d.planned < word
    → (add_all_to_day es d).planned ≡ d.planned ⊕ planned_of es
unfolding add_all_to_day add_to_day sum64
add_all_to_day-planned [] d h = omega (arith, h)
add_all_to_day-planned (e ∷ es) d h = elim (Bool-cases e.unassigned) [
  | inl u ↦ simp u (add_all_to_day-planned es d h)
  | inr a ↦
      let d' : BudgetDay = record d {
        planned = d.planned ⊕ e.amount;
        actual = d.actual ⊕ money_or_zero e.actual;
      } in
      simp a (add_all_to_day-planned es d' (omega arith) ∙ omega arith)
]

pub All-Unit {ℓ} : {A : Type ℓ} (xs : List A) → All (λ x. Unit {0}) xs
All-Unit [] = tt
All-Unit (x ∷ xs) = (tt, All-Unit xs)

abbrev pub visit_cost : Int64 → Item → Money
visit_cost travelers i = if is_visit i.kind then planned_cost_total i travelers else 0

pub place_cost :
    (i : Item) (travelers : Int64) (report : Bool)
    → is_some i.day_id ≡ true
    → planned_of (opt_list (place_entry i travelers report)) ≡ sum64 (visit_cost travelers i ∷ [])
unfolding place_entry sum64 has_cost per_group
place_cost i travelers report h = ground (arith, h)

unfoldable pub leg_cost : Option Leg → Money
leg_cost none = 0
leg_cost (some l) = money_or_zero l.planned_cost

pub leg_entry_cost :
    (l : Option Leg) (items : List Item) (stays : List Stay) (day : Option Uuid) (report : Bool)
    → planned_of (opt_list (leg_entry l items stays day report)) ≡ sum64 (leg_cost l ∷ [])
unfolding leg_entry leg_cost sum64 has_cost
leg_entry_cost none items stays day report = refl
leg_entry_cost (some l) items stays day report = ground arith

pub expense_cost :
    (e : Expense) (report : Bool)
    → planned_of (opt_list (expense_entry e report)) ≡ sum64 (money_or_zero e.planned ∷ [])
unfolding expense_entry sum64 has_cost
expense_cost e report = ground arith

unfoldable pub stop_costs : Item → Int64 → List Stop → List Money
stop_costs i travelers ps = map (λ p. planned_cost_total (cost_item p i) travelers) ps

pub planned_of-as_stop : (e : Option BudgetEntry) → planned_of (as_stop e) ≡ planned_of (opt_list e)
planned_of-as_stop none = refl
planned_of-as_stop (some e) = elim (Bool-cases e.unassigned) [
  | inl u ↦ simp u refl
  | inr u ↦ simp u refl
]

pub stop_entries_cost :
    (i : Item) (travelers : Int64) (report : Bool) (tracks : List Track)
    → is_some i.day_id ≡ true
    → planned_of (stop_entries i tracks travelers report)
      ≡ sum64 (stop_costs i travelers (stops_of tracks i.id))
unfolding stop_entries stop_costs cost_item is_visit
stop_entries_cost i travelers report tracks h =
    planned_of-flat_map (λ p. as_stop (place_entry (cost_item p i) travelers report))
      (λ p. planned_cost_total (cost_item p i) travelers) (λ p. Unit) (stops_of tracks i.id)
      (λ p _.
        planned_of-as_stop (place_entry (cost_item p i) travelers report)
        ∙ place_cost (cost_item p i) travelers report h)
      (All-Unit (stops_of tracks i.id))
