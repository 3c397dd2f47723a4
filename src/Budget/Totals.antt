-- ===== src/Budget/Totals.antt =====
-- What the totals of a budget are sums of: its own list of entries.
use tripvault.Base.{
  Bool, true, false, not, ◌&&◌, Option, none, some, List, [], ◌∷◌, ◌++◌, map, select, if◌then◌else◌,
  ◌≡◌, refl, ◌∙◌, ap, arith, any, Bool-cases, inl, inr,
}
use tripvault.Base.Int64.{◌⊕◌, sum64, sum64-lt}
use tripvault.Domain.Kinds.{CostCategory, category_eq, cost_categories, is_report}
use tripvault.Domain.Values.{Money}
use tripvault.Domain.Costs.{money_or_zero}
use tripvault.Domain.Content.{DocumentContent, Trip}
use tripvault.Domain.Records.{Day, Stay, Expense}
use tripvault.Domain.Journeys.{Transfer}
use tripvault.Budget.Entries.{BudgetEntry, stay_entry, transfer_entry, expense_entry}
use tripvault.Plan.{day_expenses}
use tripvault.Budget.Build.{
  Budget, BudgetCategory, Rounding, add_to_category, add_entry, add_entries, add_day, add_days,
  add_stays, add_stay_entry, add_transfers, add_transfer_entry, add_untied, add_untied_entry,
  day_entries, unassigned_entries, empty_budget, count_costs, build_budget, compare_budget,
}

abbrev pub is_assigned : BudgetEntry → Bool
is_assigned e = not e.unassigned

-- The sum of something over the entries that pass a test.
abbrev pub sum_over : (BudgetEntry → Bool) → (BudgetEntry → Money) → List BudgetEntry → Money
sum_over p f es = sum64 (map f (select p es))

abbrev pub amount_of : BudgetEntry → Money
amount_of e = e.amount

abbrev pub spent_of : BudgetEntry → Money
spent_of e = money_or_zero e.actual

sum_over-append :
    (p : BudgetEntry → Bool) (f : BudgetEntry → Money) (es : List BudgetEntry) (e : BudgetEntry)
    → sum_over p f (es ++ e ∷ []) ≡ sum_over p f es ⊕ (if p e then f e else 0)
unfolding sum64
sum_over-append p f [] e = ground arith
sum_over-append p f (x ∷ es) e = elim (Bool-cases (p x)) [
  | inl h ↦ rw h (omega (arith, sum_over-append p f es e))
  | inr h ↦ rw h (sum_over-append p f es e)
]

sum_skip :
    (p : BudgetEntry → Bool) (f : BudgetEntry → Money) (es : List BudgetEntry) (e : BudgetEntry)
    {x : Money}
    → p e ≡ false
    → x ≡ sum_over p f es
    → x ≡ sum_over p f (es ++ e ∷ [])
sum_skip p f es e no_e h =
    rw (sum_over-append p f es e) (rw no_e (omega (arith, h, sum64-lt (map f (select p es)))))

sum_take :
    (p : BudgetEntry → Bool) (f : BudgetEntry → Money) (es : List BudgetEntry) (e : BudgetEntry)
    {x : Money}
    → p e ≡ true
    → x ≡ sum_over p f es
    → x ⊕ f e ≡ sum_over p f (es ++ e ∷ [])
sum_take p f es e takes h = rw (sum_over-append p f es e) (rw takes (omega (arith, h)))

-- An entry whose category is one of a list.
abbrev pub is_listed : List CostCategory → BudgetEntry → Bool
is_listed keys e = any (λ k. category_eq k e.category) keys

-- An entry that reaches a category of the budget.
abbrev pub is_categorised : BudgetEntry → Bool
is_categorised e = is_assigned e && is_listed cost_categories e

abbrev keys : List BudgetCategory → List CostCategory
keys = map (λ c. c.category)

module _ (e : BudgetEntry) (a s : Money) where
  keys-add_to_category :
      (cs : List BudgetCategory) → keys (add_to_category e.category a s cs) ≡ keys cs
  unfolding add_to_category
  keys-add_to_category [] = refl
  keys-add_to_category (c ∷ cs) = elim (Bool-cases (category_eq c.category e.category)) [
    | inl h ↦ rw h refl
    | inr h ↦ rw h (ap (◌∷◌ c.category) (keys-add_to_category cs))
  ]

  planned-add_to_category :
      (cs : List BudgetCategory)
      → sum64 (map (λ c. c.planned) (add_to_category e.category a s cs))
        ≡ sum64 (map (λ c. c.planned) cs) ⊕ (if is_listed (keys cs) e then a else 0)
  unfolding add_to_category sum64
  planned-add_to_category [] = refl
  planned-add_to_category (c ∷ cs) = elim (Bool-cases (category_eq c.category e.category)) [
    | inl h ↦ rw h (omega arith)
    | inr h ↦ rw h (omega (arith, planned-add_to_category cs))
  ]

  actual-add_to_category :
      (cs : List BudgetCategory)
      → sum64 (map (λ c. c.actual) (add_to_category e.category a s cs))
        ≡ sum64 (map (λ c. c.actual) cs) ⊕ (if is_listed (keys cs) e then s else 0)
  unfolding add_to_category sum64
  actual-add_to_category [] = refl
  actual-add_to_category (c ∷ cs) = elim (Bool-cases (category_eq c.category e.category)) [
    | inl h ↦ rw h (omega arith)
    | inr h ↦ rw h (omega (arith, actual-add_to_category cs))
  ]

-- Every total is the sum of the entries that it stands for.
pub record IsCounted (b : Budget) : Type 0 where
  pub planned_sum : b.planned ≡ sum_over is_assigned amount_of b.entries
  pub unassigned_sum : b.unassigned ≡ sum_over (λ e. e.unassigned) amount_of b.entries
  pub actual_sum : b.actual ≡ sum_over is_assigned spent_of b.entries
  pub listed : keys b.categories ≡ cost_categories
  pub planned_by_category :
      sum64 (map (λ c. c.planned) b.categories) ≡ sum_over is_categorised amount_of b.entries
  pub actual_by_category :
      sum64 (map (λ c. c.actual) b.categories) ≡ sum_over is_categorised spent_of b.entries

module _ (e : BudgetEntry) (b : Budget) (h : IsCounted b) where
  in_category :
      (f : BudgetEntry → Money) (x y : Money)
      → e.unassigned ≡ false
      → x ≡ sum_over is_categorised f b.entries
      → y ≡ x ⊕ (if is_listed (keys b.categories) e then f e else 0)
      → y ≡ sum_over is_categorised f (b.entries ++ e ∷ [])
  in_category f x y u hx hy =
      hy ∙ rw (sum_over-append is_categorised f b.entries e) (rw (h.listed) (rw u (rw hx refl)))

  add_entry-IsCounted : IsCounted (add_entry e b)
  unfolding add_entry
  add_entry-IsCounted =
      let cs = b.categories in
      let a = e.amount in
      let s = spent_of e in
      let es = b.entries in
      elim (Bool-cases e.unassigned) [
        | inl u ↦ simp u (record {
          planned_sum = sum_skip is_assigned amount_of es e (rw u) h.planned_sum;
          unassigned_sum = sum_take (λ x. x.unassigned) amount_of es e u h.unassigned_sum;
          actual_sum = sum_skip is_assigned spent_of es e (rw u) h.actual_sum;
          listed = h.listed;
          planned_by_category = sum_skip is_categorised amount_of es e (rw u) h.planned_by_category;
          actual_by_category = sum_skip is_categorised spent_of es e (rw u) h.actual_by_category;
        })
        | inr u ↦ simp u (record {
          planned_sum = sum_take is_assigned amount_of es e (rw u) h.planned_sum;
          unassigned_sum = sum_skip (λ x. x.unassigned) amount_of es e u h.unassigned_sum;
          actual_sum = sum_take is_assigned spent_of es e (rw u) h.actual_sum;
          listed = keys-add_to_category e a s cs ∙ h.listed;
          planned_by_category =
              in_category amount_of _ _ u h.planned_by_category (planned-add_to_category e a s cs);
          actual_by_category =
              in_category spent_of _ _ u h.actual_by_category (actual-add_to_category e a s cs);
        })
      ]

add_entries-IsCounted :
    (es : List BudgetEntry) (b : Budget) → IsCounted b → IsCounted (add_entries es b)
unfolding add_entries
add_entries-IsCounted [] b h = h
add_entries-IsCounted (e ∷ es) b h =
    add_entries-IsCounted es (add_entry e b) (add_entry-IsCounted e b h)

-- Whatever else a budget says of the days and of its sums, it is counted.
same_counts :
    {b b' : Budget}
    → b'.planned ≡ b.planned
    → b'.unassigned ≡ b.unassigned
    → b'.actual ≡ b.actual
    → b'.categories ≡ b.categories
    → b'.entries ≡ b.entries
    → IsCounted b
    → IsCounted b'
same_counts hp hu ha hc he h = record {
  planned_sum = rw hp (rw he h.planned_sum);
  unassigned_sum = rw hu (rw he h.unassigned_sum);
  actual_sum = rw ha (rw he h.actual_sum);
  listed = rw hc h.listed;
  planned_by_category = rw hc (rw he h.planned_by_category);
  actual_by_category = rw hc (rw he h.actual_by_category);
}

add_days-IsCounted :
    (content : DocumentContent) (report : Bool) (ds : List Day) (b : Budget)
    → IsCounted b
    → IsCounted (add_days content report ds b)
unfolding add_days add_day
add_days-IsCounted content report [] b h = h
add_days-IsCounted content report (d ∷ ds) b h =
    add_days-IsCounted content report ds (add_day content report d b) (
      same_counts refl refl refl refl refl
        (add_entries-IsCounted (day_entries content b.travelers report d.id) b h))

add_stay_entry-IsCounted :
    (e : Option BudgetEntry) (b : Budget) → IsCounted b → IsCounted (add_stay_entry e b)
add_stay_entry-IsCounted none b h = h
add_stay_entry-IsCounted (some e) b h =
    same_counts refl refl refl refl refl (add_entry-IsCounted e b h)

add_stays-IsCounted :
    (report : Bool) (ss : List Stay) (b : Budget) → IsCounted b → IsCounted (add_stays report ss b)
unfolding add_stays
add_stays-IsCounted report [] b h = h
add_stays-IsCounted report (s ∷ ss) b h =
    add_stays-IsCounted report ss _ (add_stay_entry-IsCounted (stay_entry s report) b h)

add_transfer_entry-IsCounted :
    (e : Option BudgetEntry) (b : Budget) → IsCounted b → IsCounted (add_transfer_entry e b)
add_transfer_entry-IsCounted none b h = h
add_transfer_entry-IsCounted (some e) b h =
    same_counts refl refl refl refl refl (add_entry-IsCounted e b h)

add_transfers-IsCounted :
    (report : Bool) (ts : List Transfer) (b : Budget)
    → IsCounted b
    → IsCounted (add_transfers report ts b)
unfolding add_transfers
add_transfers-IsCounted report [] b h = h
add_transfers-IsCounted report (t ∷ ts) b h =
    add_transfers-IsCounted report ts _
      (add_transfer_entry-IsCounted (transfer_entry t b.travelers report) b h)

add_untied_entry-IsCounted :
    (e : Option BudgetEntry) (b : Budget) → IsCounted b → IsCounted (add_untied_entry e b)
add_untied_entry-IsCounted none b h = h
add_untied_entry-IsCounted (some e) b h =
    same_counts refl refl refl refl refl (add_entry-IsCounted e b h)

add_untied-IsCounted :
    (report : Bool) (es : List Expense) (b : Budget)
    → IsCounted b
    → IsCounted (add_untied report es b)
unfolding add_untied
add_untied-IsCounted report [] b h = h
add_untied-IsCounted report (e ∷ es) b h =
    add_untied-IsCounted report es _ (add_untied_entry-IsCounted (expense_entry e report) b h)

empty_budget-IsCounted : (trip : Trip) → IsCounted (empty_budget trip)
unfolding empty_budget sum64
empty_budget-IsCounted trip = record {
  planned_sum = refl;
  unassigned_sum = refl;
  actual_sum = refl;
  listed = refl;
  planned_by_category = refl;
  actual_by_category = refl;
}

count_costs-IsCounted :
    (trip : Trip) (content : DocumentContent) → IsCounted (count_costs trip content)
unfolding count_costs
count_costs-IsCounted trip content =
    let report = is_report trip.kind in
    let b = add_untied report (day_expenses content.expenses none) (
      add_transfers report content.transfers (
        add_stays report content.stays
          (add_days content report content.days (empty_budget trip)))) in
    add_entries-IsCounted (unassigned_entries content b.travelers report) b (
      add_untied-IsCounted report (day_expenses content.expenses none) _ (
        add_transfers-IsCounted report content.transfers _ (
          add_stays-IsCounted report content.stays _
            (add_days-IsCounted content report content.days _ (empty_budget-IsCounted trip)))))

compare_budget-IsCounted :
    (rounding : Rounding) (budget : Option Money) (spent : Money) (b : Budget)
    → IsCounted b
    → IsCounted (compare_budget rounding budget spent b)
compare_budget-IsCounted rounding none spent b h = h
compare_budget-IsCounted rounding (some x) spent b h = same_counts refl refl refl refl refl h

-- In the budget of any document, the planned, the unassigned and the actual total are the sums of
-- the amounts of the entries that they stand for, an unassigned entry being in the unassigned total
-- alone; the categories are the eleven of the plan, in their order, and their planned and actual
-- totals add up to those of the assigned entries whose category is one of these. The sums wrap
-- around at 64 bits.
pub build_budget-IsCounted :
    (rounding : Rounding) (trip : Trip) (content : DocumentContent)
    → IsCounted (build_budget rounding trip content)
unfolding build_budget
build_budget-IsCounted rounding trip content =
    compare_budget-IsCounted rounding trip.budget _ _
      (same_counts refl refl refl refl refl (count_costs-IsCounted trip content))
