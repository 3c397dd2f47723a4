-- ===== src/Budget/DayCosts.antt =====
-- A day's planned cost in the schedule, against the same day in the budget.
use tripvault.Base.{
  ◌≤◌, ◌<◌, Bool, true, false, Option, none, some, List, [], ◌∷◌, ◌++◌, map, flat_map, opt_list,
  if◌then◌else◌, ◌≡◌, refl, ◌∙◌, is_some, length, All, arith, Bool-cases, Option-cases, inl, inr,
}
use tripvault.Base.Int64.{Int64, ◌⊕◌, sum64, word}
use tripvault.Domain.Kinds.{is_visit}
use tripvault.Domain.Values.{Money}
use tripvault.Domain.Costs.{money_or_zero, planned_cost_total, planned_total}
use tripvault.Domain.Records.{Item, Stop, Track, Day, Expense}
use tripvault.Domain.Journeys.{Leg}
use tripvault.Domain.Content.{DocumentContent}
use tripvault.Plan.{day_items, opening_leg, day_legs, day_expenses, stops_of, track_of_item}
use tripvault.Plan.Order.{All-day_items}
use tripvault.Plan.Schedule.{
  DaySummary, schedule_day, schedule_items, add_leg, add_item, add_visit, add_stop_costs,
  empty_summary,
}
use tripvault.Budget.Entries.{BudgetEntry, place_entry, stop_entries, leg_entry, expense_entry}
use tripvault.Budget.Build.{BudgetDay, item_entries, day_entries, add_all_to_day}
use tripvault.Budget.Planned.{
  All-Unit, add_all_to_day-planned, expense_cost, leg_cost, leg_entry_cost, place_cost, planned_of,
  planned_of-append, planned_of-flat_map, stop_costs, stop_entries_cost,
}

add_stop_costs_lem :
    (i : Item) (travelers : Int64) (ps : List Stop) (s : DaySummary)
    → s.planned_cost < word
    → (add_stop_costs i travelers ps s).planned_cost
      ≡ s.planned_cost ⊕ sum64 (stop_costs i travelers ps)
unfolding add_stop_costs stop_costs sum64
add_stop_costs_lem i travelers [] s h = omega (arith, h)
add_stop_costs_lem i travelers (p ∷ ps) s h =
    add_stop_costs_lem i travelers ps _ (omega arith) ∙ omega arith

-- What an element costs with the stops along it.
item_cost : Int64 → List Track → Item → Money
item_cost travelers tracks i =
    if is_visit i.kind
    then planned_cost_total i travelers ⊕ sum64 (stop_costs i travelers (stops_of tracks i.id))
    else 0

add_visit_lem :
    (i : Item) (travelers : Int64) (tracks : List Track) (s : DaySummary)
    → (add_visit i travelers tracks s).planned_cost
      ≡ s.planned_cost
        ⊕ (planned_cost_total i travelers ⊕ sum64 (stop_costs i travelers (stops_of tracks i.id)))
unfolding add_visit stops_of
add_visit_lem i travelers tracks s = elim (Option-cases (track_of_item tracks i.id)) [
  | inl e ↦ rw e (unfold sum64 stop_costs in (omega arith))
  | inr (t, e) ↦ rw e (add_stop_costs_lem i travelers t.stops _ (omega arith) ∙ omega arith)
]

add_item_lem :
    (i : Item) (travelers : Int64) (tracks : List Track) (s : DaySummary)
    → s.planned_cost < word
    → (add_item i travelers tracks s).planned_cost ≡ s.planned_cost ⊕ item_cost travelers tracks i
unfolding add_item item_cost stops_of
add_item_lem i travelers tracks s h = elim (Bool-cases (is_visit i.kind)) [
  | inr e ↦ rw e (omega (arith, h))
  | inl e ↦ rw e (add_visit_lem i travelers tracks s)
]

schedule_items_cost :
    (is : List Item) (legs : List (Option Leg)) (travelers : Int64) (tracks : List Track)
    (cursor : Int64) (s : DaySummary)
    → length legs ≤ length is
    → s.planned_cost < word
    → (schedule_items is legs travelers tracks cursor s).1.planned_cost
      ≡ s.planned_cost ⊕ (sum64 (map leg_cost legs) ⊕ sum64 (map (item_cost travelers tracks) is))
unfolding schedule_items sum64
schedule_items_cost [] [] travelers tracks cursor s h k = omega (arith, k)
schedule_items_cost [] (l ∷ ls) travelers tracks cursor s h k = absurd (omega (arith, h))
schedule_items_cost (i ∷ is) [] travelers tracks cursor s h k =
    schedule_items_cost is [] travelers tracks _ (add_item i travelers tracks s) (omega arith)
      (rw (add_item_lem i travelers tracks s k) (omega arith))
    ∙ omega (arith, add_item_lem i travelers tracks s k)
schedule_items_cost (i ∷ is) (none ∷ ls) travelers tracks cursor s h k =
    schedule_items_cost is ls travelers tracks _ (add_item i travelers tracks s) (omega (arith, h))
      (rw (add_item_lem i travelers tracks s k) (omega arith))
    ∙ unfold leg_cost in (omega (arith, add_item_lem i travelers tracks s k))
schedule_items_cost (i ∷ is) (some l ∷ ls) travelers tracks cursor s h k =
    let s' = add_leg (some l) s in
    let k' : s'.planned_cost < word = omega arith in
    schedule_items_cost is ls travelers tracks _ (add_item i travelers tracks s') (omega (arith, h))
      (rw (add_item_lem i travelers tracks s' k') (omega arith))
    ∙ unfold leg_cost in (omega (arith, add_item_lem i travelers tracks s' k'))

-- A stay mark has no recording.
abbrev pub MarksHaveNoStops : List Track → Item → Type 0
MarksHaveNoStops tracks i = is_visit i.kind ≡ false → stops_of tracks i.id ≡ []

abbrev OnDay : List Track → Item → Type 0
OnDay tracks i = (is_some i.day_id ≡ true) × MarksHaveNoStops tracks i

item_entries_cost :
    (i : Item) (travelers : Int64) (report : Bool) (tracks : List Track)
    → OnDay tracks i
    → planned_of (item_entries tracks travelers report i)
      ≡ sum64 (item_cost travelers tracks i ∷ [])
unfolding item_entries item_cost
item_entries_cost i travelers report tracks (on_day, marks) =
    planned_of-append (opt_list (place_entry i travelers report))
      (stop_entries i tracks travelers report)
    ∙ rw (place_cost i travelers report on_day, stop_entries_cost i travelers report tracks on_day)
        (elim (Bool-cases (is_visit i.kind)) [
          | inl e ↦ rw e (unfold sum64 in (omega arith))
          | inr e ↦ rw (e, marks e) (unfold sum64 stop_costs in (refl))
        ])

length-day_legs-le :
    (legs : List Leg) (items : List Item) (i : Item)
    → length (day_legs legs (i ∷ items)) ≤ length items
unfolding day_legs
length-day_legs-le legs [] i = omega arith
length-day_legs-le legs (j ∷ items) i = omega (arith, length-day_legs-le legs items j)

-- The opening leg and the legs of the day are as many as its elements at most, or add nothing.
day_cost :
    (items : List Item) (legs : List Leg) (travelers : Int64) (tracks : List Track) (cursor : Int64)
    → let all = opening_leg legs items ∷ day_legs legs items in
      (schedule_items items all travelers tracks cursor empty_summary).1.planned_cost
      ≡ sum64 (map leg_cost all) ⊕ sum64 (map (item_cost travelers tracks) items)
unfolding opening_leg day_legs
day_cost [] legs travelers tracks cursor = unfold schedule_items leg_cost sum64 in (refl)
day_cost (i ∷ items) legs travelers tracks cursor =
    let all = opening_leg legs (i ∷ items) ∷ day_legs legs (i ∷ items) in
    schedule_items_cost (i ∷ items) all travelers tracks cursor empty_summary
      (omega (arith, length-day_legs-le legs items i)) (omega arith)
    ∙ omega arith

planned_of_three :
    (es fs gs : List BudgetEntry) {x y z : Money}
    → planned_of es ≡ x
    → planned_of fs ≡ y
    → planned_of gs ≡ z
    → planned_of (es ++ (fs ++ gs)) ≡ x ⊕ (y ⊕ z)
planned_of_three es fs gs h k l =
    planned_of-append es (fs ++ gs) ∙ rw (planned_of-append fs gs) (rw (h, k, l) refl)

module _ (content : DocumentContent) (day : Day) (travelers : Int64) (report : Bool) where
  abbrev day_all : List (Option Leg)
  day_all =
      let items = day_items content.items (some day.id) in
      opening_leg content.legs items ∷ day_legs content.legs items

  day_entries_cost :
      All (MarksHaveNoStops content.tracks) content.items
      → planned_of (day_entries content travelers report day.id)
        ≡ sum64 (map (item_cost travelers content.tracks) (day_items content.items (some day.id)))
          ⊕ (sum64 (map leg_cost day_all)
              ⊕ planned_total (day_expenses content.expenses (some day.id)))
  unfolding day_entries planned_total
  day_entries_cost marks =
      let items = day_items content.items (some day.id) in
      let expenses = day_expenses content.expenses (some day.id) in
      let of_item = item_entries content.tracks travelers report in
      let of_leg = λ (l : Option Leg).
        opt_list (leg_entry l content.items content.stays (some day.id) report) in
      let of_expense = λ (e : Expense). opt_list (expense_entry e report) in
      let on_day : All (OnDay content.tracks) items =
        All-day_items (OnDay content.tracks) (MarksHaveNoStops content.tracks) content.items
          (some day.id) (λ i mark same. (ground (arith, same), mark)) marks in
      planned_of_three (flat_map of_item items) (flat_map of_leg day_all)
        (flat_map of_expense expenses)
        (planned_of-flat_map of_item (item_cost travelers content.tracks) (OnDay content.tracks)
          items (λ i on. item_entries_cost i travelers report content.tracks on) on_day)
        (planned_of-flat_map of_leg leg_cost (λ l. Unit) day_all
          (λ l _. leg_entry_cost l content.items content.stays (some day.id) report)
          (All-Unit day_all))
        (planned_of-flat_map of_expense (λ (e : Expense). money_or_zero e.planned) (λ e. Unit)
          expenses (λ e _. expense_cost e report) (All-Unit expenses))

  summary_cost :
      let items = day_items content.items (some day.id) in
      (schedule_day day items
        (opening_leg content.legs items)
        (day_legs content.legs items)
        travelers
        content.tracks).1.planned_cost
      ≡ sum64 (map leg_cost day_all) ⊕ sum64 (map (item_cost travelers content.tracks) items)
  unfolding schedule_day
  summary_cost =
      day_cost (day_items content.items (some day.id)) content.legs travelers content.tracks
        day.start_time

-- For a day of a document, what `BuildBudget` plans for it is what `ScheduleDay` plans for it and
-- the day's expenses: with the same travellers, the opening leg and the day's legs that the code
-- looks up for both, and no recording with stops for a stay mark of the document. The sums wrap
-- around at 64 bits.
pub budget_day_lem :
    (content : DocumentContent) (day : Day) (travelers : Int64) (report : Bool) (d : BudgetDay)
    → d.planned ≡ 0
    → All (MarksHaveNoStops content.tracks) content.items
    → let items = day_items content.items (some day.id) in
      let (schedules, summary) =
        schedule_day day items
          (opening_leg content.legs items)
          (day_legs content.legs items)
          travelers
          content.tracks in
      (add_all_to_day (day_entries content travelers report day.id) d).planned
      ≡ summary.planned_cost ⊕ planned_total (day_expenses content.expenses (some day.id))
budget_day_lem content day travelers report d zero_before marks =
    add_all_to_day-planned (day_entries content travelers report day.id) d
      (omega (arith, zero_before))
    ∙ omega (
      arith,
      zero_before,
      day_entries_cost content day travelers report marks,
      summary_cost content day travelers report,
    )
