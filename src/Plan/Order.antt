-- ===== src/Plan/Order.antt =====
-- `DayItems`: what it lists, and in which order.
use mathlib.Core.List.{Perm}
use mathlib.Core.Path.{fun_ext}
use tripvault.Base.Int64.{half_word, word}
use tripvault.Domain.Kinds.{
  ItemKind, AnchorSlot, item_place, item_activity, anchor_morning, is_visit, is_morning,
}
use tripvault.Base.{
  ℕ, ◌+◌, ◌%◌, ◌≤◌, ◌==◌, not, none, some, [], ◌∷◌, ap, subst, opt_eq, Option-cases, Bool-cases,
  inl, inr, Bool, true, false, refl, ◌++◌, ◌&&◌, Option, List, ◌≡◌, All, All-append, All-imp,
  All-select, All-last_such, select, last_such, opt_list, arith,
}
use tripvault.Base.Sort.{
  sort_stable, All-sort_stable, sort_stable-perm, sort_stable-IsSorted, IsSorted,
  select-sort_stable,
}
use tripvault.Domain.Values.{Uuid}
use tripvault.Domain.Records.{Item}
use tripvault.Plan.{day_items, is_place_of, is_morning_of, is_evening_of, earlier, same_day}

of_and : (a b : Bool) → (a && b) ≡ true → a ≡ true
of_and a b h = ground arith

-- Every element that a day lists is an element of the document, of that day.
pub All-day_items :
    (P Q : Item → Type 0) (items : List Item) (day : Option Uuid)
    → ((i : Item) → Q i → same_day i.day_id day ≡ true → P i)
    → All Q items
    → All P (day_items items day)
unfolding day_items
All-day_items P Q items day h all =
    let such = λ (p : Item → Bool) (f : (i : Item) → p i ≡ true → same_day i.day_id day ≡ true).
      All-imp Q (λ i. p i ≡ true → P i) items (λ i q e. h i q (f i e)) all in
    All-append P (opt_list (last_such (is_morning_of day) items)) _
      (All-last_such (is_morning_of day) P items (such (is_morning_of day) (λ i e. ground arith)))
      (All-append P (sort_stable earlier (select (is_place_of day) items)) _
        (All-sort_stable earlier P (select (is_place_of day) items)
          (All-select (is_place_of day) P items (such (is_place_of day) (λ i e. of_and _ _ e))))
        (All-last_such (is_evening_of day) P items
          (such (is_evening_of day) (λ i e. ground arith))))

-- The number that a position stands for, shifted to be none below zero.
abbrev pub place_rank : Item → ℕ
place_rank i = (i.position + half_word) % word

-- What a day lists of an element: a place or an activity, a mark of the morning, or of the evening.
pub data Part : Type 0 where
  visit morning evening : Part

abbrev pub part : ItemKind → AnchorSlot → Part
part item_place slot = visit
part item_activity slot = visit
part _ anchor_morning = morning
part _ _ = evening

abbrev part_eq : Part → Part → Bool
part_eq visit visit = true
part_eq morning morning = true
part_eq evening evening = true
part_eq _ _ = false

abbrev pub plays : Part → Option Uuid → Item → Bool
plays role day i = opt_eq i.day_id day && part_eq role (part i.kind i.anchor)

is_place_of_lem :
    (d : Bool) (k : ItemKind) (s : AnchorSlot) → (d && is_visit k) ≡ (d && part_eq visit (part k s))
unfolding is_visit
is_place_of_lem d k s = ground arith

is_morning_of_lem :
    (d : Bool) (k : ItemKind) (s : AnchorSlot)
    → (d && not (is_visit k) && is_morning s) ≡ (d && part_eq morning (part k s))
unfolding is_visit
is_morning_of_lem d k s = ground arith

is_evening_of_lem :
    (d : Bool) (k : ItemKind) (s : AnchorSlot)
    → (d && not (is_visit k) && not (is_morning s)) ≡ (d && part_eq evening (part k s))
unfolding is_visit
is_evening_of_lem d k s = ground arith

-- The last element that passes a test, or none where no element does.
abbrev pub IsLast : (Item → Bool) → List Item → Option Item → Type 0
IsLast p items none = All (λ i. p i ≡ false) items
IsLast p items (some m) =
    (before : List Item) × (behind : List Item) × (items ≡ before ++ m ∷ behind)
    × (p m ≡ true)
    × All (λ i. p i ≡ false) behind

last_such-IsLast : (p : Item → Bool) (items : List Item) → IsLast p items (last_such p items)
last_such-IsLast p [] = tt
last_such-IsLast p (i ∷ items) =
    let rest = last_such-IsLast p items in
    elim (Option-cases (last_such p items)) [
      | inl n ↦
          let none_behind : All (λ j. p j ≡ false) items = subst (IsLast p items) n rest in
          elim (Bool-cases (p i)) [
            | inl e ↦ rw (n, e) ([], items, refl, e, none_behind)
            | inr e ↦ rw (n, e) (e, none_behind)
          ]
      | inr (m, n) ↦
          let (before, behind, same, e, none_behind) = subst (IsLast p items) n rest in
          rw n (i ∷ before, behind, ap (◌∷◌ i) same, e, none_behind)
    ]

-- A mark of the morning, places and activities in their order, and a mark of the evening.
abbrev pub IsListing : List Item → Option Uuid → List Item → Type 0
IsListing items day listed =
    (first : Option Item) × (places : List Item) × (last : Option Item) × (listed
      ≡ opt_list first ++ (places ++ opt_list last))
    × IsLast (plays morning day) items first
    × IsLast (plays evening day) items last
    × Perm places (select (plays visit day) items)
    × IsSorted (λ a b. place_rank a ≤ place_rank b) places
    × ((rank : ℕ)
        → select (λ i. place_rank i == rank) places
          ≡ select (λ i. place_rank i == rank) (select (plays visit day) items))

-- The elements of a day are the morning mark, if there is one, then all of the day's places and
-- activities, each as often as the document has it, none before one with a smaller position and
-- those with one position in the document's order, then the evening mark. A mark is the last of its
-- kind that the document has for the day, and is missing only where the document has none.
pub day_items_lem :
    (items : List Item) (day : Option Uuid) → IsListing items day (day_items items day)
unfolding day_items
day_items_lem items day =
    let places_of : is_place_of day ≡ plays visit day =
      fun_ext (λ i. is_place_of_lem (opt_eq i.day_id day) i.kind i.anchor) in
    let mornings_of : is_morning_of day ≡ plays morning day =
      fun_ext (λ i. is_morning_of_lem (opt_eq i.day_id day) i.kind i.anchor) in
    let evenings_of : is_evening_of day ≡ plays evening day =
      fun_ext (λ i. is_evening_of_lem (opt_eq i.day_id day) i.kind i.anchor) in
    let places = select (plays visit day) items in
    (
      last_such (plays morning day) items,
      sort_stable earlier places,
      last_such (plays evening day) items,
      rw (places_of, mornings_of, evenings_of) refl,
      last_such-IsLast (plays morning day) items,
      last_such-IsLast (plays evening day) items,
      sort_stable-perm earlier places,
      sort_stable-IsSorted earlier (λ a b. place_rank a ≤ place_rank b) (λ a b h. ground arith)
          (λ a b h. ground arith) (λ a b c h k. omega arith) places,
      λ rank. select-sort_stable place_rank rank places,
    )
