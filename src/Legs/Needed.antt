-- ===== src/Legs/Needed.antt =====
-- The pairs of neighbours of a document, and `ReconcileLegs` as one pass over them.
use tripvault.Base.{
  ℕ, ◌≡◌, refl, sym, ◌∙◌, ap, Bool, false, ◌&&◌, Option, none, some, List, [], ◌∷◌, ◌++◌,
  if◌then◌else◌, ◌==◌, ==_iff, Bool-cases, Option-cases, inl, inr, ◌⊎◌,
}
use tripvault.Base.Text.{Text, text_eq}
use tripvault.Domain.Kinds.{is_morning}
use tripvault.Domain.Values.{Uuid, Float64}
use tripvault.Domain.Records.{Item, Day}
use tripvault.Domain.Journeys.{Leg, is_composite}
use tripvault.Domain.Content.{DocumentContent}
use tripvault.Polyline.{Floats}
use tripvault.Plan.{day_items, leg_between}
use tripvault.Legs.{
  Progress, need, need_day, need_days, need_opening, keep_leg, create_leg, input_between, route_of,
}

-- Two elements that follow one another, and the day that the second belongs to.
abbrev pub Pair : Type 0
Pair = Day × Item × Item

abbrev pub pairs_from : Day → Item → List Item → List Pair
pairs_from day item [] = []
pairs_from day item (next ∷ items) = (day, item, next) ∷ pairs_from day next items

abbrev pub last_from : Item → List Item → Item
last_from item [] = item
last_from item (next ∷ items) = last_from next items

-- The step from the day before, unless the day opens with a stay mark.
abbrev pub opening_pair : Day → Option Item → Item → List Pair
opening_pair day none item = []
opening_pair day (some previous) item =
    if is_morning item.anchor then [] else (day, previous, item) ∷ []

-- The neighbours of a document, day by day; a day with no elements is passed over.
unfoldable pub neighbours : List Item → List Day → Option Item → List Pair
unfolding day_items
neighbours all [] previous = []
neighbours all (day ∷ days) previous = elim (day_items all (some day.id)) [
  | [] ↦ neighbours all days previous
  | item ∷ items ↦
      opening_pair day previous item
      ++ (pairs_from day item items ++ neighbours all days (some (last_from item items)))
]

List-cases {ℓ} : {A : Type ℓ} (l : List A) → (l ≡ []) ⊎ ((a : A) × (r : List A) × (l ≡ a ∷ r))
List-cases [] = inl refl
List-cases (a ∷ r) = inr (a, r, refl)

neighbours_skip :
    (all : List Item) (day : Day) (days : List Day) (previous : Option Item)
    → day_items all (some day.id) ≡ []
    → neighbours all (day ∷ days) previous ≡ neighbours all days previous
unfolding neighbours
neighbours_skip all day days previous e = rw (neighbours, e) refl

neighbours_step :
    (all : List Item) (day : Day) (days : List Day) (previous : Option Item) (item : Item)
    (items : List Item)
    → day_items all (some day.id) ≡ item ∷ items
    → neighbours all (day ∷ days) previous
      ≡ opening_pair day previous item
        ++ (pairs_from day item items ++ neighbours all days (some (last_from item items)))
unfolding neighbours
neighbours_step all day days previous item items e = rw (neighbours, e) refl

-- The leg is the one of this pair, in its day.
abbrev pub joins : Pair → Leg → Bool
joins (day, from, to) l = l.day_id == day.id && (l.from_item_id == from.id && l.to_item_id == to.id)

abbrev pub is_of_day : Pair → Option Leg → Bool
is_of_day n none = false
is_of_day n (some l) = l.day_id == n.0.id

-- The document has a leg between the pair's elements, and it belongs to the pair's day.
abbrev pub had : List Leg → Pair → Bool
had existing n = is_of_day n (leg_between existing n.1.id n.2.id)

module _ (f : Floats) (printed : Float64 → Text) (content : DocumentContent) (existing : List Leg)
    (new_id : ℕ → Uuid) where
  abbrev pub found : Pair → Option Leg
  found (day, from, to) = leg_between existing from.id to.id

  abbrev pub need_pair : Pair → Progress → Progress
  need_pair (day, from, to) p = need f printed content existing new_id day from to p

  unfoldable pub need_all : List Pair → Progress → Progress
  need_all [] p = p
  need_all (n ∷ pairs) p = need_all pairs (need_pair n p)

  need_all-append :
      (ns ms : List Pair) (p : Progress) → need_all (ns ++ ms) p ≡ need_all ms (need_all ns p)
  unfolding need_all
  need_all-append [] ms p = refl
  need_all-append (n ∷ ns) ms p = need_all-append ns ms (need_pair n p)

  need_day_lem :
      (day : Day) (item : Item) (items : List Item) (p : Progress)
      → need_day f printed content existing new_id day item items p
        ≡ (need_all (pairs_from day item items) p, last_from item items)
  unfolding need_day need_all
  need_day_lem day item [] p = refl
  need_day_lem day item (next ∷ items) p =
      need_day_lem day next items (need_pair (day, item, next) p)

  need_opening_lem :
      (day : Day) (previous : Option Item) (item : Item) (p : Progress)
      → need_opening f printed content existing new_id day previous item p
        ≡ need_all (opening_pair day previous item) p
  unfolding need_all
  need_opening_lem day none item p = refl
  need_opening_lem day (some previous) item p = elim (Bool-cases (is_morning item.anchor)) [
    | inl e ↦ rw e refl
    | inr e ↦ rw e refl
  ]

  need_days_step :
      (day : Day) (days : List Day) (previous : Option Item) (p : Progress) (item : Item)
      (items : List Item)
      → day_items content.items (some day.id) ≡ item ∷ items
      → let done =
          need_day f printed content existing new_id day item items
            (need_opening f printed content existing new_id day previous item p) in
        need_days f printed content existing new_id (day ∷ days) previous p
        ≡ need_days f printed content existing new_id days (some done.1) done.0
  unfolding need_days
  need_days_step day days previous p item items e = rw (need_days, e) refl

  need_days_skip :
      (day : Day) (days : List Day) (previous : Option Item) (p : Progress)
      → day_items content.items (some day.id) ≡ []
      → need_days f printed content existing new_id (day ∷ days) previous p
        ≡ need_days f printed content existing new_id days previous p
  unfolding need_days
  need_days_skip day days previous p e = rw (need_days, e) refl

  pub need_days_lem :
      (days : List Day) (previous : Option Item) (p : Progress)
      → need_days f printed content existing new_id days previous p
        ≡ need_all (neighbours content.items days previous) p
  unfolding need_days neighbours
  need_days_lem [] previous p = unfold need_all in refl
  need_days_lem (day ∷ days) previous p =
      elim (List-cases (day_items content.items (some day.id))) [
        | inl e ↦
            need_days_skip day days previous p e
            ∙ need_days_lem days previous p
            ∙ ap (λ ns. need_all ns p) (sym (neighbours_skip content.items day days previous e))
        | inr (item, items, e) ↦
            let done =
              need_day f printed content existing new_id day item items
                (need_opening f printed content existing new_id day previous item p) in
            let opened = need_opening_lem day previous item p in
            let pairs = pairs_from day item items in
            let opening = opening_pair day previous item in
            let rest = neighbours content.items days (some (last_from item items)) in
            need_days_step day days previous p item items e
            ∙ need_days_lem days (some done.1) done.0
            ∙ rw opened (
                rw (need_day_lem day item items (need_all opening p)) (
                  sym (
                    ap (λ ns. need_all ns p)
                      (neighbours_step content.items day days previous item items e)
                    ∙ need_all-append opening (pairs ++ rest) p
                    ∙ need_all-append pairs rest (need_all opening p))))
      ]

  -- What the code does for one pair: it keeps the leg of its day that it finds, or makes one.
  pub need-cases :
      (n : Pair) (p : Progress)
      → ((l : Leg) × (found n ≡ some l)
          × (l.day_id ≡ n.0.id)
          × (need_pair n p ≡ keep_leg f printed content n.1 n.2 l p))
        ⊎ ((had existing n ≡ false)
            × (need_pair n p ≡ create_leg f printed content existing new_id n.0 n.1 n.2 p))
  unfolding need
  need-cases (day, from, to) p = elim (Option-cases (leg_between existing from.id to.id)) [
    | inl e ↦ inr (rw e refl, rw e refl)
    | inr (l, e) ↦ elim (Bool-cases (l.day_id == day.id)) [
      | inl k ↦ inl (l, e, (==_iff l.day_id day.id).0 k, rw e (rw k refl))
      | inr k ↦ inr (rw e k, rw e (rw k refl))
    ]
  ]

  pub kept_leg :
      (from to : Item) (l : Leg) (p : Progress)
      → let p' = keep_leg f printed content from to l p in
        (p'.plan.create ≡ p.plan.create) × (p'.kept ≡ l.id ∷ p.kept)
  unfolding keep_leg
  kept_leg from to l p = elim (Bool-cases (is_composite l)) [
    | inl e ↦ rw e (refl, refl)
    | inr e ↦
        let input = input_between f printed content from to l.mode (route_of l) in
        elim (Bool-cases (text_eq input l.input)) [
          | inl k ↦ rw e (rw k (refl, refl))
          | inr k ↦ rw e (rw k (refl, refl))
        ]
  ]
