-- ===== src/Packing/Twice.antt =====
-- Adding the same sections twice adds nothing the second time.
use mathlib.Core.List.{append_assoc, append-nil}
use tripvault.Base.{
  Bool, true, false, ◌&&◌, none, some, List, [], ◌∷◌, ◌++◌, ◌≡◌, refl, sym, ap, ◌∙◌, subst, find,
  any, length, All, Bool-cases, Option-cases, inl, inr, arith,
}
use tripvault.Base.Text.{Text}
use tripvault.Packing.{PackingCategory, PackingItem, PackingSection, PackingList}
use tripvault.Packing.Merge.{
  find_packing_category, is_taken, merge_items, merge_sections, merge, placed, next_position,
}
use tripvault.Plan.{same_day}

any_before {ℓ} :
    {A : Type ℓ} (p : A → Bool) (xs ys : List A) → any p xs ≡ true → any p (xs ++ ys) ≡ true
any_before p [] ys h = cc
any_before p (x ∷ xs) ys h = ground (arith, any_before p xs ys)

any_last {ℓ} :
    {A : Type ℓ} (p : A → Bool) (xs : List A) (x : A) → p x ≡ true → any p (xs ++ x ∷ []) ≡ true
any_last p [] x h = ground (arith, h)
any_last p (y ∷ xs) x h = ground (arith, any_last p xs x h)

find_before {ℓ} :
    {A : Type ℓ} (p : A → Bool) (xs ys : List A) {x : A}
    → find p xs ≡ some x
    → find p (xs ++ ys) ≡ some x
find_before p [] ys h = cc
find_before p (y ∷ xs) ys h = elim (Bool-cases (p y)) [
  | inl e ↦ rw e (rw e at h)
  | inr e ↦ rw e (find_before p xs ys (rw e at h))
]

find_last {ℓ} :
    {A : Type ℓ} (p : A → Bool) (xs : List A) (x : A)
    → find p xs ≡ none
    → p x ≡ true
    → find p (xs ++ x ∷ []) ≡ some x
find_last p [] x h e = ground (arith, e)
find_last p (y ∷ xs) x h e = ground (arith, find_last p xs x)

module _ (equal_fold : Text → Text → Bool) (fold_refl : (s : Text) → equal_fold s s ≡ true) where
  -- Every item's name is taken in the category.
  abbrev AreTaken : PackingCategory → List PackingItem → List PackingItem → Type 0
  AreTaken c is items = All (λ i. is_taken equal_fold c.id i.name items ≡ true) is

  AreTaken-append :
      (c : PackingCategory) (is items more : List PackingItem)
      → AreTaken c is items
      → AreTaken c is (items ++ more)
  AreTaken-append c [] items more h = tt
  AreTaken-append c (i ∷ is) items more h =
      (any_before _ items more h.0, AreTaken-append c is items more h.1)

  -- The item that is added for one whose name is not taken.
  abbrev as_added : PackingCategory → PackingItem → List PackingItem → PackingItem
  as_added c i items = record i {
    trip_id = c.trip_id;
    category_id = some c.id;
    position = next_position c.id 0 items;
  }

  merge_items_skip :
      (c : PackingCategory) (i : PackingItem) (is items : List PackingItem)
      → is_taken equal_fold c.id i.name items ≡ true
      → merge_items equal_fold c (i ∷ is) items ≡ merge_items equal_fold c is items
  unfolding merge_items
  merge_items_skip c i is items e = rw e (ap (merge_items equal_fold c is) (append-nil items))

  merge_items_add :
      (c : PackingCategory) (i : PackingItem) (is items : List PackingItem)
      → is_taken equal_fold c.id i.name items ≡ false
      → merge_items equal_fold c (i ∷ is) items
        ≡ as_added c i items ∷ merge_items equal_fold c is (items ++ as_added c i items ∷ [])
  unfolding merge_items
  merge_items_add c i is items e = rw e refl

  merge_items-taken :
      (c : PackingCategory) (is items : List PackingItem)
      → AreTaken c is items
      → merge_items equal_fold c is items ≡ []
  unfolding merge_items
  merge_items-taken c [] items h = refl
  merge_items-taken c (i ∷ is) items h =
      merge_items_skip c i is items h.0 ∙ merge_items-taken c is items h.1

  as_added-taken :
      (c : PackingCategory) (i : PackingItem) (items : List PackingItem)
      → is_taken equal_fold c.id i.name (items ++ as_added c i items ∷ []) ≡ true
  as_added-taken c i items =
      any_last (λ e. same_day e.category_id (some c.id) && equal_fold e.name i.name) items
        (as_added c i items) (ground (arith, fold_refl i.name))

  merge_items-AreTaken :
      (c : PackingCategory) (is items : List PackingItem)
      → AreTaken c is (items ++ merge_items equal_fold c is items)
  merge_items-AreTaken c [] items = tt
  merge_items-AreTaken c (i ∷ is) items =
      elim (Bool-cases (is_taken equal_fold c.id i.name items)) [
        | inl e ↦
            subst (λ x. AreTaken c (i ∷ is) (items ++ x)) (sym (merge_items_skip c i is items e))
              (any_before _ items _ e, merge_items-AreTaken c is items)
        | inr e ↦
            let items' = items ++ as_added c i items ∷ [] in
            let rest = merge_items equal_fold c is items' in
            let whole : items' ++ rest ≡ items ++ merge_items equal_fold c (i ∷ is) items =
              append_assoc items (as_added c i items ∷ []) rest
              ∙ ap (◌++◌ items) (sym (merge_items_add c i is items e)) in
            subst (λ x. AreTaken c (i ∷ is) x) whole
              (
                any_before _ items' rest (as_added-taken c i items),
                merge_items-AreTaken c is items',
              )
      ]

  -- A section finds its category, and all of its names are taken there.
  abbrev IsSettled : List PackingCategory → List PackingItem → PackingSection → Type 0
  IsSettled cs items s =
      (c : PackingCategory) × (find_packing_category equal_fold cs s.category.name ≡ some c)
      × AreTaken c s.items items

  IsSettled-append :
      (cs more : List PackingCategory) (items extra : List PackingItem) (s : PackingSection)
      → IsSettled cs items s
      → IsSettled (cs ++ more) (items ++ extra) s
  IsSettled-append cs more items extra s (c, found, taken) =
      (c, find_before _ cs more found, AreTaken-append c s.items items extra taken)

  -- The category that a section is put into, among those that are there and created.
  placed-found :
      (cs : List PackingCategory) (s : PackingSection)
      → let (c, created) =
          placed equal_fold (find_packing_category equal_fold cs s.category.name) s (length cs) in
        find_packing_category equal_fold (cs ++ created) s.category.name ≡ some c
  placed-found cs s = elim (Option-cases (find_packing_category equal_fold cs s.category.name)) [
    | inl e ↦ rw e (find_last _ cs _ e (fold_refl s.category.name))
    | inr (c, e) ↦ rw e (find_before _ cs [] e)
  ]

  merge_sections-IsSettled :
      (ss : List PackingSection) (cs : List PackingCategory) (items : List PackingItem)
      → let (new_cs, new_items) = merge_sections equal_fold ss cs items in
        All (IsSettled (cs ++ new_cs) (items ++ new_items)) ss
  unfolding merge_sections
  merge_sections-IsSettled [] cs items = tt
  merge_sections-IsSettled (s ∷ ss) cs items =
      let found = find_packing_category equal_fold cs s.category.name in
      let (c, created) = placed equal_fold found s (length cs) in
      let added = merge_items equal_fold c s.items items in
      let (more, extra) = merge_sections equal_fold ss (cs ++ created) (items ++ added) in
      let first : IsSettled (cs ++ created) (items ++ added) s =
        (c, placed-found cs s, merge_items-AreTaken c s.items items) in
      let later = merge_sections-IsSettled ss (cs ++ created) (items ++ added) in
      subst (λ x. All (IsSettled x (items ++ (added ++ extra))) (s ∷ ss))
        (append_assoc cs created more)
        (subst (λ y. All (IsSettled ((cs ++ created) ++ more) y) (s ∷ ss))
          (append_assoc items added extra)
          (IsSettled-append (cs ++ created) more (items ++ added) extra s first, later))

  merge_sections-settled :
      (ss : List PackingSection) (cs : List PackingCategory) (items : List PackingItem)
      → All (IsSettled cs items) ss
      → merge_sections equal_fold ss cs items ≡ ([], [])
  unfolding merge_sections
  merge_sections-settled [] cs items h = refl
  merge_sections-settled (s ∷ ss) cs items ((c, found, taken), h) = rw found (
      rw (merge_items-taken c s.items items taken) (
        rw (append-nil cs)
          (rw (append-nil items) (rw (merge_sections-settled ss cs items h) refl))))

  -- Once the categories and items that `Merge` brings in have been added to the list, merging the
  -- same sections brings in nothing. Comparing names in any case finds a name equal to itself.
  pub merge_twice :
      (l : PackingList) (sections : List PackingSection)
      → let (categories, items) = merge equal_fold l sections in
        merge equal_fold
          (record { categories = l.categories ++ categories; items = l.items ++ items })
          sections
        ≡ ([], [])
  unfolding merge
  merge_twice l sections =
      merge_sections-settled sections _ _ (merge_sections-IsSettled sections l.categories l.items)
