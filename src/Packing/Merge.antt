-- ===== src/Packing/Merge.antt =====
-- packing.go: `Merge`. The lists that the code appends to are the arguments `categories` and
-- `items`; what it collects as new is the result.
use tripvault.Base.{
  ℕ, Bool, ◌&&◌, Option, none, some, List, [], ◌∷◌, ◌++◌, find, any, length, if◌then◌else◌,
}
use tripvault.Base.Int64.{Int64, max64, ◌⊕◌}
use tripvault.Base.Text.{Text, is_empty}
use tripvault.Domain.Values.{Uuid}
use tripvault.Plan.{same_day}
use tripvault.Packing.{
  PackingCategory, PackingItem, PackingSection, PackingList, default_packing_color,
}

-- The position that a new item takes: the loop over what is there.
unfoldable pub next_position : Uuid → Int64 → List PackingItem → Int64
next_position category position [] = position
next_position category position (e ∷ es) =
    next_position category
      (if same_day e.category_id (some category) then max64 position (e.position ⊕ 1) else position)
      es

module _ (equal_fold : Text → Text → Bool) where
  -- `findPackingCategory`
  abbrev pub find_packing_category : List PackingCategory → Text → Option PackingCategory
  find_packing_category categories name = find (λ c. equal_fold c.name name) categories

  -- A category holds an item of this name already: the same loop.
  abbrev pub is_taken : Uuid → Text → List PackingItem → Bool
  is_taken category name items =
      any (λ e. same_day e.category_id (some category) && equal_fold e.name name) items

  -- The loop over the items of a section.
  unfoldable pub merge_items :
      PackingCategory → List PackingItem → List PackingItem → List PackingItem
  unfolding next_position
  merge_items category [] items = []
  merge_items category (i ∷ is) items =
      let added =
        if is_taken category.id i.name items
        then []
        else record i {
          trip_id = category.trip_id;
          category_id = some category.id;
          position = next_position category.id 0 items;
        }
          ∷ [] in
      added ++ merge_items category is (items ++ added)

  -- The category that a section fills, and whether it is new.
  abbrev pub placed :
      Option PackingCategory → PackingSection → ℕ → PackingCategory × List PackingCategory
  placed (some category) s count = (category, [])
  placed none s count =
      let category : PackingCategory = record s.category {
        position = count;
        color = if is_empty s.category.color then default_packing_color count else s.category.color;
      } in
      (category, category ∷ [])

  -- The loop over the sections.
  unfoldable pub merge_sections :
      List PackingSection
      → List PackingCategory
      → List PackingItem
      → List PackingCategory × List PackingItem
  unfolding merge_items default_packing_color
  merge_sections [] categories items = ([], [])
  merge_sections (s ∷ ss) categories items =
      let (category, created) =
        placed (find_packing_category categories s.category.name) s (length categories) in
      let added = merge_items category s.items items in
      let (new_categories, new_items) =
        merge_sections ss (categories ++ created) (items ++ added) in
      (created ++ new_categories, added ++ new_items)

  -- `PackingList.Merge`
  unfoldable pub merge : PackingList → List PackingSection → List PackingCategory × List PackingItem
  unfolding merge_sections
  merge l sections = merge_sections sections l.categories l.items
