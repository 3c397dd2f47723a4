-- ===== src/Packing/Tests.antt =====
-- A template with one section, merged into an empty list.
use tripvault.Base.{◌>>=◌, refuse_if, false, none, List, [], ◌∷◌, ◌≡◌, refl, arith, ok, map}
use tripvault.Base.Int64.{Int64}
use tripvault.Base.Text.{Text, text, text_eq, text_eq_iff, trim_space}
use tripvault.Domain.Checks.{check_length}
use tripvault.Packing.{PackingItem, PackingSection, PackingList, normalize_packing_item}
use tripvault.Packing.Merge.{merge}
use tripvault.Packing.Twice.{merge_twice}
use tripvault.Packing.Checked.{IsValidItem, normalize_packing_item-IsValidItem}

abbrev thing : Text → Int64 → PackingItem
thing name quantity = record {
  id = 1;
  trip_id = 1;
  category_id = none;
  name = name;
  quantity = quantity;
  note = [];
  packed = false;
  bringer_id = none;
  position = 0;
  created_at = 0;
  updated_at = 0;
}

abbrev template : List PackingSection
template =
    record {
      category = record {
        id = 5;
        trip_id = 1;
        name = text "Gear";
        color = [];
        icon = text "gear";
        position = 0;
      };
      items = thing (text "Tent") 1 ∷ thing (text "Lamp") 2 ∷ thing (text "Tent") 1 ∷ [];
    }
    ∷ []

abbrev no_list : PackingList
no_list = record { categories = []; items = [] }

merged :
    (map (λ c. c.color) (merge text_eq no_list template).0 ≡ text "red" ∷ [])
    × (map (λ i. i.position) (merge text_eq no_list template).1 ≡ 0 ∷ 1 ∷ [])
unfolding merge text_eq
merged = (refl, refl)

merge_twice_example :
    let (categories, items) = merge text_eq no_list template in
    merge text_eq (record { categories = categories; items = items }) template ≡ ([], [])
merge_twice_example = merge_twice text_eq (λ s. (text_eq_iff s s).1 refl) no_list template

normalize_packing_item-IsValidItem_example :
    IsValidItem (thing (text "Tent") 1)
    × (normalize_packing_item (thing (text "Tent") 1) ≡ ok (thing (text "Tent") 1))
unfolding normalize_packing_item ◌>>=◌ refuse_if trim_space check_length
normalize_packing_item-IsValidItem_example =
    normalize_packing_item-IsValidItem (thing (text " Tent") 0) (thing (text "Tent") 1)
      (omega arith) refl
