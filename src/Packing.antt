-- ===== src/Packing.antt =====
-- backend/internal/domain/packing.go, with the palette of tag.go: what a trip's people take.
-- `strings.EqualFold` is a parameter of the functions that compare names in any case.
pub mod Merge
pub mod Twice
pub mod Checked
mod Tests
use tripvault.Base.{
  ◌>>=◌, ◌>>◌, ℕ, ◌%◌, Bool, not, ◌||◌, Option, none, some, List, [], ◌∷◌, Result, ok, refuse_if,
  new_validation_error, length, ltb, select, any, if◌then◌else◌, ◌==◌, get_elem?,
}
use tripvault.Base.Int64.{Int64, lt64}
use tripvault.Base.Text.{Text, text, text_eq, is_empty}
use tripvault.Domain.Values.{Uuid, Time}
use tripvault.Domain.Checks.{trimmed_text, max_short_text}
use tripvault.Plan.{same_day}
use Prim.Native.String.{String}

abbrev pub max_packing_category_name : ℕ
max_packing_category_name = 100

abbrev pub max_packing_item_name : ℕ
max_packing_item_name = 200

-- `MaxPackingQuantity`
abbrev pub max_packing_quantity : Int64
max_packing_quantity = 999

abbrev pub max_packing_sections : ℕ
max_packing_sections = 20

abbrev pub max_packing_section_items : ℕ
max_packing_section_items = 100

-- `PackingIconOther`
abbrev pub packing_icon_other : Text
packing_icon_other = text "other"

-- `PackingIcons`
abbrev pub packing_icons : List Text
packing_icons =
    text "documents"
    ∷ text "tickets"
    ∷ text "cards"
    ∷ text "money"
    ∷ text "coins"
    ∷ text "keys"
    ∷ text "work"
    ∷ text "clothes"
    ∷ text "bags"
    ∷ text "luggage"
    ∷ text "glasses"
    ∷ text "rain"
    ∷ text "first_aid"
    ∷ text "medicine"
    ∷ text "thermometer"
    ∷ text "hygiene"
    ∷ text "health"
    ∷ text "cosmetics"
    ∷ text "electronics"
    ∷ text "phone"
    ∷ text "chargers"
    ∷ text "power_bank"
    ∷ text "headphones"
    ∷ text "camera"
    ∷ text "flash_drive"
    ∷ text "watch"
    ∷ text "games"
    ∷ text "food"
    ∷ text "snacks"
    ∷ text "drinks"
    ∷ text "groceries"
    ∷ text "books"
    ∷ text "music"
    ∷ text "drawing"
    ∷ text "toys"
    ∷ text "gifts"
    ∷ text "kids"
    ∷ text "sport"
    ∷ text "swimming"
    ∷ text "beach"
    ∷ text "snow"
    ∷ text "camping"
    ∷ text "lamp"
    ∷ text "compass"
    ∷ text "map"
    ∷ text "binoculars"
    ∷ text "hiking"
    ∷ text "sleep"
    ∷ text "nature"
    ∷ text "gear"
    ∷ text "flight"
    ∷ text "train"
    ∷ text "bus"
    ∷ text "car"
    ∷ text "fuel"
    ∷ text "home"
    ∷ text "tools"
    ∷ text "stationery"
    ∷ text "shopping"
    ∷ packing_icon_other
    ∷ []

-- `TagColors`
abbrev pub tag_colors : List Text
tag_colors =
    text "red"
    ∷ text "orange"
    ∷ text "amber"
    ∷ text "green"
    ∷ text "teal"
    ∷ text "sky"
    ∷ text "blue"
    ∷ text "violet"
    ∷ text "pink"
    ∷ text "gray"
    ∷ text "yellow"
    ∷ text "emerald"
    ∷ text "indigo"
    ∷ text "fuchsia"
    ∷ text "lime"
    ∷ text "cyan"
    ∷ text "purple"
    ∷ text "rose"
    ∷ text "brown"
    ∷ []

-- `ValidatePackingIcon`
unfoldable pub validate_packing_icon : Text → Result (Unit {0})
unfolding text_eq
validate_packing_icon icon =
    refuse_if (not (any (text_eq icon) packing_icons))
      (new_validation_error "icon" "unsupported" "must be an icon of the set")

-- `ValidateTagColor`
unfoldable pub validate_tag_color : Text → Result (Unit {0})
unfolding text_eq
validate_tag_color color =
    refuse_if (not (any (text_eq color) tag_colors))
      (new_validation_error "color" "unsupported" "must be a colour of the palette")

abbrev or_empty : Option Text → Text
or_empty none = []
or_empty (some t) = t

-- `DefaultPackingColor`; the number of categories is below 2 ^ 63.
unfoldable pub default_packing_color : ℕ → Text
default_packing_color count = or_empty (get_elem? tag_colors (count % length tag_colors))

-- `PackingCategory`
pub record PackingCategory : Type 0 where
  pub id : Uuid
  pub trip_id : Uuid
  pub name : Text
  pub color : Text
  pub icon : Text
  pub position : Int64

-- `requiredPackingText`
unfoldable pub required_packing_text : String → Text → ℕ → Result Text
unfolding trimmed_text
required_packing_text field value limit = do
  v ← trimmed_text field value limit
  refuse_if (is_empty v) (new_validation_error field "required" "must not be empty")
  ok v

abbrev check_color : Text → Result (Unit {0})
check_color color = if not (is_empty color) then validate_tag_color color else ok tt

-- `PackingCategory.Normalize`
unfoldable pub normalize_category : PackingCategory → Result PackingCategory
unfolding required_packing_text validate_tag_color validate_packing_icon
normalize_category c = do
  name ← required_packing_text "name" c.name max_packing_category_name
  check_color c.color
  let icon : Text = if is_empty c.icon then packing_icon_other else c.icon
  validate_packing_icon icon
  ok (record c { name = name; icon = icon })

-- `PackingItem`
pub record PackingItem : Type 0 where
  pub id : Uuid
  pub trip_id : Uuid
  pub category_id : Option Uuid
  pub name : Text
  pub quantity : Int64
  pub note : Text
  pub packed : Bool
  pub bringer_id : Option Uuid
  pub position : Int64
  pub created_at : Time
  pub updated_at : Time

-- `PackingItem.Normalize`
unfoldable pub normalize_packing_item : PackingItem → Result PackingItem
unfolding required_packing_text trimmed_text
normalize_packing_item i = do
  name ← required_packing_text "name" i.name max_packing_item_name
  note ← trimmed_text "note" i.note max_short_text
  let quantity : Int64 = if i.quantity == 0 then 1 else i.quantity
  refuse_if (lt64 quantity 1 || lt64 max_packing_quantity quantity)
      (new_validation_error "quantity" "out_of_range" "must be between 1 and 999")
  ok (record i { name = name; note = note; quantity = quantity })

-- `PackingList`
pub record PackingList : Type 0 where
  pub categories : List PackingCategory
  pub items : List PackingItem

-- `PackingList.InCategory`
unfoldable pub in_category : Option Uuid → PackingList → List PackingItem
in_category category l = select (λ i. same_day i.category_id category) l.items

-- `PackingList.PackedCount`
unfoldable pub packed_count : List PackingItem → ℕ
packed_count items = length (select (λ i. i.packed) items)

-- `PackingSection`
pub record PackingSection : Type 0 where
  pub category : PackingCategory
  pub items : List PackingItem

-- The inner loop of `ValidatePackingSections`
unfoldable pub normalize_items : List PackingItem → Result (List PackingItem)
unfolding normalize_packing_item
normalize_items [] = ok []
normalize_items (i ∷ is) = do i' ← normalize_packing_item i; is' ← normalize_items is; ok (i' ∷ is')

-- The loop of `ValidatePackingSections`
unfoldable pub normalize_sections : List PackingSection → Result (List PackingSection)
unfolding normalize_category normalize_items
normalize_sections [] = ok []
normalize_sections (s ∷ ss) = do
  category ← normalize_category s.category
  refuse_if (ltb max_packing_section_items (length s.items))
      (new_validation_error "items" "out_of_range" "must hold at most 100 items a category")
  items ← normalize_items s.items
  rest ← normalize_sections ss
  ok (record { category = category; items = items } ∷ rest)

-- `ValidatePackingSections`
unfoldable pub validate_packing_sections : List PackingSection → Result (List PackingSection)
unfolding normalize_sections
validate_packing_sections sections = do
  refuse_if (length sections == 0 || ltb max_packing_sections (length sections))
      (new_validation_error "categories" "out_of_range" "must hold between 1 and 20 categories")
  normalize_sections sections
