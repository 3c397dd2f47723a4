-- ===== src/Domain/Kinds.antt =====
-- The string types of backend/internal/domain that a rule branches on. Each has the source's
-- constants, `unset` for the empty string and `unknown` for any other.
use tripvault.Base.{ℕ, Bool, true, false, ◌&&◌, List, [], ◌∷◌, ◌==◌, any}
use tripvault.Base.Text.{Text, text_eq}

pub data DocumentKind : Type 0 where
  document_plan document_report unset : DocumentKind
  unknown : Text → DocumentKind

pub data ItemKind : Type 0 where
  item_place item_activity item_stay_anchor unset : ItemKind
  unknown : Text → ItemKind

pub data AnchorSlot : Type 0 where
  anchor_morning anchor_evening unset : AnchorSlot
  unknown : Text → AnchorSlot

pub data ItemStatus : Type 0 where
  status_planned status_visited status_skipped status_unplanned unset : ItemStatus
  unknown : Text → ItemStatus

pub data CostSplit : Type 0 where
  split_none split_everyone split_individuals unset : CostSplit
  unknown : Text → CostSplit

pub data CostCategory : Type 0 where
  cost_accommodation cost_transport cost_car_rental cost_fuel cost_tolls cost_food : CostCategory
  cost_groceries cost_sightseeing cost_activities cost_shopping cost_other unset : CostCategory
  unknown : Text → CostCategory

pub data PlaceCategory : Type 0 where
  category_sight category_nature category_museum category_food category_shopping : PlaceCategory
  category_activity category_transport category_parking category_other unset : PlaceCategory
  unknown : Text → PlaceCategory

pub data ActivityType : Type 0 where
  activity_hike activity_walk activity_bike activity_run activity_canyoning : ActivityType
  activity_climbing activity_via_ferrata activity_kayak activity_swim activity_ski : ActivityType
  activity_tour activity_other unset : ActivityType
  unknown : Text → ActivityType

pub data TravelMode : Type 0 where
  mode_walk mode_car mode_bike mode_transit mode_bus mode_train mode_tram mode_ferry : TravelMode
  mode_flight mode_cable_car mode_other unset : TravelMode
  unknown : Text → TravelMode

-- `ItemKind.IsVisit`: a place or an activity, rather than a stay mark.
unfoldable pub is_visit : ItemKind → Bool
is_visit item_place = true
is_visit item_activity = true
is_visit _ = false

abbrev pub is_morning : AnchorSlot → Bool
is_morning anchor_morning = true
is_morning _ = false

-- `trip.Kind == DocumentReport`
abbrev pub is_report : DocumentKind → Bool
is_report document_report = true
is_report _ = false

abbrev pub is_plan : DocumentKind → Bool
is_plan document_plan = true
is_plan _ = false

-- `CostCategories`, in the order in which budget categories are listed.
abbrev pub cost_categories : List CostCategory
cost_categories =
    cost_accommodation ∷ cost_transport ∷ cost_car_rental ∷ cost_fuel ∷ cost_tolls ∷ cost_food
    ∷ cost_groceries ∷ cost_sightseeing ∷ cost_activities ∷ cost_shopping ∷ cost_other ∷ []

-- Equality of the strings: the constants are distinct.
abbrev category_tag : CostCategory → ℕ
category_tag cost_accommodation = 0
category_tag cost_transport = 1
category_tag cost_car_rental = 2
category_tag cost_fuel = 3
category_tag cost_tolls = 4
category_tag cost_food = 5
category_tag cost_groceries = 6
category_tag cost_sightseeing = 7
category_tag cost_activities = 8
category_tag cost_shopping = 9
category_tag cost_other = 10
category_tag CostCategory.unset = 11
category_tag (CostCategory.unknown t) = 12

abbrev category_text : CostCategory → Text
category_text (CostCategory.unknown t) = t
category_text _ = []

unfoldable pub category_eq : CostCategory → CostCategory → Bool
unfolding text_eq
category_eq a b = category_tag a == category_tag b && text_eq (category_text a) (category_text b)

-- `slices.Contains(CostCategories, category)`
unfoldable pub is_known_category : CostCategory → Bool
unfolding category_eq
is_known_category category = any (category_eq category) cost_categories

abbrev mode_tag : TravelMode → ℕ
mode_tag mode_walk = 0
mode_tag mode_car = 1
mode_tag mode_bike = 2
mode_tag mode_transit = 3
mode_tag mode_bus = 4
mode_tag mode_train = 5
mode_tag mode_tram = 6
mode_tag mode_ferry = 7
mode_tag mode_flight = 8
mode_tag mode_cable_car = 9
mode_tag mode_other = 10
mode_tag TravelMode.unset = 11
mode_tag (TravelMode.unknown t) = 12

abbrev mode_text : TravelMode → Text
mode_text (TravelMode.unknown t) = t
mode_text _ = []

-- Equality of travel modes.
unfoldable pub mode_eq : TravelMode → TravelMode → Bool
unfolding text_eq
mode_eq a b = mode_tag a == mode_tag b && text_eq (mode_text a) (mode_text b)
