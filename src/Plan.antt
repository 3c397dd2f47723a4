-- ===== src/Plan.antt =====
-- How a document is read by day: plan.go's `DayItems`, leg.go's `OpeningLeg` and `DayLegs`,
-- expense.go's `DayExpenses`, and the stops of stop.go.
pub mod Order
pub mod Schedule
pub mod Times
pub mod Nights
pub mod Overnight
pub mod Marks
mod Tests
use tripvault.Base.{
  Bool, not, ◌&&◌, Option, none, some, List, [], ◌∷◌, ◌++◌, map, opt_eq, ◌==◌, find, select,
  last_such, opt_list, flat_map, if◌then◌else◌,
}
use tripvault.Base.Int64.{lt64}
use tripvault.Base.Sort.{sort_stable}
use tripvault.Base.Text.{Text, is_empty}
use tripvault.Domain.Kinds.{
  is_visit, is_morning, item_place, ItemStatus, AnchorSlot, ActivityType, PlaceCategory,
}
use tripvault.Domain.Kinds
use tripvault.Domain.Values.{Uuid}
use tripvault.Domain.Records.{Item, Stop, Track, Expense}
use tripvault.Domain.Journeys.{Leg}
use tripvault.Domain.Content.{DocumentContent}

-- `sameDay`
abbrev pub same_day : Option Uuid → Option Uuid → Bool
same_day = opt_eq

-- The places of a day: the first case of the `switch` in `DayItems`.
abbrev pub is_place_of : Option Uuid → Item → Bool
is_place_of day i = same_day i.day_id day && is_visit i.kind

abbrev pub is_morning_of : Option Uuid → Item → Bool
is_morning_of day i = same_day i.day_id day && not (is_visit i.kind) && is_morning i.anchor

abbrev pub is_evening_of : Option Uuid → Item → Bool
is_evening_of day i = same_day i.day_id day && not (is_visit i.kind) && not (is_morning i.anchor)

abbrev pub earlier : Item → Item → Bool
earlier a b = lt64 a.position b.position

-- `DayItems`. The loop overwrites the marks, so the last of each kind counts.
unfoldable pub day_items : List Item → Option Uuid → List Item
unfolding is_visit sort_stable
day_items items day =
    opt_list (last_such (is_morning_of day) items)
    ++ (sort_stable earlier (select (is_place_of day) items)
        ++ opt_list (last_such (is_evening_of day) items))

-- `OpeningLeg`
unfoldable pub opening_leg : List Leg → List Item → Option Leg
opening_leg legs [] = none
opening_leg legs (i ∷ items) = find (λ l. l.to_item_id == i.id) legs

-- A pointer of the map that `DayLegs` builds: a later leg between the same elements wins.
unfoldable pub leg_between : List Leg → Uuid → Uuid → Option Leg
leg_between legs a b = last_such (λ l. l.from_item_id == a && l.to_item_id == b) legs

-- `DayLegs`
unfoldable pub day_legs : List Leg → List Item → List (Option Leg)
unfolding leg_between
day_legs legs (a ∷ b ∷ items) = leg_between legs a.id b.id ∷ day_legs legs (b ∷ items)
day_legs legs _ = []

-- `DayExpenses`
unfoldable pub day_expenses : List Expense → Option Uuid → List Expense
day_expenses expenses day = select (λ e. same_day e.day_id day) expenses

-- `TrackOfItem`
unfoldable pub track_of_item : List Track → Uuid → Option Track
track_of_item tracks item = find (λ t. t.item_id == item) tracks

abbrev stops_of_track : Option Track → List Stop
stops_of_track none = []
stops_of_track (some t) = t.stops

-- `StopsOf`
unfoldable pub stops_of : List Track → Uuid → List Stop
unfolding track_of_item
stops_of tracks item = stops_of_track (track_of_item tracks item)

-- `Stop.Label`; the separator is a middle dot between spaces.
unfoldable pub stop_label : Stop → Text → Text
stop_label s activity =
    if is_empty s.name
    then activity
    else if is_empty activity
    then s.name
    else activity ++ 32 ∷ 0xb7 ∷ 32 ∷ s.name

-- `Stop.CostItem`: the fields that the literal does not name are zero.
unfoldable pub cost_item : Stop → Item → Item
unfolding stop_label
cost_item s activity = record {
  id = s.id;
  document_id = s.document_id;
  day_id = activity.day_id;
  position = 0;
  kind = item_place;
  anchor = Kinds.AnchorSlot.unset;
  stay_id = none;
  name = stop_label s activity.name;
  category = Kinds.PlaceCategory.unset;
  activity_type = Kinds.ActivityType.unset;
  lat = none;
  lng = none;
  address = [];
  osm_ref = [];
  description_md = [];
  url = [];
  desired_time = none;
  visit_minutes = 0;
  is_optional = activity.is_optional;
  booking_ref = [];
  planned_cost = s.planned_cost;
  cost_per_person = s.cost_per_person;
  cost_category = s.cost_category;
  cost_note = s.cost_note;
  paid_by = s.paid_by;
  cost_split = s.cost_split;
  cost_shares = s.cost_shares;
  status = Kinds.ItemStatus.unset;
  story_md = [];
  actual_time = none;
  actual_end_time = none;
  rating = none;
  actual_cost = s.actual_cost;
  cover_media_id = none;
  difficulty = none;
  created_at = 0;
  updated_at = 0;
}

-- The items of one track in `StopCostItems`; the map holds the last item of an identifier.
track_cost_items : List Item → Track → List Item
unfolding cost_item
track_cost_items items t = elim (last_such (λ (i : Item). i.id == t.item_id) items) [
  | none ↦ []
  | some activity ↦ map (λ s. cost_item s activity) t.stops
]

-- `StopCostItems`
unfoldable pub stop_cost_items : DocumentContent → List Item
unfolding track_cost_items
stop_cost_items content = flat_map (track_cost_items content.items) content.tracks
