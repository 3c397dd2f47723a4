-- ===== src/Legs.antt =====
-- backend/internal/domain/leg.go, and the ends of the parts of legsegment.go: which legs the days
-- of a document need. How `%.5f` prints a coordinate is a parameter.
pub mod Needed
pub mod Served
pub mod Reconciled
mod Tests
use tripvault.Base.{
  ℕ, Bool, true, false, not, ◌&&◌, Option, none, some, List, [], ◌∷◌, ◌++◌, map, if◌then◌else◌,
  ◌==◌, last_such, select, any, length,
}
use tripvault.Base.Text.{Text, text, text_eq, is_empty}
use tripvault.Domain.Kinds.{
  TravelMode, mode_walk, mode_car, mode_bike, mode_transit, mode_bus, mode_train, mode_tram,
  mode_ferry, mode_flight, mode_cable_car, mode_other, is_morning, ItemKind, item_stay_anchor,
}
use tripvault.Domain.Kinds
use tripvault.Domain.Roles.{is_routed}
use tripvault.Domain.Values.{Uuid, Float64, Point}
use tripvault.Domain.Records.{Item, Stay, Track, Day}
use tripvault.Domain.Journeys.{Leg, LegSegment, is_composite}
use tripvault.Domain.Content.{DocumentContent}
use tripvault.Polyline.{Floats, decode_polyline}
use tripvault.Plan.{day_items, track_of_item, leg_between}

-- `LegRoute`
pub record LegRoute : Type 0 where
  pub preference : Text
  pub via : List Point

abbrev pub route_fastest : Text
route_fastest = text "fastest"

-- `Leg.Route`
unfoldable pub route_of : Leg → LegRoute
route_of l = record {
  preference = if is_empty l.preference then route_fastest else l.preference;
  via = l.via;
}

-- `string(mode)`
abbrev pub mode_name : TravelMode → Text
mode_name mode_walk = text "walk"
mode_name mode_car = text "car"
mode_name mode_bike = text "bike"
mode_name mode_transit = text "transit"
mode_name mode_bus = text "bus"
mode_name mode_train = text "train"
mode_name mode_tram = text "tram"
mode_name mode_ferry = text "ferry"
mode_name mode_flight = text "flight"
mode_name mode_cable_car = text "cable_car"
mode_name mode_other = text "other"
mode_name Kinds.TravelMode.unset = []
mode_name (Kinds.TravelMode.unknown s) = s

abbrev pub point_of : Option Float64 → Option Float64 → Option Point
point_of (some lat) (some lng) = some (record { lat = lat; lng = lng })
point_of _ _ = none

abbrev pub is_stay_anchor : ItemKind → Bool
is_stay_anchor item_stay_anchor = true
is_stay_anchor _ = false

-- The coordinates of a stay that the map has; those of a stay that it lacks are nil.
abbrev pub stay_point : Option Stay → Option Point
stay_point none = none
stay_point (some s) = point_of s.lat s.lng

abbrev pub point_by_stay : Item → List Stay → Option Uuid → Option Point
point_by_stay item stays none = point_of item.lat item.lng
point_by_stay item stays (some id) =
    if is_stay_anchor item.kind
    then stay_point (last_such (λ s. s.id == id) stays)
    else point_of item.lat item.lng

-- `ItemPoint`
unfoldable pub item_point : Item → List Stay → Option Point
item_point item stays = point_by_stay item stays item.stay_id

abbrev pub first_or : Option Point → List Point → Option Point
first_or p [] = p
first_or p (q ∷ line) = some q

unfoldable pub last_or : Option Point → List Point → Option Point
last_or p [] = p
last_or p (q ∷ line) = last_or (some q) line

-- `SegmentInput` and `SegmentEnds` go by the position of a change.
abbrev pub segment_stop : LegSegment → Option Point
segment_stop s = point_of s.stop_lat s.stop_lng

-- `SegmentEnds`: each part with its start and its end.
unfoldable pub segment_ends :
    List LegSegment → Option Point → Option Point → List (LegSegment × Option Point × Option Point)
segment_ends [] start end = []
segment_ends (s ∷ []) start end = (s, start, end) ∷ []
segment_ends (s ∷ r ∷ segments) start end =
    (s, start, segment_stop s) ∷ segment_ends (r ∷ segments) (segment_stop s) end

-- `LegPlan`
pub record LegPlan : Type 0 where
  pub create : List Leg
  pub reset : List Leg
  pub delete : List Uuid
  pub reset_segments : List LegSegment

-- The variables of `ReconcileLegs`: the plan, and the map of the legs that are kept.
pub record Progress : Type 0 where
  pub plan : LegPlan
  pub kept : List Uuid

abbrev pub text_join : List Text → Text
text_join [] = []
text_join (t ∷ []) = t
text_join (t ∷ u ∷ ts) = t ++ (text ";" ++ text_join (u ∷ ts))

module _ (f : Floats) (printed : Float64 → Text) where
  -- `trackLine`
  abbrev pub line_of_track : Option Track → List Point
  line_of_track none = []
  line_of_track (some t) = decode_polyline f t.geometry 5

  unfoldable pub track_line : List Track → Uuid → List Point
  unfolding track_of_item decode_polyline
  track_line tracks item = line_of_track (track_of_item tracks item)

  -- `LegEnds`
  unfoldable pub leg_ends : Item → Item → List Stay → List Track → Option Point × Option Point
  unfolding item_point last_or track_line
  leg_ends from to stays tracks = (
    last_or (item_point from stays) (track_line tracks from.id),
    first_or (item_point to stays) (track_line tracks to.id),
  )

  abbrev pub printed_point : Option Point → Text
  printed_point none = text "?"
  printed_point (some p) = printed p.lat ++ (text "," ++ printed p.lng)

  -- `LegInput`
  unfoldable pub leg_input : TravelMode → Option Point → Option Point → LegRoute → Text
  unfolding is_routed text_eq
  leg_input mode from to route =
      let input =
        mode_name mode ++ (text "|" ++ (printed_point from ++ (text "|" ++ printed_point to))) in
      if not (is_routed mode)
      then input
      else let preferred =
          if not (is_empty route.preference) && not (text_eq route.preference route_fastest)
          then input ++ (text "|" ++ route.preference)
          else input in
        if not (length route.via == 0)
        then preferred ++ (text "|via:" ++ text_join (map (λ p. printed_point (some p)) route.via))
        else preferred

  -- `SegmentInput`
  abbrev pub segment_input : TravelMode → Option Point → Option Point → Text
  segment_input mode from to = leg_input mode from to (record { preference = []; via = [] })

  -- The loop over the parts of a composite leg: those whose input changed.
  unfoldable pub moved_segments : List (LegSegment × Option Point × Option Point) → List LegSegment
  unfolding leg_input text_eq
  moved_segments [] = []
  moved_segments ((s, start, end) ∷ segments) =
      let input = segment_input s.mode start end in
      (if not (text_eq input s.input) then record s { input = input } ∷ [] else [])
      ++ moved_segments segments

  -- The input of a leg between two elements.
  abbrev pub input_between : DocumentContent → Item → Item → TravelMode → LegRoute → Text
  input_between c from to mode route =
      let ends = leg_ends from to c.stays c.tracks in leg_input mode ends.0 ends.1 route

  abbrev pub keep_composite : DocumentContent → Item → Item → Leg → Progress → Progress
  keep_composite c from to leg p =
      let ends = leg_ends from to c.stays c.tracks in
      record p {
        plan = record p.plan {
          reset_segments =
              p.plan.reset_segments ++ moved_segments (segment_ends leg.segments ends.0 ends.1);
        };
        kept = leg.id ∷ p.kept;
      }

  -- `need`, where the pair has a leg of the day.
  unfoldable pub keep_leg : DocumentContent → Item → Item → Leg → Progress → Progress
  unfolding leg_input leg_ends moved_segments segment_ends route_of is_composite text_eq
  keep_leg c from to leg p =
      if is_composite leg
      then keep_composite c from to leg p
      else let input = input_between c from to leg.mode (route_of leg) in
        record p {
          plan =
              if not (text_eq input leg.input)
              then record p.plan { reset = p.plan.reset ++ record leg { input = input } ∷ [] }
              else p.plan;
          kept = leg.id ∷ p.kept;
        }

  -- The mode of a new leg.
  abbrev pub default_mode : Option TravelMode → TravelMode
  default_mode none = mode_car
  default_mode (some mode) = mode

  abbrev pub mode_after : Day → Option Leg → TravelMode
  mode_after day none = default_mode day.default_mode
  mode_after day (some leg) = leg.mode

  module _ (content : DocumentContent) (existing : List Leg) (new_id : ℕ → Uuid) where
    abbrev pub new_leg : Day → Item → Item → ℕ → Leg
    new_leg day from to count =
        let mode = mode_after day (last_such (λ l. l.from_item_id == from.id) existing) in
        record {
          id = new_id count;
          document_id = content.document.id;
          day_id = day.id;
          from_item_id = from.id;
          to_item_id = to.id;
          mode = mode;
          distance_m = none;
          duration_s = none;
          geometry = [];
          source = text "pending";
          error = [];
          input = input_between content from to mode (record { preference = []; via = [] });
          calculated_at = none;
          manual_distance_m = none;
          manual_duration_s = none;
          planned_cost = none;
          actual_cost = none;
          note = [];
          preference = [];
          via = [];
          pinned = false;
          segments = [];
          tickets = [];
          created_at = 0;
          updated_at = 0;
        }

    -- `need`, where the pair has none: the identifiers are drawn in turn.
    unfoldable pub create_leg : Day → Item → Item → Progress → Progress
    unfolding leg_input leg_ends
    create_leg day from to p = record p {
      plan = record p.plan {
        create = p.plan.create ++ new_leg day from to (length p.plan.create) ∷ [];
      };
    }

    abbrev pub need_by : Day → Item → Item → Progress → Option Leg → Progress
    need_by day from to p none = create_leg day from to p
    need_by day from to p (some leg) =
        if leg.day_id == day.id then keep_leg content from to leg p else create_leg day from to p

    -- `need`
    unfoldable pub need : Day → Item → Item → Progress → Progress
    unfolding leg_between create_leg keep_leg
    need day from to p = need_by day from to p (leg_between existing from.id to.id)

    -- The loop over the neighbours in a day, and the last element.
    unfoldable pub need_day : Day → Item → List Item → Progress → Progress × Item
    unfolding need
    need_day day item [] p = (p, item)
    need_day day item (next ∷ items) p = need_day day next items (need day item next p)

    abbrev pub need_opening : Day → Option Item → Item → Progress → Progress
    need_opening day none item p = p
    need_opening day (some previous) item p =
        if is_morning item.anchor then p else need day previous item p

    -- The loop over the days.
    unfoldable pub need_days : List Day → Option Item → Progress → Progress
    unfolding need need_day day_items
    need_days [] previous p = p
    need_days (day ∷ days) previous p = elim (day_items content.items (some day.id)) [
      | [] ↦ need_days days previous p
      | item ∷ items ↦
          let (p', last) = need_day day item items (need_opening day previous item p) in
          need_days days (some last) p'
    ]

    abbrev pub no_plan : LegPlan
    no_plan = record { create = []; reset = []; delete = []; reset_segments = [] }

    -- `ReconcileLegs`
    unfoldable pub reconcile_legs : LegPlan
    unfolding need_days
    reconcile_legs =
        let p = need_days content.days none (record { plan = no_plan; kept = [] }) in
        record p.plan {
          delete = map (λ l. l.id) (select (λ l. not (any (λ id. id == l.id) p.kept)) existing);
        }
