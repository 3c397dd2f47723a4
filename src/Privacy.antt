-- ===== src/Privacy.antt =====
-- backend/internal/domain/privacy.go: what a reader from outside a trip is not shown. The distance
-- between two points and the comparison of distances are floating-point arithmetic, and parameters.
pub mod Lines
pub mod Hidden
pub mod Kept
mod Tests
use tripvault.Base.{
  Bool, true, false, not, ◌||◌, Option, none, some, List, [], ◌∷◌, map, select, if◌then◌else◌, any,
  ltb, ◌==◌, length, ◌++◌,
}
use tripvault.Base.Int64.{Int64}
use tripvault.Base.Text.{Text, is_empty}
use tripvault.Domain.Values.{Uuid, Time, Float64, Point}
use tripvault.Domain.Users.{Bytes, PrivacyZone}
use tripvault.Domain.Records.{Item, Stay, Stop, Track}
use tripvault.Domain.Journeys.{Leg, LegSegment, Transfer}
use tripvault.Domain.Content.{DocumentContent}
use tripvault.Polyline.{Floats, encode_polyline, decode_polyline}

-- `greatCircle`, Go's `<=` and `<`, and `float64` of an `int`.
pub record Distances : Type 0 where
  pub great_circle : Point → Point → Float64
  pub le_float : Float64 → Float64 → Bool
  pub lt_float : Float64 → Float64 → Bool
  pub float_of : Int64 → Float64

-- `Media`
pub record Media : Type 0 where
  pub id : Uuid
  pub trip_id : Uuid
  pub storage_key : Text
  pub original_name : Text
  pub mime : Text
  pub size : Int64
  pub checksum : Bytes
  pub source_checksum : Option Bytes
  pub width : Int64
  pub height : Int64
  pub taken_at : Option Time
  pub lat : Option Float64
  pub lng : Option Float64
  pub is_private : Bool
  pub uploaded_by : Option Uuid
  pub created_at : Time

-- `PrivacyZones`
abbrev pub PrivacyZones : Type 0
PrivacyZones = List PrivacyZone

abbrev pub no_zones : PrivacyZones → Bool
no_zones [] = true
no_zones (zone ∷ zones) = false

module _ (f : Floats) (d : Distances) where
  -- `Contains`
  unfoldable pub contains : PrivacyZones → Point → Bool
  contains zones point =
      any (λ zone. d.le_float (d.great_circle zone.center point) (d.float_of zone.radius_m)) zones

  -- `Hides`
  unfoldable pub hides : PrivacyZones → Option Float64 → Option Float64 → Bool
  unfolding contains
  hides zones (some lat) (some lng) = contains zones (record { lat = lat; lng = lng })
  hides zones _ _ = false

  -- `points`
  unfoldable pub points_outside : PrivacyZones → List Point → List Point
  unfolding contains
  points_outside zones points = select (λ p. not (contains zones p)) points

  -- `Line`
  unfoldable pub line_outside : PrivacyZones → Text → Text
  unfolding points_outside encode_polyline decode_polyline
  line_outside zones encoded =
      if no_zones zones || is_empty encoded
      then encoded
      else let points = decode_polyline f encoded 5 in
        let kept = points_outside zones points in
        if length kept == length points
        then encoded
        else if ltb (length kept) 2
        then []
        else encode_polyline f kept

  -- `Media`
  unfoldable pub media_outside : PrivacyZones → Media → Media
  unfolding hides
  media_outside zones item =
      if hides zones item.lat item.lng then record item { lat = none; lng = none } else item

  -- The loops of `Outside`.
  unfoldable pub item_outside : PrivacyZones → Item → Item
  unfolding hides
  item_outside zones item =
      if hides zones item.lat item.lng
      then record item { lat = none; lng = none; address = []; osm_ref = [] }
      else item

  unfoldable pub stay_outside : PrivacyZones → Stay → Stay
  unfolding hides
  stay_outside zones stay =
      if hides zones stay.lat stay.lng
      then record stay { lat = none; lng = none; address = [] }
      else stay

  unfoldable pub transfer_outside : PrivacyZones → Transfer → Transfer
  unfolding hides
  transfer_outside zones transfer =
      let left : Transfer =
        if hides zones transfer.from_lat transfer.from_lng
        then record transfer { from_lat = none; from_lng = none; from_address = [] }
        else transfer in
      if hides zones left.to_lat left.to_lng
      then record left { to_lat = none; to_lng = none; to_address = [] }
      else left

  unfoldable pub segment_outside : PrivacyZones → LegSegment → LegSegment
  unfolding line_outside hides
  segment_outside zones segment =
      let drawn : LegSegment = record segment { geometry = line_outside zones segment.geometry } in
      if hides zones drawn.stop_lat drawn.stop_lng
      then record drawn { stop_lat = none; stop_lng = none }
      else drawn

  unfoldable pub leg_outside : PrivacyZones → Leg → Leg
  unfolding line_outside points_outside segment_outside
  leg_outside zones leg = record leg {
    geometry = line_outside zones leg.geometry;
    via = points_outside zones leg.via;
    segments = map (segment_outside zones) leg.segments;
  }

  -- The loop that looks for the nearest point of a line.
  unfoldable pub nearest_to : Point → Point → List Point → Point
  nearest_to stop nearest [] = nearest
  nearest_to stop nearest (point ∷ line) =
      nearest_to stop
        (if d.lt_float (d.great_circle point stop) (d.great_circle nearest stop)
          then point
          else nearest)
        line

  -- `stops`
  abbrev pub stop_outside : PrivacyZones → List Point → Stop → List Stop
  unfolding contains nearest_to
  stop_outside zones [] stop = if contains zones stop.point then [] else stop ∷ []
  stop_outside zones (first ∷ line) stop =
      if contains zones stop.point
      then record stop { point = nearest_to stop.point first line } ∷ []
      else stop ∷ []

  unfoldable pub stops_outside : PrivacyZones → List Point → List Stop → List Stop
  unfolding contains nearest_to
  stops_outside zones line [] = []
  stops_outside zones line (stop ∷ stops) =
      stop_outside zones line stop ++ stops_outside zones line stops

  unfoldable pub track_outside : PrivacyZones → Track → Track
  unfolding line_outside stops_outside decode_polyline
  track_outside zones recorded =
      let geometry = line_outside zones recorded.geometry in
      record recorded {
        geometry = geometry;
        stops = stops_outside zones (decode_polyline f geometry 5) recorded.stops;
      }

  -- `Outside`
  unfoldable pub outside : PrivacyZones → DocumentContent → DocumentContent
  unfolding item_outside stay_outside transfer_outside leg_outside track_outside
  outside zones c = if no_zones zones then c else record c {
    items = map (item_outside zones) c.items;
    stays = map (stay_outside zones) c.stays;
    transfers = map (transfer_outside zones) c.transfers;
    legs = map (leg_outside zones) c.legs;
    tracks = map (track_outside zones) c.tracks;
  }
