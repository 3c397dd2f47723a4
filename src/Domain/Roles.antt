-- ===== src/Domain/Roles.antt =====
-- trip.go: which modes follow roads, and what each role may do with a trip.
use tripvault.Base.{Bool, true, false, Result, ok, err, new_validation_error}
use tripvault.Base.Text.{Text}
use tripvault.Domain.Kinds
use tripvault.Domain.Kinds.{TravelMode, mode_walk, mode_bike, mode_car, mode_transit, mode_bus}
use Prim.Native.String.{String}

-- `TravelMode.Routed`
unfoldable pub is_routed : TravelMode → Bool
is_routed mode_walk = true
is_routed mode_bike = true
is_routed mode_car = true
is_routed mode_transit = true
is_routed mode_bus = true
is_routed _ = false

abbrev unsupported_mode : String → Result (Unit {0})
unsupported_mode field = err (
    new_validation_error field "unsupported"
      "must be walk, car, bike, transit, bus, train, tram, ferry, flight, cable_car or other")

-- `ValidateTravelMode`: every constant is in `TravelModes`.
unfoldable pub validate_travel_mode : String → TravelMode → Result (Unit {0})
validate_travel_mode field Kinds.TravelMode.unset = unsupported_mode field
validate_travel_mode field (Kinds.TravelMode.unknown s) = unsupported_mode field
validate_travel_mode field _ = ok tt

-- `TripRole`
pub data TripRole : Type 0 where
  role_owner role_editor role_viewer unset : TripRole
  unknown : Text → TripRole

-- `ValidateMemberRole`
unfoldable pub validate_member_role : TripRole → Result (Unit {0})
validate_member_role role_editor = ok tt
validate_member_role role_viewer = ok tt
validate_member_role _ = err (new_validation_error "role" "unsupported" "must be editor or viewer")

-- `TripAction`
pub data TripAction : Type 0 where
  action_view action_edit action_manage_members action_manage_share_links action_delete : TripAction

-- `TripRole.Can`
unfoldable pub can : TripRole → TripAction → Bool
can role_owner _ = true
can role_editor action_view = true
can role_editor action_edit = true
can role_editor _ = false
can role_viewer action_view = true
can role_viewer _ = false
can _ _ = false
