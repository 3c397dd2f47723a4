-- ===== src/Domain/Journeys.antt =====
-- leg.go, legsegment.go and transfer.go: the journeys of a document.
use tripvault.Base.{Bool, Option, none, some, List, length, ltb}
use tripvault.Base.Int64.{Int64}
use tripvault.Base.Text.{Text}
use tripvault.Domain.Kinds.{TravelMode}
use tripvault.Domain.Values.{Uuid, Money, ClockTime, Time, Float64, Point}
use tripvault.Domain.Costs.{per_group}

-- `LegSegment`
pub record LegSegment : Type 0 where
  pub id : Uuid
  pub leg_id : Uuid
  pub position : Int64
  pub mode : TravelMode
  pub distance_m : Option Int64
  pub duration_s : Option Int64
  pub geometry : Text
  pub source : Text
  pub error : Text
  pub input : Text
  pub calculated_at : Option Time
  pub manual_distance_m : Option Int64
  pub manual_duration_s : Option Int64
  pub ticket_id : Option Uuid
  pub stop_name : Text
  pub stop_lat : Option Float64
  pub stop_lng : Option Float64
  pub wait_minutes : Int64

-- `LegTicket`
pub record LegTicket : Type 0 where
  pub id : Uuid
  pub leg_id : Uuid
  pub position : Int64
  pub name : Text
  pub planned_cost : Option Money
  pub actual_cost : Option Money

-- `Leg`
pub record Leg : Type 0 where
  pub id : Uuid
  pub document_id : Uuid
  pub day_id : Uuid
  pub from_item_id : Uuid
  pub to_item_id : Uuid
  pub mode : TravelMode
  pub distance_m : Option Int64
  pub duration_s : Option Int64
  pub geometry : Text
  pub source : Text
  pub error : Text
  pub input : Text
  pub calculated_at : Option Time
  pub manual_distance_m : Option Int64
  pub manual_duration_s : Option Int64
  pub planned_cost : Option Money
  pub actual_cost : Option Money
  pub note : Text
  pub preference : Text
  pub via : List Point
  pub pinned : Bool
  pub segments : List LegSegment
  pub tickets : List LegTicket
  pub created_at : Time
  pub updated_at : Time

abbrev or_else {ℓ} : {A : Type ℓ} → Option A → Option A → Option A
or_else none b = b
or_else (some a) b = some a

-- `Leg.Distance`: the typed distance, else the calculated one.
unfoldable pub leg_distance : Leg → Option Int64
leg_distance l = or_else l.manual_distance_m l.distance_m

-- `Leg.Duration`
unfoldable pub leg_duration : Leg → Option Int64
leg_duration l = or_else l.manual_duration_s l.duration_s

-- `LegSegment.Distance`
unfoldable pub segment_distance : LegSegment → Option Int64
segment_distance s = or_else s.manual_distance_m s.distance_m

-- `LegSegment.Duration`
unfoldable pub segment_duration : LegSegment → Option Int64
segment_duration s = or_else s.manual_duration_s s.duration_s

-- `Leg.Composite`
unfoldable pub is_composite : Leg → Bool
is_composite l = ltb 1 (length l.segments)

-- `Transfer`
pub record Transfer : Type 0 where
  pub id : Uuid
  pub document_id : Uuid
  pub kind : Text
  pub name : Text
  pub from_name : Text
  pub from_address : Text
  pub from_lat : Option Float64
  pub from_lng : Option Float64
  pub to_name : Text
  pub to_address : Text
  pub to_lat : Option Float64
  pub to_lng : Option Float64
  pub departure_date : Time
  pub departure_time : Option ClockTime
  pub arrival_date : Option Time
  pub arrival_time : Option ClockTime
  pub booking_ref : Text
  pub url : Text
  pub notes_md : Text
  pub planned_cost : Option Money
  pub cost_per_person : Bool
  pub actual_cost : Option Money
  pub created_at : Time
  pub updated_at : Time

-- `Transfer.PlannedCostTotal`
unfoldable pub transfer_planned_total : Transfer → Int64 → Money
unfolding per_group
transfer_planned_total t travelers = per_group t.planned_cost t.cost_per_person travelers

-- `Transfer.ActualCostTotal`
unfoldable pub transfer_actual_total : Transfer → Int64 → Money
unfolding per_group
transfer_actual_total t travelers = per_group t.actual_cost t.cost_per_person travelers
