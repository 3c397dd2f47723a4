-- ===== src/Domain/Records.antt =====
-- The structs of a document: documents, days, stays, items, stops, tracks and expenses.
use tripvault.Base.{Bool, Option, List}
use tripvault.Base.Int64.{Int64}
use tripvault.Base.Text.{Text}
use tripvault.Domain.Kinds.{
  DocumentKind, ItemKind, AnchorSlot, ItemStatus, CostSplit, CostCategory, PlaceCategory,
  ActivityType, TravelMode,
}
use tripvault.Domain.Values.{Uuid, Money, ClockTime, Time, Float64, Point}

-- `CostShare`
pub record CostShare : Type 0 where
  pub user_id : Uuid
  pub amount : Option Money

-- `Item`
pub record Item : Type 0 where
  pub id : Uuid
  pub document_id : Uuid
  pub day_id : Option Uuid
  pub position : Int64
  pub kind : ItemKind
  pub anchor : AnchorSlot
  pub stay_id : Option Uuid
  pub name : Text
  pub category : PlaceCategory
  pub activity_type : ActivityType
  pub lat : Option Float64
  pub lng : Option Float64
  pub address : Text
  pub osm_ref : Text
  pub description_md : Text
  pub url : Text
  pub desired_time : Option ClockTime
  pub visit_minutes : Int64
  pub is_optional : Bool
  pub booking_ref : Text
  pub planned_cost : Option Money
  pub cost_per_person : Bool
  pub cost_category : CostCategory
  pub cost_note : Text
  pub paid_by : Option Uuid
  pub cost_split : CostSplit
  pub cost_shares : List CostShare
  pub status : ItemStatus
  pub story_md : Text
  pub actual_time : Option ClockTime
  pub actual_end_time : Option ClockTime
  pub rating : Option Int64
  pub actual_cost : Option Money
  pub cover_media_id : Option Uuid
  pub difficulty : Option Int64
  pub created_at : Time
  pub updated_at : Time

-- `Stop`
pub record Stop : Type 0 where
  pub id : Uuid
  pub document_id : Uuid
  pub item_id : Uuid
  pub kind : Text
  pub name : Text
  pub note_md : Text
  pub point : Point
  pub distance_m : Int64
  pub grades_to : List Int64
  pub actual_time : Option ClockTime
  pub planned_cost : Option Money
  pub actual_cost : Option Money
  pub cost_per_person : Bool
  pub cost_category : CostCategory
  pub cost_note : Text
  pub paid_by : Option Uuid
  pub cost_split : CostSplit
  pub cost_shares : List CostShare
  pub created_at : Time

-- `Track`
pub record Track : Type 0 where
  pub id : Uuid
  pub document_id : Uuid
  pub item_id : Uuid
  pub original_name : Text
  pub format : Text
  pub file_size : Int64
  pub geometry : Text
  pub distance_m : Int64
  pub point_count : Int64
  pub ascent_m : Option Int64
  pub descent_m : Option Int64
  pub grades : List Int64
  pub speed_kmh : Option Float64
  pub started_at : Option Time
  pub ended_at : Option Time
  pub climb_version : Int64
  pub created_at : Time
  pub stops : List Stop

-- `Day`
pub record Day : Type 0 where
  pub id : Uuid
  pub document_id : Uuid
  pub position : Int64
  pub date : Option Time
  pub title : Text
  pub notes_md : Text
  pub highlight : Text
  pub start_time : ClockTime
  pub default_mode : Option TravelMode
  pub timezone : Option Text
  pub morning_anchor : Bool
  pub evening_anchor : Bool
  pub no_overnight : Bool
  pub cover_media_id : Option Uuid
  pub created_at : Time
  pub updated_at : Time

-- `Stay`
pub record Stay : Type 0 where
  pub id : Uuid
  pub document_id : Uuid
  pub name : Text
  pub kind : Text
  pub address : Text
  pub lat : Option Float64
  pub lng : Option Float64
  pub check_in_date : Time
  pub check_in_time : Option ClockTime
  pub check_out_date : Time
  pub check_out_time : Option ClockTime
  pub booking_ref : Text
  pub url : Text
  pub contacts : Text
  pub notes_md : Text
  pub planned_cost : Option Money
  pub actual_cost : Option Money
  pub created_at : Time
  pub updated_at : Time

-- `Expense`
pub record Expense : Type 0 where
  pub id : Uuid
  pub document_id : Uuid
  pub day_id : Option Uuid
  pub category : CostCategory
  pub planned : Option Money
  pub actual : Option Money
  pub spent_on : Option Time
  pub note : Text
  pub comment : Text
  pub url : Text
  pub created_at : Time
  pub updated_at : Time

-- `Document`
pub record Document : Type 0 where
  pub id : Uuid
  pub trip_id : Uuid
  pub kind : DocumentKind
  pub intro_md : Text
  pub summary_md : Text
  pub created_at : Time
  pub updated_at : Time
