-- ===== src/Domain/Content.antt =====
-- document.go, trip.go and translation.go: a whole document, and the trip that it belongs to.
use tripvault.Base.{Bool, Option, List}
use tripvault.Base.Int64.{Int64}
use tripvault.Base.Text.{Text}
use tripvault.Domain.Kinds.{DocumentKind}
use tripvault.Domain.Values.{Uuid, Money, Time, Float64}
use tripvault.Domain.Records.{Document, Day, Item, Stay, Expense, Track}
use tripvault.Domain.Journeys.{Leg, Transfer}

-- `Translation`
pub record Translation : Type 0 where
  pub target : Text
  pub target_id : Uuid
  pub field : Text
  pub lang : Text
  pub value : Text

-- `DocumentContent`
pub record DocumentContent : Type 0 where
  pub document : Document
  pub days : List Day
  pub items : List Item
  pub stays : List Stay
  pub transfers : List Transfer
  pub legs : List Leg
  pub expenses : List Expense
  pub tracks : List Track
  pub translations : List Translation

-- `CoverCrop`
pub record CoverCrop : Type 0 where
  pub x : Float64
  pub y : Float64
  pub w : Float64
  pub h : Float64

-- `Trip`
pub record Trip : Type 0 where
  pub id : Uuid
  pub owner_id : Uuid
  pub kind : DocumentKind
  pub source_trip_id : Option Uuid
  pub from_plan : Bool
  pub title : Text
  pub summary : Text
  pub start_date : Option Time
  pub end_date : Option Time
  pub timezone : Text
  pub currency : Text
  pub travelers : Int64
  pub budget : Option Money
  pub cover_media_id : Option Uuid
  pub cover_crop : Option CoverCrop
  pub languages : List Text
  pub state : Text
  pub track_speed_kmh : Float64
  pub created_at : Time
  pub updated_at : Time
