-- ===== src/Plan/Schedule.antt =====
-- plan.go: `ScheduleDay`, with `Leg.Travel` of legsegment.go.
use tripvault.Base.{Bool, true, false, Option, none, some, List, [], ◌∷◌, map, if◌then◌else◌}
use tripvault.Base.Int64.{Int64, ◌⊕◌, lt64, max64, quot64}
use tripvault.Domain.Kinds.{TravelMode, mode_eq, is_visit}
use tripvault.Domain.Values.{Money, ClockTime}
use tripvault.Domain.Records.{Item, Track, Stop, Day}
use tripvault.Domain.Journeys.{
  Leg, leg_distance, leg_duration, segment_distance, segment_duration, is_composite,
}
use tripvault.Domain.Costs.{planned_cost_total, actual_cost_total, money_or_zero}
use tripvault.Plan.{track_of_item, cost_item}

-- `ItemSchedule`
pub record ItemSchedule : Type 0 where
  pub arrival_minutes : Int64
  pub departure_minutes : Int64
  pub is_late : Bool

-- `ModeTotal`
pub record ModeTotal : Type 0 where
  pub distance_m : Int64
  pub duration_s : Int64

-- `DaySummary`
pub record DaySummary : Type 0 where
  pub visit_minutes : Int64
  pub travel_minutes : Int64
  pub distance_m : Int64
  pub by_mode : TravelMode → Option ModeTotal
  pub unknown_travel : Bool
  pub end_minutes : Int64
  pub planned_cost : Money
  pub actual_cost : Money

-- `SegmentTravel`
pub record SegmentTravel : Type 0 where
  pub mode : TravelMode
  pub distance_m : Option Int64
  pub duration_s : Option Int64

-- `Leg.Travel`
unfoldable pub travel : Leg → List SegmentTravel
unfolding is_composite leg_distance leg_duration segment_distance segment_duration
travel l =
    if is_composite l
    then map
        (λ s. record {
          mode = s.mode;
          distance_m = segment_distance s;
          duration_s = segment_duration s;
        })
        l.segments
    else record { mode = l.mode; distance_m = leg_distance l; duration_s = leg_duration l } ∷ []

abbrev zero_total : Option ModeTotal → ModeTotal
zero_total none = record { distance_m = 0; duration_s = 0 }
zero_total (some t) = t

-- One round of the loop over the parts of a leg.
unfoldable pub add_mode :
    SegmentTravel → (TravelMode → Option ModeTotal) → TravelMode → Option ModeTotal
unfolding mode_eq
add_mode part by_mode m =
    let total = zero_total (by_mode part.mode) in
    if mode_eq m part.mode
    then some (record {
      distance_m = total.distance_m ⊕ money_or_zero part.distance_m;
      duration_s = total.duration_s ⊕ money_or_zero part.duration_s;
    })
    else by_mode m

unfoldable pub add_modes :
    List SegmentTravel → (TravelMode → Option ModeTotal) → TravelMode → Option ModeTotal
unfolding add_mode
add_modes [] by_mode = by_mode
add_modes (p ∷ ps) by_mode = add_modes ps (add_mode p by_mode)

-- The minutes that a leg of this many seconds takes, rounded.
unfoldable pub minutes_of : Int64 → Int64
unfolding quot64
minutes_of seconds = quot64 (seconds ⊕ 30) 60

abbrev pub travel_minutes_of : Option Int64 → Int64
travel_minutes_of none = 0
travel_minutes_of (some seconds) = minutes_of seconds

abbrev is_unknown : Option Int64 → Bool
is_unknown none = true
is_unknown (some _) = false

-- The instant after a leg, and what the leg adds to the day.
abbrev pub after_leg : Option Leg → Int64 → Int64
after_leg none cursor = cursor
after_leg (some l) cursor = cursor ⊕ travel_minutes_of (leg_duration l)

abbrev pub add_leg : Option Leg → DaySummary → DaySummary
add_leg none s = s
add_leg (some l) s = record s {
  distance_m = s.distance_m ⊕ money_or_zero (leg_distance l);
  travel_minutes = s.travel_minutes ⊕ travel_minutes_of (leg_duration l);
  unknown_travel = if is_unknown (leg_duration l) then true else s.unknown_travel;
  by_mode = add_modes (travel l) s.by_mode;
  planned_cost = s.planned_cost ⊕ money_or_zero l.planned_cost;
  actual_cost = s.actual_cost ⊕ money_or_zero l.actual_cost;
}

-- The arrival at a visited place, and whether it is later than desired.
abbrev pub arrival : Option ClockTime → Int64 → Int64
arrival none cursor = cursor
arrival (some desired) cursor = max64 cursor desired

abbrev pub lateness : Option ClockTime → Int64 → Bool
lateness none cursor = false
lateness (some desired) cursor = lt64 desired cursor

-- The loop over the stops of a recording.
unfoldable pub add_stop_costs : Item → Int64 → List Stop → DaySummary → DaySummary
unfolding cost_item planned_cost_total actual_cost_total
add_stop_costs item travelers [] s = s
add_stop_costs item travelers (p ∷ ps) s = add_stop_costs item travelers ps (record s {
  planned_cost = s.planned_cost ⊕ planned_cost_total (cost_item p item) travelers;
  actual_cost = s.actual_cost ⊕ actual_cost_total (cost_item p item) travelers;
})

abbrev pub add_track : Item → Int64 → Option Track → DaySummary → DaySummary
add_track item travelers none s = s
add_track item travelers (some t) s =
    add_stop_costs item travelers t.stops (record s { distance_m = s.distance_m ⊕ t.distance_m })

-- What a visited place adds.
unfoldable pub add_visit : Item → Int64 → List Track → DaySummary → DaySummary
unfolding planned_cost_total actual_cost_total add_stop_costs track_of_item
add_visit item travelers tracks s =
    add_track item travelers (track_of_item tracks item.id) (record s {
      visit_minutes = s.visit_minutes ⊕ item.visit_minutes;
      planned_cost = s.planned_cost ⊕ planned_cost_total item travelers;
      actual_cost = s.actual_cost ⊕ actual_cost_total item travelers;
    })

-- The leg of this round, and those of the later ones: none once they run out.
abbrev pub first_leg : List (Option Leg) → Option Leg
first_leg [] = none
first_leg (l ∷ ls) = l

abbrev pub later_legs : List (Option Leg) → List (Option Leg)
later_legs [] = []
later_legs (l ∷ ls) = ls

-- The schedule of one element that is reached at an instant.
unfoldable pub schedule_item : Item → Int64 → ItemSchedule
unfolding is_visit
schedule_item item cursor =
    if is_visit item.kind
    then record {
      arrival_minutes = arrival item.desired_time cursor;
      departure_minutes = arrival item.desired_time cursor ⊕ item.visit_minutes;
      is_late = lateness item.desired_time cursor;
    }
    else record { arrival_minutes = cursor; departure_minutes = cursor; is_late = false }

unfoldable pub add_item : Item → Int64 → List Track → DaySummary → DaySummary
unfolding is_visit add_visit
add_item item travelers tracks s =
    if is_visit item.kind then add_visit item travelers tracks s else s

-- The loop of `ScheduleDay`.
unfoldable pub schedule_items :
    List Item
    → List (Option Leg)
    → Int64
    → List Track
    → Int64
    → DaySummary
    → List ItemSchedule × DaySummary
unfolding schedule_item add_item leg_duration add_modes travel
schedule_items [] legs travelers tracks cursor s = ([], record s { end_minutes = cursor })
schedule_items (i ∷ is) legs travelers tracks cursor s =
    let schedule = schedule_item i (after_leg (first_leg legs) cursor) in
    let (schedules, summary) =
      schedule_items is (later_legs legs) travelers tracks schedule.departure_minutes
        (add_item i travelers tracks (add_leg (first_leg legs) s)) in
    (schedule ∷ schedules, summary)

abbrev pub empty_summary : DaySummary
empty_summary = record {
  visit_minutes = 0;
  travel_minutes = 0;
  distance_m = 0;
  by_mode = λ m. none;
  unknown_travel = false;
  end_minutes = 0;
  planned_cost = 0;
  actual_cost = 0;
}

-- `ScheduleDay`
unfoldable pub schedule_day :
    Day
    → List Item
    → Option Leg
    → List (Option Leg)
    → Int64
    → List Track
    → List ItemSchedule × DaySummary
unfolding schedule_items
schedule_day day items opening legs travelers tracks =
    schedule_items items (opening ∷ legs) travelers tracks day.start_time empty_summary
