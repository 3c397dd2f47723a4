-- ===== src/Plan/Times.antt =====
-- The times of a day's schedule: they run forward, and desired arrivals are met or marked.
use tripvault.Base.{
  ℕ, ◌+◌, ◌≤◌, ◌<◌, Bool, true, false, Option, none, some, List, [], ◌∷◌, ◌≡◌, refl, arith,
  Bool-cases, Option-cases, inl, inr, ltb,
}
use tripvault.Base.Int64.{Int64, half_word}
use tripvault.Domain.Kinds.{is_visit}
use tripvault.Domain.Values.{ClockTime}
use tripvault.Domain.Records.{Item, Track, Day}
use tripvault.Domain.Journeys.{Leg, leg_duration}
use tripvault.Plan.Schedule.{
  ItemSchedule, DaySummary, schedule_item, schedule_items, schedule_day, first_leg, later_legs,
  after_leg, travel_minutes_of, add_item, add_leg, empty_summary,
}

abbrev pub minutes_or_zero : Option ClockTime → ℕ
minutes_or_zero none = 0
minutes_or_zero (some d) = d

abbrev pub leg_minutes : Option Leg → Int64
leg_minutes none = 0
leg_minutes (some l) = travel_minutes_of (leg_duration l)

-- All that can move the clock on: travel, visits and the waits for desired arrivals.
abbrev pub load : List Item → List (Option Leg) → ℕ
load [] legs = 0
load (i ∷ is) legs =
    leg_minutes (first_leg legs)
    + i.visit_minutes
    + minutes_or_zero i.desired_time
    + load is (later_legs legs)

-- A desired arrival is not missed early, and a later one is marked.
abbrev pub MeetsDesired : Bool → Option ClockTime → ItemSchedule → Type 0
MeetsDesired true (some d) s = (d ≤ s.arrival_minutes) × (s.is_late ≡ ltb d s.arrival_minutes)
MeetsDesired true none s = s.is_late ≡ false
MeetsDesired false _ s = (s.is_late ≡ false) × (s.departure_minutes ≡ s.arrival_minutes)

-- Each element is reached after the one before it was left and the leg between was travelled.
abbrev pub InOrder : Int64 → List Item → List (Option Leg) → List ItemSchedule → Type 0
InOrder t [] legs [] = Unit
InOrder t (i ∷ is) legs (s ∷ ss) =
    (t + leg_minutes (first_leg legs) ≤ s.arrival_minutes)
    × (s.arrival_minutes ≤ s.departure_minutes)
    × MeetsDesired (is_visit i.kind) i.desired_time s
    × InOrder s.departure_minutes is (later_legs legs) ss
InOrder t _ legs _ = ⊥

after_leg_lem :
    (l : Option Leg) (cursor : Int64)
    → cursor + leg_minutes l < half_word
    → after_leg l cursor ≡ cursor + leg_minutes l
after_leg_lem none cursor h = omega arith
after_leg_lem (some l) cursor h = omega (arith, h)

-- One element that is reached at an instant.
schedule_item_lem :
    (i : Item) (cursor : Int64)
    → cursor + i.visit_minutes + minutes_or_zero i.desired_time < half_word
    → let s = schedule_item i cursor in
      (cursor ≤ s.arrival_minutes)
      × (s.arrival_minutes ≤ s.departure_minutes)
      × (s.departure_minutes ≤ cursor + i.visit_minutes + minutes_or_zero i.desired_time)
      × MeetsDesired (is_visit i.kind) i.desired_time s
unfolding schedule_item
schedule_item_lem i cursor h = elim (Bool-cases (is_visit i.kind)) [
  | inr e ↦ rw e (omega arith, omega arith, omega arith, (refl, refl))
  | inl e ↦ elim (Option-cases i.desired_time) [
    | inl n ↦ rw e (rw n (omega arith, omega arith, omega (arith, h), refl))
    | inr (d, n) ↦
        let h' : cursor + i.visit_minutes + d < half_word = rw n at h in
        rw e (
          rw n (
            ground (arith, h'),
            ground (arith, h'),
            ground (arith, h'),
            (ground (arith, h'), ground (arith, h')),
          ))
  ]
]

schedule_items-InOrder :
    (is : List Item) (legs : List (Option Leg)) (travelers : Int64) (tracks : List Track)
    (cursor : Int64) (s : DaySummary)
    → cursor + load is legs < half_word
    → InOrder cursor is legs (schedule_items is legs travelers tracks cursor s).0
unfolding schedule_items
schedule_items-InOrder [] legs travelers tracks cursor s h = tt
schedule_items-InOrder (i ∷ is) legs travelers tracks cursor s h =
    let l = first_leg legs in
    let travelled = after_leg_lem l cursor (omega (arith, h)) in
    let here = schedule_item_lem i (after_leg l cursor) (omega (arith, travelled, h)) in
    (
      omega (arith, travelled, here.0),
      here.1,
      here.3,
      schedule_items-InOrder is (later_legs legs) travelers tracks
          (schedule_item i (after_leg l cursor)).departure_minutes
          (add_item i travelers tracks (add_leg l s)) (omega (arith, travelled, here.2, h)),
    )

-- The schedule of a day has a time for each of its elements, and they run forward: each is reached
-- no earlier than the one before was left and the leg between was travelled, and left no earlier
-- than reached. A place with a desired arrival is not reached before it, and is marked late exactly
-- when it is reached after it; a place without one, and a stay mark, is never late. The start, the
-- travel, the visits and the desired arrivals together stay below 2 ^ 63 minutes.
pub schedule_day-InOrder :
    (day : Day) (items : List Item) (opening : Option Leg) (legs : List (Option Leg))
    (travelers : Int64) (tracks : List Track)
    → day.start_time + load items (opening ∷ legs) < half_word
    → InOrder day.start_time items
        (opening ∷ legs)
        (schedule_day day items opening legs travelers tracks).0
unfolding schedule_day
schedule_day-InOrder day items opening legs travelers tracks h =
    schedule_items-InOrder items (opening ∷ legs) travelers tracks day.start_time empty_summary h
