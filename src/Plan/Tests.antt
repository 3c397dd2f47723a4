-- ===== src/Plan/Tests.antt =====
-- The elements of a day of the sample document, and the nights of a stay.
use tripvault.Domain.Kinds.{item_stay_anchor, anchor_morning}
use tripvault.Base.{
  true, false, length, ◌-◌, ◌^◌, map, refl, none, arith, ◌*◌, [], ◌∷◌, List, some, ◌≡◌,
}
use tripvault.Base.Sort.{sort_stable}
use tripvault.Domain.Samples.{content, room, lunch, first_day}
use tripvault.Plan.Schedule.{schedule_day}
use tripvault.Plan.Times.{InOrder, schedule_day-InOrder}
use tripvault.Plan.Nights.{Night, nights, sorted_stays, anchor_assignments, one_day}
use tripvault.Plan.Overnight.{AreNights, nights_exact}
use tripvault.Plan.Marks.{AreMarks, anchor_assignments_lem}
use tripvault.Domain.Records.{Item, Stay, Day}
use tripvault.Plan.{day_items}
use tripvault.Plan.Order.{IsListing, day_items_lem}

-- A lunch, a breakfast before it, and two marks of the morning.
abbrev breakfast : Item
breakfast = record lunch { id = 20; position = 2 ^ 64 - 1 }

abbrev woken : Item
woken = record lunch { id = 21; kind = item_stay_anchor; anchor = anchor_morning }

abbrev elements : List Item
elements = woken ∷ lunch ∷ breakfast ∷ record woken { id = 22 } ∷ []

ids_of_day : map (λ i. i.id) (day_items elements (some 1)) ≡ 22 ∷ 20 ∷ 1 ∷ []
unfolding day_items
ids_of_day = refl

day_items_lem_example : IsListing elements (some 1) (day_items elements (some 1))
day_items_lem_example = day_items_lem elements (some 1)

-- Three nights in one room.
abbrev three_nights : Stay
three_nights = record room { check_in_date = 7 * one_day; check_out_date = 10 * one_day }

-- A cabin for the first of these nights, booked over the room.
abbrev cabin : Stay
cabin = record three_nights { id = 60; check_out_date = 8 * one_day }

abbrev stays : List Stay
stays = cabin ∷ three_nights ∷ []

nights_of_stays :
    nights (some (7 * one_day)) (some (9 * one_day)) content.days stays
    ≡ some (
        record { date = 7 * one_day; stay_ids = room.id ∷ 60 ∷ []; no_overnight = false }
        ∷ record { date = 8 * one_day; stay_ids = room.id ∷ []; no_overnight = false }
        ∷ [])
unfolding nights sort_stable
nights_of_stays = refl

nights_exact_example :
    (ns : List Night) × (nights (some (7 * one_day)) (some (9 * one_day)) content.days stays
      ≡ some ns)
    × (length ns ≡ 2)
    × AreNights content.days stays 7 ns
nights_exact_example = nights_exact (7 * one_day) (9 * one_day) content.days stays

-- A day on the second of these nights, which has both marks.
abbrev dated_day : Day
dated_day = record first_day {
  date = some (8 * one_day);
  morning_anchor = true;
  evening_anchor = true;
  no_overnight = false;
}

marks_of_day :
    map (λ a. a.stay_id) (anchor_assignments (sorted_stays stays) (dated_day ∷ []))
    ≡ room.id ∷ room.id ∷ []
unfolding anchor_assignments sorted_stays sort_stable
marks_of_day = refl

anchor_assignments_lem_example :
    AreMarks stays (dated_day ∷ []) (anchor_assignments (sorted_stays stays) (dated_day ∷ []))
anchor_assignments_lem_example = anchor_assignments_lem stays (dated_day ∷ []) (omega arith, tt)

schedule_day-InOrder_example :
    InOrder 540 (lunch ∷ []) (none ∷ []) (schedule_day first_day (lunch ∷ []) none [] 3 []).0
schedule_day-InOrder_example =
    schedule_day-InOrder first_day (lunch ∷ []) none [] 3 [] (omega arith)
