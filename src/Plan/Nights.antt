-- ===== src/Plan/Nights.antt =====
-- plan.go: which stay a night is spent at, with `Covers` of document.go and `dateOnly` of trip.go.
-- Instants are in UTC, so a date is a whole number of days.
use tripvault.Base.{
  ℕ, zero, suc, ◌+◌, ◌-◌, ◌*◌, ◌/◌, Bool, false, not, ◌&&◌, Option, none, some, List, [], ◌∷◌, ◌++◌,
  map, find, select, any, length, ltb, ◌==◌, if◌then◌else◌,
}
use tripvault.Base.Sort.{sort_stable}
use tripvault.Domain.Kinds.{AnchorSlot, anchor_morning, anchor_evening}
use tripvault.Domain.Values.{Uuid, Time}
use tripvault.Domain.Records.{Day, Stay}

-- 24 hours in nanoseconds.
abbrev pub one_day : ℕ
one_day = 24 * (3600 * 1000000000)

-- `dateOnly`
unfoldable pub date_only : Time → Time
date_only t = t / one_day * one_day

-- `Stay.Covers`
unfoldable pub covers : Stay → Time → Bool
unfolding date_only
covers s night =
    not (ltb (date_only night) (date_only s.check_in_date))
    && ltb (date_only night) (date_only s.check_out_date)

-- The order of `sortedStays`. Identifiers compare as their texts do.
abbrev pub checked_in_first : Stay → Stay → Bool
checked_in_first a b =
    if not (a.check_in_date == b.check_in_date)
    then ltb a.check_in_date b.check_in_date
    else ltb a.id b.id

-- `sortedStays`
unfoldable pub sorted_stays : List Stay → List Stay
sorted_stays = sort_stable checked_in_first

abbrev id_of : Option Stay → Option Uuid
id_of none = none
id_of (some s) = some s.id

-- `stayForNight`
unfoldable pub stay_for_night : List Stay → Time → Option Uuid
unfolding covers
stay_for_night stays night = id_of (find (λ s. covers s night) stays)

-- One write of `AnchorAssignments`: a day, a slot, and the stay.
pub record Assignment : Type 0 where
  pub day_id : Uuid
  pub slot : AnchorSlot
  pub stay_id : Uuid

abbrev assigned : Uuid → AnchorSlot → Option Uuid → List Assignment
assigned day slot none = []
assigned day slot (some stay) = record { day_id = day; slot = slot; stay_id = stay } ∷ []

-- The round of the loop for a day with a date, or with none.
unfoldable pub day_assignments : List Stay → Day → Option Time → List Assignment
unfolding stay_for_night
day_assignments ordered day none = []
day_assignments ordered day (some date) =
    (if day.morning_anchor
      then assigned day.id anchor_morning (stay_for_night ordered (date - one_day))
      else [])
    ++ (if day.evening_anchor && not day.no_overnight
        then assigned day.id anchor_evening (stay_for_night ordered date)
        else [])

-- `AnchorAssignments`, as the writes to its map in order.
unfoldable pub anchor_assignments : List Stay → List Day → List Assignment
unfolding day_assignments
anchor_assignments ordered [] = []
anchor_assignments ordered (d ∷ ds) =
    day_assignments ordered d d.date ++ anchor_assignments ordered ds

-- `Night`
pub record Night : Type 0 where
  pub date : Time
  pub stay_ids : List Uuid
  pub no_overnight : Bool

-- `Night.Missing`
unfoldable pub is_missing : Night → Bool
is_missing n = length n.stay_ids == 0 && not n.no_overnight

abbrev is_marked_on : Time → Bool → Option Time → Bool
is_marked_on date no_overnight none = false
is_marked_on date no_overnight (some d) = no_overnight && date_only d == date

-- The map `withoutStay` at a date.
unfoldable pub without_stay : List Day → Time → Bool
unfolding date_only
without_stay days date = any (λ d. is_marked_on date d.no_overnight d.date) days

unfoldable pub night_on : List Day → List Stay → Time → Night
unfolding without_stay covers
night_on days ordered date = record {
  date = date;
  stay_ids = map (λ s. s.id) (select (λ s. covers s date) ordered);
  no_overnight = without_stay days date;
}

-- Appending a night to those that follow it.
abbrev pub before_rest : Night → Option (List Night) → Option (List Night)
before_rest n none = none
before_rest n (some ns) = some (n ∷ ns)

-- The loop of `Nights` with fuel; `none` when that runs out.
unfoldable pub nights_from : ℕ → Time → Time → List Day → List Stay → Option (List Night)
unfolding night_on
nights_from zero date end days ordered = none
nights_from (suc fuel) date end days ordered =
    let rest = nights_from fuel (date + one_day) end days ordered in
    if ltb date end then before_rest (night_on days ordered date) rest else some []

-- `Nights`: a round for each day between the dates, and the last test.
unfoldable pub nights : Option Time → Option Time → List Day → List Stay → Option (List Night)
unfolding nights_from sorted_stays
nights (some start) (some end) days stays =
    nights_from (suc ((date_only end - date_only start) / one_day)) (date_only start)
      (date_only end) days (sorted_stays stays)
nights _ _ days stays = some []
