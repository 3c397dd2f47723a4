-- ===== src/Plan/Overnight.antt =====
-- The nights of a trip, against the stays of the document and the dates of its days.
use mathlib.Core.List.{Perm}
use tripvault.Base.{
  ℕ, zero, suc, ◌+◌, ◌-◌, ◌*◌, ◌/◌, ◌≤◌, Bool, true, false, ◌&&◌, Option, none, some, List, [], ◌∷◌,
  ltb, leb, ◌==◌, ◌≡◌, refl, ap, arith, Bool-cases, Option-cases, inl, inr, any, select, map,
  length,
}
use tripvault.Base.Sort.{IsSorted, select-IsSorted, sort_stable-IsSorted, select-sort_stable-perm}
use tripvault.Domain.Values.{Time}
use tripvault.Domain.Records.{Day, Stay}
use tripvault.Plan.Nights.{
  Night, night_on, nights_from, nights, one_day, date_only, sorted_stays, covers, before_rest,
  checked_in_first, without_stay,
}

-- A stay is where the night is spent that starts on a day, counted from the first of all days: the
-- day of its check-in and those after it, up to the last before its check-out.
abbrev pub spends : ℕ → Stay → Bool
spends day s = leb (s.check_in_date / one_day) day && ltb day (s.check_out_date / one_day)

-- Who checks in no later, and by identifier where both check in at once.
abbrev pub IsNotAfter : Stay → Stay → Type 0
IsNotAfter a b =
    (a.check_in_date ≤ b.check_in_date) × (a.check_in_date ≡ b.check_in_date → a.id ≤ b.id)

abbrev pub is_date_of : ℕ → Option Time → Bool
is_date_of day none = false
is_date_of day (some t) = t / one_day == day

-- What a night says: its date, the stays of the document that it is spent at, by check-in, and
-- whether a day of that date is marked as spent without a stay.
pub record IsNight (days : List Day) (stays : List Stay) (day : ℕ) (n : Night) : Type 0 where
  pub dated : n.date ≡ day * one_day
  pub spent :
      (there : List Stay) × (n.stay_ids ≡ map (λ s. s.id) there)
      × Perm there (select (spends day) stays)
      × IsSorted IsNotAfter there
  pub marked : n.no_overnight ≡ any (λ d. d.no_overnight && is_date_of day d.date) days

-- Nights one after the other.
abbrev pub AreNights : List Day → List Stay → ℕ → List Night → Type 0
AreNights days stays day [] = Unit
AreNights days stays day (n ∷ ns) = IsNight days stays day n × AreNights days stays (suc day) ns

pub covers-spends : (s : Stay) (t : Time) → covers s t ≡ spends (t / one_day) s
unfolding covers date_only
covers-spends s t = ground arith

pub sorted_stays-IsSorted : (stays : List Stay) → IsSorted IsNotAfter (sorted_stays stays)
unfolding sorted_stays
sorted_stays-IsSorted stays =
    sort_stable-IsSorted checked_in_first IsNotAfter (λ a b h. ground arith) (λ a b h. ground arith)
      (λ a b c h k. ground arith) stays

select-covers :
    (t : Time) (stays : List Stay)
    → select (λ s. covers s t) stays ≡ select (spends (t / one_day)) stays
select-covers t [] = refl
select-covers t (s ∷ stays) = ground (arith, covers-spends s t, select-covers t stays)

without_stay_lem :
    (days : List Day) (day : ℕ)
    → without_stay days (day * one_day) ≡ any (λ d. d.no_overnight && is_date_of day d.date) days
unfolding without_stay date_only
without_stay_lem [] day = refl
without_stay_lem (d ∷ days) day = elim (Option-cases d.date) [
  | inl e ↦ rw e (ground (arith, without_stay_lem days day))
  | inr (t, e) ↦ rw e (ground (arith, without_stay_lem days day))
]

night_on-IsNight :
    (days : List Day) (stays : List Stay) (day : ℕ)
    → IsNight days stays day (night_on days (sorted_stays stays) (day * one_day))
unfolding night_on
night_on-IsNight days stays day =
    let there = select (spends day) (sorted_stays stays) in
    let same : day * one_day / one_day ≡ day = omega arith in
    record {
      dated = refl;
      spent = (
        there,
        ap (map (λ s. s.id)) (rw (select-covers (day * one_day) (sorted_stays stays), same) refl),
        (unfold sorted_stays in select-sort_stable-perm checked_in_first (spends day) stays),
        select-IsSorted IsNotAfter (spends day) (sorted_stays stays) (sorted_stays-IsSorted stays),
      );
      marked = without_stay_lem days day;
    }

-- So many nights, one a day from a date on.
abbrev every_night : ℕ → Time → List Day → List Stay → List Night
every_night zero date days ordered = []
every_night (suc n) date days ordered =
    night_on days ordered date ∷ every_night n (date + one_day) days ordered

nights_from_lem :
    (n : ℕ) (date : Time) (days : List Day) (ordered : List Stay)
    → nights_from (suc n) date (date + n * one_day) days ordered
      ≡ some (every_night n date days ordered)
unfolding nights_from
nights_from_lem zero date days ordered =
    let over : ltb date (date + 0 * one_day) ≡ false = ground arith in rw over refl
nights_from_lem (suc n) date days ordered =
    let more : ltb date (date + suc n * one_day) ≡ true = ground arith in
    let same : date + suc n * one_day ≡ (date + one_day) + n * one_day = omega arith in
    rw more (
      rw same (
        ap (before_rest (night_on days ordered date))
          (nights_from_lem n (date + one_day) days ordered)))

every_night-AreNights :
    (n day : ℕ) (days : List Day) (stays : List Stay)
    → let ns = every_night n (day * one_day) days (sorted_stays stays) in
      (length ns ≡ n) × AreNights days stays day ns
every_night-AreNights zero day days stays = (refl, tt)
every_night-AreNights (suc n) day days stays =
    let next : day * one_day + one_day ≡ suc day * one_day = omega arith in
    let (count, rest) = every_night-AreNights n (suc day) days stays in
    rw next (ap suc count, (night_on-IsNight days stays day, rest))

nights_lem :
    (start end : Time) (days : List Day) (stays : List Stay)
    → nights (some start) (some end) days stays
      ≡ some (
          every_night (end / one_day - start / one_day) (date_only start) days (sorted_stays stays))
unfolding nights date_only
nights_lem start end days stays = elim (Bool-cases (ltb end start)) [
  | inl early ↦
      let none_left : (date_only end - date_only start) / one_day ≡ 0 = ground arith in
      let none_named : end / one_day - start / one_day ≡ 0 = ground arith in
      let over : ltb (date_only start) (date_only end) ≡ false = ground arith in
      rw none_left (rw none_named (unfold nights_from in (rw over refl)))
  | inr late ↦
      let count = end / one_day - start / one_day in
      let as_count : (date_only end - date_only start) / one_day ≡ count = ground arith in
      let last : date_only end ≡ date_only start + count * one_day = ground arith in
      rw as_count (rw last (nights_from_lem count (date_only start) days (sorted_stays stays)))
]

-- The loop of `Nights` ends for any two dates, with one night for each day from the first date up
-- to the last, the last left out; a trip that ends before it starts has none. A night has the date
-- of its day, and lists just the stays of the document with a check-in on that day or before and a
-- check-out on a later one, the first to check in first and by identifier where two check in at
-- once. It counts as spent without a stay exactly when a day of its date is marked so.
pub nights_exact :
    (start end : Time) (days : List Day) (stays : List Stay)
    → (ns : List Night) × (nights (some start) (some end) days stays ≡ some ns)
      × (length ns ≡ end / one_day - start / one_day)
      × AreNights days stays (start / one_day) ns
nights_exact start end days stays =
    let count = end / one_day - start / one_day in
    let (counted, are) = every_night-AreNights count (start / one_day) days stays in
    (
      every_night count (start / one_day * one_day) days (sorted_stays stays),
      (unfold date_only in nights_lem start end days stays),
      counted,
      are,
    )
