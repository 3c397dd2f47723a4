-- ===== src/Plan/Marks.antt =====
-- Which stay marks the days of a document carry, against its stays.
use tripvault.Base.{
  ℕ, ◌-◌, ◌/◌, ◌≤◌, Bool, true, false, not, ◌&&◌, Option, none, some, List, [], ◌∷◌, ◌++◌, ◌≡◌,
  refl, subst, arith, Bool-cases, inl, inr, ◌⊎◌, map, opt_list, if◌then◌else◌, All, All-imp,
}
use tripvault.Base.Sort.{sort_stable, insert_stable, IsSorted, All-sorted}
use tripvault.Domain.Kinds.{AnchorSlot, anchor_morning, anchor_evening}
use tripvault.Domain.Values.{Uuid, Time}
use tripvault.Domain.Records.{Day, Stay}
use tripvault.Plan.Nights.{
  Assignment, anchor_assignments, day_assignments, stay_for_night, sorted_stays, covers, one_day,
  checked_in_first,
}
use tripvault.Plan.Overnight.{spends, IsNotAfter, covers-spends, sorted_stays-IsSorted}

abbrev IsIn : Stay → List Stay → Type 0
IsIn s [] = ⊥
IsIn s (q ∷ stays) = (q ≡ s) ⊎ IsIn s stays

-- The stay of a night, counted in days: of those that it is spent at, the first to check in; none
-- where it is spent at none.
abbrev pub IsStayOf : List Stay → ℕ → Option Uuid → Type 0
IsStayOf stays day none = All (λ s. spends day s ≡ false) stays
IsStayOf stays day (some id) =
    (s : Stay) × (s.id ≡ id)
    × IsIn s stays
    × (spends day s ≡ true)
    × All (λ q. spends day q ≡ true → IsNotAfter s q) stays

-- A mark that is wanted is that of the stay of the night; one that is not wanted is left out.
abbrev IsMarkOf : Bool → List Stay → ℕ → Option Uuid → Type 0
IsMarkOf wanted stays day mark =
    (wanted ≡ true → IsStayOf stays day mark) × (wanted ≡ false → mark ≡ none)

abbrev writes : Uuid → AnchorSlot → Option Uuid → List Assignment
writes day slot mark = map (λ s. record { day_id = day; slot = slot; stay_id = s }) (opt_list mark)

-- What is written for a day with a date, or with none.
abbrev pub AreMarksOf : List Stay → Day → Option Time → List Assignment → Type 0
AreMarksOf stays d none written = written ≡ []
AreMarksOf stays d (some t) written =
    (morning : Option Uuid) × (evening : Option Uuid) × (written
      ≡ writes d.id anchor_morning morning ++ writes d.id anchor_evening evening)
    × IsMarkOf d.morning_anchor stays (t / one_day - 1) morning
    × IsMarkOf (d.evening_anchor && not d.no_overnight) stays (t / one_day) evening

-- What is written for days, one after the other.
abbrev pub AreMarks : List Stay → List Day → List Assignment → Type 0
AreMarks stays [] written = written ≡ []
AreMarks stays (d ∷ days) written =
    (here : List Assignment) × (rest : List Assignment) × (written ≡ here ++ rest)
    × AreMarksOf stays d d.date here
    × AreMarks stays days rest

-- A date that has a day before it.
abbrev pub HasDayBefore : Option Time → Type 0
HasDayBefore none = Unit
HasDayBefore (some t) = one_day ≤ t

module _ (less : Stay → Stay → Bool) (s : Stay) where
  IsIn-inserted :
      (x : Stay) (stays : List Stay) → IsIn s (insert_stable less x stays) → IsIn s (x ∷ stays)
  unfolding insert_stable
  IsIn-inserted x [] h = h
  IsIn-inserted x (y ∷ ys) h = elim (Bool-cases (less y x)) [
    | inr e ↦ rw e at h
    | inl e ↦ elim (rw e at h) [
      | inl here ↦ inr (inl here)
      | inr later ↦ elim (IsIn-inserted x ys later) [
        | inl first ↦ inl first
        | inr rest ↦ inr (inr rest)
      ]
    ]
  ]

  IsIn-sorted : (stays : List Stay) → IsIn s (sort_stable less stays) → IsIn s stays
  unfolding sort_stable
  IsIn-sorted [] h = h
  IsIn-sorted (x ∷ stays) h = elim (IsIn-inserted x (sort_stable less stays) h) [
    | inl first ↦ inl first
    | inr rest ↦ inr (IsIn-sorted stays rest)
  ]

IsStayOf-cons :
    (day : ℕ) (s : Stay) (stays : List Stay) (o : Option Uuid)
    → spends day s ≡ false
    → IsStayOf stays day o
    → IsStayOf (s ∷ stays) day o
IsStayOf-cons day s stays none e h = (e, h)
IsStayOf-cons day s stays (some id) e (q, same, there, spent, earliest) =
    (q, same, inr there, spent, ((λ k. absurd (ground arith)), earliest))

-- The search through the stays in order.
stay_for_night-IsStayOf :
    (ordered : List Stay) (t : Time)
    → IsSorted IsNotAfter ordered
    → IsStayOf ordered (t / one_day) (stay_for_night ordered t)
unfolding stay_for_night
stay_for_night-IsStayOf [] t h = tt
stay_for_night-IsStayOf (s ∷ ordered) t (h, hs) =
    let day = t / one_day in
    let same = covers-spends s t in
    elim (Bool-cases (covers s t)) [
      | inl e ↦ rw e (
        s,
        refl,
        inl refl,
        (rw (← same) e),
        (
          (λ _. (omega arith, λ _. omega arith)),
          All-imp (IsNotAfter s) (λ q. spends day q ≡ true → IsNotAfter s q) ordered (λ q k _. k) h,
        ),
      )
      | inr e ↦
          let unspent : spends day s ≡ false = rw (← same) e in
          rw e (
            IsStayOf-cons day s ordered (stay_for_night ordered t) unspent
              (stay_for_night-IsStayOf ordered t hs))
    ]

IsStayOf-sorted :
    (less : Stay → Stay → Bool) (stays : List Stay) (day : ℕ) (o : Option Uuid)
    → IsStayOf (sort_stable less stays) day o
    → IsStayOf stays day o
IsStayOf-sorted less stays day none h = All-sorted less (λ s. spends day s ≡ false) stays h
IsStayOf-sorted less stays day (some id) (s, same, there, spent, earliest) = (
  s,
  same,
  IsIn-sorted less s stays there,
  spent,
  All-sorted less (λ q. spends day q ≡ true → IsNotAfter s q) stays earliest,
)

stay_for_night_lem :
    (stays : List Stay) (t : Time)
    → IsStayOf stays (t / one_day) (stay_for_night (sorted_stays stays) t)
stay_for_night_lem stays t =
    IsStayOf-sorted checked_in_first stays (t / one_day) (stay_for_night (sorted_stays stays) t) (
      unfold sorted_stays in
      stay_for_night-IsStayOf (sorted_stays stays) t (sorted_stays-IsSorted stays))

if_wanted : Bool → Option Uuid → Option Uuid
if_wanted wanted o = if wanted then o else none

if_wanted-IsMarkOf :
    (wanted : Bool) (stays : List Stay) (day : ℕ) (o : Option Uuid)
    → IsStayOf stays day o
    → IsMarkOf wanted stays day (if_wanted wanted o)
unfolding if_wanted
if_wanted-IsMarkOf true stays day o h = ((λ _. h), (λ e. cc))
if_wanted-IsMarkOf false stays day o h = ((λ e. cc), (λ _. refl))

day_assignments_lem :
    (stays : List Stay) (d : Day) (date : Option Time)
    → HasDayBefore date
    → AreMarksOf stays d date (day_assignments (sorted_stays stays) d date)
unfolding day_assignments if_wanted
day_assignments_lem stays d none h = refl
day_assignments_lem stays d (some t) h =
    let before = stay_for_night (sorted_stays stays) (t - one_day) in
    let coming = stay_for_night (sorted_stays stays) t in
    let overnight = d.evening_anchor && not d.no_overnight in
    let same : (t - one_day) / one_day ≡ t / one_day - 1 = omega (arith, h) in
    (
      if_wanted d.morning_anchor before,
      if_wanted overnight coming,
      ground arith,
      if_wanted-IsMarkOf d.morning_anchor stays (t / one_day - 1) before
          (subst (λ k. IsStayOf stays k before) same (stay_for_night_lem stays (t - one_day))),
      if_wanted-IsMarkOf overnight stays (t / one_day) coming (stay_for_night_lem stays t),
    )

-- The stay marks of a document's days, in the days' order. A day with no date has none. Any other
-- that wants a morning mark carries the stay of the night before, and one that wants an evening mark
-- and does not say that it spends no night carries that of the coming night: of the stays of the
-- document that this night is spent at, one that checks in no later than any other, and by
-- identifier where two check in at once. The mark is left out when no stay covers the night, and when the
-- day does not want it. The dates have a day before them.
pub anchor_assignments_lem :
    (stays : List Stay) (days : List Day)
    → All (λ d. HasDayBefore d.date) days
    → AreMarks stays days (anchor_assignments (sorted_stays stays) days)
unfolding anchor_assignments
anchor_assignments_lem stays [] h = refl
anchor_assignments_lem stays (d ∷ days) (h, hs) = (
  day_assignments (sorted_stays stays) d d.date,
  anchor_assignments (sorted_stays stays) days,
  refl,
  day_assignments_lem stays d d.date h,
  anchor_assignments_lem stays days hs,
)
