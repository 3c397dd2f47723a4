-- ===== src/RateLimit/Window.antt =====
-- The window of one key: what `check` says of later instants, and that `sweep` forgets nothing
-- that it would have said.
use tripvault.Base.{
  ◌+◌, ◌≤◌, ◌<◌, true, false, Option, none, some, ◌≡◌, refl, ltb, arith, Bool-cases, inl, inr,
}
use tripvault.Base.Text.{Text}
use tripvault.Domain.Values.{Time}
use tripvault.RateLimit.{
  AttemptLimiter, AttemptCount, Duration, check, check_count, sweep, unless_expired,
}

check_count-waits :
    (found : Option AttemptCount) (l : AttemptLimiter) (now : Time) (wait : Duration)
    → check_count found l.limit now ≡ (wait, false)
    → (0 < wait)
      × ((t : Time) → t < now + wait → (check_count found l.limit t).1 ≡ false)
      × ((t : Time) → now + wait ≤ t → check_count found l.limit t ≡ (0, true))
check_count-waits none l now wait h = ground arith
check_count-waits (some c) l now wait h = ground arith

-- When a key is refused, the wait that comes with the refusal is exact: it is positive, the key is
-- refused at every earlier instant and may go ahead at every instant from then on, as long as
-- nothing is counted in between.
pub check-waits :
    (key : Text) (l : AttemptLimiter) (now : Time) (wait : Duration)
    → check key now l ≡ (wait, false)
    → (0 < wait)
      × ((t : Time) → t < now + wait → (check key t l).1 ≡ false)
      × ((t : Time) → now + wait ≤ t → check key t l ≡ (0, true))
unfolding check
check-waits key l now wait h = check_count-waits (l.counts key) l now wait h

check_count-unless_expired :
    (found : Option AttemptCount) (l : AttemptLimiter) (now t : Time)
    → now ≤ t
    → check_count (unless_expired now found) l.limit t ≡ check_count found l.limit t
check_count-unless_expired none l now t h = refl
check_count-unless_expired (some c) l now t h = ground arith

-- Dropping the expired windows at an instant changes nothing that is said of any key from that
-- instant on.
pub check-sweep :
    (key : Text) (l : AttemptLimiter) (now t : Time)
    → now ≤ t
    → check key t (sweep now l) ≡ check key t l
unfolding check sweep
check-sweep key l now t h = elim (Bool-cases (ltb now (l.last_sweep + l.window))) [
  | inl e ↦ rw e refl
  | inr e ↦ rw e (check_count-unless_expired (l.counts key) l now t h)
]
