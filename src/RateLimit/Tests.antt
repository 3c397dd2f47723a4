-- ===== src/RateLimit/Tests.antt =====
-- Attempts of one client, and the theorems on limits at them.
use tripvault.Base.{
  ◌+◌, ◌≤◌, ◌<◌, true, false, List, [], ◌∷◌, ◌≡◌, ◌≢◌, refl, arith, inl, inr, if◌then◌else◌,
}
use tripvault.Base.Text.{Text, text, text_eq, text_eq_iff}
use tripvault.Domain.Values.{Time}
use tripvault.RateLimit.{
  AttemptLimiter, check, sweep, take, new_attempt_limiter, Readings, admit, add, has, sign_in_key,
  new_sign_in_limits, succeeded,
}
use tripvault.RateLimit.Window.{check-waits, check-sweep}
use tripvault.RateLimit.Admit.{passes, admit_exact}
use tripvault.RateLimit.Remembered.{Attempt, asks, errs, signs_in, attempt_all, admit-succeeded}
use tripvault.RateLimit.Granted.{granted, granted-le-limit}

abbrev client : Text
client = text "10.0.0.1"

-- Two attempts in a window of 60, of which the client has used both at instant 110.
abbrev empty_limiter : AttemptLimiter
empty_limiter = new_attempt_limiter 2 60

abbrev used_up : AttemptLimiter
used_up = (take client 110 (take client 100 empty_limiter).1).1

abbrev attempts : List (Text × Time)
attempts = (client, 110) ∷ (text "10.0.0.2", 115) ∷ (client, 120) ∷ []

granted_two : granted client ((client, 100) ∷ attempts) empty_limiter ≡ 2
unfolding granted
granted_two = refl

check-waits_example :
    (0 < 40)
    × ((t : Time) → t < 120 + 40 → (check client t used_up).1 ≡ false)
    × ((t : Time) → 120 + 40 ≤ t → check client t used_up ≡ (0, true))
unfolding take check
check-waits_example = check-waits client used_up 120 40 refl

check-sweep_example : check client 180 (sweep 170 used_up) ≡ check client 180 used_up
check-sweep_example = check-sweep client used_up 170 180 (omega arith)

granted-le-limit_example : granted client ((client, 100) ∷ attempts) empty_limiter ≤ 2
granted-le-limit_example =
    granted-le-limit client 100 attempts empty_limiter refl
      (omega arith, (omega arith, (omega arith, tt))) (omega arith) (omega arith)

abbrev email : Text
email = text "a@b.c"

abbrev readings : Readings
readings = record { at_client = 10; at_known = 11; at_account = 12; at_take = 13; at_record = 14 }

admit_exact_example :
    let key = sign_in_key client email in
    let l = new_sign_in_limits in
    ((admit client email readings l).0.1 ≡ passes client email readings l)
    × (passes client email readings l ≡ false → (admit client email readings l).1 ≡ l)
    × (passes client email readings l ≡ true
        → (admit client email readings l).1 ≡ record l {
          per_account_client = add key 13 l.per_account_client;
          per_account = if has key 11 l.known then l.per_account else add email 14 l.per_account;
        })
admit_exact_example = admit_exact client email readings new_sign_in_limits

abbrev other_client : Text
other_client = text "10.0.0.2"

-- Others ask for the address and err, one of them signs in, and the client asks for another one.
abbrev in_between : List Attempt
in_between =
    asks other_client email readings
    ∷ errs other_client 8
    ∷ signs_in other_client email 9
    ∷ asks client (text "d@e.f") readings
    ∷ []

apart_texts : (s t : Text) → text_eq s t ≡ false → s ≢ t
apart_texts s t h e = cc (h, (text_eq_iff s t).1 e)

admit-succeeded_example :
    (admit client email readings
      (attempt_all in_between (succeeded client email 5 new_sign_in_limits))).0.1
    ≡ true
unfolding check attempt_all text_eq
admit-succeeded_example =
    admit-succeeded client email 5 readings in_between new_sign_in_limits (omega arith)
      (
        ((omega arith), inl (apart_texts client other_client refl)),
        (
          tt,
          (
            (((omega arith), inl (apart_texts client other_client refl)), omega arith),
            (((omega arith), inr (apart_texts email (text "d@e.f") refl)), tt),
          ),
        ),
      )
      (omega arith) refl
