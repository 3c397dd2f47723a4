-- ===== src/RateLimit.antt =====
-- backend/internal/httpapi/ratelimit.go: the counts of attempts that sign-ins are held to.
-- A method that locks is one step on the state. The clock is an argument: the instant that the
-- method reads, or one for each method that is called. A Go map is a function.
pub mod Window
pub mod Granted
pub mod Admit
pub mod Remembered
mod Tests
use tripvault.Base.{
  ℕ, ◌+◌, ◌-◌, ◌*◌, Bool, true, false, not, ◌||◌, Option, none, some, ◌∷◌, ◌++◌, if◌then◌else◌, ltb,
}
use tripvault.Base.Int64.{Int64, ◌⊕◌, lt64}
use tripvault.Base.Text.{Text, text_eq}
use tripvault.Domain.Values.{Time}

-- `time.Duration`, in nanoseconds.
abbrev pub Duration : Type 0
Duration = ℕ

abbrev pub minute : Duration
minute = 60 * 1000000000

abbrev pub attempt_window : Duration
attempt_window = 15 * minute

abbrev pub known_client_lifetime : Duration
known_client_lifetime = 30 * (24 * (60 * minute))

abbrev pub sign_ins_per_account_client : Int64
sign_ins_per_account_client = 10

abbrev pub sign_ins_per_account : Int64
sign_ins_per_account = 100

abbrev pub failed_sign_ins_per_client : Int64
failed_sign_ins_per_client = 50

-- `m[key] = value`, or `delete(m, key)` with `none`.
unfoldable pub put {ℓ} : {A : Type ℓ} → Text → Option A → (Text → Option A) → Text → Option A
unfolding text_eq
put key value m k = if text_eq k key then value else m k

-- `attemptCount`
pub record AttemptCount : Type 0 where
  pub events : Int64
  pub reset_at : Time

-- `attemptLimiter`, less its lock and its clock.
pub record AttemptLimiter : Type 0 where
  pub limit : Int64
  pub window : Duration
  pub counts : Text → Option AttemptCount
  pub last_sweep : Time

-- `newAttemptLimiter`
abbrev pub new_attempt_limiter : Int64 → Duration → AttemptLimiter
new_attempt_limiter limit window = record {
  limit = limit;
  window = window;
  counts = λ key. none;
  last_sweep = 0;
}

-- A count that has no window any more: `!now.Before(count.resetAt)`.
abbrev pub is_expired : Time → AttemptCount → Bool
is_expired now c = not (ltb now c.reset_at)

abbrev pub check_count : Option AttemptCount → Int64 → Time → Duration × Bool
check_count none limit now = (0, true)
check_count (some c) limit now =
    if is_expired now c || lt64 c.events limit then (0, true) else (c.reset_at - now, false)

-- `check`
unfoldable pub check : Text → Time → AttemptLimiter → Duration × Bool
check key now l = check_count (l.counts key) l.limit now

abbrev pub unless_expired : Time → Option AttemptCount → Option AttemptCount
unless_expired now none = none
unless_expired now (some c) = if is_expired now c then none else some c

-- `sweep`
unfoldable pub sweep : Time → AttemptLimiter → AttemptLimiter
sweep now l =
    if ltb now (l.last_sweep + l.window)
    then l
    else record l { counts = λ key. unless_expired now (l.counts key); last_sweep = now }

-- The count that `add` stores, from the one that it finds.
abbrev pub next_count : Option AttemptCount → Duration → Time → AttemptCount
next_count none window now = record { events = 0 ⊕ 1; reset_at = now + window }
next_count (some c) window now =
    if is_expired now c
    then record { events = 0 ⊕ 1; reset_at = now + window }
    else record c { events = c.events ⊕ 1 }

-- `add`
unfoldable pub add : Text → Time → AttemptLimiter → AttemptLimiter
unfolding sweep put
add key now l =
    let l' = sweep now l in
    record l' { counts = put key (some (next_count (l'.counts key) l'.window now)) l'.counts }

-- `allowed`
abbrev pub allowed : Text → Time → AttemptLimiter → Duration × Bool
allowed = check

-- `take`
unfoldable pub take : Text → Time → AttemptLimiter → (Duration × Bool) × AttemptLimiter
unfolding check add
take key now l =
    let (wait, ok) = check key now l in
    if not ok then ((wait, false), l) else ((0, true), add key now l)

-- `record`
abbrev pub record_event : Text → Time → AttemptLimiter → AttemptLimiter
record_event = add

-- `forget`
unfoldable pub forget : Text → AttemptLimiter → AttemptLimiter
unfolding put
forget key l = record l { counts = put key none l.counts }

-- `knownClients`
pub record KnownClients : Type 0 where
  pub lifetime : Duration
  pub until : Text → Option Time
  pub last_sweep : Time

-- `newKnownClients`
abbrev pub new_known_clients : Duration → KnownClients
new_known_clients lifetime = record { lifetime = lifetime; until = λ key. none; last_sweep = 0 }

abbrev pub lasts : Option Time → Time → Bool
lasts none now = false
lasts (some until) now = ltb now until

-- `has`
unfoldable pub has : Text → Time → KnownClients → Bool
has key now k = lasts (k.until key) now

abbrev pub unless_over : Time → Option Time → Option Time
unless_over now none = none
unless_over now (some until) = if not (ltb now until) then none else some until

-- `remember`
unfoldable pub remember : Text → Time → KnownClients → KnownClients
unfolding put
remember key now k =
    let k' =
      if not (ltb now (k.last_sweep + 24 * (60 * minute)))
      then record k { until = λ stored. unless_over now (k.until stored); last_sweep = now }
      else k in
    record k' { until = put key (some (now + k'.lifetime)) k'.until }

-- `signInLimits`
pub record SignInLimits : Type 0 where
  pub per_account_client : AttemptLimiter
  pub per_account : AttemptLimiter
  pub per_client : AttemptLimiter
  pub known : KnownClients

-- `newSignInLimits`
abbrev pub new_sign_in_limits : SignInLimits
new_sign_in_limits = record {
  per_account_client = new_attempt_limiter sign_ins_per_account_client attempt_window;
  per_account = new_attempt_limiter sign_ins_per_account attempt_window;
  per_client = new_attempt_limiter failed_sign_ins_per_client attempt_window;
  known = new_known_clients known_client_lifetime;
}

-- `signInKey`
abbrev pub sign_in_key : Text → Text → Text
sign_in_key client email = email ++ 0 ∷ client

-- The instants that the calls of one `admit` read.
pub record Readings : Type 0 where
  pub at_client : Time
  pub at_known : Time
  pub at_account : Time
  pub at_take : Time
  pub at_record : Time

-- `admit`
unfoldable pub admit : Text → Text → Readings → SignInLimits → (Duration × Bool) × SignInLimits
unfolding check take has add
admit client email t l =
    let (wait, ok) = allowed client t.at_client l.per_client in
    if not ok
    then ((wait, false), l)
    else let key = sign_in_key client email in
      let known = has key t.at_known l.known in
      let (wait₁, ok₁) =
        if not known then allowed email t.at_account l.per_account else (0, true) in
      if not ok₁
      then ((wait₁, false), l)
      else let ((wait₂, ok₂), taken) = take key t.at_take l.per_account_client in
        if not ok₂ then ((wait₂, false), record l { per_account_client = taken }) else (
          (0, true),
          record l {
            per_account_client = taken;
            per_account =
                if not known then record_event email t.at_record l.per_account else l.per_account;
          },
        )

-- `failed`
unfoldable pub failed : Text → Time → SignInLimits → SignInLimits
unfolding add
failed client now l = record l { per_client = record_event client now l.per_client }

-- `succeeded`
unfoldable pub succeeded : Text → Text → Time → SignInLimits → SignInLimits
unfolding forget remember
succeeded client email now l =
    let key = sign_in_key client email in
    record l {
      per_account_client = forget key l.per_account_client;
      per_account = forget email l.per_account;
      known = remember key now l.known;
    }
