-- ===== src/RateLimit/Granted.antt =====
-- How many attempts `take` grants to one key, among those of others.
use tripvault.Base.{
  ℕ, ◌+◌, ◌≤◌, ◌<◌, true, false, Option, none, some, List, [], ◌∷◌, ◌≡◌, refl, sym, ◌∙◌, ap, ltb,
  arith, subst, Bool-cases, inl, inr, if◌then◌else◌, All,
}
use tripvault.Base.Int64.{lt64, IsNonneg, ◌⊕◌}
use tripvault.Base.Text.{Text, text_eq, text_eq_iff}
use tripvault.Domain.Values.{Time}
use tripvault.RateLimit.{
  AttemptLimiter, AttemptCount, Duration, check, check_count, sweep, unless_expired, add, take, put,
  next_count,
}

-- The attempts that are granted to a key in a run of attempts, each a key and an instant.
unfoldable pub granted : Text → List (Text × Time) → AttemptLimiter → ℕ
unfolding text_eq take
granted key [] l = 0
granted key ((k, t) ∷ ops) l =
    let ((wait, ok), l') = take k t l in
    let rest = granted key ops l' in if text_eq key k then (if ok then 1 + rest else rest) else rest

pub text_eq_refl : (s : Text) → text_eq s s ≡ true
text_eq_refl s = (text_eq_iff s s).1 refl

-- The count of a key whose window still runs at an instant.
abbrev pub IsRunning : Text → Time → AttemptCount → AttemptLimiter → Type 0
IsRunning key t c l = (l.counts key ≡ some c) × (t < c.reset_at)

sweep-limit : (t : Time) (l : AttemptLimiter) → (sweep t l).limit ≡ l.limit
unfolding sweep
sweep-limit t l = elim (Bool-cases (ltb t (l.last_sweep + l.window))) [
  | inl e ↦ rw e refl
  | inr e ↦ rw e refl
]

sweep-IsRunning :
    (key : Text) (t : Time) (c : AttemptCount) (l : AttemptLimiter)
    → IsRunning key t c l
    → (sweep t l).counts key ≡ some c
unfolding sweep
sweep-IsRunning key t c l (found, runs) = elim (Bool-cases (ltb t (l.last_sweep + l.window))) [
  | inl e ↦ rw e found
  | inr e ↦ rw e (rw found (ground arith))
]

add-limit : (k : Text) (t : Time) (l : AttemptLimiter) → (add k t l).limit ≡ l.limit
unfolding add
add-limit k t l = sweep-limit t l

check_running :
    (key : Text) (t : Time) (c : AttemptCount) (l : AttemptLimiter)
    → IsRunning key t c l
    → (check key t l).1 ≡ lt64 c.events l.limit
unfolding check
check_running key t c l (found, runs) = rw found (ground (arith, runs))

add_own :
    (key : Text) (t : Time) (c : AttemptCount) (l : AttemptLimiter)
    → IsRunning key t c l
    → (add key t l).counts key ≡ some (record c { events = c.events ⊕ 1 })
unfolding add put
add_own key t c l (found, runs) =
    rw (text_eq_refl key) (rw (sweep-IsRunning key t c l (found, runs)) (ground (arith, runs)))

add_other :
    (key k : Text) (t : Time) (c : AttemptCount) (l : AttemptLimiter)
    → IsRunning key t c l
    → text_eq key k ≡ false
    → (add k t l).counts key ≡ some c
unfolding add put
add_other key k t c l runs other = rw other (sweep-IsRunning key t c l runs)

pub take_granted :
    (k : Text) (t : Time) (l : AttemptLimiter)
    → (check k t l).1 ≡ true
    → take k t l ≡ ((0, true), add k t l)
unfolding take
take_granted k t l e = rw e refl

pub take_refused :
    (k : Text) (t : Time) (l : AttemptLimiter)
    → (check k t l).1 ≡ false
    → take k t l ≡ (((check k t l).0, false), l)
unfolding take
take_refused k t l e = rw e refl

-- While a window runs, a key is granted no more than its limit leaves.
granted_running :
    (key : Text) (ops : List (Text × Time)) (c : AttemptCount) (l : AttemptLimiter)
    → l.counts key ≡ some c
    → All (λ op. op.1 < c.reset_at) ops
    → IsNonneg l.limit
    → c.events ≤ l.limit
    → granted key ops l + c.events ≤ l.limit
unfolding granted
granted_running key [] c l found within nonneg below = omega (arith, below)
granted_running key ((k, t) ∷ ops) c l found (runs, within) nonneg below =
    elim (Bool-cases ((check k t l).1)) [
      | inl e ↦ elim (Bool-cases (text_eq key k)) [
        | inl same ↦
            let own = (text_eq_iff key k).0 same in
            let open_ = check_running key t c l (found, runs) in
            let asked = subst (λ x. (check x t l).1 ≡ true) (sym own) e in
            let small = sym open_ ∙ asked in
            let later =
              granted_running key ops (record c { events = c.events ⊕ 1 }) (add key t l)
                (add_own key t c l (found, runs)) within (rw (add-limit key t l) nonneg)
                (rw (add-limit key t l) (ground (arith, small, nonneg, below))) in
            rw (take_granted k t l e) (
              rw same (
                subst (λ x. (1 + granted key ops (add x t l)) + c.events ≤ l.limit) own
                  (ground (
                    arith,
                    small,
                    nonneg,
                    below,
                    subst (λ x. granted key ops (add key t l) + (c.events ⊕ 1) ≤ x)
                        (add-limit key t l) later,
                  ))))
        | inr other ↦
            let later =
              granted_running key ops c (add k t l) (add_other key k t c l (found, runs) other)
                within (rw (add-limit k t l) nonneg) (rw (add-limit k t l) below) in
            rw (take_granted k t l e) (
              rw other
                (subst (λ x. granted key ops (add k t l) + c.events ≤ x) (add-limit k t l) later))
      ]
      | inr e ↦
          let later = granted_running key ops c l found within nonneg below in
          rw (take_refused k t l e) (ground (arith, later))
    ]

next_count_fresh :
    (found : Option AttemptCount) (window : Duration) (t : Time)
    → unless_expired t found ≡ none
    → next_count found window t ≡ record { events = 1; reset_at = t + window }
next_count_fresh none window t h = refl
next_count_fresh (some c) window t h = ground (arith, h)

check_fresh :
    (found : Option AttemptCount) (limit : ℕ) (t : Time)
    → unless_expired t found ≡ none
    → (check_count found limit t).1 ≡ true
check_fresh none limit t h = refl
check_fresh (some c) limit t h = ground (arith, h)

add_fresh :
    (key : Text) (t : Time) (l : AttemptLimiter)
    → unless_expired t (l.counts key) ≡ none
    → (add key t l).counts key ≡ some (record { events = 1; reset_at = t + l.window })
unfolding add put sweep
add_fresh key t l fresh = elim (Bool-cases (ltb t (l.last_sweep + l.window))) [
  | inl e ↦
      rw (text_eq_refl key) (rw e (ap some (next_count_fresh (l.counts key) l.window t fresh)))
  | inr e ↦ rw (text_eq_refl key) (rw e (rw fresh refl))
]

-- Whatever attempts of any keys come between, a key that has no running window is granted no more
-- attempts than its limit from the one that opens its window until that window ends. The limit is
-- positive, and below 2 ^ 63 as any `int` is.
pub granted-le-limit :
    (key : Text) (t : Time) (ops : List (Text × Time)) (l : AttemptLimiter)
    → unless_expired t (l.counts key) ≡ none
    → All (λ op. op.1 < t + l.window) ops
    → IsNonneg l.limit
    → 0 < l.limit
    → granted key ((key, t) ∷ ops) l ≤ l.limit
unfolding granted check
granted-le-limit key t ops l fresh within nonneg pos =
    let counted : AttemptCount = record { events = 1; reset_at = t + l.window } in
    let later =
      granted_running key ops counted (add key t l) (add_fresh key t l fresh) within
        (rw (add-limit key t l) nonneg) (rw (add-limit key t l) pos) in
    rw (take_granted key t l (check_fresh (l.counts key) l.limit t fresh))
      (rw (text_eq_refl key) (omega (arith, later, add-limit key t l)))
