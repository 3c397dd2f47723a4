-- ===== src/RateLimit/Remembered.antt =====
-- A client that signed in before, among the attempts of others.
use tripvault.Base.{
  ℕ, ◌+◌, ◌*◌, ◌<◌, ◌≤◌, sym, subst, true, false, none, some, List, [], ◌∷◌, ◌++◌, ◌≡◌, ◌≢◌, ◌⊎◌,
  refl, ◌∙◌, arith, Bool-cases, inl, inr, ltb, All,
}
use tripvault.Base.Text.{Text, text_eq, text_eq_iff}
use tripvault.Domain.Values.{Time}
use tripvault.RateLimit.{
  SignInLimits, Readings, admit, failed, succeeded, check, add, sweep, has, sign_in_key, forget,
  remember, put, KnownClients, minute, AttemptLimiter,
}
use tripvault.RateLimit.Granted.{text_eq_refl}
use tripvault.RateLimit.Admit.{passes, admit_exact}

-- A call of one of the methods that the handler of sign-ins makes.
pub data Attempt : Type 0 where
  asks : (client email : Text) → Readings → Attempt
  errs : (client : Text) → Time → Attempt
  signs_in : (client email : Text) → Time → Attempt

unfoldable pub attempt : Attempt → SignInLimits → SignInLimits
unfolding admit failed succeeded
attempt (asks client email t) l = (admit client email t l).1
attempt (errs client now) l = failed client now l
attempt (signs_in client email now) l = succeeded client email now l

unfoldable pub attempt_all : List Attempt → SignInLimits → SignInLimits
unfolding attempt
attempt_all [] l = l
attempt_all (a ∷ rest) l = attempt_all rest (attempt a l)

-- The address of a client has no character zero, which stands between the two parts of a key.
abbrev pub IsPlain : Text → Type 0
IsPlain s = All (λ c. c ≢ 0) s

-- Another client, or the same one at another address.
abbrev AreOthers : Text → Text → Text → Text → Type 0
AreOthers client email c e = IsPlain c × ((client ≢ c) ⊎ (email ≢ e))

-- An attempt of others, none of them later than an instant where it signs in.
abbrev pub IsOther : Text → Text → Time → Attempt → Type 0
IsOther client email at (asks c e t) = AreOthers client email c e
IsOther client email at (errs c now) = Unit
IsOther client email at (signs_in c e now) = AreOthers client email c e × (now ≤ at)

zero_inside : (s t : Text) → IsPlain (s ++ 0 ∷ t) → ⊥
zero_inside [] t (h, hs) = h refl
zero_inside (c ∷ s) t (h, hs) = zero_inside s t hs

tail_eq : (a b : ℕ) (s t : Text) → ◌≡◌ {A = Text} (a ∷ s) (b ∷ t) → (a ≡ b) × (s ≡ t)
tail_eq a b s t h = (cc, cc)

sign_in_key-injective :
    (client email c e : Text)
    → IsPlain client
    → IsPlain c
    → sign_in_key client email ≡ sign_in_key c e
    → (client ≡ c) × (email ≡ e)
sign_in_key-injective client [] c [] p q h = (cc, refl)
sign_in_key-injective client [] c (x ∷ e) p q h =
    absurd (zero_inside e c (subst IsPlain (tail_eq 0 x client (e ++ 0 ∷ c) h).1 p))
sign_in_key-injective client (x ∷ email) c [] p q h =
    absurd
      (zero_inside email client (subst IsPlain (sym (tail_eq x 0 (email ++ 0 ∷ client) c h).1) q))
sign_in_key-injective client (x ∷ email) c (y ∷ e) p q h =
    let (same, rest) = tail_eq x y (email ++ 0 ∷ client) (e ++ 0 ∷ c) h in
    let (k, m) = sign_in_key-injective client email c e p q rest in (k, cc)

other_key :
    (client email c e : Text)
    → IsPlain client
    → AreOthers client email c e
    → text_eq (sign_in_key client email) (sign_in_key c e) ≡ false
other_key client email c e p (q, other) =
    elim (Bool-cases (text_eq (sign_in_key client email) (sign_in_key c e))) [
      | inr h ↦ h
      | inl h ↦
          let (k, m) =
            sign_in_key-injective client email c e p q
              ((text_eq_iff (sign_in_key client email) (sign_in_key c e)).0 h) in
          elim other [ inl n ↦ absurd (n k) | inr n ↦ absurd (n m) ]
    ]

module _ (key : Text) where
  add-none :
      (k : Text) (t : Time) (l : AttemptLimiter)
      → text_eq key k ≡ false
      → l.counts key ≡ none
      → (add k t l).counts key ≡ none
  unfolding add put sweep
  add-none k t l other e = elim (Bool-cases (ltb t (l.last_sweep + l.window))) [
    | inl s ↦ rw other (rw s e)
    | inr s ↦ rw other (rw s (rw e refl))
  ]

  forget-none :
      (k : Text) (l : AttemptLimiter)
      → text_eq key k ≡ false
      → l.counts key ≡ none
      → (forget k l).counts key ≡ none
  unfolding forget put
  forget-none k l other e = rw other e

  remember-until :
      (k : Text) (now at until : Time) (known : KnownClients)
      → text_eq key k ≡ false
      → now ≤ at
      → at < until
      → known.until key ≡ some until
      → (remember k now known).until key ≡ some until
  unfolding remember put
  remember-until k now at until known other early late e =
      elim (Bool-cases (ltb now (known.last_sweep + 24 * (60 * minute)))) [
        | inl s ↦ rw (other, s) e
        | inr s ↦ rw (other, s) (rw e (ground arith))
      ]

-- The client is known for an address until after an instant, and has no count for it.
abbrev IsRemembered : Text → Time → Time → SignInLimits → Type 0
IsRemembered key at until l =
    (l.known.until key ≡ some until) × (l.per_account_client.counts key ≡ none)

module _ (client email : Text) (at until : Time) (plain : IsPlain client) (late : at < until) where
  abbrev own : Text
  own = sign_in_key client email

  attempt-IsRemembered :
      (a : Attempt) (l : SignInLimits)
      → IsOther client email at a
      → IsRemembered own at until l
      → IsRemembered own at until (attempt a l)
  unfolding attempt
  attempt-IsRemembered (asks c e t) l other (k, n) = elim (Bool-cases (passes c e t l)) [
    | inr refused ↦ rw ((admit_exact c e t l).1 refused) (k, n)
    | inl let_in ↦ rw ((admit_exact c e t l).2 let_in) (
      k,
      add-none own (sign_in_key c e) t.at_take l.per_account_client
          (other_key client email c e plain other) n,
    )
  ]
  attempt-IsRemembered (errs c now) l other h = unfold failed in h
  attempt-IsRemembered (signs_in c e now) l (other, early) (k, n) =
      let apart = other_key client email c e plain other in
      unfold succeeded in
      (
        remember-until own (sign_in_key c e) now at until l.known apart early late k,
        forget-none own (sign_in_key c e) l.per_account_client apart n,
      )

  attempt_all-IsRemembered :
      (attempts : List Attempt) (l : SignInLimits)
      → All (IsOther client email at) attempts
      → IsRemembered own at until l
      → IsRemembered own at until (attempt_all attempts l)
  unfolding attempt_all
  attempt_all-IsRemembered [] l others h = h
  attempt_all-IsRemembered (a ∷ rest) l (o, others) h =
      attempt_all-IsRemembered rest (attempt a l) others (attempt-IsRemembered a l o h)

succeeded-IsRemembered :
    (client email : Text) (now at : Time) (l : SignInLimits)
    → IsRemembered
        (sign_in_key client email)
        at
        (now + l.known.lifetime)
        (succeeded client email now l)
unfolding succeeded remember forget put
succeeded-IsRemembered client email now at l =
    elim (Bool-cases (ltb now (l.known.last_sweep + 24 * (60 * minute)))) [
      | inl s ↦ rw (s, text_eq_refl (sign_in_key client email)) (refl, refl)
      | inr s ↦ rw (s, text_eq_refl (sign_in_key client email)) (refl, refl)
    ]

-- After a right password the client may sign in again to the same address at any instant within
-- the lifetime of what is remembered of it, whatever attempts other clients make at any address in
-- between, and it itself at other addresses, as long as the client is then under its count of wrong
-- passwords. The addresses of clients have no character zero, and whoever signs in in between does
-- so no later than the client is looked up.
pub admit-succeeded :
    (client email : Text) (now : Time) (t : Readings) (attempts : List Attempt) (l : SignInLimits)
    → IsPlain client
    → All (IsOther client email t.at_known) attempts
    → t.at_known < now + l.known.lifetime
    → let l' = attempt_all attempts (succeeded client email now l) in
      (check client t.at_client l'.per_client).1 ≡ true → (admit client email t l').0.1 ≡ true
admit-succeeded client email now t attempts l plain others within under =
    let key = sign_in_key client email in
    let l' = attempt_all attempts (succeeded client email now l) in
    let (k, n) =
      attempt_all-IsRemembered client email t.at_known (now + l.known.lifetime) plain within
        attempts (succeeded client email now l) others
        (succeeded-IsRemembered client email now t.at_known l) in
    let known : has key t.at_known l'.known ≡ true =
      unfold has in (rw k (ground (arith, within))) in
    let uncounted : check key t.at_take l'.per_account_client ≡ (0, true) =
      unfold check in (rw n refl) in
    (admit_exact client email t l').0 ∙ rw (under, known, uncounted) refl
