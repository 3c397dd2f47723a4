-- ===== src/RateLimit/Admit.antt =====
-- `admit`: who is let in, and what a refusal leaves behind.
use tripvault.Base.{Bool, true, false, ◌&&◌, ◌||◌, ◌≡◌, refl, Bool-cases, inl, inr, if◌then◌else◌}
use tripvault.Base.Text.{Text}
use tripvault.RateLimit.{SignInLimits, Readings, admit, check, add, has, sign_in_key}
use tripvault.RateLimit.Granted.{take_granted, take_refused}

-- The checks that stand before a sign-in.
abbrev pub passes : Text → Text → Readings → SignInLimits → Bool
passes client email t l =
    let key = sign_in_key client email in
    (check client t.at_client l.per_client).1
    && ((has key t.at_known l.known || (check email t.at_account l.per_account).1)
        && (check key t.at_take l.per_account_client).1)

-- `admit` lets a sign-in go ahead exactly when the client is under its count of wrong passwords,
-- the address is under its count unless this client signed in to it before, and this client is
-- under its count for this address. When it refuses, no count has changed. When it lets one in,
-- the client's count for the address has the attempt, and the address's count has it too unless
-- the client is known; nothing else changes.
pub admit_exact :
    (client email : Text) (t : Readings) (l : SignInLimits)
    → let key = sign_in_key client email in
      ((admit client email t l).0.1 ≡ passes client email t l)
      × (passes client email t l ≡ false → (admit client email t l).1 ≡ l)
      × (passes client email t l ≡ true
          → (admit client email t l).1 ≡ record l {
            per_account_client = add key t.at_take l.per_account_client;
            per_account =
                if has key t.at_known l.known
                then l.per_account
                else add email t.at_record l.per_account;
          })
unfolding admit
admit_exact client email t l =
    let key = sign_in_key client email in
    elim (Bool-cases ((check client t.at_client l.per_client).1)) [
      | inr e ↦ rw e (refl, (λ _. refl), (λ h. cc))
      | inl e ↦ elim (Bool-cases (has key t.at_known l.known)) [
        | inl k ↦ elim (Bool-cases ((check key t.at_take l.per_account_client).1)) [
          | inl c ↦
              rw (e, k, take_granted key t.at_take l.per_account_client c, c)
                (refl, (λ h. cc), (λ h. refl))
          | inr c ↦
              rw (e, k, take_refused key t.at_take l.per_account_client c, c)
                (refl, (λ h. refl), (λ h. cc))
        ]
        | inr k ↦ elim (Bool-cases ((check email t.at_account l.per_account).1)) [
          | inr a ↦ rw (e, k, a) (refl, (λ _. refl), (λ h. cc))
          | inl a ↦ elim (Bool-cases ((check key t.at_take l.per_account_client).1)) [
            | inl c ↦
                rw (e, k, a, take_granted key t.at_take l.per_account_client c, c)
                  (refl, (λ h. cc), (λ h. refl))
            | inr c ↦
                rw (e, k, a, take_refused key t.at_take l.per_account_client c, c)
                  (refl, (λ h. refl), (λ h. cc))
          ]
        ]
      ]
    ]
