-- ===== src/Auth/Renewed.antt =====
-- What has happened when `Refresh` hands out a session.
use tripvault.Base.{
  ◌≡◌, refl, sym, ◌∙◌, true, false, Bool, Bool-cases, inl, inr, some, Option-cases, ◌⊎◌, ◌+◌, ap,
}
use tripvault.Base.Text.{Text}
use tripvault.Domain.Values.{Uuid, Time}
use tripvault.Domain.Users.{Session, User, is_usable}
use tripvault.Sessions.{Failure, Reply, gives, fails, Table, get_by_hash, rotate, active_user}
use tripvault.Auth.{Service, Accounts, SignedIn, refresh, session, or_invalid, replayed}

pub Reply-cases {ℓ} :
    {T : Type ℓ} (a : Reply T) → ((f : Failure) × (a ≡ fails f)) ⊎ ((t : T) × (a ≡ gives t))
Reply-cases (fails f) = inl (f, refl)
Reply-cases (gives t) = inr (t, refl)

is_given {ℓ} : {T : Type ℓ} → Reply T → Bool
is_given (gives t) = true
is_given (fails f) = false

refused {ℓ κ} : {T : Type ℓ} {P : Type κ} {f : Failure} {t : T} → fails f ≡ gives t → P
unfolding is_given
refused h = cc

module _ (v : Service) (token minted : Text) (now : Time) (accounts : Accounts) (s : SignedIn)
    (given : (refresh v token minted now accounts).0 ≡ gives s) where
  wrong {ℓ} : {P : Type ℓ} (f : Failure) → (refresh v token minted now accounts).0 ≡ fails f → P
  wrong f e = refused (sym e ∙ given)

  -- A refresh that succeeds has found a session that holds the token and is usable, its account is
  -- active, and the exchange of the token changed the row.
  pub refresh_given :
      let old = v.hash_token token in
      (stored : Session) × (user : User) × (rows : Table) × (get_by_hash old accounts.sessions
        ≡ some stored)
      × (is_usable stored now ≡ true)
      × (active_user stored.user_id stored.id now accounts.users accounts.sessions ≡ some user)
      × (rotate stored.id old
            (v.hash_token minted)
            now
            (now + v.refresh_token_ttl)
            accounts.sessions
          ≡ gives rows)
      × (refresh v token minted now accounts
          ≡ (session v stored.id minted user, record accounts { sessions = rows }))
  unfolding refresh
  refresh_given =
      let old = v.hash_token token in
      let rows = accounts.sessions in
      elim (Option-cases (get_by_hash old rows)) [
        | inl e ↦ wrong (replayed v old now accounts).0 (rw e refl)
        | inr (stored, found) ↦ elim (Bool-cases (is_usable stored now)) [
          | inr e ↦ wrong Failure.token_invalid (rw (found, e) refl)
          | inl usable ↦
              elim (Option-cases (active_user stored.user_id stored.id now accounts.users rows)) [
                | inl e ↦ wrong Failure.token_invalid (rw (found, usable, e) refl)
                | inr (user, active) ↦
                    elim (Reply-cases (
                      rotate stored.id old (v.hash_token minted) now (now + v.refresh_token_ttl)
                        rows)) [
                          | inl (f, e) ↦ wrong (or_invalid f) (rw (found, usable, active, e) refl)
                          | inr (rows', e) ↦ (
                            stored,
                            user,
                            rows',
                            found,
                            usable,
                            active,
                            e,
                            rw (found, usable, active, e) refl,
                          )
                        ]
              ]
        ]
      ]

id_or : Uuid → Reply SignedIn → Uuid
id_or d (gives s) = s.id
id_or d (fails f) = d

-- The session that is handed out is the one that was asked for.
pub session-id :
    (v : Service) (id : Uuid) (minted : Text) (user : User) (s : SignedIn)
    → session v id minted user ≡ gives s
    → s.id ≡ id
unfolding id_or
session-id v id minted user s h = elim (Reply-cases (v.issue_access_token user.id id)) [
  | inl (f, e) ↦
      let failed : session v id minted user ≡ fails f = rw e refl in refused (sym failed ∙ h)
  | inr (t, e) ↦
      let here : id_or id (session v id minted user) ≡ id = rw e refl in
      sym (ap (id_or id) h) ∙ here
]
