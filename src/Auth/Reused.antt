-- ===== src/Auth/Reused.antt =====
-- A token that is presented again after its session exchanged it.
use tripvault.Base.{
  ◌≡◌, ◌≢◌, refl, sym, ◌∙◌, true, false, not, ◌&&◌, ◌||◌, inl, inr, List, All, any, none, some,
  arith, is_some, ◌+◌, ◌<◌, ◌≤◌, subst, ap, ==_refl, ==_iff, [], ◌∷◌,
}
use tripvault.Base.Text.{Text, text_eq}
use tripvault.Domain.Values.{Uuid, Time}
use tripvault.Domain.Users.{Bytes, Session, User}
use tripvault.Sessions.{
  SessionRow, token_invalid, token_reused, Reply, gives, fails, Table, get_by_hash, active_user,
  superseded, is_exchanged, exchanged, update, held_before, holds, is_ended,
}
use tripvault.Sessions.Keys.{IsKeyed, All-IsFree, exchanged-IsKeyed}
use tripvault.Sessions.Statements.{Statement, execute_all, rotate-cases, revoke-cases}
use tripvault.Sessions.Between.{LeavesAlone, holder, execute_all-holder}
use tripvault.Sessions.Once.{NeverMints, IsGone, rotated-IsGone}
use tripvault.Sessions.Ended.{IsClosed, revoked-IsClosed, active_user_closed}
use tripvault.Auth.{Service, Accounts, SignedIn, refresh, replayed, reuse_grace, is_recent}
use tripvault.Auth.Found.{find-update, get_by_hash_gone, any_of_find}
use tripvault.Auth.Renewed.{refresh_given, session-id}

-- No row has the token as the one before its own.
abbrev pub IsUnspent : Bytes → Table → Type 0
IsUnspent hash rows = All (λ r. held_before hash r.previous_token_hash ≡ false) rows

module _ (id : Uuid) (old new : Bytes) (now expires_at : Time) (rows : Table)
    (unspent : IsUnspent old rows) (hit : any (is_exchanged id old) rows ≡ true) where
  -- The table after the exchange.
  abbrev after : Table
  after = update (is_exchanged id old) (exchanged new now expires_at) rows

  unspent_others :
      (q : Table)
      → IsUnspent old q
      → All (λ r. is_exchanged id old r ≡ false → held_before old r.previous_token_hash ≡ false) q
  unspent_others [] h = tt
  unspent_others (r ∷ q) (k, ks) = (λ _. k, unspent_others q ks)

  held_by_exchanged :
      (r : SessionRow)
      → is_exchanged id old r ≡ true
      → (held_before old (exchanged new now expires_at r).previous_token_hash ≡ true)
        × (r.session.id ≡ id)
        × (is_some r.session.revoked_at ≡ false)
  unfolding text_eq
  held_by_exchanged r h = (ground arith, ground (arith, ==_iff r.session.id id), ground arith)

  -- The exchanged token leads to its session, which is live and was exchanged just now.
  holder-exchanged :
      (r : SessionRow) × (is_exchanged id old r ≡ true)
      × (holder old after ≡ some (exchanged new now expires_at r))
  holder-exchanged =
      find-update (is_exchanged id old) (λ q. held_before old q.previous_token_hash)
        (exchanged new now expires_at) rows (λ q k. (held_by_exchanged q k).0) hit
        (unspent_others rows unspent)

-- A token that is presented when the row that had it before its own is live.
module _ (v : Service) (old : Bytes) (users : List User) (rows : Table) (r : SessionRow)
    (keyed : IsKeyed rows) (there : holder old rows ≡ some r)
    (live : is_some r.session.revoked_at ≡ false) (now : Time)
    (rotated : r.session.rotated_at ≡ some now) (t : Time) where
  abbrev accounts : Accounts
  accounts = record { users = users; sessions = rows }

  superseded-holder : superseded old rows ≡ some r.session
  unfolding superseded
  superseded-holder = rw there refl

  replayed_early : t < now + reuse_grace → replayed v old t accounts ≡ (token_invalid, accounts)
  unfolding replayed
  replayed_early early = rw superseded-holder (rw (live, rotated) (ground (arith, early)))

  replayed_late :
      now + reuse_grace ≤ t
      → ((replayed v old t accounts).0 ≡ token_reused)
        × IsClosed r.session.id (replayed v old t accounts).1.sessions
  unfolding replayed
  replayed_late late =
      let ready : (is_some r.session.revoked_at || is_recent v r.session.rotated_at t) ≡ false =
        rw (live, rotated) (ground (arith, late)) in
      let ends = is_ended r.session.user_id r.session.id in
      elim (revoke-cases r.session.user_id r.session.id t rows) [
        | inl (none_ended, _) ↦
            let matches : ends r ≡ true =
              rw (==_refl r.session.id, ==_refl r.session.user_id, live) refl in
            let some_ended =
              any_of_find (λ q. held_before old q.previous_token_hash) ends rows r there matches in
            absurd (cc (some_ended, none_ended))
        | inr (some_ended, e) ↦
            let closed = revoked-IsClosed r.session.user_id r.session.id t rows some_ended keyed in
            rw superseded-holder (rw ready (rw e (refl, closed)))
      ]

-- A token that no session holds is taken for a replay.
pub refresh_unheld :
    (v : Service) (token minted : Text) (t : Time) (accounts : Accounts)
    → get_by_hash (v.hash_token token) accounts.sessions ≡ none
    → refresh v token minted t accounts ≡ (
      fails (replayed v (v.hash_token token) t accounts).0,
      (replayed v (v.hash_token token) t accounts).1,
    )
unfolding refresh
refresh_unheld v token minted t accounts h = rw h refl

unfoldable pub table_or : Table → Reply Table → Table
table_or d (gives rows) = rows
table_or d (fails f) = d

-- What a second refresh with the same token comes to.
abbrev IsRefusedAgain : Service → Text → Text → Uuid → Time → Time → Accounts → Type 0
IsRefusedAgain v token minted id now t later =
    let again = refresh v token minted t later in
    (t < now + reuse_grace → again ≡ (fails token_invalid, later))
    × (now + reuse_grace ≤ t
        → (again.0 ≡ fails token_reused)
          × ((user_id : Uuid) (instant : Time)
              → active_user user_id id instant again.1.users again.1.sessions ≡ none))

holder-IsRefusedAgain :
    (v : Service) (token minted : Text) (now t : Time) (users : List User) (rows : Table)
    (r : SessionRow)
    → let old = v.hash_token token in
      IsKeyed rows
      → IsGone old rows
      → holder old rows ≡ some r
      → is_some r.session.revoked_at ≡ false
      → r.session.rotated_at ≡ some now
      → IsRefusedAgain v token minted r.session.id now t (record { users = users; sessions = rows })
holder-IsRefusedAgain v token minted now t users rows r keyed gone there live rotated =
    let old = v.hash_token token in
    let later : Accounts = record { users = users; sessions = rows } in
    let again = refresh_unheld v token minted t later (get_by_hash_gone old rows gone) in
    rw again (
      (λ early.
          ap (λ x. (fails x.0, x.1))
            (replayed_early v old users rows r keyed there live now rotated t early)),
      (λ late.
          let (reused, closed) =
            replayed_late v old users rows r keyed there live now rotated t late in
          (
            ap fails reused,
            λ user_id instant.
                active_user_closed user_id r.session.id instant (replayed v old t later).1.users
                  (replayed v old t later).1.sessions closed,
          )),
    )

held-IsRefusedAgain :
    (v : Service) (token minted minted₂ : Text) (id : Uuid) (now t expires_at : Time)
    (users : List User) (rows : Table) (held : Session) (statements : List Statement)
    → let old = v.hash_token token in
      let new = v.hash_token minted in
      let rows' = update (is_exchanged id old) (exchanged new now expires_at) rows in
      IsKeyed rows
      → new ≢ old
      → IsUnspent old rows
      → any (is_exchanged id old) rows ≡ true
      → any (λ r. not (is_exchanged id old r) && holds new r) rows ≡ false
      → superseded old rows' ≡ some held
      → All (NeverMints old) statements
      → All (LeavesAlone held) statements
      → IsRefusedAgain v token minted₂ id now t
          (record { users = users; sessions = execute_all statements rows' })
unfolding superseded
held-IsRefusedAgain v token minted minted₂ id now t expires_at users rows held statements keyed
      fresh unspent hit free led mints alone =
    let old = v.hash_token token in
    let new = v.hash_token minted in
    let rows' : Table = update (is_exchanged id old) (exchanged new now expires_at) rows in
    let (r, e, there) = holder-exchanged id old new now expires_at rows unspent hit in
    let (_, own, live) = held_by_exchanged id old new now expires_at rows unspent hit r e in
    let q = exchanged new now expires_at r in
    let same : held ≡ q.session = cc led in
    let keyed' =
      exchanged-IsKeyed id old new now expires_at rows (All-IsFree id old new rows free) keyed in
    let gone = rotated-IsGone id old new now expires_at rows hit keyed fresh in
    let (keyed'', gone'', there'') =
      execute_all-holder old q live statements rows' mints
        (subst (λ x. All (LeavesAlone x) statements) same alone) keyed' gone there in
    subst
      (λ x.
        IsRefusedAgain v token minted₂ x now t
          (record { users = users; sessions = execute_all statements rows' }))
      own
      (holder-IsRefusedAgain v token minted₂ now t users (execute_all statements rows') q keyed''
        gone'' there'' live refl)

-- Once a refresh has exchanged a token, presenting it again is refused, whatever other requests have
-- done to the accounts and to other sessions by then, as long as their statements leave the session
-- alone that the token led to: it is not refreshed again, not ended, and not removed as expired.
-- Within 30 seconds of the exchange the refusal changes nothing; from then on it ends the session
-- for both who hold it: none of its access tokens opens the account any more. The rows of the table
-- have different identifiers and tokens, the two tokens have different hashes, no session held the
-- first before the one it has, and no statement brings it in anew.
pub refresh_reused :
    (v : Service) (token minted minted₂ : Text) (now t : Time) (accounts : Accounts) (s : SignedIn)
    (held : Session) (statements : List Statement) (users : List User)
    → IsKeyed accounts.sessions
    → v.hash_token minted ≢ v.hash_token token
    → IsUnspent (v.hash_token token) accounts.sessions
    → (refresh v token minted now accounts).0 ≡ gives s
    → let after = (refresh v token minted now accounts).1 in
      superseded (v.hash_token token) after.sessions ≡ some held
      → All (NeverMints (v.hash_token token)) statements
      → All (LeavesAlone held) statements
      → let later : Accounts = record {
        users = users;
        sessions = execute_all statements after.sessions;
      } in
        let again = refresh v token minted₂ t later in
        (t < now + reuse_grace → again ≡ (fails token_invalid, later))
        × (now + reuse_grace ≤ t
            → (again.0 ≡ fails token_reused)
              × ((user_id : Uuid) (instant : Time)
                  → active_user user_id s.id instant again.1.users again.1.sessions ≡ none))
unfolding table_or
refresh_reused v token minted minted₂ now t accounts s held statements users keyed fresh unspent
      given led mints alone =
    let old = v.hash_token token in
    let new = v.hash_token minted in
    let rows = accounts.sessions in
    let expires_at = now + v.refresh_token_ttl in
    let (stored, user, rows', found, usable, active, rotated, result) =
      refresh_given v token minted now accounts s given in
    let own = session-id v stored.id minted user s (sym (ap (λ x. x.0) result) ∙ given) in
    elim (rotate-cases stored.id old new now expires_at rows) [
      | inl (f, e) ↦ cc
      | inr (hit, free, e) ↦
          let reached : (refresh v token minted now accounts).1.sessions
              ≡ update (is_exchanged stored.id old) (exchanged new now expires_at) rows =
            ap (λ x. x.1.sessions) result ∙ sym (ap (table_or rows) (sym e ∙ rotated)) in
          let there =
            held-IsRefusedAgain v token minted minted₂ stored.id now t expires_at users rows held
              statements keyed fresh unspent hit free
              (subst (λ x. superseded old x ≡ some held) reached led) mints alone in
          subst
            (λ x.
              IsRefusedAgain v token minted₂ s.id now t
                (record { users = users; sessions = execute_all statements x }))
            (sym reached)
            (subst
              (λ x. IsRefusedAgain v token minted₂ x now t (record {
                users = users;
                sessions =
                    execute_all statements
                      (update (is_exchanged stored.id old) (exchanged new now expires_at) rows);
              }))
              (sym own) there)
    ]
