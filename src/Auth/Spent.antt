-- ===== src/Auth/Spent.antt =====
-- A token that was exchanged, whatever has come after.
use tripvault.Base.{◌≡◌, ◌≢◌, sym, ap, ◌∙◌, subst, inl, inr, List, [], ◌∷◌, All, ◌+◌}
use tripvault.Base.Text.{Text}
use tripvault.Domain.Values.{Time}
use tripvault.Domain.Users.{Bytes, User}
use tripvault.Sessions.{Table, Failure, gives, fails, update, is_exchanged, exchanged}
use tripvault.Sessions.Keys.{IsKeyed}
use tripvault.Sessions.Statements.{Statement, execute, execute_all, rotate-cases}
use tripvault.Sessions.Once.{NeverMints, IsGone, execute-IsGone, rotated-IsGone}
use tripvault.Auth.{Service, Accounts, SignedIn, refresh, replayed}
use tripvault.Auth.Found.{get_by_hash_gone}
use tripvault.Auth.Renewed.{refresh_given}
use tripvault.Auth.Reused.{refresh_unheld, table_or}

execute_all-IsGone :
    (hash : Bytes) (statements : List Statement) (rows : Table)
    → All (NeverMints hash) statements
    → IsGone hash rows
    → IsGone hash (execute_all statements rows)
unfolding execute_all
execute_all-IsGone hash [] rows fresh gone = gone
execute_all-IsGone hash (s ∷ rest) rows (f, fresh) gone =
    execute_all-IsGone hash rest (execute s rows) fresh (execute-IsGone hash s rows f gone)

-- A refresh that succeeds takes its token out of the table.
refresh-IsGone :
    (v : Service) (token minted : Text) (now : Time) (accounts : Accounts) (s : SignedIn)
    → IsKeyed accounts.sessions
    → v.hash_token minted ≢ v.hash_token token
    → (refresh v token minted now accounts).0 ≡ gives s
    → IsGone (v.hash_token token) (refresh v token minted now accounts).1.sessions
unfolding table_or
refresh-IsGone v token minted now accounts s keyed fresh given =
    let old = v.hash_token token in
    let new = v.hash_token minted in
    let rows = accounts.sessions in
    let expires_at = now + v.refresh_token_ttl in
    let (stored, user, rows', found, usable, active, rotated, result) =
      refresh_given v token minted now accounts s given in
    elim (rotate-cases stored.id old new now expires_at rows) [
      | inl (f, e) ↦ cc
      | inr (hit, free, e) ↦
          let reached : (refresh v token minted now accounts).1.sessions
              ≡ update (is_exchanged stored.id old) (exchanged new now expires_at) rows =
            ap (λ x. x.1.sessions) result ∙ sym (ap (table_or rows) (sym e ∙ rotated)) in
          subst (IsGone old) (sym reached)
            (rotated-IsGone stored.id old new now expires_at rows hit keyed fresh)
    ]

-- Once a refresh has exchanged a token, no refresh with it ever succeeds again, at whatever instant,
-- whatever the accounts are by then and whatever statements on the table other requests bring in
-- between: exchanges, ends and removals of any session, its own included. The rows of the table have
-- different identifiers and tokens, the two tokens have different hashes, and no statement brings
-- the first in anew.
pub refresh_spent :
    (v : Service) (token minted minted₂ : Text) (now t : Time) (accounts : Accounts) (s : SignedIn)
    (statements : List Statement) (users : List User)
    → IsKeyed accounts.sessions
    → v.hash_token minted ≢ v.hash_token token
    → (refresh v token minted now accounts).0 ≡ gives s
    → All (NeverMints (v.hash_token token)) statements
    → let after = (refresh v token minted now accounts).1 in
      let later : Accounts = record {
        users = users;
        sessions = execute_all statements after.sessions;
      } in
      (f : Failure) × ((refresh v token minted₂ t later).0 ≡ fails f)
refresh_spent v token minted minted₂ now t accounts s statements users keyed fresh given mints =
    let old = v.hash_token token in
    let rows = execute_all statements (refresh v token minted now accounts).1.sessions in
    let later : Accounts = record { users = users; sessions = rows } in
    let gone =
      execute_all-IsGone old statements (refresh v token minted now accounts).1.sessions mints
        (refresh-IsGone v token minted now accounts s keyed fresh given) in
    (
      (replayed v old t later).0,
      ap (λ x. x.0) (refresh_unheld v token minted₂ t later (get_by_hash_gone old rows gone)),
    )
