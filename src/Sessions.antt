-- ===== src/Sessions.antt =====
-- backend/internal/storage/postgres/sessions.go: the table of signed-in devices, and the SQL
-- statements on it. The statements are those of the code; that the database carries each of them
-- out whole, and refuses a row that breaks a unique index of the table, is what the code relies on.
pub mod Keys
pub mod Statements
pub mod Once
pub mod Ended
pub mod Between
use tripvault.Base.{
  ℕ, ◌-◌, Bool, false, not, ◌&&◌, ◌||◌, Option, none, some, List, [], ◌∷◌, if◌then◌else◌, ltb, ◌==◌,
  is_some, any, find, select, length,
}
use tripvault.Base.Text.{text_eq}
use tripvault.Domain.Values.{Uuid, Time}
use tripvault.Domain.Users.{Session, Bytes, User}

-- What a call returns: a value, or an error of errors.go, or that of the database.
pub data Failure : Type 0 where
  not_found invalid_credentials email_not_verified token_invalid token_reused busy : Failure
  -- A row that breaks a unique index.
  duplicate : Failure
  -- What a function of another package returned.
  other : ℕ → Failure

pub data Reply {ℓ} (T : Type ℓ) : Type ℓ where
  gives : T → Reply T
  fails : Failure → Reply T

-- A row of `refresh_tokens`: what `scanSession` reads of it, and the previous token.
pub record SessionRow : Type 0 where
  pub session : Session
  pub previous_token_hash : Option Bytes

abbrev pub Table : Type 0
Table = List SessionRow

abbrev pub hash_of : SessionRow → Bytes
hash_of r = r.session.token_hash

-- `UPDATE … SET … WHERE …`
unfoldable pub update : (SessionRow → Bool) → (SessionRow → SessionRow) → Table → Table
update p f [] = []
update p f (r ∷ rows) = (if p r then f r else r) ∷ update p f rows

-- The session of a row that a query finds.
abbrev pub scan_session : Option SessionRow → Option Session
scan_session none = none
scan_session (some r) = some r.session

-- `Create`
unfoldable pub create : Session → Table → Reply Table
unfolding text_eq
create s rows =
    if any (λ r. r.session.id == s.id || text_eq (hash_of r) s.token_hash) rows
    then fails duplicate
    else gives (
        record {
          session = record s { revoked_at = none; rotated_at = none };
          previous_token_hash = none;
        }
        ∷ rows)

-- `WHERE token_hash = $1`
abbrev pub holds : Bytes → SessionRow → Bool
holds hash r = text_eq (hash_of r) hash

-- `GetByHash`
unfoldable pub get_by_hash : Bytes → Table → Option Session
unfolding text_eq
get_by_hash hash rows = scan_session (find (holds hash) rows)

abbrev pub held_before : Bytes → Option Bytes → Bool
held_before hash none = false
held_before hash (some previous) = text_eq previous hash

-- `Superseded`
unfoldable pub superseded : Bytes → Table → Option Session
unfolding text_eq
superseded hash rows = scan_session (find (λ r. held_before hash r.previous_token_hash) rows)

-- The row that `Rotate` changes.
abbrev pub is_exchanged : Uuid → Bytes → SessionRow → Bool
is_exchanged id old r = (r.session.id == id && holds old r) && not (is_some r.session.revoked_at)

-- What `Rotate` makes of it.
abbrev pub exchanged : Bytes → Time → Time → SessionRow → SessionRow
exchanged new used_at expires_at r = record {
  session = record r.session {
    token_hash = new;
    last_used_at = used_at;
    rotated_at = some used_at;
    expires_at = expires_at;
  };
  previous_token_hash = some (hash_of r);
}

-- `Rotate`
unfoldable pub rotate : Uuid → Bytes → Bytes → Time → Time → Table → Reply Table
unfolding text_eq update
rotate id old new used_at expires_at rows =
    if not (any (is_exchanged id old) rows)
    then fails not_found
    else if any (λ r. not (is_exchanged id old r) && holds new r) rows
    then fails duplicate
    else gives (update (is_exchanged id old) (exchanged new used_at expires_at) rows)

-- The rows that `Revoke` changes.
abbrev pub is_ended : Uuid → Uuid → SessionRow → Bool
is_ended user_id id r =
    (r.session.id == id && r.session.user_id == user_id) && not (is_some r.session.revoked_at)

abbrev pub ended : Time → SessionRow → SessionRow
ended at r = record r { session = record r.session { revoked_at = some at } }

-- `Revoke`
unfoldable pub revoke : Uuid → Uuid → Time → Table → Reply Table
unfolding update
revoke user_id id at rows =
    if any (is_ended user_id id) rows
    then gives (update (is_ended user_id id) (ended at) rows)
    else fails not_found

-- A live session of an account: the conditions on `t` in `ActiveUser`.
abbrev pub is_live : Uuid → Uuid → Time → SessionRow → Bool
is_live user_id id now r =
    (r.session.user_id == user_id && r.session.id == id)
    && (not (is_some r.session.revoked_at) && ltb now r.session.expires_at)

-- `ActiveUser`
unfoldable pub active_user : Uuid → Uuid → Time → List User → Table → Option User
active_user user_id id now users rows =
    find (λ u. (u.id == user_id && u.is_active) && any (is_live user_id id now) rows) users

abbrev pub before_opt : Option Time → Time → Bool
before_opt none before = false
before_opt (some at) before = ltb at before

abbrev pub is_finished : Time → SessionRow → Bool
is_finished before r = ltb r.session.expires_at before || before_opt r.session.revoked_at before

-- `DeleteFinished`: how many rows are removed, and what is left.
unfoldable pub delete_finished : Time → Table → ℕ × Table
delete_finished before rows =
    let left = select (λ r. not (is_finished before r)) rows in (length rows - length left, left)

-- The rows that `SetOwnPassword` of users.go ends: the account's others. With `none`, those that
-- `revokeAllSessions` ends: all of the account's.
abbrev pub is_other : Uuid → Option Uuid → SessionRow → Bool
is_other user_id none r = r.session.user_id == user_id && not (is_some r.session.revoked_at)
is_other user_id (some keep) r =
    (r.session.user_id == user_id && not (r.session.id == keep))
    && not (is_some r.session.revoked_at)

unfoldable pub revoke_sessions : Uuid → Option Uuid → Time → Table → Table
unfolding update
revoke_sessions user_id keep at rows = update (is_other user_id keep) (ended at) rows
