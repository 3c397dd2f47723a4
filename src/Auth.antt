-- ===== src/Auth.antt =====
-- backend/internal/auth/service.go: signing in, refreshing a session, signing out, and what an
-- access token opens. The reading of the clock and what is drawn at random are arguments; Argon2id,
-- SHA-256 and the signed tokens are functions of a record. Of the errors of the database only those
-- that the code tells apart, and a broken unique index, are modelled.
pub mod Found
pub mod Renewed
pub mod Reused
pub mod Spent
pub mod SignedOut
mod Tests
use tripvault.Base.{
  ℕ, zero, suc, ◌+◌, ◌*◌, ◌/◌, Bool, true, false, not, ◌&&◌, ◌||◌, Option, none, some, List, [],
  ◌∷◌, if◌then◌else◌, ltb, leb, ◌==◌, is_some, find, length, get_elem?,
}
use tripvault.Base.Text.{Text, text_eq}
use tripvault.Domain.Values.{Uuid, Time}
use tripvault.Domain.Users.{Session, Bytes, User, is_usable, max_user_agent_length}
use tripvault.RateLimit.{Duration}
use tripvault.Sessions.{
  Failure, not_found, invalid_credentials, email_not_verified, token_invalid, token_reused, Reply,
  gives, fails, Table, create, get_by_hash, superseded, rotate, revoke, active_user,
}

-- What the service is built on.
pub record Service : Type 0 where
  -- `hashToken`
  pub hash_token : Text → Bytes
  -- `verifyPassword`: the hash that is stored, the password, and whether they match, or why
  -- they were not compared.
  pub verify_password : Text → Text → Reply Bool
  -- `dummyPasswordHash`
  pub dummy_password_hash : Text
  -- `IssueAccessToken` and `ParseAccessToken`
  pub issue_access_token : Uuid → Uuid → Reply Text
  pub parse_access_token : Text → Reply (Uuid × Uuid)
  pub access_token_ttl : Duration
  pub refresh_token_ttl : Duration
  -- PostgreSQL's `lower`
  pub lower : Text → Text

-- The two tables.
pub record Accounts : Type 0 where
  pub users : List User
  pub sessions : Table

-- What a sign-in hands to the client.
pub record SignedIn : Type 0 where
  pub id : Uuid
  pub access_token : Text
  pub refresh_token : Text
  pub expires_in : ℕ
  pub user : User

-- `reuseGrace`, 30 seconds.
abbrev pub reuse_grace : Duration
reuse_grace = 30 * 1000000000

-- The cut moves back while the byte at it goes on with a character.
abbrev pub is_continuation : Option ℕ → Bool
is_continuation none = false
is_continuation (some b) = leb 0x80 b && ltb b 0xc0

unfoldable pub cut_at : Bytes → ℕ → ℕ
cut_at value zero = 0
cut_at value (suc n) = if is_continuation (get_elem? value (suc n)) then cut_at value n else suc n

unfoldable pub first_bytes : ℕ → Bytes → Bytes
first_bytes zero value = []
first_bytes (suc n) [] = []
first_bytes (suc n) (b ∷ value) = b ∷ first_bytes n value

-- `truncate`
unfoldable pub truncate : Bytes → ℕ → Bytes
unfolding cut_at first_bytes
truncate value limit =
    if leb (length value) limit then value else first_bytes (cut_at value limit) value

-- `GetByEmail` of users.go
unfoldable pub get_by_email : (Text → Text) → Text → List User → Option User
unfolding text_eq
get_by_email lower email users = find (λ u. text_eq (lower u.email) (lower email)) users

-- `RecordLogin` of users.go
unfoldable pub record_login : Uuid → Time → List User → List User
record_login id at [] = []
record_login id at (u ∷ users) =
    (if u.id == id then record u { last_login_at = some at } else u) ∷ record_login id at users

-- `errors.Is(err, domain.ErrNotFound)` and what is returned then.
abbrev pub or_invalid : Failure → Failure
or_invalid not_found = token_invalid
or_invalid f = f

module _ (v : Service) where
  abbrev pub checked : User → Reply Bool → Reply User
  checked user (fails f) = fails f
  checked user (gives matches) = if not matches then fails invalid_credentials else gives user

  abbrev pub unknown_checked : Reply Bool → Reply User
  unknown_checked (fails Failure.busy) = fails Failure.busy
  unknown_checked _ = fails invalid_credentials

  abbrev pub credentials_of : Text → Option User → Reply User
  credentials_of password none = unknown_checked (v.verify_password v.dummy_password_hash password)
  credentials_of password (some user) = checked user (v.verify_password user.password_hash password)

  -- `Credentials`
  unfoldable pub credentials : Text → Text → List User → Reply User
  unfolding get_by_email
  credentials email password users = credentials_of password (get_by_email v.lower email users)

  abbrev pub signed_in : Uuid → Text → User → Reply Text → Reply SignedIn
  signed_in id refresh_token user (fails f) = fails f
  signed_in id refresh_token user (gives access_token) = gives (record {
    id = id;
    access_token = access_token;
    refresh_token = refresh_token;
    expires_in = v.access_token_ttl / 1000000000;
    user = user;
  })

  -- `session`
  abbrev pub session : Uuid → Text → User → Reply SignedIn
  session id refresh_token user = signed_in id refresh_token user (v.issue_access_token user.id id)

  abbrev pub new_session : Uuid → Text → Bytes → Time → User → Session
  new_session id minted user_agent now user = record {
    id = id;
    user_id = user.id;
    token_hash = v.hash_token minted;
    user_agent = truncate user_agent max_user_agent_length;
    created_at = now;
    last_used_at = now;
    expires_at = now + v.refresh_token_ttl;
    revoked_at = none;
    rotated_at = none;
  }

  abbrev pub login_created : Uuid → Text → User → Accounts → Reply Table → Reply SignedIn × Accounts
  login_created id minted user accounts (fails f) = (fails f, accounts)
  login_created id minted user accounts (gives rows) =
      (session id minted user, record accounts { sessions = rows })

  abbrev pub login_user :
      Bytes → Uuid → Text → Time → Accounts → Reply User → Reply SignedIn × Accounts
  login_user user_agent id minted now accounts (fails f) = (fails f, accounts)
  login_user user_agent id minted now accounts (gives user) =
      if not user.is_active && is_some user.email_unverified_since
      then (fails email_not_verified, accounts)
      else if not user.is_active
      then (fails invalid_credentials, accounts)
      else let known : Accounts = record accounts {
        users = record_login user.id now accounts.users;
      } in
        let user' : User = record user { last_login_at = some now } in
        login_created id minted user' known
          (create (new_session id minted user_agent now user') known.sessions)

  -- `Login`. The account that comes back beside `ErrEmailNotVerified` is left out.
  unfoldable pub login :
      Text → Text → Bytes → Uuid → Text → Time → Accounts → Reply SignedIn × Accounts
  unfolding credentials record_login truncate create
  login email password user_agent id minted now accounts =
      login_user user_agent id minted now accounts (credentials email password accounts.users)

  abbrev pub replay_ended : Accounts → Reply Table → Failure × Accounts
  replay_ended accounts (gives rows) = (token_reused, record accounts { sessions = rows })
  replay_ended accounts (fails not_found) = (token_reused, accounts)
  replay_ended accounts (fails f) = (f, accounts)

  -- `now.Sub(*stored.RotatedAt) < reuseGrace`, or no exchange at all.
  abbrev pub is_recent : Option Time → Time → Bool
  is_recent none now = true
  is_recent (some at) now = ltb now (at + reuse_grace)

  abbrev pub replayed_by : Time → Accounts → Option Session → Failure × Accounts
  replayed_by now accounts none = (token_invalid, accounts)
  replayed_by now accounts (some stored) =
      if is_some stored.revoked_at || is_recent stored.rotated_at now
      then (token_invalid, accounts)
      else replay_ended accounts (revoke stored.user_id stored.id now accounts.sessions)

  -- `replayed`
  unfoldable pub replayed : Bytes → Time → Accounts → Failure × Accounts
  unfolding superseded revoke
  replayed hash now accounts = replayed_by now accounts (superseded hash accounts.sessions)

  abbrev pub refresh_rotated :
      Text → Session → User → Accounts → Reply Table → Reply SignedIn × Accounts
  refresh_rotated minted stored user accounts (fails f) = (fails (or_invalid f), accounts)
  refresh_rotated minted stored user accounts (gives rows) =
      (session stored.id minted user, record accounts { sessions = rows })

  abbrev pub refresh_user :
      Bytes → Text → Time → Accounts → Session → Option User → Reply SignedIn × Accounts
  refresh_user old minted now accounts stored none = (fails token_invalid, accounts)
  refresh_user old minted now accounts stored (some user) =
      refresh_rotated minted stored user accounts (
        rotate stored.id old (v.hash_token minted) now (now + v.refresh_token_ttl)
          accounts.sessions)

  abbrev pub refresh_stored :
      Bytes → Text → Time → Accounts → Option Session → Reply SignedIn × Accounts
  refresh_stored old minted now accounts none =
      let (f, accounts') = replayed old now accounts in (fails f, accounts')
  refresh_stored old minted now accounts (some stored) =
      if not (is_usable stored now)
      then (fails token_invalid, accounts)
      else refresh_user old minted now accounts stored
          (active_user stored.user_id stored.id now accounts.users accounts.sessions)

  -- `Refresh`, whose steps nothing comes between.
  unfoldable pub refresh : Text → Text → Time → Accounts → Reply SignedIn × Accounts
  unfolding get_by_hash replayed active_user rotate
  refresh refresh_token minted now accounts =
      let old = v.hash_token refresh_token in
      refresh_stored old minted now accounts (get_by_hash old accounts.sessions)

  abbrev pub logout_revoked : Accounts → Reply Table → Reply (Unit {0}) × Accounts
  logout_revoked accounts (gives rows) = (gives tt, record accounts { sessions = rows })
  logout_revoked accounts (fails not_found) = (gives tt, accounts)
  logout_revoked accounts (fails f) = (fails f, accounts)

  abbrev pub logout_stored : Time → Accounts → Option Session → Reply (Unit {0}) × Accounts
  logout_stored now accounts none = (gives tt, accounts)
  logout_stored now accounts (some stored) =
      logout_revoked accounts (revoke stored.user_id stored.id now accounts.sessions)

  -- `Logout`
  unfoldable pub logout : Text → Time → Accounts → Reply (Unit {0}) × Accounts
  unfolding get_by_hash revoke
  logout refresh_token now accounts =
      logout_stored now accounts (get_by_hash (v.hash_token refresh_token) accounts.sessions)

  abbrev pub opened : Uuid → Option User → Reply (User × Uuid)
  opened session_id none = fails token_invalid
  opened session_id (some user) = gives (user, session_id)

  abbrev pub authenticate_claims : Time → Accounts → Reply (Uuid × Uuid) → Reply (User × Uuid)
  authenticate_claims now accounts (fails f) = fails f
  authenticate_claims now accounts (gives (user_id, session_id)) =
      opened session_id (active_user user_id session_id now accounts.users accounts.sessions)

  -- `Authenticate`
  unfoldable pub authenticate : Text → Time → Accounts → Reply (User × Uuid)
  unfolding active_user
  authenticate token now accounts = authenticate_claims now accounts (v.parse_access_token token)
