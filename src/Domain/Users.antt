-- ===== src/Domain/Users.antt =====
-- user.go: an account, and a device that is signed in to it.
use tripvault.Base.{ℕ, Bool, ◌&&◌, not, Option, List, is_some, ltb}
use tripvault.Base.Text.{Text}
use tripvault.Domain.Values.{Uuid, Time, Point}

-- A `[]byte`, or a string that the code reads byte by byte.
abbrev pub Bytes : Type 0
Bytes = List ℕ

-- `PrivacyZone`; the radius is an `int` of metres.
pub record PrivacyZone : Type 0 where
  pub center : Point
  pub radius_m : ℕ

-- `HomeZone`
pub record HomeZone : Type 0 where
  pub home : Point
  pub zone : PrivacyZone

-- `User`; `Theme`, `Units`, `DateFormat` and `TimeFormat` are strings.
pub record User : Type 0 where
  pub id : Uuid
  pub email : Text
  pub display_name : Text
  pub password_hash : Text
  pub is_admin : Bool
  pub is_active : Bool
  pub must_change_password : Bool
  pub email_notifications : Bool
  pub email_unverified_since : Option Time
  pub locale : Text
  pub theme : Text
  pub theme_id : Option Uuid
  pub units : Text
  pub date_format : Text
  pub time_format : Text
  pub default_currency : Text
  pub avatar_key : Text
  pub avatar_updated_at : Option Time
  pub home : Option HomeZone
  pub last_login_at : Option Time
  pub created_at : Time
  pub updated_at : Time

-- `Session`
pub record Session : Type 0 where
  pub id : Uuid
  pub user_id : Uuid
  pub token_hash : Bytes
  pub user_agent : Bytes
  pub created_at : Time
  pub last_used_at : Time
  pub expires_at : Time
  pub revoked_at : Option Time
  pub rotated_at : Option Time

-- `Session.IsUsable`
abbrev pub is_usable : Session → Time → Bool
is_usable s now = not (is_some s.revoked_at) && ltb now s.expires_at

-- `MaxUserAgentLength`
abbrev pub max_user_agent_length : ℕ
max_user_agent_length = 255
