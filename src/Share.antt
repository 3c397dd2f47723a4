-- ===== src/Share.antt =====
-- backend/internal/domain/share.go: links that open a trip to somebody without an account.
pub mod Open
pub mod Shown
pub mod Unseen
mod Tests
use tripvault.Base.{
  Bool, true, not, ◌&&◌, Option, none, some, ltb, is_some, Result, ok, ◌>>=◌, ◌>>◌, refuse_if,
  new_validation_error, ℕ,
}
use tripvault.Base.Int64.{Int64}
use tripvault.Base.Text.{Text}
use tripvault.Domain.Values.{Uuid, Time}
use tripvault.Domain.Checks.{trimmed_text}

-- `maxShareLabelLength`
abbrev pub max_share_label_length : ℕ
max_share_label_length = 200

-- `ShareLink`
pub record ShareLink : Type 0 where
  pub id : Uuid
  pub trip_id : Uuid
  pub label : Text
  pub include_private_media : Bool
  pub allow_download : Bool
  pub expires_at : Option Time
  pub revoked_at : Option Time
  pub created_by : Uuid
  pub last_used_at : Option Time
  pub use_count : Int64
  pub created_at : Time

-- `l.ExpiresAt == nil || l.ExpiresAt.After(now)`
abbrev pub is_ahead : Option Time → Time → Bool
is_ahead none now = true
is_ahead (some expires_at) now = ltb now expires_at

-- `ShareLink.Normalize`
unfoldable pub normalize_share_link : ShareLink → Time → Result ShareLink
unfolding trimmed_text
normalize_share_link l now = do
  label ← trimmed_text "label" l.label max_share_label_length
  refuse_if (not (is_ahead l.expires_at now))
      (new_validation_error "expires_at" "already_past" "must be in the future")
  ok (record l { label = label })

-- `ShareLink.Active`
unfoldable pub is_active_link : ShareLink → Time → Bool
is_active_link l now = not (is_some l.revoked_at) && is_ahead l.expires_at now
