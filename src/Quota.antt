-- ===== src/Quota.antt =====
-- backend/internal/storagequota/quota.go, with domain/storage.go: the instance's allowance for
-- user files. The database and the walk over the media store are parameters; what they fail with
-- is a `Fault`.
pub mod Bound
pub mod Turns
mod Tests
use tripvault.Base.{ℕ, Bool, true, false, not, ◌&&◌, ◌||◌, List, [], ◌∷◌, if◌then◌else◌, ◌==◌}
use tripvault.Base.Int64.{Int64, ◌⊕◌, ◌⊖◌, neg64, lt64, le64}
use tripvault.Base.Text.{Text, text}
use tripvault.Domain.Values.{Time}

-- `domain.StorageSettings`
pub record StorageSettings : Type 0 where
  pub trip_quota_bytes : Int64

-- `domain.StorageUsage`
pub record StorageUsage : Type 0 where
  pub media_bytes : Int64
  pub database_bytes : Int64
  pub limit_bytes : Int64
  pub trip_quota_bytes : Int64

-- `StorageUsage.UsedBytes`
unfoldable pub used_bytes : StorageUsage → Int64
used_bytes u = u.media_bytes ⊕ u.database_bytes

-- `media.StoredObject`
pub record StoredObject : Type 0 where
  pub key : Text
  pub size : Int64
  pub modified : Time

-- `domain.ErrStorageQuota`, or an error of a store.
pub data Fault : Type 0 where
  storage_quota : Fault
  store_fault : ℕ → Fault

pub data Answer {ℓ} (A : Type ℓ) : Type ℓ where
  got : A → Answer A
  failed : Fault → Answer A

-- `if err != nil { return err }`
infixl 5 ◌>>=◌
abbrev pub ◌>>=◌ {ℓ κ} : {A : Type ℓ} {B : Type κ} → Answer A → (A → Answer B) → Answer B
◌>>=◌ (failed fault) next = failed fault
◌>>=◌ (got answer) next = next answer

-- What one measurement reads from the stores.
pub record Stores : Type 0 where
  pub settings : Answer StorageSettings
  pub stored_database_bytes : Answer Int64
  pub objects : Answer (List StoredObject)

-- `strings.HasPrefix`
unfoldable pub has_prefix : Text → Text → Bool
has_prefix s [] = true
has_prefix [] (c ∷ prefix) = false
has_prefix (d ∷ s) (c ∷ prefix) = d == c && has_prefix s prefix

-- The loop of `mediaBytes`: previews are not charged.
unfoldable pub sum_objects : Int64 → List StoredObject → Int64
unfolding has_prefix
sum_objects sum [] = sum
sum_objects sum (o ∷ os) =
    sum_objects (if not (has_prefix o.key (text ".previews/")) then sum ⊕ o.size else sum) os

-- `mediaBytes`
unfoldable pub measure_media : Stores → Answer Int64
unfolding sum_objects
measure_media stores = do os ← stores.objects; got (sum_objects 0 os)

-- `Usage` of a service with a limit
unfoldable pub usage : Int64 → Stores → Answer StorageUsage
unfolding measure_media
usage limit stores = do
  settings ← stores.settings
  in_database ← stores.stored_database_bytes
  in_media ← measure_media stores
  got (record {
    media_bytes = in_media;
    database_bytes = in_database;
    limit_bytes = limit;
    trip_quota_bytes = settings.trip_quota_bytes;
  })

-- The release that `Reserve` returns: one that does nothing, or the unlocking of the mutex.
pub data Release : Type 0 where
  nothing_to_do unlock : Release

-- `growth`, after it was raised to what there is to remove.
abbrev pub clamped : Int64 → Int64 → Int64
clamped used growth = if lt64 growth (neg64 used) then neg64 used else growth

-- The test of `Reserve`, in the 64-bit sums of the code.
unfoldable pub exceeds : Int64 → Int64 → Int64 → Bool
exceeds used limit growth =
    if le64 growth 0
    then lt64 limit (used ⊕ growth)
    else lt64 0 growth && (lt64 limit growth || lt64 (limit ⊖ growth) used)

-- `Reserve`. It keeps the lock when it returns `unlock`, and in no other case.
unfoldable pub reserve : Int64 → Stores → Int64 → Answer Release
unfolding usage used_bytes exceeds
reserve limit stores growth = if limit == 0 then got nothing_to_do else do
  u ← usage limit stores
  if exceeds (used_bytes u) u.limit_bytes (clamped (used_bytes u) growth)
      then failed storage_quota
      else got unlock
