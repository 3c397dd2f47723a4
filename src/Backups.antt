-- ===== src/Backups.antt =====
-- backend/internal/backup/runner.go and the restores of backend/internal/httpapi/restore.go: which
-- backups and restores may run at once. A section under a mutex is one function on the state.
pub mod Apart
pub mod Admitted
pub mod Rotation
mod Tests
use tripvault.Base.{
  Bool, true, false, not, Option, none, some, List, [], ◌∷◌, if◌then◌else◌, ◌==◌, any, select, find,
}
use tripvault.Base.Text.{Text, text}
use tripvault.Base.Int64.{Int64}
use tripvault.Domain.Values.{Uuid, Time}

-- `Progress`; the stage is a string.
pub record Progress : Type 0 where
  pub stage : Text
  pub files_done : Int64
  pub files_total : Int64
  pub bytes_done : Int64
  pub bytes_total : Int64

-- `tracker`
pub record Tracker : Type 0 where
  pub run_id : Uuid
  pub progress : Progress

-- What the code refuses with.
pub data Conflict : Type 0 where
  already_running restoring backup_running restore_running : Conflict

pub data Attempt {ℓ} (T : Type ℓ) : Type ℓ where
  goes : T → Attempt T
  refused : Conflict → Attempt T

-- `Runner`: the runs in flight by configuration, and whether a restore holds backups away.
pub record Runner : Type 0 where
  pub active : List (Uuid × Tracker)
  pub is_restoring : Bool

abbrev pub new_runner : Runner
new_runner = record { active = []; is_restoring = false }

abbrev pub is_of : Uuid → Uuid × Tracker → Bool
is_of config_id (id, track) = id == config_id

abbrev pub new_tracker : Tracker
new_tracker = record {
  run_id = 0;
  progress = record {
    stage = text "connecting";
    files_done = 0;
    files_total = 0;
    bytes_done = 0;
    bytes_total = 0;
  };
}

-- `claim`
unfoldable pub claim : Uuid → Runner → Attempt Runner
claim config_id r =
    if r.is_restoring
    then refused restoring
    else if any (is_of config_id) r.active
    then refused already_running
    else goes (record r { active = (config_id, new_tracker) ∷ r.active })

-- `release`
unfoldable pub release : Uuid → Runner → Runner
release config_id r = record r { active = select (λ e. not (is_of config_id e)) r.active }

abbrev pub found_progress : Option (Uuid × Tracker) → Option Progress
found_progress none = none
found_progress (some (id, track)) = some track.progress

-- `Progress`
unfoldable pub progress_of : Uuid → Runner → Option Progress
progress_of run_id r = found_progress (find (λ e. e.1.run_id == run_id) r.active)

abbrev pub begun : Uuid → Uuid → List (Uuid × Tracker) → List (Uuid × Tracker)
begun config_id run_id [] = []
begun config_id run_id ((id, track) ∷ active) =
    (id, if id == config_id then record track { run_id = run_id } else track)
    ∷ begun config_id run_id active

-- `begin`, once the row is written: the run is known by its identifier.
unfoldable pub begin : Uuid → Uuid → Runner → Runner
begin config_id run_id r = record r { active = begun config_id run_id r.active }

-- `HoldForRestore`
unfoldable pub hold_for_restore : Runner → Attempt Runner
hold_for_restore r =
    if any (λ e. true) r.active
    then refused backup_running
    else goes (record r { is_restoring = true })

-- The function that `HoldForRestore` returns.
unfoldable pub resume_backups : Runner → Runner
resume_backups r = record r { is_restoring = false }

-- `restoreJob`
pub record RestoreJob : Type 0 where
  pub id : Uuid
  pub status : Text
  pub stage : Text
  pub schema_version : Int64
  pub tables : Int64
  pub trips : Int64
  pub files : Int64
  pub error_code : Text
  pub error_message : Text
  pub requested_by : Text
  pub started_at : Time

-- What of `Server` restores are held to.
pub record Server : Type 0 where
  pub runner : Runner
  pub restore_active : Bool
  pub restore_jobs : List RestoreJob

abbrev pub queued_job : Uuid → Text → Time → RestoreJob
queued_job id requested_by now = record {
  id = id;
  status = text "queued";
  stage = text "validating";
  schema_version = 0;
  tables = 0;
  trips = 0;
  files = 0;
  error_code = [];
  error_message = [];
  requested_by = requested_by;
  started_at = now;
}

abbrev pub restore_held : RestoreJob → Server → Attempt Runner → Attempt Server
restore_held job s (refused c) = refused c
restore_held job s (goes runner) =
    goes (record { runner = runner; restore_active = true; restore_jobs = job ∷ s.restore_jobs })

-- `startRestore`
unfoldable pub start_restore : Uuid → Text → Time → Server → Attempt Server
unfolding hold_for_restore
start_restore id requested_by now s =
    if s.restore_active
    then refused restore_running
    else restore_held (queued_job id requested_by now) s (hold_for_restore s.runner)

-- The first of the deferred calls of `runRestore`, and the section after it.
unfoldable pub resume : Server → Server
unfolding resume_backups
resume s = record s { runner = resume_backups s.runner }

unfoldable pub clear_restore : Server → Server
clear_restore s = record s { restore_active = false }
