-- ===== src/Backups/Tests.antt =====
-- A backup that is carried out, and a restore after it.
use tripvault.Base.{
  some, none, List, length, select, ◌+◌, ◌-◌, ◌≤◌, ◌<◌, ◌≡◌, refl, true, false, [], ◌∷◌, arith, ◌↔◌,
}
use tripvault.Base.Text.{text}
use tripvault.Domain.Values.{Uuid, Time}
use tripvault.Backups.{claim, release, begin, start_restore, new_tracker, queued_job}
use tripvault.Backups.Apart.{
  Site, claims, begins, releases, starts_restore, Reach, here, next, idle, at_key, with_runner,
  runs_apart, is_let_in,
}
use tripvault.Backups.Admitted.{let_in_iff}
use tripvault.Backups.Rotation.{BackupRun, rotate_archives, rotate_archives-keeps, is_held}

abbrev at_claim : Site
at_claim = record idle {
  server =
      with_runner (record { active = (5, new_tracker) ∷ []; is_restoring = false }) idle.server;
  runs = at_key 5 1 idle.runs;
}

abbrev at_begin : Site
at_begin = record at_claim {
  server = with_runner (begin 5 80 at_claim.server.runner) at_claim.server;
}

abbrev at_release : Site
at_release = record at_begin {
  server = with_runner (release 5 at_begin.server.runner) at_begin.server;
  runs = at_key 5 (at_begin.runs 5 - 1) at_begin.runs;
}

abbrev at_restore : Site
at_restore = record at_release {
  server = record {
    runner = record { active = []; is_restoring = true };
    restore_active = true;
    restore_jobs = queued_job 90 (text "ann") 7 ∷ [];
  };
  working = 1;
}

reached_begun : Reach idle at_begin
unfolding claim
reached_begun = next (next here (claims 5 at_claim.server.runner refl refl)) (begins 5 80 refl)

reached_restoring : Reach idle at_restore
unfolding start_restore release begin
reached_restoring =
    next (next reached_begun (releases 5 (omega arith) refl))
      (starts_restore 90 (text "ann") 7 at_restore.server refl refl)

runs_apart_example :
    (at_begin.runs 5 ≤ 1)
    × (at_begin.working + at_begin.leaving ≤ 1)
    × (0 < at_begin.runs 5 → at_begin.working ≡ 0)
runs_apart_example = runs_apart 5 reached_begun

let_in_iff_example :
    ((is_let_in (claim 5 at_restore.server.runner) ≡ true)
      ↔ ((at_restore.working ≡ 0) × (at_restore.runs 5 ≡ 0)))
    × ((is_let_in (start_restore 91 (text "ann") 9 at_restore.server) ≡ true)
        ↔ ((at_restore.working + at_restore.leaving ≡ 0) × ((d : Uuid) → at_restore.runs d ≡ 0)))
let_in_iff_example = let_in_iff 5 91 (text "ann") 9 reached_restoring

abbrev succeeded_run : Uuid → Time → BackupRun
succeeded_run id at = record {
  id = id;
  config_id = 5;
  started_at = at;
  finished_at = some at;
  status = text "success";
  size_bytes = some 10;
  artifact = text "tripvault.tar";
  rotated_at = none;
  error_message = [];
}

abbrev history : List BackupRun
history = succeeded_run 1 100 ∷ succeeded_run 2 300 ∷ succeeded_run 3 200 ∷ []

rotated_two : rotate_archives (λ name. true) (λ days. 0) 900 5 1 0 history ≡ (
  (2, true),
  record (succeeded_run 1 100) { rotated_at = some 900 }
      ∷ succeeded_run 2 300
      ∷ record (succeeded_run 3 200) { rotated_at = some 900 }
      ∷ [],
)
unfolding rotate_archives
rotated_two = refl

rotate_archives-keeps_example :
    length (select (is_held 5) (rotate_archives (λ name. true) (λ days. 0) 900 5 1 0 history).1) ≤ 1
unfolding rotate_archives
rotate_archives-keeps_example =
    rotate_archives-keeps (λ name. true) (λ days. 0) 900 5 1 0 history (omega arith) refl
