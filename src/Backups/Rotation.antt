-- ===== src/Backups/Rotation.antt =====
-- `rotate`: which archives a configuration lets go of, with the queries of
-- backend/internal/storage/postgres/backups.go on the history of runs. The destination is a test on
-- the name of the archive: whether it removes it.
use tripvault.Base.{
  ℕ, zero, suc, ◌+◌, ◌≤◌, ◌<◌, ◌≡◌, refl, sym, ◌∙◌, Bool, true, false, not, ◌&&◌, ◌||◌, Bool-cases,
  inl, inr, Option, some, List, [], ◌∷◌, map, if◌then◌else◌, ltb, ◌==◌, ==_refl, is_some, any,
  select, length, total, All, arith, ap,
}
use tripvault.Base.Text.{Text, text, text_eq, is_empty}
use tripvault.Base.Sort.{sort_stable, total-sort_stable}
use tripvault.Domain.Values.{Uuid, Time}

-- `BackupRun`
pub record BackupRun : Type 0 where
  pub id : Uuid
  pub config_id : Uuid
  pub started_at : Time
  pub finished_at : Option Time
  pub status : Text
  pub size_bytes : Option ℕ
  pub artifact : Text
  pub rotated_at : Option Time
  pub error_message : Text

-- `WHERE backup_config_id = $1 AND status = 'success' AND artifact <> '' AND rotated_at IS NULL`
unfoldable pub is_held : Uuid → BackupRun → Bool
unfolding text_eq
is_held config_id r =
    (r.config_id == config_id && text_eq r.status (text "success"))
    && (not (is_empty r.artifact) && not (is_some r.rotated_at))

-- `ORDER BY started_at DESC, id DESC`
abbrev pub is_newer : BackupRun → BackupRun → Bool
is_newer a b = ltb b.started_at a.started_at || (a.started_at == b.started_at && ltb b.id a.id)

-- `OFFSET`
abbrev pub drop : ℕ → List BackupRun → List BackupRun
drop zero runs = runs
drop (suc n) [] = []
drop (suc n) (r ∷ runs) = drop n runs

-- `HeldArtifacts`
unfoldable pub held_artifacts : Uuid → ℕ → List BackupRun → List BackupRun
unfolding is_held sort_stable
held_artifacts config_id retain runs =
    drop retain (sort_stable is_newer (select (is_held config_id) runs))

-- `ExpiredArtifacts`
unfoldable pub expired_artifacts : Uuid → Time → List BackupRun → List BackupRun
unfolding is_held sort_stable
expired_artifacts config_id before runs =
    sort_stable is_newer (select (λ r. is_held config_id r && ltb r.started_at before) runs)

-- `MarkRotated`
unfoldable pub mark_rotated : Uuid → Time → List BackupRun → List BackupRun
mark_rotated id now [] = []
mark_rotated id now (r ∷ runs) =
    (if r.id == id then record r { rotated_at = some now } else r) ∷ mark_rotated id now runs

-- The loop of `rotate`: how many archives it removed, whether it went through, and the history.
unfoldable pub remove_stale :
    (Text → Bool) → Time → List BackupRun → List BackupRun → (ℕ × Bool) × List BackupRun
unfolding mark_rotated
remove_stale removes now [] runs = ((0, true), runs)
remove_stale removes now (run ∷ stale) runs =
    let rest = remove_stale removes now stale (mark_rotated run.id now runs) in
    if not (removes run.artifact) then ((0, false), runs) else ((rest.0.0 + 1, rest.0.1), rest.1)

-- `rotate`, with what a configuration keeps by count and by age, and the cutoff for an age.
unfoldable pub rotate_archives :
    (Text → Bool)
    → (ℕ → Time)
    → Time
    → Uuid
    → (retain_count retain_days : ℕ) → List BackupRun
    → (ℕ × Bool) × List BackupRun
unfolding held_artifacts expired_artifacts remove_stale
rotate_archives removes cutoff now config_id retain_count retain_days runs =
    if ltb 0 retain_count
    then remove_stale removes now (held_artifacts config_id retain_count runs) runs
    else if ltb 0 retain_days
    then remove_stale removes now (expired_artifacts config_id (cutoff retain_days) runs) runs
    else ((0, true), runs)

abbrev among : List BackupRun → BackupRun → Bool
among stale r = any (λ s. s.id == r.id) stale

-- How many archives of a configuration are held, those of some runs left out.
abbrev held_but : Uuid → List BackupRun → List BackupRun → ℕ
held_but config_id stale runs =
    length (select (λ r. is_held config_id r && not (among stale r)) runs)

length-select :
    (p q : BackupRun → Bool) (runs : List BackupRun)
    → length (select (λ r. p r && q r) runs)
      ≡ total (map (λ r. if q r then 1 else 0) (select p runs))
length-select p q [] = refl
length-select p q (r ∷ runs) = ground (arith, length-select p q runs)

-- A run that has been rotated out is not held.
held-mark_rotated :
    (config_id : Uuid) (now : Time) (s r : BackupRun)
    → s.id ≡ r.id
    → is_held config_id (record r { rotated_at = some now }) ≡ false
unfolding is_held
held-mark_rotated config_id now s r e = ground arith

held_but-mark_rotated :
    (config_id : Uuid) (now : Time) (s : BackupRun) (stale runs : List BackupRun)
    → held_but config_id stale (mark_rotated s.id now runs) ≡ held_but config_id (s ∷ stale) runs
unfolding mark_rotated
held_but-mark_rotated config_id now s stale [] = refl
held_but-mark_rotated config_id now s stale (r ∷ runs) =
    let rest = held_but-mark_rotated config_id now s stale runs in
    elim (Bool-cases (r.id == s.id)) [
      | inl e ↦
          let gone = held-mark_rotated config_id now s r (ground arith) in
          let same : (s.id == r.id) ≡ true = ground arith in
          rw e (rw gone (ground (arith, same, rest)))
      | inr e ↦
          let other : (s.id == r.id) ≡ false = ground arith in rw (e, other) (ground (arith, rest))
    ]

held_after :
    (removes : Text → Bool) (config_id : Uuid) (now : Time) (stale runs : List BackupRun)
    → (remove_stale removes now stale runs).0.1 ≡ true
    → held_but config_id [] (remove_stale removes now stale runs).1 ≡ held_but config_id stale runs
unfolding remove_stale
held_after removes config_id now [] runs h = refl
held_after removes config_id now (s ∷ stale) runs h = elim (Bool-cases (removes s.artifact)) [
  | inr e ↦
      let stops : (remove_stale removes now (s ∷ stale) runs).0.1 ≡ false = rw e refl in
      cc (stops, h)
  | inl e ↦
      let runs' = mark_rotated s.id now runs in
      let goes_on : (remove_stale removes now (s ∷ stale) runs).0.1
          ≡ (remove_stale removes now stale runs').0.1 =
        rw e refl in
      rw e (
        held_after removes config_id now stale runs' (sym goes_on ∙ h)
        ∙ held_but-mark_rotated config_id now s stale runs)
]

-- Where all but the first few count nothing, the sum is at most their number.
total-few :
    (f : BackupRun → ℕ) (n : ℕ) (runs : List BackupRun)
    → ((r : BackupRun) → f r ≤ 1)
    → All (λ r. f r ≡ 0) (drop n runs)
    → total (map f runs) ≤ n
total-few f zero [] small h = omega arith
total-few f zero (r ∷ runs) small (h, hs) = omega (arith, total-few f zero runs small hs)
total-few f (suc n) [] small h = omega arith
total-few f (suc n) (r ∷ runs) small h = omega (arith, small r, total-few f n runs small h)

-- One for a run that is left out of some, zero for one of them.
abbrev one_unless : List BackupRun → BackupRun → ℕ
one_unless stale r = if not (among stale r) then 1 else 0

one_unless-le : (stale : List BackupRun) (r : BackupRun) → one_unless stale r ≤ 1
one_unless-le stale r = ground arith

All-among :
    (whole runs : List BackupRun)
    → ((r : BackupRun) → among runs r ≡ true → among whole r ≡ true)
    → All (λ r. one_unless whole r ≡ 0) runs
All-among whole [] h = tt
All-among whole (r ∷ runs) h = (
  (let here = h r (ground (arith, ==_refl r.id)) in rw here refl),
  All-among whole runs (λ q k. h q (ground (arith, k))),
)

held_but-none :
    (config_id : Uuid) (runs : List BackupRun)
    → length (select (is_held config_id) runs) ≡ held_but config_id [] runs
held_but-none config_id [] = refl
held_but-none config_id (r ∷ runs) = ground (arith, held_but-none config_id runs)

held_but-le :
    (config_id : Uuid) (n : ℕ) (runs : List BackupRun)
    → held_but config_id (held_artifacts config_id n runs) runs ≤ n
unfolding held_artifacts
held_but-le config_id n runs =
    let held = select (is_held config_id) runs in
    let stale = held_artifacts config_id n runs in
    omega (
      arith,
      length-select (is_held config_id) (λ (r : BackupRun). not (among stale r)) runs,
      total-sort_stable is_newer (one_unless stale) held,
      total-few (one_unless stale) n (sort_stable is_newer held)
          (λ (r : BackupRun). one_unless-le stale r)
          (All-among stale stale (λ (r : BackupRun) k. k)),
    )

-- When the rotation of a configuration that keeps by count goes through, at most that many of its
-- archives are held.
pub rotate_archives-keeps :
    (removes : Text → Bool) (cutoff : ℕ → Time) (now : Time) (config_id : Uuid)
    (retain_count retain_days : ℕ) (runs : List BackupRun)
    → 0 < retain_count
    → let done = rotate_archives removes cutoff now config_id retain_count retain_days runs in
      done.0.1 ≡ true → length (select (is_held config_id) done.1) ≤ retain_count
unfolding rotate_archives
rotate_archives-keeps removes cutoff now config_id retain_count retain_days runs keeps through =
    let stale = held_artifacts config_id retain_count runs in
    let by_count : rotate_archives removes cutoff now config_id retain_count retain_days runs
        ≡ remove_stale removes now stale runs =
      ground arith in
    let done = rotate_archives removes cutoff now config_id retain_count retain_days runs in
    omega (
      arith,
      held_but-none config_id done.1,
      ap (λ x. held_but config_id [] x.1) by_count,
      held_after removes config_id now stale runs (ap (λ x. x.0.1) (sym by_count) ∙ through),
      held_but-le config_id retain_count runs,
    )
