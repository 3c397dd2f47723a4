-- ===== src/Backups/Apart.antt =====
-- Backups and restores that goroutines carry out at once: what is let in, and when.
use tripvault.Base.{
  ℕ, ◌+◌, ◌-◌, ◌≤◌, ◌<◌, ◌≡◌, refl, sym, Bool, true, false, not, List, [], ◌∷◌, if◌then◌else◌, ◌==◌,
  any, select, arith, Bool-cases, inl, inr, ap, subst, ◌∙◌,
}
use tripvault.Base.Text.{Text}
use tripvault.Domain.Values.{Uuid, Time}
use tripvault.Backups.{
  Runner, Tracker, Server, Attempt, goes, refused, Conflict, claim, release, begin, begun, is_of,
  hold_for_restore, start_restore, resume, clear_restore, queued_job, resume_backups, new_runner,
  new_tracker,
}

-- The server, and what the goroutines are at: how many are between the claim and the release of a
-- configuration, how many restores hold backups away, and how many have let backups run again
-- and not yet given the slot back.
pub record Site : Type 0 where
  pub server : Server
  pub runs : Uuid → ℕ
  pub working : ℕ
  pub leaving : ℕ

abbrev pub at_key : Uuid → ℕ → (Uuid → ℕ) → Uuid → ℕ
at_key config_id n runs c = if c == config_id then n else runs c

abbrev pub with_runner : Runner → Server → Server
with_runner runner s = record s { runner = runner }

-- One step of one goroutine, or of a request that starts one. Whoever claimed a configuration
-- releases it once, and whoever started a restore ends it once.
pub data Step (s t : Site) : Type 0 where
  claims :
      (config_id : Uuid) (runner : Runner)
      → claim config_id s.server.runner ≡ goes runner
      → t ≡ record s {
        server = with_runner runner s.server;
        runs = at_key config_id (s.runs config_id + 1) s.runs;
      }
      → Step s t
  begins :
      (config_id run_id : Uuid)
      → t ≡ record s { server = with_runner (begin config_id run_id s.server.runner) s.server }
      → Step s t
  releases :
      (config_id : Uuid)
      → 0 < s.runs config_id
      → t ≡ record s {
        server = with_runner (release config_id s.server.runner) s.server;
        runs = at_key config_id (s.runs config_id - 1) s.runs;
      }
      → Step s t
  starts_restore :
      (id : Uuid) (requested_by : Text) (now : Time) (server : Server)
      → start_restore id requested_by now s.server ≡ goes server
      → t ≡ record s { server = server; working = s.working + 1 }
      → Step s t
  resumes :
      0 < s.working
      → t ≡ record s { server = resume s.server; working = s.working - 1; leaving = s.leaving + 1 }
      → Step s t
  clears :
      0 < s.leaving
      → t ≡ record s { server = clear_restore s.server; leaving = s.leaving - 1 }
      → Step s t

pub data Reach (s : Site) : Site → Type 0 where
  here : Reach s s
  next : {t u : Site} → Reach s t → Step t u → Reach s u

abbrev pub idle : Site
idle = record {
  server = record { runner = new_runner; restore_active = false; restore_jobs = [] };
  runs = λ c. 0;
  working = 0;
  leaving = 0;
}

-- How often a configuration is in the map.
abbrev pub count : Uuid → List (Uuid × Tracker) → ℕ
count c [] = 0
count c (e ∷ active) = (if is_of c e then 1 else 0) + count c active

pub count_claimed :
    (c : Uuid) (active : List (Uuid × Tracker)) → any (is_of c) active ≡ false → count c active ≡ 0
count_claimed c [] h = refl
count_claimed c ((id, track) ∷ active) h = ground (arith, count_claimed c active)

pub count_empty :
    (c : Uuid) (active : List (Uuid × Tracker))
    → any (λ e. true) active ≡ false
    → count c active ≡ 0
count_empty c [] h = refl
count_empty c (e ∷ active) h = cc

count_released :
    (c d : Uuid) (active : List (Uuid × Tracker))
    → count d (select (λ e. not (is_of c e)) active) ≡ (if d == c then 0 else count d active)
count_released c d [] = ground arith
count_released c d ((id, track) ∷ active) = ground (arith, count_released c d active)

count-begun :
    (c run_id d : Uuid) (active : List (Uuid × Tracker))
    → count d (begun c run_id active) ≡ count d active
count-begun c run_id d [] = refl
count-begun c run_id d ((id, track) ∷ active) = omega (arith, count-begun c run_id d active)

abbrev pub is_let_in {ℓ} : {T : Type ℓ} → Attempt T → Bool
is_let_in (goes x) = true
is_let_in (refused c) = false

not_let_in {ℓ} : {T : Type ℓ} {c : Conflict} {x : T} → refused c ≡ goes x → ⊥
not_let_in h = cc

runner_or : Runner → Attempt Runner → Runner
runner_or d (goes runner) = runner
runner_or d (refused c) = d

server_or : Server → Attempt Server → Server
server_or d (goes server) = server
server_or d (refused c) = d

-- What a claim and the start of a restore that are let in have met, and what they come to.
claimed :
    (config_id : Uuid) (r r' : Runner)
    → claim config_id r ≡ goes r'
    → (r.is_restoring ≡ false)
      × (any (is_of config_id) r.active ≡ false)
      × (r' ≡ record r { active = (config_id, new_tracker) ∷ r.active })
unfolding claim runner_or
claimed config_id r r' h = elim (Bool-cases r.is_restoring) [
  | inl e ↦ absurd (not_let_in {c = Conflict.restoring} (sym (rw e refl) ∙ h))
  | inr e ↦ elim (Bool-cases (any (is_of config_id) r.active)) [
    | inl k ↦ absurd (not_let_in {c = Conflict.already_running} (sym (rw (e, k) refl) ∙ h))
    | inr k ↦
        let here : claim config_id r
            ≡ goes (record r { active = (config_id, new_tracker) ∷ r.active }) =
          rw (e, k) refl in
        (e, k, sym (ap (runner_or r) h) ∙ ap (runner_or r) here)
  ]
]

restore_started :
    (id : Uuid) (requested_by : Text) (now : Time) (s s' : Server)
    → start_restore id requested_by now s ≡ goes s'
    → (s.restore_active ≡ false)
      × (any (λ e. true) s.runner.active ≡ false)
      × (s' ≡ record {
        runner = record s.runner { is_restoring = true };
        restore_active = true;
        restore_jobs = queued_job id requested_by now ∷ s.restore_jobs;
      })
unfolding start_restore hold_for_restore server_or
restore_started id requested_by now s s' h = elim (Bool-cases s.restore_active) [
  | inl e ↦ absurd (not_let_in {c = Conflict.restore_running} (sym (rw e refl) ∙ h))
  | inr e ↦ elim (Bool-cases (any (λ e. true) s.runner.active)) [
    | inl k ↦ absurd (not_let_in {c = Conflict.backup_running} (sym (rw (e, k) refl) ∙ h))
    | inr k ↦
        let here : start_restore id requested_by now s
            ≡ goes (record {
              runner = record s.runner { is_restoring = true };
              restore_active = true;
              restore_jobs = queued_job id requested_by now ∷ s.restore_jobs;
            }) =
          rw (e, k) refl in
        (e, k, sym (ap (server_or s) h) ∙ ap (server_or s) here)
  ]
]

-- The server knows what its goroutines are at.
pub record IsApart (s : Site) : Type 0 where
  pub counted : (c : Uuid) → s.runs c ≡ count c s.server.runner.active
  pub single : (c : Uuid) → s.runs c ≤ 1
  pub slot : s.working + s.leaving ≡ (if s.server.restore_active then 1 else 0)
  pub held : s.working ≡ (if s.server.runner.is_restoring then 1 else 0)
  pub away : (c : Uuid) → 0 < s.runs c → s.working ≡ 0

Step-IsApart : {s t : Site} → IsApart s → Step s t → IsApart t
unfolding claim release begin start_restore hold_for_restore resume resume_backups clear_restore
Step-IsApart {s} h (claims config_id runner e eq) =
    let (free, unclaimed, runner_eq) = claimed config_id s.server.runner runner e in
    let none_running =
      h.counted config_id ∙ count_claimed config_id s.server.runner.active unclaimed in
    subst IsApart (sym eq) (
      rw runner_eq (record {
        counted = λ c. ground (arith, h.counted c, none_running);
        single = λ c. ground (arith, h.single c, none_running);
        slot = h.slot;
        held = h.held;
        away = λ c run. ground (arith, h.held, free);
      }))
Step-IsApart {s} h (begins config_id run_id eq) = subst IsApart (sym eq) (record {
  counted = λ c. h.counted c ∙ sym (count-begun config_id run_id c s.server.runner.active);
  single = h.single;
  slot = h.slot;
  held = h.held;
  away = h.away;
})
Step-IsApart {s} h (releases config_id some_run eq) = subst IsApart (sym eq) (record {
  counted = λ c. ground (
    arith,
    h.counted c,
    h.single config_id,
    count_released config_id c s.server.runner.active,
    some_run,
  );
  single = λ c. ground (arith, h.single c, h.single config_id);
  slot = h.slot;
  held = h.held;
  away = λ c run. ground (arith, h.away c, h.away config_id, some_run, run);
})
Step-IsApart {s} h (starts_restore id requested_by now server e eq) =
    let (free, empty, server_eq) = restore_started id requested_by now s.server server e in
    let no_run : (c : Uuid) → s.runs c ≡ 0 =
      λ c. h.counted c ∙ count_empty c s.server.runner.active empty in
    let no_restore : s.working + s.leaving ≡ 0 = ground (arith, h.slot, free) in
    subst IsApart (sym eq) (
      rw server_eq (record {
        counted = h.counted;
        single = h.single;
        slot = omega (arith, no_restore);
        held = omega (arith, no_restore);
        away = λ c run. absurd (omega (arith, no_run c, run));
      }))
Step-IsApart {s} h (resumes some_restore eq) = subst IsApart (sym eq) (record {
  counted = h.counted;
  single = h.single;
  slot = omega (arith, h.slot, some_restore);
  held = ground (arith, h.held, some_restore);
  away = λ c run. omega (arith, h.away c run);
})
Step-IsApart {s} h (clears some_leaving eq) = subst IsApart (sym eq) (record {
  counted = h.counted;
  single = h.single;
  slot = ground (arith, h.slot, h.held, some_leaving);
  held = ground (arith, h.slot, h.held, some_leaving);
  away = h.away;
})

pub Reach-IsApart : {s t : Site} → IsApart s → Reach s t → IsApart t
Reach-IsApart h here = h
Reach-IsApart h (next r step) = Step-IsApart (Reach-IsApart h r) step

pub idle-IsApart : IsApart idle
idle-IsApart = record {
  counted = λ c. refl;
  single = λ c. omega arith;
  slot = refl;
  held = refl;
  away = λ c run. refl;
}

-- Whatever backups and restores are asked for, and in whatever order the goroutines that carry them
-- out come to their sections: a configuration is carried out by one of them at most, there is one
-- restore at most, and while it holds backups away none is running.
pub runs_apart :
    {t : Site} (c : Uuid)
    → Reach idle t
    → (t.runs c ≤ 1) × (t.working + t.leaving ≤ 1) × (0 < t.runs c → t.working ≡ 0)
runs_apart c r =
    let h = Reach-IsApart idle-IsApart r in (h.single c, ground (arith, h.slot), h.away c)
