-- ===== src/Backups/Admitted.antt =====
-- What the server decides by, against what its goroutines are at.
use tripvault.Base.{
  ◌+◌, ◌<◌, ◌≡◌, refl, sym, ◌∙◌, true, false, not, ◌&&◌, List, [], ◌∷◌, ==_refl, any, arith,
  Bool-cases, inl, inr, ◌↔◌,
}
use tripvault.Base.Text.{Text}
use tripvault.Domain.Values.{Uuid, Time}
use tripvault.Backups.{Runner, Tracker, Server, claim, is_of, hold_for_restore, start_restore}
use tripvault.Backups.Apart.{
  Site, Reach, idle, is_let_in, count, count_claimed, count_empty, Reach-IsApart, idle-IsApart,
}

is_let_in-claim :
    (c : Uuid) (r : Runner)
    → is_let_in (claim c r) ≡ (not r.is_restoring && not (any (is_of c) r.active))
unfolding claim
is_let_in-claim c r = elim (Bool-cases r.is_restoring) [
  | inl e ↦ rw e refl
  | inr e ↦ elim (Bool-cases (any (is_of c) r.active)) [
    | inl k ↦ rw (e, k) refl
    | inr k ↦ rw (e, k) refl
  ]
]

is_let_in-start_restore :
    (id : Uuid) (requested_by : Text) (now : Time) (s : Server)
    → is_let_in (start_restore id requested_by now s)
      ≡ (not s.restore_active && not (any (λ e. true) s.runner.active))
unfolding start_restore hold_for_restore
is_let_in-start_restore id requested_by now s = elim (Bool-cases s.restore_active) [
  | inl e ↦ rw e refl
  | inr e ↦ elim (Bool-cases (any (λ e. true) s.runner.active)) [
    | inl k ↦ rw (e, k) refl
    | inr k ↦ rw (e, k) refl
  ]
]

count_mapped :
    (c : Uuid) (active : List (Uuid × Tracker)) → any (is_of c) active ≡ true → 0 < count c active
count_mapped c [] h = cc
count_mapped c ((id, track) ∷ active) h = ground (arith, count_mapped c active)

uncounted_empty :
    (active : List (Uuid × Tracker))
    → ((c : Uuid) → count c active ≡ 0)
    → any (λ e. true) active ≡ false
uncounted_empty [] h = refl
uncounted_empty ((id, track) ∷ active) h = ground (arith, h id, ==_refl id)

module _ {t : Site} (r : Reach idle t) where
  claim_iff :
      (c : Uuid) → (is_let_in (claim c t.server.runner) ≡ true) ↔ ((t.working ≡ 0) × (t.runs c ≡ 0))
  claim_iff c =
      let h = Reach-IsApart idle-IsApart r in
      let active = t.server.runner.active in
      rw (is_let_in-claim c t.server.runner) (elim (Bool-cases (any (is_of c) active)) [
        | inl e ↦ ground (arith, e, h.held, h.counted c, count_mapped c active)
        | inr e ↦ ground (arith, e, h.held, h.counted c, count_claimed c active)
      ])

  start_restore_iff :
      (id : Uuid) (requested_by : Text) (now : Time)
      → (is_let_in (start_restore id requested_by now t.server) ≡ true)
        ↔ ((t.working + t.leaving ≡ 0) × ((c : Uuid) → t.runs c ≡ 0))
  start_restore_iff id requested_by now =
      let h = Reach-IsApart idle-IsApart r in
      let active = t.server.runner.active in
      rw (is_let_in-start_restore id requested_by now t.server) (
        (λ e. (
          ground (arith, e, h.slot),
          λ c. h.counted c ∙ count_empty c active (ground (arith, e)),
        )),
        (λ k.
            let empty = uncounted_empty active (λ c. sym (h.counted c) ∙ k.1 c) in
            ground (arith, empty, k.0, h.slot)),
      )

-- The flags and the map that the server decides by stand for what the goroutines are at. Whatever
-- came before, a backup is let in exactly when no restore holds backups away and no goroutine
-- carries the configuration out, and a restore exactly when there is none and no backup is running.
pub let_in_iff :
    {t : Site} (c id : Uuid) (requested_by : Text) (now : Time)
    → Reach idle t
    → ((is_let_in (claim c t.server.runner) ≡ true) ↔ ((t.working ≡ 0) × (t.runs c ≡ 0)))
      × ((is_let_in (start_restore id requested_by now t.server) ≡ true)
          ↔ ((t.working + t.leaving ≡ 0) × ((d : Uuid) → t.runs d ≡ 0)))
let_in_iff c id requested_by now r = (claim_iff r c, start_restore_iff r id requested_by now)
