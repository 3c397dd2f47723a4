-- ===== src/Sessions/Between.antt =====
-- A session that the statements of other requests leave alone.
use tripvault.Base.{
  ◌≤◌, ◌≡◌, ◌≢◌, refl, true, false, not, Bool, Bool-cases, inl, inr, ◌⊎◌, List, [], ◌∷◌, All,
  All-every, All-imp, find, select, some, none, is_some, arith, ==_iff, Option,
}
use tripvault.Base.Text.{text_eq, text_eq_iff}
use tripvault.Domain.Values.{Uuid, Time}
use tripvault.Domain.Users.{Bytes, Session}
use tripvault.Sessions.{
  SessionRow, Table, hash_of, update, held_before, is_exchanged, exchanged, is_ended, ended,
  is_other, is_finished, before_opt, revoke_sessions, delete_finished,
}
use tripvault.Sessions.Keys.{IsKeyed}
use tripvault.Sessions.Once.{NeverMints, IsGone, execute-IsGone}
use tripvault.Sessions.Statements.{
  Statement, creates, rotates, revokes, revokes_sessions, deletes_finished, execute, execute_all,
  create-cases, rotate-cases, revoke-cases, execute-IsKeyed,
}

-- The statement changes no row of the session, and does not take it for finished.
abbrev pub LeavesAlone : Session → Statement → Type 0
LeavesAlone held (creates s) = Unit
LeavesAlone held (rotates id old new used_at expires_at) = id ≢ held.id
LeavesAlone held (revokes user_id id at) = id ≢ held.id
LeavesAlone held (revokes_sessions user_id keep at) =
    (keep ≡ some held.id) ⊎ (user_id ≢ held.user_id)
LeavesAlone held (deletes_finished before) = before ≤ held.expires_at

-- The row that had the token before its own.
abbrev pub holder : Bytes → Table → Option SessionRow
holder old rows = find (λ q. held_before old q.previous_token_hash) rows

module _ (p : SessionRow → Bool) (r : SessionRow) where
  find-update_other :
      (g : SessionRow → Bool) (f : SessionRow → SessionRow) (rows : Table)
      → g r ≡ false
      → All (λ q. g q ≡ true → p q ≡ false → p (f q) ≡ false) rows
      → find p rows ≡ some r
      → find p (update g f rows) ≡ some r
  unfolding update
  find-update_other g f [] other h found = found
  find-update_other g f (q ∷ rows) other (k, ks) found = elim (Bool-cases (p q)) [
    | inl e ↦ let same : q ≡ r = cc in let kept : g q ≡ false = cc in rw kept (rw e (cc))
    | inr e ↦
        let rest = find-update_other g f rows other ks (cc) in
        elim (Bool-cases (g q)) [ inl u ↦ rw u (rw (k u e) rest) | inr u ↦ rw u (rw e rest) ]
  ]

  find-select :
      (kept : SessionRow → Bool) (rows : Table)
      → kept r ≡ true
      → find p rows ≡ some r
      → find p (select kept rows) ≡ some r
  find-select kept [] k found = found
  find-select kept (q ∷ rows) k found = elim (Bool-cases (p q)) [
    | inl e ↦ let same : q ≡ r = cc in let keep : kept q ≡ true = cc in rw keep (rw e (cc))
    | inr e ↦
        let rest = find-select kept rows k (cc) in
        elim (Bool-cases (kept q)) [ inl u ↦ rw u (rw e rest) | inr u ↦ rw u rest ]
  ]

-- A token that is not in the table is not that of a row before its exchange.
exchanged_unheld :
    (id : Uuid) (old hash new : Bytes) (used_at expires_at : Time) (rows : Table)
    → IsGone hash rows
    → All
        (λ q.
          is_exchanged id old q ≡ true
          → held_before hash q.previous_token_hash ≡ false
          → held_before hash (exchanged new used_at expires_at q).previous_token_hash ≡ false)
        rows
exchanged_unheld id old hash new used_at expires_at rows gone =
    All-imp (λ q. hash_of q ≢ hash) _ rows
      (λ q k _ _. elim (Bool-cases (text_eq (hash_of q) hash)) [
        | inl e ↦ absurd (k ((text_eq_iff (hash_of q) hash).0 e))
        | inr e ↦ e
      ])
      gone

module _ (hash : Bytes) (r : SessionRow) (live : is_some r.session.revoked_at ≡ false) where
  other_user :
      (user_id : Uuid) (keep : Option Uuid)
      → user_id ≢ r.session.user_id
      → is_other user_id keep r ≡ false
  other_user user_id none n = ground (arith, ==_iff r.session.user_id user_id, n)
  other_user user_id (some k) n = ground (arith, ==_iff r.session.user_id user_id, n)

  before_none : (o : Option Time) (before : Time) → is_some o ≡ false → before_opt o before ≡ false
  before_none none before h = refl
  before_none (some t) before h = cc

  unfinished : (before : Time) → before ≤ r.session.expires_at → not (is_finished before r) ≡ true
  unfinished before h = rw (before_none r.session.revoked_at before live) (ground (arith, h))

  execute-holder :
      (s : Statement) (rows : Table)
      → LeavesAlone r.session s
      → IsGone hash rows
      → holder hash rows ≡ some r
      → holder hash (execute s rows) ≡ some r
  unfolding execute
  execute-holder (creates s) rows alone gone h = elim (create-cases s rows) [
    | inl e ↦ rw e h
    | inr (_, e) ↦ rw e h
  ]
  execute-holder (rotates id old new used_at expires_at) rows alone gone h =
      elim (rotate-cases id old new used_at expires_at rows) [
        | inl (f, e) ↦ rw e h
        | inr (_, _, e) ↦ rw e (
            find-update_other (λ q. held_before hash q.previous_token_hash) r (is_exchanged id old)
              (exchanged new used_at expires_at) rows
              (ground (arith, ==_iff r.session.id id, alone))
              (exchanged_unheld id old hash new used_at expires_at rows gone) h)
      ]
  execute-holder (revokes user_id id at) rows alone gone h =
      elim (revoke-cases user_id id at rows) [
        | inl (_, e) ↦ rw e h
        | inr (_, e) ↦ rw e (
            find-update_other (λ q. held_before hash q.previous_token_hash) r (is_ended user_id id)
              (ended at) rows (ground (arith, ==_iff r.session.id id, alone))
              (All-every _ rows (λ q _ k. k)) h)
      ]
  execute-holder (revokes_sessions user_id keep at) rows alone gone h =
      let other : is_other user_id keep r ≡ false = elim alone [
        | inl k ↦ rw k (ground (arith, ==_iff r.session.id r.session.id))
        | inr n ↦ other_user user_id keep n
      ] in
      unfold revoke_sessions in
      find-update_other (λ q. held_before hash q.previous_token_hash) r (is_other user_id keep)
        (ended at) rows other (All-every _ rows (λ q _ k. k)) h
  execute-holder (deletes_finished before) rows alone gone h =
      unfold delete_finished in
      find-select (λ q. held_before hash q.previous_token_hash) r (λ q. not (is_finished before q))
        rows (unfinished before alone) h

  -- The table after statements of others: the row is where it was, and the token is not back.
  pub execute_all-holder :
      (statements : List Statement) (rows : Table)
      → All (NeverMints hash) statements
      → All (LeavesAlone r.session) statements
      → IsKeyed rows
      → IsGone hash rows
      → holder hash rows ≡ some r
      → let later = execute_all statements rows in
        IsKeyed later × IsGone hash later × (holder hash later ≡ some r)
  unfolding execute_all
  execute_all-holder [] rows fresh alone keyed gone h = (keyed, gone, h)
  execute_all-holder (s ∷ rest) rows (f, fresh) (a, alone) keyed gone h =
      execute_all-holder rest (execute s rows) fresh alone (execute-IsKeyed s rows keyed)
        (execute-IsGone hash s rows f gone) (execute-holder s rows a gone h)
