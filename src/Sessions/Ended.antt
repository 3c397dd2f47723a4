-- ===== src/Sessions/Ended.antt =====
-- A session that has been ended.
use tripvault.Base.{
  ◌≡◌, ◌≢◌, refl, true, false, not, ◌&&◌, Bool, Bool-cases, inl, inr, List, [], ◌∷◌, All, any, find,
  none, ==_iff, ◌==◌, arith, is_some, subst,
}
use tripvault.Domain.Values.{Uuid, Time}
use tripvault.Domain.Users.{User}
use tripvault.Sessions.{
  SessionRow, Table, gives, update, revoke, is_exchanged, exchanged, is_ended, ended,
  revoke_sessions, delete_finished, is_finished, is_other, active_user, is_live,
}
use tripvault.Sessions.Keys.{IsKeyed, AreApart, All-update, All-kept}
use tripvault.Sessions.Statements.{
  Statement, creates, rotates, revokes, revokes_sessions, deletes_finished, execute, execute_all,
  create-cases, rotate-cases, revoke-cases,
}

-- The row, if it is of this session, is revoked.
abbrev IsOver : Uuid → SessionRow → Type 0
IsOver id r = r.session.id ≡ id → is_some r.session.revoked_at ≡ true

abbrev pub IsClosed : Uuid → Table → Type 0
IsClosed id rows = All (IsOver id) rows

-- The statement does not store a new session under this identifier.
abbrev pub NeverCreates : Uuid → Statement → Type 0
NeverCreates id (creates s) = s.id ≢ id
NeverCreates id _ = Unit

update-IsClosed :
    (id : Uuid) (p : SessionRow → Bool) (at : Time) (rows : Table)
    → IsClosed id rows
    → IsClosed id (update p (ended at) rows)
update-IsClosed id p at rows h =
    All-update (IsOver id) (IsOver id) p (ended at) rows (λ r _ _ _. refl) (λ r _ k. k) h

pub execute-IsClosed :
    (id : Uuid) (s : Statement) (rows : Table)
    → NeverCreates id s
    → IsClosed id rows
    → IsClosed id (execute s rows)
unfolding execute
execute-IsClosed id (creates s) rows fresh h = elim (create-cases s rows) [
  | inl e ↦ rw e h
  | inr (_, e) ↦ rw e (λ same. absurd (fresh same), h)
]
execute-IsClosed id (rotates id' old new used_at expires_at) rows fresh h =
    elim (rotate-cases id' old new used_at expires_at rows) [
      | inl (f, e) ↦ rw e h
      | inr (_, _, e) ↦ rw e (
          All-update (IsOver id) (IsOver id) (is_exchanged id' old)
            (exchanged new used_at expires_at) rows (λ r _ k. k) (λ r _ k. k) h)
    ]
execute-IsClosed id (revokes user_id id' at) rows fresh h =
    elim (revoke-cases user_id id' at rows) [
      | inl (_, e) ↦ rw e h
      | inr (_, e) ↦ rw e (update-IsClosed id (is_ended user_id id') at rows h)
    ]
execute-IsClosed id (revokes_sessions user_id keep at) rows fresh h =
    unfold revoke_sessions in update-IsClosed id (is_other user_id keep) at rows h
execute-IsClosed id (deletes_finished before) rows fresh h =
    unfold delete_finished in All-kept (IsOver id) (λ r. not (is_finished before r)) rows h

pub execute_all-IsClosed :
    (id : Uuid) (statements : List Statement) (rows : Table)
    → All (NeverCreates id) statements
    → IsClosed id rows
    → IsClosed id (execute_all statements rows)
unfolding execute_all
execute_all-IsClosed id [] rows fresh h = h
execute_all-IsClosed id (s ∷ rest) rows (f, fresh) h =
    execute_all-IsClosed id rest (execute s rows) fresh (execute-IsClosed id s rows f h)

-- Rows that are apart from a row of the session are not of it.
pub others-IsClosed :
    (id : Uuid) (r : SessionRow) (rows : Table)
    → r.session.id ≡ id
    → All (AreApart r) rows
    → IsClosed id rows
others-IsClosed id r [] own h = tt
others-IsClosed id r (q ∷ rows) own (k, ks) =
    (λ same. absurd (k.0 (cc)), others-IsClosed id r rows own ks)

is_ended_id :
    (user_id id : Uuid) (r : SessionRow) → is_ended user_id id r ≡ true → r.session.id ≡ id
is_ended_id user_id id r h = ground (arith, ==_iff r.session.id id)

any_rest :
    (p : SessionRow → Bool) (r : SessionRow) (rows : Table)
    → p r ≡ false
    → any p (r ∷ rows) ≡ true
    → any p rows ≡ true
any_rest p r rows e h = ground arith

apart-from_ended :
    (user_id id : Uuid) (r : SessionRow) (rows : Table)
    → any (is_ended user_id id) rows ≡ true
    → All (AreApart r) rows
    → r.session.id ≢ id
apart-from_ended user_id id r [] hit apart = cc
apart-from_ended user_id id r (q ∷ rows) hit (k, ks) = elim (Bool-cases (is_ended user_id id q)) [
  | inl e ↦ λ same. k.0 (cc (is_ended_id user_id id q e))
  | inr e ↦ apart-from_ended user_id id r rows (any_rest (is_ended user_id id) q rows e hit) ks
]

-- A `Revoke` that changes a row closes the session.
pub revoked-IsClosed :
    (user_id id : Uuid) (at : Time) (rows : Table)
    → any (is_ended user_id id) rows ≡ true
    → IsKeyed rows
    → IsClosed id (update (is_ended user_id id) (ended at) rows)
unfolding update
revoked-IsClosed user_id id at [] hit keyed = tt
revoked-IsClosed user_id id at (r ∷ rows) hit (apart, keyed) =
    elim (Bool-cases (is_ended user_id id r)) [
      | inl e ↦ rw e (
        (λ _. refl),
        update-IsClosed id (is_ended user_id id) at rows
            (others-IsClosed id r rows (is_ended_id user_id id r e) apart),
      )
      | inr e ↦
          let later = any_rest (is_ended user_id id) r rows e hit in
          rw e (
            (λ same. absurd (apart-from_ended user_id id r rows later apart same)),
            revoked-IsClosed user_id id at rows later keyed,
          )
    ]

pub revoke-IsClosed :
    (user_id id : Uuid) (at : Time) (rows rows' : Table)
    → IsKeyed rows
    → revoke user_id id at rows ≡ gives rows'
    → IsClosed id rows'
revoke-IsClosed user_id id at rows rows' keyed h = elim (revoke-cases user_id id at rows) [
  | inl (_, e) ↦ absurd (cc)
  | inr (hit, e) ↦
      let same : update (is_ended user_id id) (ended at) rows ≡ rows' = cc in
      subst (IsClosed id) same (revoked-IsClosed user_id id at rows hit keyed)
]

not_live :
    (user_id id : Uuid) (now : Time) (rows : Table)
    → IsClosed id rows
    → any (is_live user_id id now) rows ≡ false
not_live user_id id now [] h = refl
not_live user_id id now (r ∷ rows) (k, ks) = elim (Bool-cases (r.session.id == id)) [
  | inl e ↦
      let over = k ((==_iff r.session.id id).0 e) in
      ground (arith, over, not_live user_id id now rows ks)
  | inr e ↦ ground (arith, e, not_live user_id id now rows ks)
]

find_never :
    (p : User → Bool) (users : List User) → ((u : User) → p u ≡ false) → find p users ≡ none
find_never p [] h = refl
find_never p (u ∷ users) h = rw (h u) (find_never p users h)

-- A closed session is nobody's.
pub active_user_closed :
    (user_id id : Uuid) (now : Time) (users : List User) (rows : Table)
    → IsClosed id rows
    → active_user user_id id now users rows ≡ none
unfolding active_user
active_user_closed user_id id now users rows h =
    find_never (λ u. (u.id == user_id && u.is_active) && any (is_live user_id id now) rows) users
      (λ u. ground (arith, not_live user_id id now rows h))
