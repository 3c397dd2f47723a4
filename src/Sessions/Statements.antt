-- ===== src/Sessions/Statements.antt =====
-- Statements of requests that run at once, in the order in which the database carries them out.
use tripvault.Base.{
  ◌≡◌, ◌≢◌, refl, true, false, not, ◌&&◌, ◌||◌, Bool-cases, inl, inr, List, [], ◌∷◌, All, any,
  ==_iff, ◌==◌, arith, ◌⊎◌, Option, none,
}
use tripvault.Base.Text.{text_eq, text_eq_iff}
use tripvault.Domain.Values.{Uuid, Time}
use tripvault.Domain.Users.{Session, Bytes}
use tripvault.Sessions.{
  Table, Reply, gives, fails, Failure, hash_of, holds, update, create, rotate, revoke, is_exchanged,
  exchanged, is_ended, ended, delete_finished, is_finished, revoke_sessions, is_other,
}
use tripvault.Sessions.Keys.{IsKeyed, select-IsKeyed, ended-IsKeyed, exchanged-IsKeyed, All-IsFree}

-- Every statement of the code that writes the table.
pub data Statement : Type 0 where
  creates : Session → Statement
  rotates : (id : Uuid) (old new : Bytes) (used_at expires_at : Time) → Statement
  revokes : (user_id id : Uuid) (at : Time) → Statement
  revokes_sessions : (user_id : Uuid) (keep : Option Uuid) (at : Time) → Statement
  deletes_finished : Time → Statement

-- A statement that fails leaves the table as it is.
abbrev pub or_same : Table → Reply Table → Table
or_same rows (gives rows') = rows'
or_same rows (fails f) = rows

unfoldable pub execute : Statement → Table → Table
unfolding create rotate revoke revoke_sessions delete_finished
execute (creates s) rows = or_same rows (create s rows)
execute (rotates id old new used_at expires_at) rows =
    or_same rows (rotate id old new used_at expires_at rows)
execute (revokes user_id id at) rows = or_same rows (revoke user_id id at rows)
execute (revokes_sessions user_id keep at) rows = revoke_sessions user_id keep at rows
execute (deletes_finished before) rows = (delete_finished before rows).1

unfoldable pub execute_all : List Statement → Table → Table
unfolding execute
execute_all [] rows = rows
execute_all (s ∷ rest) rows = execute_all rest (execute s rows)

-- What a call of `create` and of `rotate` comes to.
pub create-cases :
    (s : Session) (rows : Table)
    → (create s rows ≡ fails Failure.duplicate)
      ⊎ ((any (λ r. r.session.id == s.id || text_eq (hash_of r) s.token_hash) rows ≡ false)
          × (create s rows
              ≡ gives (
                  record {
                    session = record s { revoked_at = none; rotated_at = none };
                    previous_token_hash = none;
                  }
                  ∷ rows)))
unfolding create
create-cases s rows =
    elim (Bool-cases (any (λ r. r.session.id == s.id || text_eq (hash_of r) s.token_hash) rows)) [
      | inl e ↦ inl (rw e refl)
      | inr e ↦ inr (e, rw e refl)
    ]

pub rotate-cases :
    (id : Uuid) (old new : Bytes) (used_at expires_at : Time) (rows : Table)
    → ((f : Failure) × (rotate id old new used_at expires_at rows ≡ fails f))
      ⊎ ((any (is_exchanged id old) rows ≡ true)
          × (any (λ r. not (is_exchanged id old r) && holds new r) rows ≡ false)
          × (rotate id old new used_at expires_at rows
              ≡ gives (update (is_exchanged id old) (exchanged new used_at expires_at) rows)))
unfolding rotate
rotate-cases id old new used_at expires_at rows =
    elim (Bool-cases (any (is_exchanged id old) rows)) [
      | inr e ↦ inl (Failure.not_found, rw e refl)
      | inl e ↦ elim (Bool-cases (any (λ r. not (is_exchanged id old r) && holds new r) rows)) [
        | inl k ↦ inl (Failure.duplicate, rw (e, k) refl)
        | inr k ↦ inr (e, k, rw (e, k) refl)
      ]
    ]

pub revoke-cases :
    (user_id id : Uuid) (at : Time) (rows : Table)
    → ((any (is_ended user_id id) rows ≡ false)
        × (revoke user_id id at rows ≡ fails Failure.not_found))
      ⊎ ((any (is_ended user_id id) rows ≡ true)
          × (revoke user_id id at rows ≡ gives (update (is_ended user_id id) (ended at) rows)))
unfolding revoke
revoke-cases user_id id at rows = elim (Bool-cases (any (is_ended user_id id) rows)) [
  | inl e ↦ inr (e, rw e refl)
  | inr e ↦ inl (e, rw e refl)
]

-- No row has the identifier or the token of a new session.
pub All-new :
    (s : Session) (rows : Table)
    → any (λ r. r.session.id == s.id || text_eq (hash_of r) s.token_hash) rows ≡ false
    → All (λ r. (s.id ≢ r.session.id) × (s.token_hash ≢ hash_of r)) rows
unfolding text_eq
All-new s [] h = tt
All-new s (r ∷ rows) h = (
  (
    λ e. ground (arith, ==_iff r.session.id s.id),
    λ e. ground (arith, text_eq_iff (hash_of r) s.token_hash),
  ),
  All-new s rows (ground arith),
)

-- Whatever statements are carried out, no two rows share an identifier or a token.
pub execute-IsKeyed : (s : Statement) (rows : Table) → IsKeyed rows → IsKeyed (execute s rows)
unfolding execute
execute-IsKeyed (creates s) rows h = elim (create-cases s rows) [
  | inl e ↦ rw e h
  | inr (new, e) ↦ rw e (All-new s rows new, h)
]
execute-IsKeyed (rotates id old new used_at expires_at) rows h =
    elim (rotate-cases id old new used_at expires_at rows) [
      | inl (f, e) ↦ rw e h
      | inr (_, free, e) ↦
          rw e (
            exchanged-IsKeyed id old new used_at expires_at rows (All-IsFree id old new rows free)
              h)
    ]
execute-IsKeyed (revokes user_id id at) rows h = elim (revoke-cases user_id id at rows) [
  | inl (_, e) ↦ rw e h
  | inr (_, e) ↦ rw e (ended-IsKeyed (is_ended user_id id) at rows h)
]
execute-IsKeyed (revokes_sessions user_id keep at) rows h =
    unfold revoke_sessions in ended-IsKeyed (is_other user_id keep) at rows h
execute-IsKeyed (deletes_finished before) rows h =
    unfold delete_finished in select-IsKeyed (λ r. not (is_finished before r)) rows h
