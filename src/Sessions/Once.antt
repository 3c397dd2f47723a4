-- ===== src/Sessions/Once.antt =====
-- A token of two refreshes at once: only one of them exchanges it.
use tripvault.Base.{
  ℕ, ◌+◌, ◌≤◌, ◌≡◌, ◌≢◌, refl, sym, ◌∙◌, true, false, not, ◌&&◌, Bool, Bool-cases, inl, inr, List,
  [], ◌∷◌, All, any, if◌then◌else◌, arith, subst, ap,
}
use tripvault.Base.Text.{text_eq, text_eq_iff}
use tripvault.Domain.Values.{Uuid, Time}
use tripvault.Domain.Users.{Bytes}
use tripvault.Sessions.{
  SessionRow, Table, Reply, Failure, gives, fails, hash_of, update, rotate, is_exchanged, exchanged,
  is_ended, ended, revoke_sessions, delete_finished, is_finished, is_other,
}
use tripvault.Sessions.Keys.{IsKeyed, AreApart, All-update, All-kept}
use tripvault.Sessions.Statements.{
  Statement, creates, rotates, revokes, revokes_sessions, deletes_finished, execute,
  execute-IsKeyed, create-cases, rotate-cases, revoke-cases,
}

abbrev is_given : Reply Table → Bool
is_given (gives rows) = true
is_given (fails f) = false

-- A statement exchanges this token: a `Rotate` of it that changes a row.
unfoldable pub exchanges : Bytes → Statement → Table → Bool
unfolding text_eq rotate
exchanges hash (rotates id old new used_at expires_at) rows =
    text_eq old hash && is_given (rotate id old new used_at expires_at rows)
exchanges hash _ rows = false

-- How often a run of statements exchanges it.
unfoldable pub exchanges_of : Bytes → List Statement → Table → ℕ
unfolding exchanges execute
exchanges_of hash [] rows = 0
exchanges_of hash (s ∷ rest) rows =
    (if exchanges hash s rows then 1 else 0) + exchanges_of hash rest (execute s rows)

-- The statement does not bring the token in anew.
abbrev pub NeverMints : Bytes → Statement → Type 0
NeverMints hash (creates s) = s.token_hash ≢ hash
NeverMints hash (rotates id old new used_at expires_at) = new ≢ hash
NeverMints hash (revokes user_id id at) = Unit
NeverMints hash (revokes_sessions user_id keep at) = Unit
NeverMints hash (deletes_finished before) = Unit

abbrev pub IsGone : Bytes → Table → Type 0
IsGone hash rows = All (λ r. hash_of r ≢ hash) rows

is_exchanged_hash :
    (id : Uuid) (old : Bytes) (r : SessionRow) → is_exchanged id old r ≡ true → hash_of r ≡ old
unfolding text_eq
is_exchanged_hash id old r h = ground (arith, text_eq_iff (hash_of r) old)

exchanged-IsGone :
    (id : Uuid) (old new : Bytes) (used_at expires_at : Time) (hash : Bytes) (rows : Table)
    → new ≢ hash
    → IsGone hash rows
    → IsGone hash (update (is_exchanged id old) (exchanged new used_at expires_at) rows)
exchanged-IsGone id old new used_at expires_at hash rows fresh h =
    All-update (λ r. hash_of r ≢ hash) (λ r. hash_of r ≢ hash) (is_exchanged id old)
      (exchanged new used_at expires_at) rows (λ r _ _. fresh) (λ r _ k. k) h

pub execute-IsGone :
    (hash : Bytes) (s : Statement) (rows : Table)
    → NeverMints hash s
    → IsGone hash rows
    → IsGone hash (execute s rows)
unfolding execute
execute-IsGone hash (creates s) rows fresh h = elim (create-cases s rows) [
  | inl e ↦ rw e h
  | inr (_, e) ↦ rw e (fresh, h)
]
execute-IsGone hash (rotates id old new used_at expires_at) rows fresh h =
    elim (rotate-cases id old new used_at expires_at rows) [
      | inl (f, e) ↦ rw e h
      | inr (_, _, e) ↦ rw e (exchanged-IsGone id old new used_at expires_at hash rows fresh h)
    ]
execute-IsGone hash (revokes user_id id at) rows fresh h = elim (revoke-cases user_id id at rows) [
  | inl (_, e) ↦ rw e h
  | inr (_, e) ↦ rw e (
      All-update (λ r. hash_of r ≢ hash) (λ r. hash_of r ≢ hash) (is_ended user_id id) (ended at)
        rows (λ r _ k. k) (λ r _ k. k) h)
]
execute-IsGone hash (revokes_sessions user_id keep at) rows fresh h =
    unfold revoke_sessions in
    All-update (λ r. hash_of r ≢ hash) (λ r. hash_of r ≢ hash) (is_other user_id keep) (ended at)
      rows (λ r _ k. k) (λ r _ k. k) h
execute-IsGone hash (deletes_finished before) rows fresh h =
    unfold delete_finished in
    All-kept (λ r. hash_of r ≢ hash) (λ r. not (is_finished before r)) rows h

-- Where a row is exchanged, a row apart from all of them does not hold the token.
apart-from_exchanged :
    (id : Uuid) (old : Bytes) (r : SessionRow) (rows : Table)
    → any (is_exchanged id old) rows ≡ true
    → All (AreApart r) rows
    → hash_of r ≢ old
apart-from_exchanged id old r [] hit apart = cc
apart-from_exchanged id old r (q ∷ rows) hit (k, ks) = elim (Bool-cases (is_exchanged id old q)) [
  | inl e ↦ λ same. k.1 (same ∙ sym (is_exchanged_hash id old q e))
  | inr e ↦ apart-from_exchanged id old r rows (ground arith) ks
]

flipped : (r : SessionRow) (rows : Table) → All (AreApart r) rows → IsGone (hash_of r) rows
flipped r [] h = tt
flipped r (q ∷ rows) (k, ks) = (λ same. k.1 (sym same), flipped r rows ks)

any-later :
    (p : SessionRow → Bool) (r : SessionRow) (rows : Table)
    → p r ≡ false
    → any p (r ∷ rows) ≡ true
    → any p rows ≡ true
any-later p r rows e h = ground arith

-- The exchange takes the token out of the table.
pub rotated-IsGone :
    (id : Uuid) (old new : Bytes) (used_at expires_at : Time) (rows : Table)
    → any (is_exchanged id old) rows ≡ true
    → IsKeyed rows
    → new ≢ old
    → IsGone old (update (is_exchanged id old) (exchanged new used_at expires_at) rows)
unfolding update
rotated-IsGone id old new used_at expires_at [] hit keyed fresh = tt
rotated-IsGone id old new used_at expires_at (r ∷ rows) hit (apart, keyed) fresh =
    elim (Bool-cases (is_exchanged id old r)) [
      | inl e ↦
          let held = is_exchanged_hash id old r e in
          rw e (
            fresh,
            exchanged-IsGone id old new used_at expires_at old rows fresh
                (subst (λ x. All (λ q. hash_of q ≢ x) rows) held (flipped r rows apart)),
          )
      | inr e ↦
          let later = any-later (is_exchanged id old) r rows e hit in
          rw e (
            apart-from_exchanged id old r rows later apart,
            rotated-IsGone id old new used_at expires_at rows later keyed fresh,
          )
    ]

-- No statement exchanges a token that no row holds.
unheld :
    (id : Uuid) (old : Bytes) (rows : Table)
    → IsGone old rows
    → any (is_exchanged id old) rows ≡ false
unheld id old [] h = refl
unheld id old (r ∷ rows) (k, ks) = elim (Bool-cases (is_exchanged id old r)) [
  | inl e ↦ absurd (k (is_exchanged_hash id old r e))
  | inr e ↦ rw e (unheld id old rows ks)
]

pub rotate_gone :
    (id : Uuid) (old new : Bytes) (used_at expires_at : Time) (rows : Table)
    → IsGone old rows
    → rotate id old new used_at expires_at rows ≡ fails Failure.not_found
unfolding rotate
rotate_gone id old new used_at expires_at rows gone = rw (unheld id old rows gone) refl

exchanges_gone :
    (hash : Bytes) (s : Statement) (rows : Table) → IsGone hash rows → exchanges hash s rows ≡ false
unfolding exchanges
exchanges_gone hash (rotates id old new used_at expires_at) rows gone =
    elim (Bool-cases (text_eq old hash)) [
      | inr e ↦ rw e refl
      | inl e ↦
          let same = (text_eq_iff old hash).0 e in
          rw e (
            rw
              (rotate_gone id old new used_at expires_at rows
                (subst (λ x. IsGone x rows) (sym same) gone))
              refl)
    ]
exchanges_gone hash (creates s) rows gone = refl
exchanges_gone hash (revokes user_id id at) rows gone = refl
exchanges_gone hash (revokes_sessions user_id keep at) rows gone = refl
exchanges_gone hash (deletes_finished before) rows gone = refl

exchanges_of_gone :
    (hash : Bytes) (statements : List Statement) (rows : Table)
    → All (NeverMints hash) statements
    → IsGone hash rows
    → exchanges_of hash statements rows ≡ 0
unfolding exchanges_of
exchanges_of_gone hash [] rows fresh gone = refl
exchanges_of_gone hash (s ∷ rest) rows (f, fresh) gone = rw (exchanges_gone hash s rows gone) (
    omega (
      arith,
      exchanges_of_gone hash rest (execute s rows) fresh (execute-IsGone hash s rows f gone),
    ))

exchanges-IsGone :
    (hash : Bytes) (s : Statement) (rows : Table)
    → NeverMints hash s
    → IsKeyed rows
    → exchanges hash s rows ≡ true
    → IsGone hash (execute s rows)
unfolding exchanges execute
exchanges-IsGone hash (rotates id old new used_at expires_at) rows fresh keyed h =
    elim (rotate-cases id old new used_at expires_at rows) [
      | inl (f, e) ↦ absurd (ground (arith, ap is_given e))
      | inr (hit, _, e) ↦
          let same : old ≡ hash = ground (arith, text_eq_iff old hash) in
          rw e (
            subst
              (λ x. IsGone x (update (is_exchanged id old) (exchanged new used_at expires_at) rows))
              same
              (rotated-IsGone id old new used_at expires_at rows hit keyed (λ k. fresh (k ∙ same))))
    ]
exchanges-IsGone hash (creates s) rows fresh keyed h = cc
exchanges-IsGone hash (revokes user_id id at) rows fresh keyed h = cc
exchanges-IsGone hash (revokes_sessions user_id keep at) rows fresh keyed h = cc
exchanges-IsGone hash (deletes_finished before) rows fresh keyed h = cc

-- Whatever statements of other requests the database carries out in between, a token is exchanged
-- at most once, so of all refreshes that present it, at once or later, one succeeds at most. The
-- statements do not bring the token in anew, and the rows of the table have different identifiers
-- and different tokens, as its unique indexes ask.
pub exchanges_of-le-one :
    (hash : Bytes) (statements : List Statement) (rows : Table)
    → All (NeverMints hash) statements
    → IsKeyed rows
    → exchanges_of hash statements rows ≤ 1
unfolding exchanges_of
exchanges_of-le-one hash [] rows fresh keyed = omega arith
exchanges_of-le-one hash (s ∷ rest) rows (f, fresh) keyed =
    elim (Bool-cases (exchanges hash s rows)) [
      | inl e ↦ rw e (
          omega (
            arith,
            exchanges_of_gone hash rest (execute s rows) fresh
                (exchanges-IsGone hash s rows f keyed e),
          ))
      | inr e ↦ rw e (
          omega (
            arith,
            exchanges_of-le-one hash rest (execute s rows) fresh (execute-IsKeyed s rows keyed),
          ))
    ]
