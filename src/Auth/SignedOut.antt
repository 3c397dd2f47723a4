-- ===== src/Auth/SignedOut.antt =====
-- A session that its owner signs out of.
use tripvault.Base.{
  ◌≡◌, refl, sym, ◌∙◌, false, Bool-cases, inl, inr, List, [], ◌∷◌, All, any, find, Option, none,
  some, arith, subst, ap, ◌==◌, ==_refl, ==_iff, Option-cases,
}
use tripvault.Base.Text.{Text}
use tripvault.Domain.Values.{Uuid, Time}
use tripvault.Domain.Users.{Session, Bytes}
use tripvault.Sessions.{
  SessionRow, fails, gives, token_invalid, Table, get_by_hash, scan_session, is_ended, holds,
}
use tripvault.Sessions.Keys.{IsKeyed, AreApart}
use tripvault.Sessions.Statements.{Statement, execute_all, revoke-cases}
use tripvault.Sessions.Ended.{
  IsClosed, NeverCreates, revoked-IsClosed, execute_all-IsClosed, active_user_closed,
  others-IsClosed,
}
use tripvault.Auth.{Service, Accounts, logout, authenticate}
use tripvault.Auth.Found.{find-some}

row_of : SessionRow → Option SessionRow → SessionRow
row_of d none = d
row_of d (some r) = r

session_or : Session → Option Session → Session
session_or d none = d
session_or d (some s) = s

apart_ids :
    (q : SessionRow) (rows : Table)
    → All (AreApart q) rows
    → any (λ x. x.session.id == q.session.id) rows ≡ false
apart_ids q [] h = refl
apart_ids q (x ∷ rows) (k, ks) = elim (Bool-cases (x.session.id == q.session.id)) [
  | inl e ↦ absurd (k.0 (sym ((==_iff x.session.id q.session.id).0 e)))
  | inr e ↦ rw e (apart_ids q rows ks)
]

-- A session that is found, and that nothing is left to revoke of, is revoked.
unended-IsClosed :
    (hash : Bytes) (r : SessionRow) (rows : Table)
    → find (holds hash) rows ≡ some r
    → any (is_ended r.session.user_id r.session.id) rows ≡ false
    → IsKeyed rows
    → IsClosed r.session.id rows
unfolding row_of
unended-IsClosed hash r [] found unended keyed = cc
unended-IsClosed hash r (q ∷ rows) found unended (apart, keyed) = elim (Bool-cases (holds hash q)) [
  | inl e ↦
      let here : find (holds hash) (q ∷ rows) ≡ some q = rw e refl in
      let same : r ≡ q = sym (ap (row_of q) found) ∙ ap (row_of q) here in
      let first : is_ended r.session.user_id r.session.id q ≡ false = ground arith in
      (
        (λ _.
            let own = subst (λ x. is_ended x.session.user_id x.session.id q ≡ false) same first in
            ground (arith, own, ==_refl q.session.id, ==_refl q.session.user_id)),
        others-IsClosed r.session.id q rows (ap (λ x. x.session.id) (sym same)) apart,
      )
  | inr e ↦
      let found' : find (holds hash) rows ≡ some r = sym (rw e refl) ∙ found in
      (
        (λ same. absurd (
            cc (
              (==_iff r.session.id q.session.id).1 (sym same),
              (find-some (holds hash) (λ x. x.session.id == q.session.id) rows r found').1
                  (apart_ids q rows apart),
            ))),
        unended-IsClosed hash r rows found' (ground arith) keyed,
      )
]

row-found :
    (hash : Bytes) (rows : Table) (stored : Session)
    → get_by_hash hash rows ≡ some stored
    → (r : SessionRow) × (find (holds hash) rows ≡ some r) × (r.session ≡ stored)
unfolding get_by_hash session_or
row-found hash rows stored h = elim (Option-cases (find (holds hash) rows)) [
  | inl e ↦ cc (e)
  | inr (r, e) ↦
      let here : scan_session (find (holds hash) rows) ≡ some r.session = rw e refl in
      (r, e, ap (session_or r.session) (sym here ∙ h))
]

logout-IsClosed :
    (v : Service) (token : Text) (now : Time) (accounts : Accounts) (stored : Session)
    → IsKeyed accounts.sessions
    → get_by_hash (v.hash_token token) accounts.sessions ≡ some stored
    → IsClosed stored.id (logout v token now accounts).1.sessions
unfolding logout
logout-IsClosed v token now accounts stored keyed h =
    let rows = accounts.sessions in
    let hash = v.hash_token token in
    elim (revoke-cases stored.user_id stored.id now rows) [
      | inl (unended, e) ↦
          let (r, found, same) = row-found hash rows stored h in
          let none_left =
            subst (λ x. any (is_ended x.user_id x.id) rows ≡ false) (sym same) unended in
          rw h (
            rw e (
              subst (λ x. IsClosed x.id rows) same
                (unended-IsClosed hash r rows found none_left keyed)))
      | inr (hit, e) ↦ rw h (rw e (revoked-IsClosed stored.user_id stored.id now rows hit keyed))
    ]

-- After signing out with a session's token, no access token of that session opens anything any
-- more, at whatever instant, whatever the accounts are by then and whatever statements on the table
-- other requests bring in between. Identifiers of sessions are not used again, and the rows of the
-- table have different identifiers and tokens.
pub authenticate-logout :
    (v : Service) (token access : Text) (now : Time) (accounts later : Accounts) (stored : Session)
    (user_id : Uuid) (statements : List Statement)
    → IsKeyed accounts.sessions
    → get_by_hash (v.hash_token token) accounts.sessions ≡ some stored
    → All (NeverCreates stored.id) statements
    → later.sessions ≡ execute_all statements (logout v token now accounts).1.sessions
    → v.parse_access_token access ≡ gives (user_id, stored.id)
    → (t : Time) → authenticate v access t later ≡ fails token_invalid
unfolding authenticate
authenticate-logout v token access now accounts later stored user_id statements keyed h fresh
      reached names t =
    let closed =
      execute_all-IsClosed stored.id statements (logout v token now accounts).1.sessions fresh
        (logout-IsClosed v token now accounts stored keyed h) in
    rw names (
      rw
        (active_user_closed user_id stored.id t later.users later.sessions
          (subst (IsClosed stored.id) (sym reached) closed))
        refl)
