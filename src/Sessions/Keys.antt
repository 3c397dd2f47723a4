-- ===== src/Sessions/Keys.antt =====
-- The unique indexes of the table: no two rows share an identifier or a token.
use tripvault.Base.{
  ◌≡◌, ◌≢◌, sym, ◌∙◌, true, false, not, ◌&&◌, Bool, Bool-cases, inl, inr, [], ◌∷◌, All, any, select,
  if◌then◌else◌, ==_iff, arith,
}
use tripvault.Base.Text.{text_eq, text_eq_iff}
use tripvault.Domain.Values.{Uuid, Time}
use tripvault.Domain.Users.{Bytes}
use tripvault.Sessions.{SessionRow, Table, hash_of, holds, update, is_exchanged, exchanged, ended}

abbrev pub AreApart : SessionRow → SessionRow → Type 0
AreApart r q = (r.session.id ≢ q.session.id) × (hash_of r ≢ hash_of q)

abbrev pub IsKeyed : Table → Type 0
IsKeyed [] = Unit {0}
IsKeyed (r ∷ rows) = All (AreApart r) rows × IsKeyed rows

pub All-none :
    (p : SessionRow → Bool) (rows : Table) → any p rows ≡ false → All (λ r. p r ≡ false) rows
All-none p [] h = tt
All-none p (r ∷ rows) h = (ground arith, All-none p rows (ground arith))

-- A property that an update gives to the rows that it changes, and leaves to the others.
pub All-update {κ μ} :
    (P : SessionRow → Type κ) (Q : SessionRow → Type μ) (p : SessionRow → Bool)
    (f : SessionRow → SessionRow) (rows : Table)
    → ((r : SessionRow) → p r ≡ true → P r → Q (f r))
    → ((r : SessionRow) → p r ≡ false → P r → Q r)
    → All P rows
    → All Q (update p f rows)
unfolding update
All-update P Q p f [] hit miss h = tt
All-update P Q p f (r ∷ rows) hit miss (h, rest) = elim (Bool-cases (p r)) [
  | inl e ↦ rw e (hit r e h, All-update P Q p f rows hit miss rest)
  | inr e ↦ rw e (miss r e h, All-update P Q p f rows hit miss rest)
]

pub All-and {κ μ} :
    (P : SessionRow → Type κ) (Q : SessionRow → Type μ) (rows : Table)
    → All P rows
    → All Q rows
    → All (λ r. P r × Q r) rows
All-and P Q [] h k = tt
All-and P Q (r ∷ rows) (h, hs) (k, ks) = ((h, k), All-and P Q rows hs ks)

pub All-kept {κ} :
    (P : SessionRow → Type κ) (p : SessionRow → Bool) (rows : Table)
    → All P rows
    → All P (select p rows)
All-kept P p [] h = tt
All-kept P p (r ∷ rows) (h, hs) = elim (Bool-cases (p r)) [
  | inl e ↦ rw e (h, All-kept P p rows hs)
  | inr e ↦ rw e (All-kept P p rows hs)
]

-- An update that keeps rows apart, given a property of the rows.
update-IsKeyed {κ} :
    (P : SessionRow → Type κ) (p : SessionRow → Bool) (f : SessionRow → SessionRow) (rows : Table)
    → ((r q : SessionRow)
        → P r
        → P q
        → AreApart r q
        → AreApart (if p r then f r else r) (if p q then f q else q))
    → All P rows
    → IsKeyed rows
    → IsKeyed (update p f rows)
unfolding update
update-IsKeyed P p f [] apart ps h = tt
update-IsKeyed P p f (r ∷ rows) apart (pr, ps) (h, hs) =
    let first : SessionRow = if p r then f r else r in
    (
      All-update (λ q. P q × AreApart r q) (AreApart first) p f rows
          (λ q e k. let step = apart r q pr k.0 k.1 in rw e at step)
          (λ q e k. let step = apart r q pr k.0 k.1 in rw e at step)
          (All-and P (AreApart r) rows ps h),
      update-IsKeyed P p f rows apart ps hs,
    )

pub select-IsKeyed : (p : SessionRow → Bool) (rows : Table) → IsKeyed rows → IsKeyed (select p rows)
select-IsKeyed p [] h = tt
select-IsKeyed p (r ∷ rows) (h, hs) = elim (Bool-cases (p r)) [
  | inl e ↦ rw e (All-kept (AreApart r) p rows h, select-IsKeyed p rows hs)
  | inr e ↦ rw e (select-IsKeyed p rows hs)
]

ended-AreApart :
    (p : SessionRow → Bool) (at : Time) (r q : SessionRow)
    → AreApart r q
    → AreApart (if p r then ended at r else r) (if p q then ended at q else q)
ended-AreApart p at r q h = elim (Bool-cases (p r)) [
  | inl e ↦ elim (Bool-cases (p q)) [ inl k ↦ rw (e, k) h | inr k ↦ rw (e, k) h ]
  | inr e ↦ elim (Bool-cases (p q)) [ inl k ↦ rw (e, k) h | inr k ↦ rw (e, k) h ]
]

All-true : (rows : Table) → All (λ r. Unit {0}) rows
All-true [] = tt
All-true (r ∷ rows) = (tt, All-true rows)

pub ended-IsKeyed :
    (p : SessionRow → Bool) (at : Time) (rows : Table)
    → IsKeyed rows
    → IsKeyed (update p (ended at) rows)
ended-IsKeyed p at rows h =
    update-IsKeyed (λ r. Unit {0}) p (ended at) rows (λ r q _ _ k. ended-AreApart p at r q k)
      (All-true rows) h

-- What the unique index asks of the token that `Rotate` stores.
abbrev pub IsFree : Uuid → Bytes → Bytes → SessionRow → Type 0
IsFree id old new r = is_exchanged id old r ≡ false → hash_of r ≢ new

pub All-IsFree :
    (id : Uuid) (old new : Bytes) (rows : Table)
    → any (λ r. not (is_exchanged id old r) && holds new r) rows ≡ false
    → All (IsFree id old new) rows
unfolding text_eq
All-IsFree id old new [] h = tt
All-IsFree id old new (r ∷ rows) h = (
  λ e same. ground (arith, text_eq_iff (hash_of r) new),
  All-IsFree id old new rows (ground arith),
)

is_exchanged_id :
    (id : Uuid) (old : Bytes) (r : SessionRow) → is_exchanged id old r ≡ true → r.session.id ≡ id
is_exchanged_id id old r h = ground (arith, ==_iff r.session.id id)

exchanged-AreApart :
    (id : Uuid) (old new : Bytes) (used_at expires_at : Time) (r q : SessionRow)
    → let p = is_exchanged id old in
      let f = exchanged new used_at expires_at in
      IsFree id old new r
      → IsFree id old new q
      → AreApart r q
      → AreApart (if p r then f r else r) (if p q then f q else q)
exchanged-AreApart id old new used_at expires_at r q free_r free_q (ids, hashes) =
    elim (Bool-cases (is_exchanged id old r)) [
      | inl e ↦ elim (Bool-cases (is_exchanged id old q)) [
        | inl k ↦ absurd (ids (is_exchanged_id id old r e ∙ sym (is_exchanged_id id old q k)))
        | inr k ↦ rw (e, k) (ids, λ same. free_q k (sym same))
      ]
      | inr e ↦ elim (Bool-cases (is_exchanged id old q)) [
        | inl k ↦ rw (e, k) (ids, free_r e)
        | inr k ↦ rw (e, k) (ids, hashes)
      ]
    ]

pub exchanged-IsKeyed :
    (id : Uuid) (old new : Bytes) (used_at expires_at : Time) (rows : Table)
    → All (IsFree id old new) rows
    → IsKeyed rows
    → IsKeyed (update (is_exchanged id old) (exchanged new used_at expires_at) rows)
exchanged-IsKeyed id old new used_at expires_at rows free h =
    update-IsKeyed (IsFree id old new) (is_exchanged id old) (exchanged new used_at expires_at) rows
      (λ r q a b k. exchanged-AreApart id old new used_at expires_at r q a b k) free h
