-- ===== src/Auth/Found.antt =====
-- What the queries find in a table that statements have changed.
use tripvault.Base.{
  ◌≡◌, refl, true, false, Bool, Bool-cases, inl, inr, [], ◌∷◌, All, any, find, none, some, arith,
  subst,
}
use tripvault.Base.Text.{text_eq, text_eq_iff}
use tripvault.Domain.Users.{Bytes}
use tripvault.Sessions.{SessionRow, Table, hash_of, holds, update, get_by_hash}
use tripvault.Sessions.Once.{IsGone}

-- A row that is found has what was looked for, and is in the table.
pub find-some :
    (p : SessionRow → Bool) (q : SessionRow → Bool) (rows : Table) (r : SessionRow)
    → find p rows ≡ some r
    → (p r ≡ true) × (any q rows ≡ false → q r ≡ false)
find-some p q [] r h = cc
find-some p q (x ∷ rows) r h = elim (Bool-cases (p x)) [
  | inl e ↦
      let same : x ≡ r = cc in
      subst (λ y. (p y ≡ true) × (any q (x ∷ rows) ≡ false → q y ≡ false)) same
        (e, λ k. ground arith)
  | inr e ↦ let rest = find-some p q rows r (cc) in (rest.0, λ k. rest.1 (ground arith))
]

pub find-none :
    (p : SessionRow → Bool) (rows : Table) → All (λ r. p r ≡ false) rows → find p rows ≡ none
find-none p [] h = refl
find-none p (r ∷ rows) (k, ks) = rw k (find-none p rows ks)

unheld : (hash : Bytes) (rows : Table) → IsGone hash rows → All (λ r. holds hash r ≡ false) rows
unfolding text_eq
unheld hash [] h = tt
unheld hash (r ∷ rows) (k, ks) = elim (Bool-cases (holds hash r)) [
  | inl e ↦ absurd (k ((text_eq_iff (hash_of r) hash).0 e))
  | inr e ↦ (e, unheld hash rows ks)
]

pub get_by_hash_gone :
    (hash : Bytes) (rows : Table) → IsGone hash rows → get_by_hash hash rows ≡ none
unfolding get_by_hash
get_by_hash_gone hash rows h = rw (find-none (holds hash) rows (unheld hash rows h)) refl

-- An updated row that passes a test which no other row passes is what a search finds.
pub find-update :
    (p q : SessionRow → Bool) (f : SessionRow → SessionRow) (rows : Table)
    → ((r : SessionRow) → p r ≡ true → q (f r) ≡ true)
    → any p rows ≡ true
    → All (λ r. p r ≡ false → q r ≡ false) rows
    → (r : SessionRow) × (p r ≡ true) × (find q (update p f rows) ≡ some (f r))
unfolding update
find-update p q f [] hit found others = cc
find-update p q f (r ∷ rows) hit found (k, ks) = elim (Bool-cases (p r)) [
  | inl e ↦ (r, e, rw (e, hit r e) refl)
  | inr e ↦
      let (r', e', here) = find-update p q f rows hit (ground arith) ks in
      (r', e', rw (e, k e) here)
]

pub any_of_find :
    (p q : SessionRow → Bool) (rows : Table) (r : SessionRow)
    → find p rows ≡ some r
    → q r ≡ true
    → any q rows ≡ true
any_of_find p q rows r h e = elim (Bool-cases (any q rows)) [
  | inl k ↦ k
  | inr k ↦ cc (e, (find-some p q rows r h).1 k)
]
