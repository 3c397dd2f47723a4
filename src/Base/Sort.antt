-- ===== src/Base/Sort.antt =====
-- `sort.SliceStable`: the one stable arrangement by a strict order, here by insertion.
use Prim.Native.Nat.{ℕ, suc, ◌+◌}
use mathlib.Core.Path.{◌≡◌, refl, ap, ◌∙◌}
use mathlib.Core.Bool.{Bool, true, false}
use native.Mathlib.Omega.{arith}
use tripvault.Base.Lists.{All, All-imp, All-select, select, total, length}
use mathlib.Core.List.{List, [], ◌∷◌, map, Perm}
use mathlib.Core.List.Perm
use mathlib.Core.Logic.{inl, inr}
use tripvault.Base.Tests.{if◌then◌else◌, Bool-cases, ltb, ◌==◌}

module _ {ℓ} {A : Type ℓ} (less : A → A → Bool) where
  -- Before the first member that is not less: equal members keep their order.
  unfoldable pub insert_stable : A → List A → List A
  insert_stable x [] = x ∷ []
  insert_stable x (y ∷ ys) = if less y x then y ∷ insert_stable x ys else x ∷ y ∷ ys

  unfoldable pub sort_stable : List A → List A
  unfolding insert_stable
  sort_stable [] = []
  sort_stable (x ∷ xs) = insert_stable x (sort_stable xs)

  pub insert_stable-perm : (x : A) (l : List A) → Perm (insert_stable x l) (x ∷ l)
  unfolding insert_stable
  insert_stable-perm x [] = Perm.refl _
  insert_stable-perm x (y ∷ ys) = elim (Bool-cases (less y x)) [
    | inl e ↦ rw e (Perm.trans (Perm.cons y (insert_stable-perm x ys)) (Perm.swap x y ys))
    | inr e ↦ rw e (Perm.refl _)
  ]

  pub sort_stable-perm : (l : List A) → Perm (sort_stable l) l
  unfolding sort_stable
  sort_stable-perm [] = Perm.refl _
  sort_stable-perm (x ∷ xs) =
      Perm.trans (insert_stable-perm x (sort_stable xs)) (Perm.cons x (sort_stable-perm xs))

  pub All-insert_stable {κ} :
      (P : A → Type κ) (x : A) (xs : List A) → P x → All P xs → All P (insert_stable x xs)
  unfolding insert_stable
  All-insert_stable P x [] h k = (h, tt)
  All-insert_stable P x (y ∷ ys) h k = elim (Bool-cases (less y x)) [
    | inl e ↦ rw e (k.0, All-insert_stable P x ys h k.1)
    | inr e ↦ rw e (h, k)
  ]

  pub All-sort_stable {κ} : (P : A → Type κ) (xs : List A) → All P xs → All P (sort_stable xs)
  unfolding sort_stable
  All-sort_stable P [] h = tt
  All-sort_stable P (x ∷ xs) h =
      All-insert_stable P x (sort_stable xs) h.0 (All-sort_stable P xs h.1)

  All-inserted {κ} :
      (P : A → Type κ) (x : A) (xs : List A) → All P (insert_stable x xs) → All P (x ∷ xs)
  unfolding insert_stable
  All-inserted P x [] h = h
  All-inserted P x (y ∷ ys) h = elim (Bool-cases (less y x)) [
    | inl e ↦ let (k, ks) = rw e at h in let (l, ls) = All-inserted P x ys ks in (l, (k, ls))
    | inr e ↦ rw e at h
  ]

  -- What holds of all that is sorted held of all before.
  pub All-sorted {κ} : (P : A → Type κ) (xs : List A) → All P (sort_stable xs) → All P xs
  unfolding sort_stable
  All-sorted P [] h = tt
  All-sorted P (x ∷ xs) h =
      let (k, ks) = All-inserted P x (sort_stable xs) h in (k, All-sorted P xs ks)

  select-cons-perm :
      (p : A → Bool) (x : A) (xs ys : List A)
      → Perm (select p xs) (select p ys)
      → Perm (select p (x ∷ xs)) (select p (x ∷ ys))
  select-cons-perm p x xs ys h = elim (Bool-cases (p x)) [
    | inl e ↦ rw e (Perm.cons x h)
    | inr e ↦ rw e h
  ]

  select-swap-perm :
      (p : A → Bool) (x y : A) (xs : List A) → Perm (select p (y ∷ x ∷ xs)) (select p (x ∷ y ∷ xs))
  select-swap-perm p x y xs = elim (Bool-cases (p x)) [
    | inl k ↦ elim (Bool-cases (p y)) [
      | inl l ↦ rw (k, l) (Perm.swap x y (select p xs))
      | inr l ↦ rw (k, l) (Perm.refl _)
    ]
    | inr k ↦ rw k (Perm.refl _)
  ]

  select-insert_stable-perm :
      (p : A → Bool) (x : A) (xs : List A)
      → Perm (select p (insert_stable x xs)) (select p (x ∷ xs))
  unfolding insert_stable
  select-insert_stable-perm p x [] = Perm.refl _
  select-insert_stable-perm p x (y ∷ ys) = elim (Bool-cases (less y x)) [
    | inr e ↦ rw e (Perm.refl _)
    | inl e ↦ rw e (
        Perm.trans
          (select-cons-perm p y (insert_stable x ys) (x ∷ ys) (select-insert_stable-perm p x ys))
          (select-swap-perm p x y ys))
  ]

  pub select-sort_stable-perm :
      (p : A → Bool) (xs : List A) → Perm (select p (sort_stable xs)) (select p xs)
  unfolding sort_stable
  select-sort_stable-perm p [] = Perm.refl _
  select-sort_stable-perm p (x ∷ xs) =
      Perm.trans (select-insert_stable-perm p x (sort_stable xs))
        (select-cons-perm p x (sort_stable xs) xs (select-sort_stable-perm p xs))

  -- Sorting keeps every sum.
  total-insert_stable :
      (f : A → ℕ) (x : A) (xs : List A)
      → total (map f (insert_stable x xs)) ≡ f x + total (map f xs)
  unfolding insert_stable
  total-insert_stable f x [] = refl
  total-insert_stable f x (y ∷ ys) = ground (arith, total-insert_stable f x ys)

  pub total-sort_stable :
      (f : A → ℕ) (xs : List A) → total (map f (sort_stable xs)) ≡ total (map f xs)
  unfolding sort_stable
  total-sort_stable f [] = refl
  total-sort_stable f (x ∷ xs) =
      total-insert_stable f x (sort_stable xs) ∙ ap (◌+◌ (f x)) (total-sort_stable f xs)

  pub length-insert_stable : (x : A) (xs : List A) → length (insert_stable x xs) ≡ suc (length xs)
  unfolding insert_stable
  length-insert_stable x [] = refl
  length-insert_stable x (y ∷ ys) = ground (arith, length-insert_stable x ys)

  pub length-sort_stable : (xs : List A) → length (sort_stable xs) ≡ length xs
  unfolding sort_stable
  length-sort_stable [] = refl
  length-sort_stable (x ∷ xs) =
      length-insert_stable x (sort_stable xs) ∙ ap suc (length-sort_stable xs)

-- Each member stands so to all later ones.
abbrev pub IsSorted {ℓ κ} : {A : Type ℓ} → (A → A → Type κ) → List A → Type κ
IsSorted R [] = Unit
IsSorted R (x ∷ xs) = All (R x) xs × IsSorted R xs

pub select-IsSorted {ℓ κ} :
    {A : Type ℓ} (R : A → A → Type κ) (p : A → Bool) (xs : List A)
    → IsSorted R xs
    → IsSorted R (select p xs)
select-IsSorted R p [] h = tt
select-IsSorted R p (x ∷ xs) (h, hs) = elim (Bool-cases (p x)) [
  | inl e ↦ rw e (
    All-select p (R x) xs (All-imp (R x) (λ y. p y ≡ true → R x y) xs (λ y k _. k) h),
    select-IsSorted R p xs hs,
  )
  | inr e ↦ rw e (select-IsSorted R p xs hs)
]

-- A relation that the order decides.
module _ {ℓ κ} {A : Type ℓ} (less : A → A → Bool) (R : A → A → Type κ)
    (before : (a b : A) → less a b ≡ true → R a b)
    (otherwise : (a b : A) → less b a ≡ false → R a b)
    (trans : (a b c : A) → R a b → R b c → R a c) where
  insert_stable-IsSorted :
      (x : A) (xs : List A) → IsSorted R xs → IsSorted R (insert_stable less x xs)
  unfolding insert_stable
  insert_stable-IsSorted x [] h = (tt, tt)
  insert_stable-IsSorted x (y ∷ ys) (h, hs) = elim (Bool-cases (less y x)) [
    | inl e ↦
        rw e (All-insert_stable less (R y) x ys (before y x e) h, insert_stable-IsSorted x ys hs)
    | inr e ↦
        let first = otherwise x y e in
        rw e ((first, All-imp (R y) (R x) ys (λ z k. trans x y z first k) h), (h, hs))
  ]

  pub sort_stable-IsSorted : (xs : List A) → IsSorted R (sort_stable less xs)
  unfolding sort_stable
  sort_stable-IsSorted [] = tt
  sort_stable-IsSorted (x ∷ xs) =
      insert_stable-IsSorted x (sort_stable less xs) (sort_stable-IsSorted xs)

-- The order is that of a number of each member.
module _ {ℓ} {A : Type ℓ} (rank : A → ℕ) where
  abbrev by_rank : A → A → Bool
  by_rank a b = ltb (rank a) (rank b)

  -- Members with one number keep their order.
  select-insert_stable :
      (r : ℕ) (x : A) (xs : List A)
      → select (λ y. rank y == r) (insert_stable by_rank x xs) ≡ select (λ y. rank y == r) (x ∷ xs)
  unfolding insert_stable
  select-insert_stable r x [] = refl
  select-insert_stable r x (y ∷ ys) = elim (Bool-cases (by_rank y x)) [
    | inr e ↦ rw e refl
    | inl e ↦ rw e (ground (arith, e, select-insert_stable r x ys))
  ]

  pub select-sort_stable :
      (r : ℕ) (xs : List A)
      → select (λ y. rank y == r) (sort_stable by_rank xs) ≡ select (λ y. rank y == r) xs
  unfolding sort_stable
  select-sort_stable r [] = refl
  select-sort_stable r (x ∷ xs) =
      select-insert_stable r x (sort_stable by_rank xs)
      ∙ ap (λ l. if rank x == r then x ∷ l else l) (select-sort_stable r xs)
