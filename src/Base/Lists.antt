-- ===== src/Base/Lists.antt =====
-- Lists measured by native numbers, predicates on all their members, and selections.
use Prim.Native.Nat.{ℕ, zero, suc, ◌+◌, ◌≤◌}
use mathlib.Core.Path.{◌≡◌}
use mathlib.Core.Bool.{Bool, true, false, ◌||◌}
use mathlib.Core.List.{List, [], ◌∷◌, ◌++◌}
use mathlib.Core.Option.{Option, none, some}
use native.Mathlib.Omega.{arith}
use mathlib.Core.Logic.{inl, inr}
use tripvault.Base.Tests.{if◌then◌else◌, Bool-cases}

module _ {ℓ} {A : Type ℓ} where
  abbrev pub length : List A → ℕ
  length [] = 0
  length (x ∷ xs) = suc (length xs)

  abbrev pub get_elem? : List A → ℕ → Option A
  get_elem? [] i = none
  get_elem? (x ∷ xs) zero = some x
  get_elem? (x ∷ xs) (suc i) = get_elem? xs i

  -- The loop that appends what passes a test.
  abbrev pub select : (A → Bool) → List A → List A
  select p [] = []
  select p (x ∷ xs) = if p x then x ∷ select p xs else select p xs

  -- The first member that passes a test.
  abbrev pub find : (A → Bool) → List A → Option A
  find p [] = none
  find p (x ∷ xs) = if p x then some x else find p xs

  abbrev pub any : (A → Bool) → List A → Bool
  any p [] = false
  any p (x ∷ xs) = p x || any p xs

  abbrev pub All {κ} : (A → Type κ) → List A → Type κ
  All P [] = Unit
  All P (x ∷ xs) = P x × All P xs

  pub length-append : (xs ys : List A) → length (xs ++ ys) ≡ length xs + length ys
  length-append [] ys = omega arith
  length-append (x ∷ xs) ys = omega (arith, length-append xs ys)

  pub length-select-le : (p : A → Bool) (xs : List A) → length (select p xs) ≤ length xs
  length-select-le p [] = omega arith
  length-select-le p (x ∷ xs) = ground (arith, length-select-le p xs)

  pub All-append {κ} : (P : A → Type κ) (xs ys : List A) → All P xs → All P ys → All P (xs ++ ys)
  All-append P [] ys h k = k
  All-append P (x ∷ xs) ys h k = (h.0, All-append P xs ys h.1 k)

-- The sum of numbers, without a bound.
abbrev pub total : List ℕ → ℕ
total [] = 0
total (x ∷ xs) = x + total xs

pub total-append : (xs ys : List ℕ) → total (xs ++ ys) ≡ total xs + total ys
total-append [] ys = omega arith
total-append (x ∷ xs) ys = omega (arith, total-append xs ys)

module _ {ℓ} {A : Type ℓ} where
  abbrev pub opt_or : Option A → Option A → Option A
  opt_or none b = b
  opt_or (some a) b = some a

  -- The last member that passes a test: a map, or a variable, that a loop writes again.
  abbrev pub last_such : (A → Bool) → List A → Option A
  last_such p [] = none
  last_such p (x ∷ xs) = opt_or (last_such p xs) (if p x then some x else none)

  abbrev pub opt_list : Option A → List A
  opt_list none = []
  opt_list (some a) = a ∷ []

  abbrev pub flat_map {κ} : {B : Type κ} → (A → List B) → List A → List B
  flat_map f [] = []
  flat_map f (x ∷ xs) = f x ++ flat_map f xs

  pub All-imp {κ ι} :
      (P : A → Type κ) (Q : A → Type ι) (xs : List A) → ((x : A) → P x → Q x) → All P xs → All Q xs
  All-imp P Q [] f h = tt
  All-imp P Q (x ∷ xs) f (h, hs) = (f x h, All-imp P Q xs f hs)

  pub All-every {κ} : (P : A → Type κ) (xs : List A) → ((x : A) → P x) → All P xs
  All-every P [] f = tt
  All-every P (x ∷ xs) f = (f x, All-every P xs f)

  pub All-select {κ} :
      (p : A → Bool) (P : A → Type κ) (xs : List A)
      → All (λ x. p x ≡ true → P x) xs
      → All P (select p xs)
  All-select p P [] h = tt
  All-select p P (x ∷ xs) (h, hs) = elim (Bool-cases (p x)) [
    | inl e ↦ rw e (h e, All-select p P xs hs)
    | inr e ↦ rw e (All-select p P xs hs)
  ]

  All-opt_or {κ} :
      (P : A → Type κ) (a b : Option A)
      → All P (opt_list a)
      → All P (opt_list b)
      → All P (opt_list (opt_or a b))
  All-opt_or P none b h k = k
  All-opt_or P (some a) b h k = h

  pub All-last_such {κ} :
      (p : A → Bool) (P : A → Type κ) (xs : List A)
      → All (λ x. p x ≡ true → P x) xs
      → All P (opt_list (last_such p xs))
  All-last_such p P [] h = tt
  All-last_such p P (x ∷ xs) (h, hs) =
      All-opt_or P (last_such p xs) (if p x then some x else none) (All-last_such p P xs hs)
        (elim (Bool-cases (p x)) [ inl e ↦ rw e (h e, tt) | inr e ↦ rw e tt ])
