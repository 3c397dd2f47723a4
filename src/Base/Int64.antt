-- ===== src/Base/Int64.antt =====
-- Go's `int64` and 64-bit `int`: a value is its bit pattern, a number below 2 ^ 64, which stands
-- for itself below 2 ^ 63 and for itself less 2 ^ 64 from there on.
use Prim.Native.Nat.{ℕ, ◌+◌, ◌-◌, ◌*◌, ◌/◌, ◌%◌, ◌^◌, ◌<◌}
use mathlib.Core.Path.{◌≡◌, refl}
use mathlib.Core.Bool.{Bool}
use mathlib.Core.List.{List, [], ◌∷◌, ◌++◌}
use native.Mathlib.Omega.{arith}
use tripvault.Base.Lists.{total}
use tripvault.Base.Tests.{ltb, leb, if◌then◌else◌}

abbrev pub Int64 : Type 0
Int64 = ℕ

abbrev pub word : ℕ
word = 2 ^ 64

abbrev pub half_word : ℕ
half_word = 2 ^ 63

-- The pattern stands for a number that is not negative.
abbrev pub IsNonneg : Int64 → Type 0
IsNonneg a = a < half_word

infixl 65 ◌⊕◌ ◌⊖◌
abbrev pub ◌⊕◌ : Int64 → Int64 → Int64
a ⊕ b = (a + b) % word

abbrev pub ◌⊖◌ : Int64 → Int64 → Int64
a ⊖ b = (a + (word - b)) % word

abbrev pub neg64 : Int64 → Int64
neg64 a = (word - a) % word

abbrev pub mul64 : Int64 → Int64 → Int64
mul64 a b = (a * b) % word

abbrev pub is_neg : Int64 → Bool
is_neg a = leb half_word a

-- The signed order: shifting by 2 ^ 63 makes it that of the numbers.
abbrev pub lt64 : Int64 → Int64 → Bool
lt64 a b = ltb ((a + half_word) % word) ((b + half_word) % word)

abbrev pub le64 : Int64 → Int64 → Bool
le64 a b = leb ((a + half_word) % word) ((b + half_word) % word)

abbrev pub max64 : Int64 → Int64 → Int64
max64 a b = if lt64 a b then b else a

abbrev pub min64 : Int64 → Int64 → Int64
min64 a b = if lt64 b a then b else a

-- The size of a number without its sign.
abbrev pub abs64 : Int64 → ℕ
abs64 a = if is_neg a then word - a else a

-- Go's `/` and `%` round towards zero, so a remainder has the sign of the dividend.
unfoldable pub quot64 : Int64 → Int64 → Int64
quot64 a b =
    if is_neg a
    then (if is_neg b then (abs64 a / abs64 b) % word else neg64 (abs64 a / abs64 b))
    else (if is_neg b then neg64 (abs64 a / abs64 b) else abs64 a / abs64 b)

unfoldable pub rem64 : Int64 → Int64 → Int64
rem64 a b = if is_neg a then neg64 (abs64 a % abs64 b) else abs64 a % abs64 b

-- `total += x` for each of the amounts in turn.
unfoldable pub sum64 : List Int64 → Int64
sum64 [] = 0
sum64 (x ∷ xs) = x ⊕ sum64 xs

pub zero_lt_word : 0 < word
zero_lt_word = omega arith

pub ⊕_assoc : (a b c : Int64) → (a ⊕ b) ⊕ c ≡ a ⊕ (b ⊕ c)
⊕_assoc a b c = omega arith

pub ⊕_comm : (a b : Int64) → a ⊕ b ≡ b ⊕ a
⊕_comm a b = omega arith

pub sum64-lt : (xs : List Int64) → sum64 xs < word
unfolding sum64
sum64-lt [] = omega arith
sum64-lt (x ∷ xs) = omega arith

pub sum64-append : (xs ys : List Int64) → sum64 (xs ++ ys) ≡ sum64 xs ⊕ sum64 ys
unfolding sum64
sum64-append [] ys = omega (arith, sum64-lt ys)
sum64-append (x ∷ xs) ys = omega (arith, sum64-append xs ys)

-- Where the true sum is below 2 ^ 64, the sum of words is that sum.
pub sum64-eq-total : (xs : List Int64) → total xs < word → sum64 xs ≡ total xs
unfolding sum64
sum64-eq-total [] h = refl
sum64-eq-total (x ∷ xs) h = omega (arith, sum64-eq-total xs (omega arith))

-- On numbers that are not negative the signed operations are the plain ones.
pub quot64_nonneg : (a b : Int64) → IsNonneg a → IsNonneg b → quot64 a b ≡ a / b
unfolding quot64
quot64_nonneg a b ha hb = ground arith

pub rem64_nonneg : (a b : Int64) → IsNonneg a → IsNonneg b → rem64 a b ≡ a % b
unfolding rem64
rem64_nonneg a b ha hb = ground arith

pub lt64_nonneg : (a b : Int64) → IsNonneg a → IsNonneg b → lt64 a b ≡ ltb a b
lt64_nonneg a b ha hb = ground arith
