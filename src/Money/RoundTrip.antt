-- ===== src/Money/RoundTrip.antt =====
-- What is printed is read back, and what is read is in range.
use native.Mathlib.Nat.{pow-suc}
use mathlib.Core.List.{reverse, reverse-cons, reverse-reverse}
use Prim.Native.String.{String}
use tripvault.Base.{
  ℕ, zero, suc, ◌+◌, ◌-◌, ◌*◌, ◌/◌, ◌%◌, ◌^◌, ◌≤◌, ◌<◌, ◌≡◌, refl, arith, true, false, not, some,
  [], ◌∷◌, ◌++◌, length, length-append, any, All, All-append, ltb, ◌==◌, ok, Bool-cases, inl, inr,
}
use tripvault.Base.Int64.{half_word, IsNonneg, quot64_nonneg, rem64_nonneg, is_neg}
use tripvault.Base.Text.{Text, is_empty, is_space, trim_left, trim_space}
use tripvault.Domain.Values.{Money}
use tripvault.Money.{
  max_money, cut_dot, is_digit, digits_value, parse_int, parse_cents, money_of, is_malformed,
  parse_money, digits, print_two, print_money,
}

abbrev IsDigit : ℕ → Type 0
IsDigit c = (b'0' ≤ c) × (c ≤ b'9')

digits-IsDigit : (f n : ℕ) → All IsDigit (digits f n)
unfolding digits
digits-IsDigit zero n = tt
digits-IsDigit (suc f) n = elim (Bool-cases (ltb n 10)) [
  | inl e ↦ rw e ((omega arith, ground arith), tt)
  | inr e ↦ rw e (
      All-append IsDigit (digits f (n / 10)) _ (digits-IsDigit f (n / 10))
        ((omega arith, omega arith), tt))
]

digits_value-append :
    (acc : ℕ) (s t : Text) → digits_value acc (s ++ t) ≡ digits_value (digits_value acc s) t
unfolding digits_value
digits_value-append acc [] t = refl
digits_value-append acc (c ∷ s) t = digits_value-append (acc * 10 + (c - b'0')) s t

digits_value-digits : (f n : ℕ) → n < 10 ^ f → digits_value 0 (digits f n) ≡ n
unfolding digits_value digits
digits_value-digits zero n h = omega arith
digits_value-digits (suc f) n h = elim (Bool-cases (ltb n 10)) [
  | inl e ↦ rw e (omega arith)
  | inr e ↦ rw e (
      rw (digits_value-append 0 (digits f (n / 10)) _)
        (rw (digits_value-digits f (n / 10) (omega (arith, pow-suc 10 f))) (omega arith)))
]

length-digits-le : (f k n : ℕ) → n < 10 ^ suc k → length (digits f n) ≤ suc k
unfolding digits
length-digits-le zero k n h = omega arith
length-digits-le (suc f) zero n h =
    let small : ltb n 10 ≡ true = ground arith in rw small (omega arith)
length-digits-le (suc f) (suc k) n h = elim (Bool-cases (ltb n 10)) [
  | inl e ↦ rw e (omega arith)
  | inr e ↦ rw e (
      omega (
        arith,
        length-append (digits f (n / 10)) ((b'0' + n % 10) ∷ []),
        length-digits-le f k (n / 10) (omega (arith, pow-suc 10 (suc k))),
      ))
]

is_empty-append : (s : Text) (c : ℕ) (t : Text) → is_empty (s ++ c ∷ t) ≡ false
is_empty-append [] c t = refl
is_empty-append (x ∷ s) c t = refl

is_empty-digits : (f n : ℕ) → is_empty (digits (suc f) n) ≡ false
unfolding digits
is_empty-digits f n = elim (Bool-cases (ltb n 10)) [
  | inl e ↦ rw e refl
  | inr e ↦ rw e (is_empty-append (digits f (n / 10)) _ [])
]

any-not-digit : (s : Text) → All IsDigit s → any (λ c. not (is_digit c)) s ≡ false
any-not-digit [] h = refl
any-not-digit (c ∷ s) h = ground (arith, any-not-digit s h.1)

cut_dot-append : (w t : Text) → All IsDigit w → cut_dot (w ++ b'.' ∷ t) ≡ (w, t, true)
unfolding cut_dot
cut_dot-append [] t h = refl
cut_dot-append (c ∷ w) t h =
    let other : (c == b'.') ≡ false = ground arith in rw other (rw (cut_dot-append w t h.1))

-- A text without spaces is its own trimming.
abbrev IsSolid : ℕ → Type 0
IsSolid c = is_space c ≡ false

trim_left-solid : (s : Text) → All IsSolid s → trim_left s ≡ s
unfolding trim_left
trim_left-solid [] h = refl
trim_left-solid (c ∷ s) h = rw (h.0)

All-reverse : (P : ℕ → Type 0) (s : Text) → All P s → All P (reverse s)
All-reverse P [] h = tt
All-reverse P (c ∷ s) h =
    rw reverse-cons (All-append P (reverse s) (c ∷ []) (All-reverse P s h.1) (h.0, tt))

trim_space-solid : (s : Text) → All IsSolid s → trim_space s ≡ s
unfolding trim_space
trim_space-solid s h =
    rw (trim_left-solid s h)
      (rw (trim_left-solid (reverse s) (All-reverse IsSolid s h)) (reverse-reverse s))

digit-IsSolid : (c : ℕ) → IsDigit c → IsSolid c
unfolding is_space
digit-IsSolid c h = ground arith

All-IsSolid : (s : Text) → All IsDigit s → All IsSolid s
All-IsSolid [] h = tt
All-IsSolid (c ∷ s) h = (digit-IsSolid c h.0, All-IsSolid s h.1)

digits_one : (f n : ℕ) → n < 10 → digits (suc f) n ≡ (b'0' + n) ∷ []
unfolding digits
digits_one f n h = let small : ltb n 10 ≡ true = ground arith in rw small

digits_step : (f n : ℕ) → 10 ≤ n → digits (suc f) n ≡ digits f (n / 10) ++ (b'0' + n % 10) ∷ []
unfolding digits
digits_step f n h = let large : ltb n 10 ≡ false = ground arith in rw large

digits_two :
    (f n : ℕ) → 10 ≤ n → n < 100 → digits (suc (suc f)) n ≡ (b'0' + n / 10) ∷ (b'0' + n % 10) ∷ []
digits_two f n h k = rw (digits_step (suc f) n h, digits_one f (n / 10) (omega arith))

-- Two digits for the hundredths.
print_two_lem : (v : ℕ) → v < 100 → print_two v ≡ (b'0' + v / 10) ∷ (b'0' + v % 10) ∷ []
unfolding print_two
print_two_lem v h = elim (Bool-cases (ltb v 10)) [
  | inl e ↦
      let nonneg : is_neg v ≡ false = ground arith in
      rw (nonneg) (rw e (rw (digits_one 19 v (ground arith)) (ground arith)))
  | inr e ↦
      let nonneg : is_neg v ≡ false = ground arith in
      rw (nonneg) (rw e (digits_two 18 v (ground arith) h))
]

print_money_lem :
    (m : Money) → IsNonneg m → print_money m ≡ digits 20 (m / 100) ++ b'.' ∷ print_two (m % 100)
unfolding print_money
print_money_lem m h =
    let nonneg : is_neg m ≡ false = ground arith in
    let nonneg' : is_neg (m / 100) ≡ false = ground arith in
    rw nonneg (
      rw (quot64_nonneg m 100 h (omega arith), rem64_nonneg m 100 h (omega arith))
        (rw nonneg' refl))

parse_int-digits : (n : ℕ) → n < 10 ^ 12 → parse_int (digits 20 n) ≡ some n
unfolding parse_int
parse_int-digits n h =
    rw (digits_value-digits 20 n (omega arith))
      (let small : ltb n half_word ≡ true = ground arith in rw small)

parse_cents-print_two : (v : ℕ) → v < 100 → parse_cents (print_two v) ≡ v
unfolding parse_cents digits_value
parse_cents-print_two v h = rw (print_two_lem v h) (ground arith)

-- The two parts of a printed amount are read back as the amount.
money_of-parts :
    (field : String) (m : Money)
    → m ≤ max_money
    → money_of field (parse_int (digits 20 (m / 100))) (print_two (m % 100)) ≡ ok m
unfolding money_of
money_of-parts field m h =
    rw (parse_int-digits (m / 100) (omega arith), parse_cents-print_two (m % 100) (omega arith))
      (ground arith)

print_two-IsDigit : (v : ℕ) → v < 100 → All IsDigit (print_two v)
print_two-IsDigit v h = rw (print_two_lem v h) (omega arith)

printed_well_formed :
    (m : Money)
    → m ≤ max_money
    → is_malformed (digits 20 (m / 100)) (print_two (m % 100)) true ≡ false
unfolding is_malformed
printed_well_formed m h =
    let short : ltb 12 (length (digits 20 (m / 100))) ≡ false =
      ground (arith, length-digits-le 20 11 (m / 100) (omega arith)) in
    rw (is_empty-digits 19 (m / 100)) (
      rw short (
        rw (any-not-digit (digits 20 (m / 100)) (digits-IsDigit 20 (m / 100))) (
          rw (any-not-digit (print_two (m % 100)) (print_two-IsDigit (m % 100) (omega arith)))
            (rw (print_two_lem (m % 100) (omega arith)) refl))))

printed-IsSolid :
    (m : Money) → m ≤ max_money → All IsSolid (digits 20 (m / 100) ++ b'.' ∷ print_two (m % 100))
unfolding is_space
printed-IsSolid m h =
    All-append IsSolid (digits 20 (m / 100)) (b'.' ∷ print_two (m % 100))
      (All-IsSolid _ (digits-IsDigit 20 (m / 100)))
      (refl, All-IsSolid _ (print_two-IsDigit (m % 100) (omega arith)))

-- Every amount from 0 to the largest that the database holds is read back as it was printed.
pub parse_money-print_money :
    (field : String) (m : Money) → m ≤ max_money → parse_money field (print_money m) ≡ ok m
unfolding parse_money
parse_money-print_money field m h = rw (print_money_lem m (omega arith)) (
    rw (trim_space-solid (digits 20 (m / 100) ++ b'.' ∷ print_two (m % 100)) (printed-IsSolid m h))
      (rw (cut_dot-append (digits 20 (m / 100)) (print_two (m % 100)) (digits-IsDigit 20 (m / 100)))
        (rw (printed_well_formed m h) (money_of-parts field m h))))
