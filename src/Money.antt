-- ===== src/Money.antt =====
-- backend/internal/domain/money.go: amounts as text.
pub mod RoundTrip
mod Tests
use Prim.Native.String.{String}
use tripvault.Base.{
  ℕ, zero, suc, ◌+◌, ◌-◌, ◌*◌, ◌/◌, ◌%◌, Bool, true, false, not, ◌&&◌, ◌||◌, Option, none, some, [],
  ◌∷◌, ◌++◌, length, any, ltb, leb, ◌==◌, if◌then◌else◌, Result, ok, err, ValidationError,
  new_validation_error,
}
use tripvault.Base.Int64.{Int64, half_word, ◌⊕◌, mul64, neg64, is_neg, abs64, lt64, quot64, rem64}
use tripvault.Base.Text.{Text, is_empty, trim_space}
use tripvault.Domain.Values.{Money}

-- `maxMoney`: the largest amount that numeric(14,2) holds.
abbrev pub max_money : Money
max_money = 99_999_999_999_999

-- `strings.Cut(s, ".")`
unfoldable pub cut_dot : Text → Text × Text × Bool
cut_dot [] = ([], [], false)
cut_dot (c ∷ s) =
    let (whole, fraction, has_fraction) = cut_dot s in
    if c == b'.' then ([], s, true) else (c ∷ whole, fraction, has_fraction)

abbrev pub is_digit : ℕ → Bool
is_digit c = leb b'0' c && leb c b'9'

-- The number that decimal digits stand for, after those that stand for `acc`.
unfoldable pub digits_value : ℕ → Text → ℕ
digits_value acc [] = acc
digits_value acc (c ∷ s) = digits_value (acc * 10 + (c - b'0')) s

-- `strconv.ParseInt(s, 10, 64)` of a text that holds decimal digits only; `none` is its range error.
unfoldable pub parse_int : Text → Option Int64
unfolding digits_value
parse_int s = let v = digits_value 0 s in if ltb v half_word then some v else none

-- The first two characters.
abbrev pub first_two : Text → Text
first_two (a ∷ b ∷ s) = a ∷ b ∷ []
first_two s = s

abbrev pub invalid_amount : String → ValidationError
invalid_amount field =
    new_validation_error field "invalid_amount"
      "must be a non-negative decimal with at most two fractional digits"

-- The hundredths of `ParseMoney`: its second `ParseInt` has two digits to read, and does not fail.
unfoldable pub parse_cents : Text → Int64
unfolding parse_int
parse_cents [] = 0
parse_cents fraction = elim (parse_int (first_two (fraction ++ b'0' ∷ []))) [
  | some cents ↦ cents
  | none ↦ 0
]

-- The end of `ParseMoney`, on the first `ParseInt`.
unfoldable pub money_of : String → Option Int64 → Text → Result Money
money_of field none fraction = err (invalid_amount field)
money_of field (some units) fraction =
    let amount = mul64 units 100 ⊕ parse_cents fraction in
    if lt64 max_money amount then err (invalid_amount field) else ok amount

-- The shape that `ParseMoney` refuses. The code counts bytes; a text with a character of more than
-- one byte is refused either way, for its digits.
unfoldable pub is_malformed : Text → Text → Bool → Bool
is_malformed whole fraction has_fraction =
    is_empty whole
    || ltb 12 (length whole)
    || has_fraction && (is_empty fraction || ltb 2 (length fraction))
    || any (λ c. not (is_digit c)) whole
    || any (λ c. not (is_digit c)) fraction

-- `ParseMoney`
unfoldable pub parse_money : String → Text → Result Money
parse_money field value =
    let (whole, fraction, has_fraction) = cut_dot (trim_space value) in
    if is_malformed whole fraction has_fraction
    then err (invalid_amount field)
    else money_of field (parse_int whole) fraction

-- The decimal digits of a number below `10 ^ fuel`.
unfoldable pub digits : ℕ → ℕ → Text
digits zero n = []
digits (suc fuel) n =
    let rest = digits fuel (n / 10) in
    if ltb n 10 then (b'0' + n) ∷ [] else rest ++ (b'0' + n % 10) ∷ []

-- `%d`; an `int64` has at most nineteen digits.
unfoldable pub print_int : Int64 → Text
print_int v = if is_neg v then b'-' ∷ digits 20 (abs64 v) else digits 20 v

-- `%02d`
unfoldable pub print_two : Int64 → Text
unfolding print_int
print_two v = if not (is_neg v) && ltb v 10 then b'0' ∷ print_int v else print_int v

-- `Money.String`
unfoldable pub print_money : Money → Text
unfolding print_int print_two quot64 rem64
print_money m =
    let value = if is_neg m then neg64 m else m in
    let sign = if is_neg m then b'-' ∷ [] else [] in
    sign ++ print_int (quot64 value 100) ++ b'.' ∷ print_two (rem64 value 100)
