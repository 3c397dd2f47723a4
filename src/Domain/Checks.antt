-- ===== src/Domain/Checks.antt =====
-- document.go: the checks of texts that the rules share.
use Prim.Native.String
use Prim.Native.String.{String}
use tripvault.Base.{
  ℕ, zero, suc, ◌/◌, ◌%◌, Result, ok, ◌>>◌, refuse_if, new_validation_error, length, ltb, ◌==◌,
  if◌then◌else◌,
}
use tripvault.Base.Text.{Text, trim_space}

-- One decimal digit.
abbrev digit_text : ℕ → String
digit_text n =
    if n == 0
    then "0"
    else if n == 1
    then "1"
    else if n == 2
    then "2"
    else if n == 3
    then "3"
    else if n == 4
    then "4"
    else if n == 5
    then "5"
    else if n == 6
    then "6"
    else if n == 7
    then "7"
    else if n == 8
    then "8"
    else "9"

-- `%d` of a number below `10 ^ fuel`
number_text : ℕ → ℕ → String
number_text zero n = ""
number_text (suc fuel) n =
    let rest = number_text fuel (n / 10) in
    if ltb n 10 then digit_text n else String.◌++◌ rest (digit_text (n % 10))

-- The message of `checkLength`
unfoldable pub too_long : ℕ → String
unfolding number_text
too_long limit = String.◌++◌ "must be at most " (String.◌++◌ (number_text 20 limit) " characters")

-- `checkLength`
unfoldable pub check_length : String → Text → ℕ → Result (Unit {0})
unfolding too_long
check_length field value limit =
    refuse_if (ltb limit (length value)) (new_validation_error field "too_long" (too_long limit))

-- `trimmedText`
unfoldable pub trimmed_text : String → Text → ℕ → Result Text
unfolding check_length
trimmed_text field value limit = do
  check_length field (trim_space value) limit
  ok (trim_space value)

-- `maxShortText`
abbrev pub max_short_text : ℕ
max_short_text = 500
