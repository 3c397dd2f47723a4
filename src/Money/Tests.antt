-- ===== src/Money/Tests.antt =====
-- Amounts read and printed.
use tripvault.Base.{arith, ◌≡◌, refl, ok}
use tripvault.Base.Text.{text, trim_space}
use tripvault.Money.{digits, cut_dot, is_malformed, money_of, parse_cents, parse_money, print_money}
use tripvault.Money.RoundTrip.{parse_money-print_money}

printed : print_money 124050 ≡ text "1240.50"
unfolding print_money digits
printed = refl

parse_short : parse_money "cost" (text " 1240.5 ") ≡ ok 124050
unfolding parse_money cut_dot is_malformed money_of parse_cents trim_space
parse_short = refl

parse_money-print_money_example : parse_money "cost" (print_money 124050) ≡ ok 124050
parse_money-print_money_example = parse_money-print_money "cost" 124050 (omega arith)
