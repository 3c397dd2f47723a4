-- ===== src/Split/Tests.antt =====
-- Runs of the split of costs, and its theorems at concrete inputs.
use tripvault.Base.{
  ◌>>=◌, refuse_if, ℕ, ◌+◌, ◌≤◌, ◌<◌, false, some, List, [], ◌∷◌, ◌≡◌, ◌↔◌, refl, arith, All,
  length, ltb, ok,
}
use tripvault.Base.Int64.{sum64}
use tripvault.Domain.Samples.{lunch}
use tripvault.Domain.Kinds.{split_individuals}
use tripvault.Domain.Records.{Item}
use tripvault.Split.{share_amounts, split_total, check_cost_split, normalize_split}
use tripvault.Split.Balances.{build_balances, MemberBalance, Settlement, settle, is_shared}
use tripvault.Split.Shares.{share_amounts-everyone}
use tripvault.Split.Check.{FitsTrip, check_cost_split_iff}
use tripvault.Split.Normalize.{IsNormal, normalize_split-IsNormal}
use tripvault.Split.Settle.{paid_by, shared_by, received, sent, LeavesSquare, settle-LeavesSquare}
use tripvault.Split.Credits.{credited, charged, build_balances_squares}
use tripvault.Split.Rows.{HasOneRowEach, build_balances-HasOneRowEach}

lunch_parts : share_amounts lunch 3 false ≡ 334 ∷ 333 ∷ 333 ∷ []
unfolding share_amounts
lunch_parts = refl

lunch_balances : build_balances (lunch ∷ []) 3 false ≡ (
  record { user_id = 7; paid = 1000; share = 333 }
      ∷ record { user_id = 8; paid = 0; share = 334 }
      ∷ record { user_id = 9; paid = 0; share = 333 }
      ∷ [],
  some (record { from = 8; to = 7; amount = 334 } ∷ record { from = 9; to = 7; amount = 333 } ∷ []),
)
unfolding build_balances
lunch_balances = refl

abbrev items : List Item
items = lunch ∷ []

share_amounts-everyone_example :
    (sum64 (share_amounts lunch 3 false) ≡ 1000)
    × All (λ p. (333 ≤ p) × (p ≤ 334)) (share_amounts lunch 3 false)
unfolding split_total
share_amounts-everyone_example =
    share_amounts-everyone lunch 3 false refl (omega arith) (omega arith) (omega arith)

-- The members' own amounts, which do not make up the cost.
abbrev own_amounts : Item
own_amounts = record lunch {
  cost_split = split_individuals;
  cost_shares =
      record { user_id = 8; amount = some 400 } ∷ record { user_id = 7; amount = some 500 } ∷ [];
}

check_cost_split_iff_example :
    (check_cost_split own_amounts (λ u. ltb u 10) 3 false ≡ ok tt)
    ↔ FitsTrip own_amounts (λ u. ltb u 10) 3 false
check_cost_split_iff_example = check_cost_split_iff own_amounts (λ u. ltb u 10) 3 false

normalize_split-IsNormal_example : IsNormal lunch × (normalize_split lunch ≡ ok lunch)
unfolding normalize_split ◌>>=◌ refuse_if
normalize_split-IsNormal_example = normalize_split-IsNormal lunch lunch refl

abbrev balances : List MemberBalance
balances =
    record { user_id = 7; paid = 1000; share = 333 }
    ∷ record { user_id = 8; paid = 0; share = 334 }
    ∷ record { user_id = 9; paid = 0; share = 333 }
    ∷ []

settle-LeavesSquare_example :
    (l : List Settlement) × (settle balances ≡ some l) × LeavesSquare balances l
settle-LeavesSquare_example = settle-LeavesSquare balances (omega arith) refl

build_balances_squares_example :
    let (bs, payments) = build_balances items 3 false in
    ((u : ℕ)
      → (paid_by u bs ≡ credited 3 false u items) × (shared_by u bs ≡ charged 3 false u items))
    × ((l : List Settlement) × (payments ≡ some l)
        × ((u : ℕ) → received u l + charged 3 false u items ≡ sent u l + credited 3 false u items)
        × All (λ s. 0 < s.amount) l
        × (length l ≤ length bs))
unfolding share_amounts is_shared
build_balances_squares_example = build_balances_squares items 3 false (omega arith)

build_balances-HasOneRowEach_example : HasOneRowEach (build_balances items 3 false).0
build_balances-HasOneRowEach_example = build_balances-HasOneRowEach items 3 false
