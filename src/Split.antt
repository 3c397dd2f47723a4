-- ===== src/Split.antt =====
-- backend/internal/domain/split.go: how a cost is shared among the members of a trip.
-- The balances and the payments that square them are in the child `Balances`.
pub mod Balances
pub mod Credits
pub mod Settle
pub mod Rows
pub mod Normalize
pub mod Check
pub mod Shares
mod Tests
use tripvault.Base.{
  ℕ, suc, Bool, true, false, not, ◌&&◌, Option, none, some, List, [], ◌∷◌, length, any, ltb, ◌==◌,
  if◌then◌else◌, is_some, Result, ok, err, ◌>>=◌, ◌>>◌, refuse_if, new_validation_error, map,
}
use tripvault.Base.Int64.{Int64, ◌⊕◌, quot64, rem64, lt64, is_neg}
use tripvault.Domain.Kinds.{CostSplit, split_none, split_everyone, split_individuals}
use tripvault.Domain.Values.{Uuid, Money}
use tripvault.Domain.Records.{Item, CostShare}
use tripvault.Domain.Costs.{planned_cost_total, actual_cost_total, money_or_zero}

-- `maxCostShares`
abbrev pub max_cost_shares : ℕ
max_cost_shares = 100

-- The first `switch` of `normalizeSplit`: no split means none.
abbrev default_split : CostSplit → Result CostSplit
default_split CostSplit.unset = ok split_none
default_split (CostSplit.unknown t) =
    err (new_validation_error "cost_split" "unsupported" "must be none, everyone or individuals")
default_split split = ok split

-- The second `switch` of `normalizeSplit`: the amount of one share.
abbrev normalize_amount : CostSplit → Option Money → Result (Option Money)
normalize_amount split_everyone amount = ok none
normalize_amount _ none =
    err (new_validation_error "cost_shares" "amount_required" "every share needs its amount")
normalize_amount _ (some amount) = do
  refuse_if (is_neg amount) (new_validation_error "cost_shares" "negative" "must not be negative")
  ok (some amount)

-- The loop of `normalizeSplit`; `seen` is the map of the members named so far.
unfoldable pub normalize_shares : CostSplit → List Uuid → List CostShare → Result (List CostShare)
normalize_shares split seen [] = ok []
normalize_shares split seen (share ∷ shares) = do
  refuse_if (any (λ user. user == share.user_id) seen)
      (new_validation_error "cost_shares" "duplicate_member" "names somebody twice")
  amount ← normalize_amount split share.amount
  rest ← normalize_shares split (share.user_id ∷ seen) shares
  ok (record share { amount = amount } ∷ rest)

-- `normalizeSplit` past its first two tests, where the cost is shared.
unfoldable pub normalize_shared : CostSplit → Item → Result Item
unfolding normalize_shares
normalize_shared split i = do
  refuse_if (not (is_some i.paid_by))
      (new_validation_error "paid_by" "required" "a split cost needs somebody who pays it")
  refuse_if (length i.cost_shares == 0)
      (new_validation_error "cost_shares" "required" "a split cost needs somebody to share it")
  refuse_if (ltb max_cost_shares (length i.cost_shares))
      (new_validation_error "cost_shares" "too_many" "is shared among too many people")
  shares ← normalize_shares split [] i.cost_shares
  ok (record i { cost_split = split; cost_shares = shares })

-- `normalizeSplit` once the kind of split is known.
unfoldable pub normalize_known_split : CostSplit → Item → Result Item
unfolding normalize_shared
normalize_known_split split_none i = ok (record i { cost_split = split_none; cost_shares = [] })
normalize_known_split split i = normalize_shared split i

-- `Item.normalizeSplit`
unfoldable pub normalize_split : Item → Result Item
unfolding normalize_known_split
normalize_split i = do split ← default_split i.cost_split; normalize_known_split split i

-- `Item.SplitTotal`
unfoldable pub split_total : Item → Int64 → Bool → Money
unfolding planned_cost_total actual_cost_total
split_total i travelers report =
    if report && is_some i.actual_cost
    then actual_cost_total i travelers
    else planned_cost_total i travelers

-- The loop of `CheckCostSplit`: everybody listed is allowed, and the sum of the amounts.
unfoldable pub check_shares : (Uuid → Bool) → Money → List CostShare → Result Money
check_shares allowed sum [] = ok sum
check_shares allowed sum (share ∷ shares) = do
  refuse_if (not (allowed share.user_id)) (
      new_validation_error "cost_shares" "unknown_member"
        "names somebody who is not a member of the trip")
  check_shares allowed (sum ⊕ money_or_zero share.amount) shares

abbrev is_individuals : CostSplit → Bool
is_individuals split_individuals = true
is_individuals _ = false

-- A pointer that is set names somebody who is not allowed.
abbrev is_stranger : (Uuid → Bool) → Option Uuid → Bool
is_stranger allowed none = false
is_stranger allowed (some user) = not (allowed user)

-- `Item.CheckCostSplit`
unfoldable pub check_cost_split : Item → (Uuid → Bool) → Int64 → Bool → Result (Unit {0})
unfolding check_shares split_total
check_cost_split i allowed travelers report = do
  refuse_if (is_stranger allowed i.paid_by)
      (new_validation_error "paid_by" "unknown_member" "is not a member of the trip")
  sum ← check_shares allowed 0 i.cost_shares
  refuse_if (is_individuals i.cost_split && not (sum == split_total i travelers report))
      (new_validation_error "cost_shares" "sum_mismatch" "the shares must add up to the cost")

-- The loop of `ShareAmounts` over equal parts: the first `total % count` get one more.
unfoldable pub equal_parts : Money → Money → ℕ → List CostShare → List Money
unfolding quot64 rem64
equal_parts total count index [] = []
equal_parts total count index (share ∷ shares) =
    (if lt64 index (rem64 total count) then quot64 total count ⊕ 1 else quot64 total count)
    ∷ equal_parts total count (suc index) shares

-- The branches of `ShareAmounts`, by the kind of split.
unfoldable pub share_amounts_of : CostSplit → Money → List CostShare → List Money
unfolding equal_parts
share_amounts_of split_everyone total shares = equal_parts total (length shares) 0 shares
share_amounts_of split_individuals total shares = map (λ s. money_or_zero s.amount) shares
share_amounts_of _ total shares = []

-- `Item.ShareAmounts`
unfoldable pub share_amounts : Item → Int64 → Bool → List Money
unfolding share_amounts_of split_total
share_amounts i travelers report =
    share_amounts_of i.cost_split (split_total i travelers report) i.cost_shares
