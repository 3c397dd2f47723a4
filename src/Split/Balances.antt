-- ===== src/Split/Balances.antt =====
-- split.go: `BuildBalances` and `settle`. Where the code keeps a map from a member to their
-- place in the list of balances, the model looks the member up in the list.
use tripvault.Base.{
  ℕ, zero, suc, ◌+◌, Bool, true, false, not, ◌&&◌, Option, none, some, List, [], ◌∷◌, length, ◌==◌,
  if◌then◌else◌, is_some,
}
use tripvault.Base.Int64.{Int64, ◌⊕◌, ◌⊖◌, neg64, lt64, min64}
use tripvault.Base.Sort.{sort_stable}
use tripvault.Domain.Kinds.{CostSplit, split_none, is_visit}
use tripvault.Domain.Values.{Uuid, Money}
use tripvault.Domain.Records.{Item, CostShare}
use tripvault.Split.{share_amounts}
use mathlib.Core.Option

-- `MemberBalance`
pub record MemberBalance : Type 0 where
  pub user_id : Uuid
  pub paid : Money
  pub share : Money

-- `MemberBalance.Net`
unfoldable pub net : MemberBalance → Money
net b = b.paid ⊖ b.share

-- `Settlement`
pub record Settlement : Type 0 where
  pub from : Uuid
  pub to : Uuid
  pub amount : Money

-- `balanceOf(user).Paid += amount`: a member who is not listed yet is appended.
unfoldable pub add_paid : Uuid → Money → List MemberBalance → List MemberBalance
add_paid user amount [] = record { user_id = user; paid = 0 ⊕ amount; share = 0 } ∷ []
add_paid user amount (b ∷ bs) =
    if b.user_id == user
    then record b { paid = b.paid ⊕ amount } ∷ bs
    else b ∷ add_paid user amount bs

-- `balanceOf(user).Share += amount`
unfoldable pub add_share : Uuid → Money → List MemberBalance → List MemberBalance
add_share user amount [] = record { user_id = user; paid = 0; share = 0 ⊕ amount } ∷ []
add_share user amount (b ∷ bs) =
    if b.user_id == user
    then record b { share = b.share ⊕ amount } ∷ bs
    else b ∷ add_share user amount bs

-- The inner loop of `BuildBalances`: the parts of one cost, beside the members who owe them.
unfoldable pub charge : Uuid → List Money → List CostShare → List MemberBalance → List MemberBalance
unfolding add_paid add_share
charge payer (amount ∷ amounts) (s ∷ shares) bs =
    charge payer amounts shares (add_share s.user_id amount (add_paid payer amount bs))
charge payer _ _ bs = bs

abbrev is_unsplit : CostSplit → Bool
is_unsplit split_none = true
is_unsplit _ = false

-- The guard of the loop of `BuildBalances`, its payer aside.
unfoldable pub is_shared : Item → Bool
unfolding is_visit
is_shared i = is_visit i.kind && is_some i.day_id && not (is_unsplit i.cost_split)

-- One round of the loop of `BuildBalances`; an item without a payer is passed over.
unfoldable pub charge_by :
    Option Uuid → Item → Int64 → Bool → List MemberBalance → List MemberBalance
unfolding charge share_amounts is_shared
charge_by none i travelers report bs = bs
charge_by (some payer) i travelers report bs =
    if is_shared i then charge payer (share_amounts i travelers report) i.cost_shares bs else bs

unfoldable pub charge_item : Item → Int64 → Bool → List MemberBalance → List MemberBalance
unfolding charge_by
charge_item i travelers report bs = charge_by i.paid_by i travelers report bs

unfoldable pub charge_items : List Item → Int64 → Bool → List MemberBalance → List MemberBalance
unfolding charge_item
charge_items [] travelers report bs = bs
charge_items (i ∷ items) travelers report bs =
    charge_items items travelers report (charge_item i travelers report bs)

-- `party` of `settle`
pub record Party : Type 0 where
  pub user_id : Uuid
  pub amount : Money
  pub order : ℕ

-- The members who are owed, from position `order` on.
unfoldable pub creditors : ℕ → List MemberBalance → List Party
unfolding net
creditors order [] = []
creditors order (b ∷ bs) =
    if lt64 0 (net b)
    then record { user_id = b.user_id; amount = net b; order = order } ∷ creditors (suc order) bs
    else creditors (suc order) bs

-- The members who owe.
unfoldable pub debtors : ℕ → List MemberBalance → List Party
unfolding net
debtors order [] = []
debtors order (b ∷ bs) =
    if lt64 (net b) 0
    then record { user_id = b.user_id; amount = neg64 (net b); order = order }
      ∷ debtors (suc order) bs
    else debtors (suc order) bs

-- The order of `largestFirst`.
unfoldable pub larger : Party → Party → Bool
larger a b = if a.amount == b.amount then lt64 a.order b.order else lt64 b.amount a.amount

-- An index moves on when the account that it stands at is square.
abbrev pub unless_square : Party → List Party → List Party
unless_square p ps = if p.amount == 0 then ps else p ∷ ps

abbrev pub reduce : Party → Money → Party
reduce p amount = record p { amount = p.amount ⊖ amount }

-- The loop of `settle` on the accounts that are left, with fuel; `none` when that runs out.
unfoldable pub settle_loop : ℕ → List Party → List Party → Option (List Settlement)
settle_loop fuel [] ds = some []
settle_loop fuel (c ∷ cs) [] = some []
settle_loop zero (c ∷ cs) (d ∷ ds) = none
settle_loop (suc fuel) (c ∷ cs) (d ∷ ds) =
    let amount = min64 c.amount d.amount in
    Option.map (◌∷◌ (record { from = d.user_id; to = c.user_id; amount = amount }))
      (settle_loop fuel (unless_square (reduce c amount) cs) (unless_square (reduce d amount) ds))

-- `settle`. Every round squares an account, so a round for each account is enough.
unfoldable pub settle : List MemberBalance → Option (List Settlement)
unfolding creditors debtors larger sort_stable settle_loop
settle bs =
    let cs = sort_stable larger (creditors 0 bs) in
    let ds = sort_stable larger (debtors 0 bs) in settle_loop (length cs + length ds) cs ds

-- `BuildBalances`
unfoldable pub build_balances :
    List Item → Int64 → Bool → List MemberBalance × Option (List Settlement)
unfolding charge_items settle
build_balances items travelers report =
    let bs = charge_items items travelers report [] in (bs, settle bs)
