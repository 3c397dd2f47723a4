-- ===== src/Split/Rows.antt =====
-- `BuildBalances` lists every member once.
use tripvault.Base.{◌≢◌, arith, List, [], ◌∷◌, All, Bool, Option, none, some, inl, inr, Bool-cases}
use tripvault.Base.Int64.{Int64}
use tripvault.Domain.Values.{Uuid, Money}
use tripvault.Domain.Records.{Item, CostShare}
use tripvault.Split.{share_amounts}
use tripvault.Split.Balances.{
  MemberBalance, add_paid, add_share, charge, charge_by, charge_item, charge_items, is_shared,
  build_balances,
}

abbrev IsAbsent : Uuid → List MemberBalance → Type 0
IsAbsent u = All (λ b. b.user_id ≢ u)

-- No two rows are of one member.
abbrev pub HasOneRowEach : List MemberBalance → Type 0
HasOneRowEach [] = Unit
HasOneRowEach (b ∷ bs) = IsAbsent b.user_id bs × HasOneRowEach bs

module _ (u : Uuid) (a : Money) where
  add_paid-IsAbsent :
      (v : Uuid) (bs : List MemberBalance) → u ≢ v → IsAbsent v bs → IsAbsent v (add_paid u a bs)
  unfolding add_paid
  add_paid-IsAbsent v [] ne h = (ne, tt)
  add_paid-IsAbsent v (b ∷ bs) ne h = ground (arith, add_paid-IsAbsent v bs ne h.1)

  add_share-IsAbsent :
      (v : Uuid) (bs : List MemberBalance) → u ≢ v → IsAbsent v bs → IsAbsent v (add_share u a bs)
  unfolding add_share
  add_share-IsAbsent v [] ne h = (ne, tt)
  add_share-IsAbsent v (b ∷ bs) ne h = ground (arith, add_share-IsAbsent v bs ne h.1)

  add_paid-HasOneRowEach :
      (bs : List MemberBalance) → HasOneRowEach bs → HasOneRowEach (add_paid u a bs)
  unfolding add_paid
  add_paid-HasOneRowEach [] h = (tt, tt)
  add_paid-HasOneRowEach (b ∷ bs) h =
      ground (arith, add_paid-IsAbsent b.user_id bs, add_paid-HasOneRowEach bs h.1)

  add_share-HasOneRowEach :
      (bs : List MemberBalance) → HasOneRowEach bs → HasOneRowEach (add_share u a bs)
  unfolding add_share
  add_share-HasOneRowEach [] h = (tt, tt)
  add_share-HasOneRowEach (b ∷ bs) h =
      ground (arith, add_share-IsAbsent b.user_id bs, add_share-HasOneRowEach bs h.1)

charge-HasOneRowEach :
    (payer : Uuid) (amounts : List Money) (shares : List CostShare) (bs : List MemberBalance)
    → HasOneRowEach bs
    → HasOneRowEach (charge payer amounts shares bs)
unfolding charge
charge-HasOneRowEach payer [] shares bs h = h
charge-HasOneRowEach payer (a ∷ amounts) [] bs h = h
charge-HasOneRowEach payer (a ∷ amounts) (s ∷ shares) bs h =
    charge-HasOneRowEach payer amounts shares (add_share s.user_id a (add_paid payer a bs)) (
      add_share-HasOneRowEach s.user_id a (add_paid payer a bs)
        (add_paid-HasOneRowEach payer a bs h))

charge_by-HasOneRowEach :
    (payer : Option Uuid) (i : Item) (travelers : Int64) (report : Bool) (bs : List MemberBalance)
    → HasOneRowEach bs
    → HasOneRowEach (charge_by payer i travelers report bs)
unfolding charge_by
charge_by-HasOneRowEach none i travelers report bs h = h
charge_by-HasOneRowEach (some payer) i travelers report bs h = elim (Bool-cases (is_shared i)) [
  | inl e ↦ rw e (charge-HasOneRowEach payer (share_amounts i travelers report) i.cost_shares bs h)
  | inr e ↦ rw e h
]

charge_items-HasOneRowEach :
    (items : List Item) (travelers : Int64) (report : Bool) (bs : List MemberBalance)
    → HasOneRowEach bs
    → HasOneRowEach (charge_items items travelers report bs)
unfolding charge_items charge_item
charge_items-HasOneRowEach [] travelers report bs h = h
charge_items-HasOneRowEach (i ∷ items) travelers report bs h =
    charge_items-HasOneRowEach items travelers report (charge_by i.paid_by i travelers report bs)
      (charge_by-HasOneRowEach i.paid_by i travelers report bs h)

-- Whatever the costs of a document are, its balances list no member twice.
pub build_balances-HasOneRowEach :
    (items : List Item) (travelers : Int64) (report : Bool)
    → HasOneRowEach (build_balances items travelers report).0
unfolding build_balances
build_balances-HasOneRowEach items travelers report =
    charge_items-HasOneRowEach items travelers report [] tt
