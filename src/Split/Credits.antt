-- ===== src/Split/Credits.antt =====
-- `BuildBalances`: what each member is credited with and charged, end to end.
use tripvault.Base.{
  ℕ, suc, ◌+◌, ◌≤◌, ◌<◌, ◌≡◌, refl, ap, arith, List, [], ◌∷◌, length, total, All, ◌==◌,
  if◌then◌else◌, Bool, false, Option, none, some, inl, inr, Bool-cases, map, is_some, ◌&&◌,
}
use tripvault.Base.Int64.{Int64, half_word}
use tripvault.Domain.Values.{Uuid, Money}
use tripvault.Domain.Records.{Item, CostShare}
use tripvault.Split.{share_amounts, share_amounts_of, equal_parts, split_total}
use tripvault.Domain.Costs.{money_or_zero}
use tripvault.Domain.Kinds.{CostSplit, split_none, split_everyone, split_individuals}
use tripvault.Split.Balances.{
  MemberBalance, Settlement, add_paid, add_share, charge, charge_by, charge_item, charge_items,
  is_shared, build_balances,
}
use tripvault.Split.Settle.{paid_by, shared_by, Fits, received, sent, settle-LeavesSquare}

abbrev all_paid : List MemberBalance → ℕ
all_paid bs = total (map (λ b. b.paid) bs)

abbrev all_shared : List MemberBalance → ℕ
all_shared bs = total (map (λ b. b.share) bs)

module _ (u v : Uuid) (a : Money) where
  add_paid_lem :
      (bs : List MemberBalance)
      → all_paid bs + a < half_word
      → (paid_by u (add_paid v a bs) ≡ paid_by u bs + (if v == u then a else 0))
        × (shared_by u (add_paid v a bs) ≡ shared_by u bs)
        × (all_paid (add_paid v a bs) ≡ all_paid bs + a)
        × (all_shared (add_paid v a bs) ≡ all_shared bs)
  unfolding add_paid
  add_paid_lem [] h = ground arith
  add_paid_lem (b ∷ bs) h = ground (arith, add_paid_lem bs)

  add_share_lem :
      (bs : List MemberBalance)
      → all_shared bs + a < half_word
      → (shared_by u (add_share v a bs) ≡ shared_by u bs + (if v == u then a else 0))
        × (paid_by u (add_share v a bs) ≡ paid_by u bs)
        × (all_shared (add_share v a bs) ≡ all_shared bs + a)
        × (all_paid (add_share v a bs) ≡ all_paid bs)
  unfolding add_share
  add_share_lem [] h = ground arith
  add_share_lem (b ∷ bs) h = ground (arith, add_share_lem bs)

-- What the parts of one cost charge a member with.
abbrev pub owed : Uuid → List Money → List CostShare → ℕ
owed u (a ∷ amounts) (s ∷ shares) = (if s.user_id == u then a else 0) + owed u amounts shares
owed u _ _ = 0

charge_lem :
    (u payer : Uuid) (amounts : List Money) (shares : List CostShare) (bs : List MemberBalance)
    → length amounts ≤ length shares
    → all_paid bs + total amounts < half_word
    → all_shared bs + total amounts < half_word
    → let bs' = charge payer amounts shares bs in
      (paid_by u bs' ≡ paid_by u bs + (if payer == u then total amounts else 0))
      × (shared_by u bs' ≡ shared_by u bs + owed u amounts shares)
      × (all_paid bs' ≡ all_paid bs + total amounts)
      × (all_shared bs' ≡ all_shared bs + total amounts)
unfolding charge
charge_lem u payer [] [] bs e p q = ground arith
charge_lem u payer [] (s ∷ shares) bs e p q = ground arith
charge_lem u payer (a ∷ amounts) [] bs e p q = absurd (omega arith)
charge_lem u payer (a ∷ amounts) (s ∷ shares) bs e p q = ground (
  arith,
  add_paid_lem u payer a bs,
  add_share_lem u s.user_id a (add_paid payer a bs),
  charge_lem u payer amounts shares (add_share s.user_id a (add_paid payer a bs)),
)

length-equal_parts :
    (t n : Money) (k : ℕ) (xs : List CostShare) → length (equal_parts t n k xs) ≡ length xs
unfolding equal_parts
length-equal_parts t n k [] = refl
length-equal_parts t n k (x ∷ xs) = ap suc (length-equal_parts t n (suc k) xs)

length-map {ℓ κ} :
    {A : Type ℓ} {B : Type κ} (f : A → B) (xs : List A) → length (map f xs) ≡ length xs
length-map f [] = refl
length-map f (x ∷ xs) = ap suc (length-map f xs)

parts-le :
    (split : CostSplit) (t : Money) (xs : List CostShare)
    → length (share_amounts_of split t xs) ≤ length xs
unfolding share_amounts_of
parts-le split_everyone t xs = omega (arith, length-equal_parts t (length xs) 0 xs)
parts-le split_individuals t xs =
    omega (arith, length-map (λ (s : CostShare). money_or_zero s.amount) xs)
parts-le split_none t xs = omega arith
parts-le _ t xs = omega arith

-- A cost that is split: the code's guards, its payer set and the cost split at all.
abbrev pub is_counted : Item → Bool
is_counted i = is_some i.paid_by && is_shared i

abbrev pub names : Option Uuid → Uuid → Bool
names none u = false
names (some p) u = p == u

-- What the costs of a document credit a member with, charge them with, and hand out in all.
module _ (travelers : Int64) (report : Bool) where
  abbrev pub parts : Item → List Money
  parts i = if is_counted i then share_amounts i travelers report else []

  abbrev pub credited : Uuid → List Item → ℕ
  credited u [] = 0
  credited u (i ∷ items) = (if names i.paid_by u then total (parts i) else 0) + credited u items

  abbrev pub charged : Uuid → List Item → ℕ
  charged u [] = 0
  charged u (i ∷ items) = owed u (parts i) i.cost_shares + charged u items

  abbrev pub handed_out : List Item → ℕ
  handed_out [] = 0
  handed_out (i ∷ items) = total (parts i) + handed_out items

  owed_nil : (u : Uuid) (xs : List CostShare) → owed u [] xs ≡ 0
  owed_nil u [] = refl
  owed_nil u (x ∷ xs) = refl

  -- The balances after some costs, from those before.
  abbrev Charges : Uuid → List MemberBalance → List MemberBalance → ℕ → ℕ → ℕ → Type 0
  Charges u bs bs' credit debit both =
      (paid_by u bs' ≡ paid_by u bs + credit)
      × (shared_by u bs' ≡ shared_by u bs + debit)
      × (all_paid bs' ≡ all_paid bs + both)
      × (all_shared bs' ≡ all_shared bs + both)

  charge_by_lem :
      (u : Uuid) (payer : Option Uuid) (i : Item) (bs : List MemberBalance)
      → let ps = if is_some payer && is_shared i then share_amounts i travelers report else [] in
        all_paid bs + total ps < half_word
        → all_shared bs + total ps < half_word
        → Charges u bs
            (charge_by payer i travelers report bs)
            (if names payer u then total ps else 0)
            (owed u ps i.cost_shares)
            (total ps)
  unfolding charge_by share_amounts
  charge_by_lem u none i bs p q = ground (arith, owed_nil u i.cost_shares)
  charge_by_lem u (some payer) i bs p q = elim (Bool-cases (is_shared i)) [
    | inl e ↦ rw e (
        charge_lem u payer (share_amounts i travelers report) i.cost_shares bs
          (parts-le i.cost_split (split_total i travelers report) i.cost_shares) (rw e at p)
          (rw e at q))
    | inr e ↦ rw e (ground (arith, owed_nil u i.cost_shares))
  ]

  charge_items_lem :
      (u : Uuid) (items : List Item) (bs : List MemberBalance)
      → all_paid bs + handed_out items < half_word
      → all_shared bs + handed_out items < half_word
      → Charges u bs
          (charge_items items travelers report bs)
          (credited u items)
          (charged u items)
          (handed_out items)
  unfolding charge_items charge_item
  charge_items_lem u [] bs p q = ground arith
  charge_items_lem u (i ∷ items) bs p q =
      let bs' = charge_by i.paid_by i travelers report bs in
      let now = charge_by_lem u i.paid_by i bs (omega arith) (omega arith) in
      let later = charge_items_lem u items bs' (omega arith) (omega arith) in
      (omega arith, omega arith, omega arith, omega arith)

All-fit :
    (bs : List MemberBalance) → all_paid bs < half_word → all_shared bs < half_word → All Fits bs
All-fit [] p q = tt
All-fit (b ∷ bs) p q = ((omega arith, omega arith), All-fit bs (omega arith) (omega arith))

-- The balances of a document say what each member was credited with and charged, summed over its
-- split costs, and the payments always come out and square that: with what they receive and send,
-- everybody has paid their own part. Every payment is positive, and there are at most as many as
-- members. All that is handed out together stays below 2 ^ 63.
pub build_balances_squares :
    (items : List Item) (travelers : Int64) (report : Bool)
    → handed_out travelers report items < half_word
    → let (bs, payments) = build_balances items travelers report in
      ((u : Uuid)
        → (paid_by u bs ≡ credited travelers report u items)
          × (shared_by u bs ≡ charged travelers report u items))
      × ((l : List Settlement) × (payments ≡ some l)
          × ((u : Uuid)
              → received u l + charged travelers report u items
                ≡ sent u l + credited travelers report u items)
          × All (λ s. 0 < s.amount) l
          × (length l ≤ length bs))
unfolding build_balances
build_balances_squares items travelers report h =
    let bs = charge_items items travelers report [] in
    let tally =
      λ (u : Uuid). charge_items_lem travelers report u items [] (omega arith) (omega arith) in
    let t0 = tally 0 in
    let (l, run, square) =
      settle-LeavesSquare bs (All-fit bs (omega arith) (omega arith)) (omega arith) in
    (
      λ u. (omega (arith, tally u), omega (arith, tally u)),
      (l, run, (λ u. omega (arith, square.0 u, tally u)), square.1, square.2),
    )
