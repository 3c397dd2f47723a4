-- ===== src/Split/Check.antt =====
-- `CheckCostSplit` decides exactly that a split fits its trip.
use tripvault.Base.{
  ◌<◌, ◌≡◌, refl, ap, ◌∙◌, ◌↔◌, arith, List, [], ◌∷◌, All, Bool, true, false, not, ◌&&◌, ok,
  refuse_if_iff, goes_on, Returns, Returns-ok, Returns-bind, Returns-refuse, map, none, some,
  Option, ◌==◌,
}
use tripvault.Base.Int64.{Int64, ◌⊕◌, word, sum64, sum64-lt, zero_lt_word}
use tripvault.Domain.Kinds.{CostSplit, split_none, split_individuals}
use tripvault.Domain.Values.{Uuid, Money}
use tripvault.Domain.Records.{Item, CostShare}
use tripvault.Domain.Costs.{money_or_zero}
use tripvault.Split.{
  share_amounts, share_amounts_of, split_total, check_shares, check_cost_split, is_stranger,
  is_individuals,
}

abbrev amounts : List CostShare → List Money
amounts = map (λ s. money_or_zero s.amount)

abbrev AllAllowed : (Uuid → Bool) → List CostShare → Type 0
AllAllowed allowed = All (λ s. allowed s.user_id ≡ true)

not-false : (b : Bool) → not b ≡ false → b ≡ true
not-false b h = ground arith

check_shares-sum :
    (allowed : Uuid → Bool) (acc : Money) (xs : List CostShare)
    → acc < word
    → Returns
        (λ s. AllAllowed allowed xs × (s ≡ acc ⊕ sum64 (amounts xs)))
        (check_shares allowed acc xs)
unfolding check_shares sum64
check_shares-sum allowed acc [] h = Returns-ok (tt, omega arith)
check_shares-sum allowed acc (x ∷ xs) h = Returns-refuse _ _ _ λ p. record {
  at = λ s e.
      let ih = (check_shares-sum allowed (acc ⊕ money_or_zero x.amount) xs (omega arith)).at s e in
      ((not-false _ p, ih.0), omega (arith, ih.1));
}

check_shares_ok :
    (allowed : Uuid → Bool) (acc : Money) (xs : List CostShare)
    → acc < word
    → AllAllowed allowed xs
    → check_shares allowed acc xs ≡ ok (acc ⊕ sum64 (amounts xs))
unfolding check_shares sum64
check_shares_ok allowed acc [] h a = ap ok (omega arith)
check_shares_ok allowed acc (x ∷ xs) h a =
    simp (a.0, goes_on)
      (check_shares_ok allowed (acc ⊕ money_or_zero x.amount) xs (omega arith) a.1
        ∙ ap ok (omega arith))

-- Somebody named is a member, and so is everybody who shares the cost; amounts of the members' own
-- make up the cost.
abbrev pub FitsTrip : Item → (Uuid → Bool) → Int64 → Bool → Type 0
FitsTrip i allowed travelers report =
    ((user : Uuid) → i.paid_by ≡ some user → allowed user ≡ true)
    × AllAllowed allowed i.cost_shares
    × (i.cost_split ≡ split_individuals
        → sum64 (share_amounts i travelers report) ≡ split_total i travelers report)

stranger_iff :
    (allowed : Uuid → Bool) (payer : Option Uuid)
    → (is_stranger allowed payer ≡ false)
      ↔ ((user : Uuid) → payer ≡ some user → allowed user ≡ true)
stranger_iff allowed none = (λ _ user e. absurd (ground arith), λ _. refl)
stranger_iff allowed (some payer) = (λ h user e. ground arith, λ h. ground (arith, h payer refl))

sum_test :
    (split : CostSplit) (t : Money) (xs : List CostShare)
    → ((is_individuals split && not ((0 ⊕ sum64 (amounts xs)) == t)) ≡ false)
      ↔ (split ≡ split_individuals → sum64 (share_amounts_of split t xs) ≡ t)
unfolding share_amounts_of
sum_test split_individuals t xs = (
  λ h _. ground (arith, sum64-lt (amounts xs)),
  λ h. ground (arith, sum64-lt (amounts xs), h refl),
)
sum_test split_none t xs = (λ h e. absurd (ground arith), λ h. refl)
sum_test split t xs = (λ h e. absurd (ground arith), λ h. refl)

-- `CheckCostSplit` passes exactly when the split fits the trip: whoever pays is allowed, everybody
-- who shares the cost is allowed, and for a split among individuals the amounts that
-- `ShareAmounts` gives out add up to the cost.
pub check_cost_split_iff :
    (i : Item) (allowed : Uuid → Bool) (travelers : Int64) (report : Bool)
    → (check_cost_split i allowed travelers report ≡ ok tt) ↔ FitsTrip i allowed travelers report
unfolding check_cost_split share_amounts
check_cost_split_iff i allowed travelers report = (λ h. sound.at tt h, complete)
  where
    shares : List CostShare
    shares = i.cost_shares

    sound :
        Returns
          (λ _. FitsTrip i allowed travelers report)
          (check_cost_split i allowed travelers report)
    sound = Returns-refuse _ _ _ λ payer.
        Returns-bind (check_shares allowed 0 shares) _ λ sum counted. record {
          at = λ u test.
              let part = (check_shares-sum allowed 0 shares zero_lt_word).at sum counted in
              (
                (stranger_iff allowed i.paid_by).0 payer,
                part.0,
                (sum_test i.cost_split (split_total i travelers report) shares).0
                    (rw (part.1) at ((refuse_if_iff _ _).0 test)),
              );
        }

    complete :
        FitsTrip i allowed travelers report → check_cost_split i allowed travelers report ≡ ok tt
    complete h =
        simp
          (
            (stranger_iff allowed i.paid_by).1 h.0,
            check_shares_ok allowed 0 shares zero_lt_word h.1,
            goes_on,
          )
          ((refuse_if_iff _ _).1
            ((sum_test i.cost_split (split_total i travelers report) shares).1 h.2))
