-- ===== src/Split/Shares.antt =====
-- `ShareAmounts`: the parts of a split cost add up to it, and equal parts are equal to the cent.
use tripvault.Base.{
  ℕ, suc, ◌+◌, ◌-◌, ◌*◌, ◌/◌, ◌%◌, ◌≤◌, ◌<◌, ◌≡◌, ◌∙◌, min, arith, List, [], ◌∷◌, length, total,
  All, ltb, if◌then◌else◌, Bool,
}
use tripvault.Base.Int64.{
  Int64, IsNonneg, half_word, sum64, sum64-eq-total, rem64, quot64, lt64, ◌⊕◌, quot64_nonneg,
  rem64_nonneg, lt64_nonneg,
}
use tripvault.Domain.Kinds.{split_everyone}
use tripvault.Domain.Values.{Money}
use tripvault.Domain.Records.{Item, CostShare}
use tripvault.Split.{equal_parts, share_amounts, split_total}

-- The part at a position, as numbers without a bound.
abbrev part : ℕ → ℕ → ℕ → ℕ
part t n k = if ltb k (t % n) then t / n + 1 else t / n

part_lem :
    (t n k : ℕ)
    → t < half_word
    → n < half_word
    → k < half_word
    → (if lt64 k (rem64 t n) then quot64 t n ⊕ 1 else quot64 t n) ≡ part t n k
part_lem t n k ht hn hk =
    rw (quot64_nonneg t n ht hn, rem64_nonneg t n ht hn)
      (rw (lt64_nonneg k (t % n) hk (grind arith)) (grind arith))

total-equal_parts :
    (t n k : ℕ) (xs : List CostShare)
    → IsNonneg t
    → IsNonneg n
    → 0 < n
    → k + length xs ≤ n
    → total (equal_parts t n k xs)
      ≡ (t / n) * length xs + (min (t % n) (k + length xs) - min (t % n) k)
unfolding equal_parts
total-equal_parts t n k [] ht hn pos le = omega arith
total-equal_parts t n k (x ∷ xs) ht hn pos le =
    rw (part_lem t n k ht hn (omega arith))
      (ground (arith, total-equal_parts t n (suc k) xs ht hn pos))

-- Every equal part is the quotient, or one more.
All-equal_parts :
    (t n k : ℕ) (xs : List CostShare)
    → IsNonneg t
    → IsNonneg n
    → k + length xs ≤ n
    → All (λ p. (t / n ≤ p) × (p ≤ t / n + 1)) (equal_parts t n k xs)
unfolding equal_parts
All-equal_parts t n k [] ht hn le = tt
All-equal_parts t n k (x ∷ xs) ht hn le = (
  rw (part_lem t n k ht hn (omega arith)) (ground arith),
  All-equal_parts t n (suc k) xs ht hn (omega arith),
)

div_mod_sum : (t n : ℕ) → 0 < n → t / n * n + (min (t % n) (0 + n) - min (t % n) 0) ≡ t
div_mod_sum t n pos = grind arith

sum64-equal_parts :
    (t : Money) (xs : List CostShare)
    → IsNonneg t
    → IsNonneg (length xs)
    → 0 < length xs
    → sum64 (equal_parts t (length xs) 0 xs) ≡ t
sum64-equal_parts t xs ht hn pos =
    let e =
      total-equal_parts t (length xs) 0 xs ht hn pos (omega arith)
      ∙ div_mod_sum t (length xs) pos in
    sum64-eq-total (equal_parts t (length xs) 0 xs) (rw e (omega arith)) ∙ e

-- An equal split hands out its total to the last cent, and no two members' parts differ by more
-- than one cent: each is the quotient of the total by the number of members, or one cent more.
-- The total is not negative and somebody shares it, fewer than 2 ^ 63 of them.
pub share_amounts-everyone :
    (i : Item) (travelers : Int64) (report : Bool)
    → i.cost_split ≡ split_everyone
    → 0 < length i.cost_shares
    → IsNonneg (length i.cost_shares)
    → IsNonneg (split_total i travelers report)
    → let parts = share_amounts i travelers report in
      let quotient = split_total i travelers report / length i.cost_shares in
      (sum64 parts ≡ split_total i travelers report)
      × All (λ p. (quotient ≤ p) × (p ≤ quotient + 1)) parts
unfolding share_amounts
share_amounts-everyone i travelers report e pos small nonneg = rw e (
  sum64-equal_parts (split_total i travelers report) i.cost_shares nonneg small pos,
  All-equal_parts (split_total i travelers report) (length i.cost_shares) 0 i.cost_shares nonneg
      small (omega arith),
)
