-- ===== src/Split/Settle.antt =====
-- The loop of `settle`: it ends, and its payments square every account.
use tripvault.Base.{
  ℕ, zero, suc, ◌+◌, ◌≤◌, ◌<◌, ◌≡◌, refl, arith, List, [], ◌∷◌, length, total, All, ◌==◌,
  if◌then◌else◌, some, ◌⊎◌, inl, inr, map,
}
use tripvault.Base.Sort.{sort_stable, All-sort_stable, total-sort_stable, length-sort_stable}
use tripvault.Base.Int64.{IsNonneg, half_word, min64}
use tripvault.Domain.Values.{Uuid, Money}
use tripvault.Split.Balances.{
  MemberBalance, Party, Settlement, creditors, debtors, larger, settle, settle_loop, unless_square,
  reduce,
}

-- What the payments bring a member, and what they take.
abbrev pub received : Uuid → List Settlement → ℕ
received u [] = 0
received u (s ∷ l) = (if s.to == u then s.amount else 0) + received u l

abbrev pub sent : Uuid → List Settlement → ℕ
sent u [] = 0
sent u (s ∷ l) = (if s.from == u then s.amount else 0) + sent u l

-- What the accounts of a member hold.
abbrev pub held : Uuid → List Party → ℕ
held u ps = total (map (λ p. if p.user_id == u then p.amount else 0) ps)

abbrev pub amounts : List Party → List ℕ
amounts = map (λ p. p.amount)

-- An open account holds a positive amount.
abbrev pub IsOpen : Party → Type 0
IsOpen p = (0 < p.amount) × (p.amount < half_word)

held-le-total : (u : Uuid) (ps : List Party) → held u ps ≤ total (amounts ps)
held-le-total u [] = omega arith
held-le-total u (p ∷ ps) = ground (arith, held-le-total u ps)

-- What is left of an account, and the accounts after it.
module _ (u : Uuid) (p : Party) (ps : List Party) (a : Money) (bound : a ≤ p.amount)
    (small : IsNonneg p.amount) where
  held-unless_square :
      held u (unless_square (reduce p a) ps) + (if p.user_id == u then a else 0)
      ≡ (if p.user_id == u then p.amount else 0) + held u ps
  held-unless_square = ground arith

  total-unless_square :
      total (amounts (unless_square (reduce p a) ps)) + a ≡ p.amount + total (amounts ps)
  total-unless_square = ground arith

  IsOpen-unless_square : All IsOpen ps → All IsOpen (unless_square (reduce p a) ps)
  IsOpen-unless_square h = ground arith

  length-unless_square-le : length (unless_square (reduce p a) ps) ≤ suc (length ps)
  length-unless_square-le = ground arith

  length-unless_square_self : a ≡ p.amount → length (unless_square (reduce p a) ps) ≡ length ps
  length-unless_square_self e = ground arith

min64_lem :
    (a b : Money)
    → IsNonneg a
    → IsNonneg b
    → (min64 a b ≤ a) × (min64 a b ≤ b) × ((min64 a b ≡ a) ⊎ (min64 a b ≡ b))
min64_lem a b ha hb = ground arith

min64_pos : (a b : Money) → IsNonneg a → IsNonneg b → 0 < a → 0 < b → 0 < min64 a b
min64_pos a b ha hb pa pb = ground arith

-- Every payment is positive, and together they bring each creditor what they are owed and take from
-- each debtor what they owe.
abbrev pub Squares : List Party → List Party → List Settlement → Type 0
Squares cs ds l =
    ((u : Uuid) → (received u l ≡ held u cs) × (sent u l ≡ held u ds))
    × All (λ s. 0 < s.amount) l
    × (length l ≤ length cs + length ds)

-- One round: what is paid, what it leaves of an account, and the payment.
abbrev paid_now : Party → Party → Money
paid_now c d = min64 c.amount d.amount

abbrev rest_of : Party → Party → Party → List Party → List Party
rest_of c d p ps = unless_square (reduce p (paid_now c d)) ps

abbrev payment : Party → Party → Settlement
payment c d = record { from = d.user_id; to = c.user_id; amount = paid_now c d }

module _ (c d : Party) (cs ds : List Party) (oc : IsOpen c) (od : IsOpen d) where
  one_less : length (rest_of c d c cs) + length (rest_of c d d ds) ≤ suc (length cs + length ds)
  one_less =
      let (mc, md, side) = min64_lem c.amount d.amount oc.1 od.1 in
      elim side [
        | inl e ↦ omega (
          arith,
          length-unless_square_self 0 c cs (paid_now c d) mc oc.1 e,
          length-unless_square-le 0 d ds (paid_now c d) md od.1,
        )
        | inr e ↦ omega (
          arith,
          length-unless_square-le 0 c cs (paid_now c d) mc oc.1,
          length-unless_square_self 0 d ds (paid_now c d) md od.1 e,
        )
      ]

  Squares-payment :
      (l : List Settlement)
      → Squares (rest_of c d c cs) (rest_of c d d ds) l
      → Squares (c ∷ cs) (d ∷ ds) (payment c d ∷ l)
  Squares-payment l (sums, positive, short) =
      let (mc, md, _) = min64_lem c.amount d.amount oc.1 od.1 in
      (
        λ u. (
          omega (arith, held-unless_square u c cs (paid_now c d) mc oc.1, (sums u).0),
          omega (arith, held-unless_square u d ds (paid_now c d) md od.1, (sums u).1),
        ),
        (min64_pos c.amount d.amount oc.1 od.1 oc.0 od.0, positive),
        omega (arith, one_less),
      )

  totals_left :
      total (amounts (c ∷ cs)) ≡ total (amounts (d ∷ ds))
      → total (amounts (rest_of c d c cs)) ≡ total (amounts (rest_of c d d ds))
  totals_left e =
      let (mc, md, _) = min64_lem c.amount d.amount oc.1 od.1 in
      omega (
        arith,
        total-unless_square 0 c cs (paid_now c d) mc oc.1,
        total-unless_square 0 d ds (paid_now c d) md od.1,
      )

  left-IsOpen :
      All IsOpen cs → All IsOpen ds → All IsOpen (rest_of c d c cs) × All IsOpen (rest_of c d d ds)
  left-IsOpen hc hd =
      let (mc, md, _) = min64_lem c.amount d.amount oc.1 od.1 in
      (
        IsOpen-unless_square 0 c cs (paid_now c d) mc oc.1 hc,
        IsOpen-unless_square 0 d ds (paid_now c d) md od.1 hd,
      )

pub settle_loop-Squares :
    (fuel : ℕ) (cs ds : List Party)
    → length cs + length ds ≤ fuel
    → All IsOpen cs
    → All IsOpen ds
    → total (amounts cs) ≡ total (amounts ds)
    → (l : List Settlement) × (settle_loop fuel cs ds ≡ some l) × Squares cs ds l
unfolding settle_loop
settle_loop-Squares fuel [] [] enough hc hd e = ([], refl, ((λ u. (refl, refl)), tt, omega arith))
settle_loop-Squares fuel [] (d ∷ ds) enough hc hd e = absurd (omega arith)
settle_loop-Squares fuel (c ∷ cs) [] enough hc hd e = absurd (omega arith)
settle_loop-Squares zero (c ∷ cs) (d ∷ ds) enough hc hd e = absurd (omega arith)
settle_loop-Squares (suc fuel) (c ∷ cs) (d ∷ ds) enough hc hd e =
    let open_left = left-IsOpen c d cs ds hc.0 hd.0 hc.1 hd.1 in
    let (l, run, squares) =
      settle_loop-Squares fuel (rest_of c d c cs) (rest_of c d d ds)
        (omega (arith, one_less c d cs ds hc.0 hd.0)) open_left.0 open_left.1
        (totals_left c d cs ds hc.0 hd.0 e) in
    (payment c d ∷ l, (rw run), Squares-payment c d cs ds hc.0 hd.0 l squares)

-- The accounts that `settle` opens, against the balances.
abbrev pub paid_by : Uuid → List MemberBalance → ℕ
paid_by u bs = total (map (λ b. if b.user_id == u then b.paid else 0) bs)

abbrev pub shared_by : Uuid → List MemberBalance → ℕ
shared_by u bs = total (map (λ b. if b.user_id == u then b.share else 0) bs)

abbrev pub Fits : MemberBalance → Type 0
Fits b = IsNonneg b.paid × IsNonneg b.share

creditors-IsOpen : (n : ℕ) (bs : List MemberBalance) → All Fits bs → All IsOpen (creditors n bs)
unfolding creditors
creditors-IsOpen n [] h = tt
creditors-IsOpen n (b ∷ bs) h = ground (arith, creditors-IsOpen (suc n) bs h.1)

debtors-IsOpen : (n : ℕ) (bs : List MemberBalance) → All Fits bs → All IsOpen (debtors n bs)
unfolding debtors
debtors-IsOpen n [] h = tt
debtors-IsOpen n (b ∷ bs) h = ground (arith, debtors-IsOpen (suc n) bs h.1)

accounts_held :
    (u : Uuid) (n : ℕ) (bs : List MemberBalance)
    → All Fits bs
    → held u (creditors n bs) + shared_by u bs ≡ held u (debtors n bs) + paid_by u bs
unfolding creditors debtors
accounts_held u n [] h = refl
accounts_held u n (b ∷ bs) h = ground (arith, accounts_held u (suc n) bs h.1)

accounts_total :
    (n : ℕ) (bs : List MemberBalance)
    → All Fits bs
    → total (amounts (creditors n bs)) + total (map (λ b. b.share) bs)
      ≡ total (amounts (debtors n bs)) + total (map (λ b. b.paid) bs)
unfolding creditors debtors
accounts_total n [] h = refl
accounts_total n (b ∷ bs) h = ground (arith, accounts_total (suc n) bs h.1)

parties-le :
    (n : ℕ) (bs : List MemberBalance) → length (creditors n bs) + length (debtors n bs) ≤ length bs
unfolding creditors debtors
parties-le n [] = omega arith
parties-le n (b ∷ bs) = ground (arith, parties-le (suc n) bs)

-- The payments leave every member square: with what they receive and what they pay, everybody has
-- spent their own share. There are at most as many payments as members.
abbrev pub LeavesSquare : List MemberBalance → List Settlement → Type 0
LeavesSquare bs l =
    ((u : Uuid) → received u l + shared_by u bs ≡ sent u l + paid_by u bs)
    × All (λ s. 0 < s.amount) l
    × (length l ≤ length bs)

-- `settle` always ends with a list of payments, all positive and at most one a member, that leave
-- every member square: what a member receives and has been charged for is what they send and have
-- paid. The balances are not negative, and as much was paid as was shared.
pub settle-LeavesSquare :
    (bs : List MemberBalance)
    → All Fits bs
    → total (map (λ b. b.paid) bs) ≡ total (map (λ b. b.share) bs)
    → (l : List Settlement) × (settle bs ≡ some l) × LeavesSquare bs l
unfolding settle
settle-LeavesSquare bs fits even =
    let cs = creditors 0 bs in
    let ds = debtors 0 bs in
    let by = λ (u : Uuid) (p : Party). if p.user_id == u then p.amount else 0 in
    let (l, run, squares) =
      settle_loop-Squares (length (sort_stable larger cs) + length (sort_stable larger ds))
        (sort_stable larger cs) (sort_stable larger ds) (omega arith)
        (All-sort_stable larger IsOpen cs (creditors-IsOpen 0 bs fits))
        (All-sort_stable larger IsOpen ds (debtors-IsOpen 0 bs fits))
        (omega (
          arith,
          accounts_total 0 bs fits,
          even,
          total-sort_stable larger (λ p. p.amount) cs,
          total-sort_stable larger (λ p. p.amount) ds,
        )) in
    (
      l,
      run,
      (
        (λ u. omega (
          arith,
          squares.0 u,
          accounts_held u 0 bs fits,
          total-sort_stable larger (by u) cs,
          total-sort_stable larger (by u) ds,
        )),
        squares.1,
        omega (
          arith,
          squares.2,
          parties-le 0 bs,
          length-sort_stable larger cs,
          length-sort_stable larger ds,
        ),
      ),
    )
