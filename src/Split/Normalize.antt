-- ===== src/Split/Normalize.antt =====
-- `normalizeSplit`: what it accepts, and that it leaves what it made alone.
use tripvault.Base.{
  suc, ◌<◌, ◌≤◌, ◌≡◌, ◌≢◌, refl, sym, subst, ap, ◌∙◌, ◌↔◌, arith, List, [], ◌∷◌, All, true, false,
  not, ◌⊎◌, inl, inr, ok, ◌>>=◌, refuse_if, goes_on, Returns, Returns-ok, Returns-err, Returns-bind,
  Returns-refuse, map, none, some, Option, ◌==◌, ltb, any, length, is_some,
}
use tripvault.Base.Int64.{IsNonneg}
use tripvault.Domain.Kinds.{CostSplit, split_none, split_everyone, split_individuals}
use tripvault.Domain.Values.{Uuid, Money}
use tripvault.Domain.Records.{Item, CostShare}
use tripvault.Split.{
  normalize_split, normalize_known_split, normalize_shared, normalize_shares, normalize_amount,
  default_split,
}

-- No amount in an equal split, and one that is not negative in a split among individuals.
abbrev AmountFits : CostSplit → Option Money → Type 0
AmountFits split_everyone none = Unit
AmountFits split_individuals (some amount) = IsNonneg amount
AmountFits _ _ = ⊥

-- No share's member is among `seen` or the shares before it, and every amount fits the split.
abbrev pub SharesFit : CostSplit → List Uuid → List CostShare → Type 0
SharesFit split seen [] = Unit
SharesFit split seen (s ∷ shares) =
    All (λ user. user ≢ s.user_id) seen
    × AmountFits split s.amount
    × SharesFit split (s.user_id ∷ seen) shares

abbrev pub users : List CostShare → List Uuid
users = map (λ s. s.user_id)

fresh_iff :
    (u : Uuid) (seen : List Uuid)
    → (any (λ user. user == u) seen ≡ false) ↔ All (λ user. user ≢ u) seen
fresh_iff u [] = (λ _. tt, λ _. refl)
fresh_iff u (x ∷ xs) =
    (λ h. ground (arith, (fresh_iff u xs).0), λ h. ground (arith, (fresh_iff u xs).1))

-- The kinds that share a cost.
abbrev IsSharing : CostSplit → Type 0
IsSharing split_everyone = Unit
IsSharing split_individuals = Unit
IsSharing _ = ⊥

normalize_amount_ok :
    (split : CostSplit) (a : Option Money) {b : Option Money}
    → IsSharing split
    → normalize_amount split a ≡ ok b
    → AmountFits split b
unfolding ◌>>=◌ refuse_if
normalize_amount_ok split_everyone a {b = none} p h = tt
normalize_amount_ok split_everyone a {b = some b} p h = absurd (ground arith)
normalize_amount_ok split_individuals none p h = absurd (ground arith)
normalize_amount_ok split_individuals (some m) {b = none} p h = absurd (ground arith)
normalize_amount_ok split_individuals (some m) {b = some b} p h = ground arith
normalize_amount_ok split_none a p h = absurd p
normalize_amount_ok _ a p h = absurd p

normalize_amount_fixed :
    (split : CostSplit) (a : Option Money) → AmountFits split a → normalize_amount split a ≡ ok a
unfolding ◌>>=◌ refuse_if
normalize_amount_fixed split_everyone none p = refl
normalize_amount_fixed split_everyone (some m) p = absurd p
normalize_amount_fixed split_individuals none p = absurd p
normalize_amount_fixed split_individuals (some m) p = ground arith
normalize_amount_fixed split_none a p = absurd p
normalize_amount_fixed _ a p = absurd p

normalize_shares_ok :
    (split : CostSplit) (seen : List Uuid) (xs : List CostShare)
    → IsSharing split
    → Returns
        (λ ys. SharesFit split seen ys × (users ys ≡ users xs))
        (normalize_shares split seen xs)
unfolding normalize_shares
normalize_shares_ok split seen [] p = Returns-ok (tt, refl)
normalize_shares_ok split seen (x ∷ xs) p = Returns-refuse _ _ _ λ fresh.
    Returns-bind (normalize_amount split x.amount) _ λ a ea.
      Returns-bind (normalize_shares split (x.user_id ∷ seen) xs) _ λ zs ez.
        let ih = (normalize_shares_ok split (x.user_id ∷ seen) xs p).at zs ez in
        Returns-ok (
          ((fresh_iff x.user_id seen).0 fresh, normalize_amount_ok split x.amount p ea, ih.0),
          ap (◌∷◌ x.user_id) ih.1,
        )

normalize_shares_fixed :
    (split : CostSplit) (seen : List Uuid) (xs : List CostShare)
    → SharesFit split seen xs
    → normalize_shares split seen xs ≡ ok xs
unfolding normalize_shares
normalize_shares_fixed split seen [] h = refl
normalize_shares_fixed split seen (x ∷ xs) h = simp (
  (fresh_iff x.user_id seen).1 h.0,
  normalize_amount_fixed split x.amount h.1,
  normalize_shares_fixed split (x.user_id ∷ seen) xs h.2,
  goes_on,
)

-- A split that nobody shares, or one with a payer and one to a hundred different members, each with
-- an amount exactly when the members have amounts of their own, and that not negative.
abbrev SharedFits : CostSplit → Item → Type 0
SharedFits split i =
    IsSharing split
    × (is_some i.paid_by ≡ true)
    × (0 < length i.cost_shares)
    × (length i.cost_shares ≤ 100)
    × SharesFit split [] i.cost_shares

abbrev pub IsNormal : Item → Type 0
IsNormal i = ((i.cost_split ≡ split_none) × (i.cost_shares ≡ [])) ⊎ SharedFits i.cost_split i

length-users : (xs : List CostShare) → length (users xs) ≡ length xs
length-users [] = refl
length-users (x ∷ xs) = ap suc (length-users xs)

same_length : (xs ys : List CostShare) → users ys ≡ users xs → length ys ≡ length xs
same_length xs ys e = sym (length-users ys) ∙ ap length e ∙ length-users xs

normalize_shared_ok :
    (split : CostSplit) (i : Item)
    → IsSharing split
    → Returns
        (λ j.
          (j.cost_split ≡ split) × SharedFits split j × (users j.cost_shares ≡ users i.cost_shares))
        (normalize_shared split i)
unfolding normalize_shared
normalize_shared_ok split i p = Returns-refuse _ _ _ λ payer. Returns-refuse _ _ _ λ nobody.
    Returns-refuse _ _ _ λ many. Returns-bind (normalize_shares split [] i.cost_shares) _ λ ys e.
      let fit = (normalize_shares_ok split [] i.cost_shares p).at ys e in
      let n = same_length i.cost_shares ys fit.1 in
      Returns-ok (refl, (p, ground arith, ground arith, ground arith, fit.0), fit.1)

normalize_shared_fixed :
    (split : CostSplit) (i : Item)
    → SharedFits split i
    → normalize_shared split i ≡ ok (record i { cost_split = split })
unfolding normalize_shared
normalize_shared_fixed split i h =
    let payer : not (is_some i.paid_by) ≡ false = ground arith in
    let somebody : (length i.cost_shares == 0) ≡ false = ground arith in
    let few : ltb 100 (length i.cost_shares) ≡ false = ground arith in
    simp (payer, somebody, few, normalize_shares_fixed split [] i.cost_shares h.4, goes_on)

-- What `default_split` returns.
abbrev IsKind : CostSplit → Type 0
IsKind CostSplit.unset = ⊥
IsKind (CostSplit.unknown t) = ⊥
IsKind _ = Unit

default_split-IsKind : (split : CostSplit) → Returns IsKind (default_split split)
default_split-IsKind CostSplit.unset = Returns-ok tt
default_split-IsKind (CostSplit.unknown t) = Returns-err
default_split-IsKind _ = Returns-ok tt

sharing_ok :
    (split : CostSplit) (i : Item) → IsSharing split → Returns IsNormal (normalize_shared split i)
sharing_ok split i p = record {
  at = λ j e.
      let (same, fits, _) = (normalize_shared_ok split i p).at j e in
      inr (subst (λ s. SharedFits s j) (sym same) fits);
}

normalize_known_ok :
    (split : CostSplit) (i : Item) → IsKind split → Returns IsNormal (normalize_known_split split i)
unfolding normalize_known_split
normalize_known_ok split_none i k = Returns-ok (inl (refl, refl))
normalize_known_ok split_everyone i k = sharing_ok split_everyone i tt
normalize_known_ok split_individuals i k = sharing_ok split_individuals i tt
normalize_known_ok CostSplit.unset i k = absurd k
normalize_known_ok (CostSplit.unknown t) i k = absurd k

normalize_split_ok : (i : Item) → Returns IsNormal (normalize_split i)
unfolding normalize_split
normalize_split_ok i =
    Returns-bind (default_split i.cost_split) _
      λ split e. normalize_known_ok split i ((default_split-IsKind i.cost_split).at split e)

default_split_fixed : (split : CostSplit) → IsKind split → default_split split ≡ ok split
default_split_fixed split_none k = refl
default_split_fixed split_everyone k = refl
default_split_fixed split_individuals k = refl
default_split_fixed CostSplit.unset k = absurd k
default_split_fixed (CostSplit.unknown t) k = absurd k

normalize_known_fixed :
    (split : CostSplit) (i : Item)
    → i.cost_split ≡ split
    → SharedFits split i
    → normalize_split i ≡ ok i
unfolding normalize_split normalize_known_split
normalize_known_fixed split_everyone i e h =
    rw e (simp goes_on (normalize_shared_fixed split_everyone i h))
normalize_known_fixed split_individuals i e h =
    rw e (simp goes_on (normalize_shared_fixed split_individuals i h))
normalize_known_fixed split_none i e h = absurd h.0
normalize_known_fixed _ i e h = absurd h.0

pub normalize_split_fixed : (i : Item) → IsNormal i → normalize_split i ≡ ok i
unfolding normalize_split normalize_known_split
normalize_split_fixed i (inl (none_shared, empty)) = rw none_shared (rw empty (simp goes_on))
normalize_split_fixed i (inr h) = normalize_known_fixed i.cost_split i refl h

-- What `normalizeSplit` accepts is normal: a split that nobody shares, with no shares, or one that
-- has a payer and one to a hundred different members, with an amount that is not negative for each
-- when they have amounts of their own and with none when they share equally. And it leaves a
-- normal item as it is.
pub normalize_split-IsNormal :
    (i j : Item) → normalize_split i ≡ ok j → IsNormal j × (normalize_split j ≡ ok j)
normalize_split-IsNormal i j e =
    let normal = (normalize_split_ok i).at j e in (normal, normalize_split_fixed j normal)
