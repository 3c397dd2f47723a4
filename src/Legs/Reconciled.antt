-- ===== src/Legs/Reconciled.antt =====
-- `ReconcileLegs` as a whole: every pair of neighbours has a leg, and every leg a pair.
use tripvault.Base.{
  ℕ, ◌≡◌, refl, sym, ◌∙◌, ap, subst, Bool, true, false, not, ◌&&◌, Option, none, some, List, [],
  ◌∷◌, ◌++◌, ◌==◌, ==_iff, any, All, All-imp, All-append, select, last_such, Bool-cases,
  Option-cases, inl, inr, arith,
}
use tripvault.Base.Text.{Text}
use tripvault.Domain.Values.{Uuid, Float64}
use tripvault.Domain.Journeys.{Leg}
use tripvault.Domain.Content.{DocumentContent}
use tripvault.Polyline.{Floats}
use tripvault.Plan.{leg_between}
use tripvault.Legs.{Progress, reconcile_legs, no_plan}
use tripvault.Legs.Needed.{Pair, joins, neighbours, need_all, need_days_lem, had}
use tripvault.Legs.Served.{
  HasOwnIds, legs_after, any_append, last_such-some, deleted, deleted-kept, All-both,
  undeleted-kept, found_same, Served, is_kept_for, is_made_for, IsFounded, need_all-Served,
  need_all-IsFounded,
}

-- What a member of a list that passes a test says of another.
any_imp :
    (p q : Pair → Bool) (ns : List Pair)
    → ((n : Pair) → p n ≡ true → q n ≡ true)
    → any p ns ≡ true
    → any q ns ≡ true
any_imp p q [] h e = e
any_imp p q (n ∷ ns) h e = elim (Bool-cases (p n)) [
  | inl k ↦ rw (h n k) refl
  | inr k ↦ ground (arith, any_imp p q ns h (ground (arith, e, k)))
]

any-All :
    (Q : Uuid → Type 0) (k : Uuid) (ids : List Uuid)
    → All Q ids
    → any (λ id. id == k) ids ≡ true
    → Q k
any-All Q k [] all e = absurd (cc)
any-All Q k (id ∷ ids) (h, hs) e = elim (Bool-cases (id == k)) [
  | inl same ↦ subst Q ((==_iff id k).0 same) h
  | inr other ↦ any-All Q k ids hs (ground (arith, e, other))
]

All-chosen {κ} :
    (Q : Leg → Type κ) (p : Leg → Bool) (legs : List Leg)
    → All (λ l. p l ≡ false → Q l) legs
    → All Q (select (λ l. not (p l)) legs)
All-chosen Q p [] h = tt
All-chosen Q p (l ∷ legs) (h, hs) = elim (Bool-cases (p l)) [
  | inl e ↦ rw e (All-chosen Q p legs hs)
  | inr e ↦ rw e (h e, All-chosen Q p legs hs)
]

All-pairs {κ μ} :
    (P : Pair → Type κ) (Q : Pair → Type μ) (ns : List Pair)
    → ((n : Pair) → P n → Q n)
    → All P ns
    → All Q ns
All-pairs P Q [] h all = tt
All-pairs P Q (n ∷ ns) h (p, ps) = (h n p, All-pairs P Q ns h ps)

item_or : Leg → Option Leg → Leg
item_or d none = d
item_or d (some l) = l

some_same : (l m : Leg) → some l ≡ some m → l ≡ m
unfolding item_or
some_same l m h = ap (item_or l) h

module _ (f : Floats) (printed : Float64 → Text) (content : DocumentContent) (existing : List Leg)
    (new_id : ℕ → Uuid) where
  -- The pairs, and what the code has come to when it has gone through them.
  abbrev pairs : List Pair
  pairs = neighbours content.items content.days none

  abbrev final : Progress
  final = need_all f printed content existing new_id pairs (record {
    plan = record { create = []; reset = []; delete = []; reset_segments = [] };
    kept = [];
  })

  reconciled : (reconcile_legs f printed content existing new_id).create ≡ final.plan.create
  unfolding reconcile_legs
  reconciled =
      ap (λ p. p.plan.create)
        (need_days_lem f printed content existing new_id content.days none
          (record { plan = no_plan f printed content existing new_id; kept = [] }))

  reconciled_delete :
      (reconcile_legs f printed content existing new_id).delete ≡ deleted existing final.kept
  unfolding reconcile_legs deleted
  reconciled_delete =
      ap (λ p. deleted existing p.kept)
        (need_days_lem f printed content existing new_id content.days none
          (record { plan = no_plan f printed content existing new_id; kept = [] }))

  abbrev after : List Leg
  after =
      select (λ l. not (any (λ id. id == l.id) (deleted existing final.kept))) existing
      ++ final.plan.create

  found_joins :
      (n : Pair) (l : Leg)
      → leg_between existing n.1.id n.2.id ≡ some l
      → l.day_id ≡ n.0.id
      → (joins n l ≡ true)
        × (any (λ id. id == l.id) final.kept ≡ true
            → any
                (joins n)
                (select (λ l. not (any (λ id. id == l.id) (deleted existing final.kept))) existing)
              ≡ true)
  unfolding leg_between
  found_joins n l e own =
      let stays = λ (m : Leg). not (any (λ id. id == m.id) (deleted existing final.kept)) in
      let test = λ (m : Leg). m.from_item_id == n.1.id && m.to_item_id == n.2.id in
      let (between, here) = last_such-some test stays (joins n) existing l e in
      let own' = (==_iff l.day_id n.0.id).1 own in
      let joined : joins n l ≡ true = rw own' between in
      (joined, λ kept. here (rw (deleted-kept existing final.kept l.id kept) refl) joined)

  Served-after :
      (n : Pair) → Served f printed content existing new_id n final → any (joins n) after ≡ true
  Served-after n (inl (_, made)) =
      let old = select (λ l. not (any (λ id. id == l.id) (deleted existing final.kept))) existing in
      any_append (joins n) old final.plan.create ∙ ground (arith, made)
  Served-after n (inr (l, e, own, kept)) =
      let old = select (λ l. not (any (λ id. id == l.id) (deleted existing final.kept))) existing in
      any_append (joins n) old final.plan.create ∙ ground (arith, (found_joins n l e own).1 kept)

  founded : IsFounded f printed content existing new_id pairs final
  founded =
      need_all-IsFounded f printed content existing new_id pairs pairs
        (record {
          plan = record { create = []; reset = []; delete = []; reset_segments = [] };
          kept = [];
        })
        (λ g e. e) (record { made = tt; kept = tt })

  kept_joins :
      (n : Pair) (l : Leg)
      → ((m : Leg) → leg_between existing n.1.id n.2.id ≡ some m → m.id ≡ l.id → m ≡ l)
      → is_kept_for f printed content existing new_id l.id n ≡ true
      → joins n l ≡ true
  kept_joins n l same e = elim (Option-cases (leg_between existing n.1.id n.2.id)) [
    | inl k ↦
        let here : is_kept_for f printed content existing new_id l.id n ≡ false = rw k refl in
        cc (here, e)
    | inr (m, k) ↦
        let here : is_kept_for f printed content existing new_id l.id n
            ≡ (m.day_id == n.0.id && m.id == l.id) =
          rw k refl in
        let both = sym here ∙ e in
        let own = (==_iff m.day_id n.0.id).0 (ground (arith, both)) in
        let named = (==_iff m.id l.id).0 (ground (arith, both)) in
        subst (λ x. joins n x ≡ true) (same m k named) (found_joins n m k own).0
  ]

  -- A leg that is not deleted is the leg of some pair.
  stayed_joins :
      HasOwnIds existing
      → All
          (λ l.
            any (λ id. id == l.id) (deleted existing final.kept) ≡ false
            → any (λ n. joins n l) pairs ≡ true)
          existing
  unfolding leg_between
  stayed_joins own =
      All-imp
        (λ l.
          (any (λ id. id == l.id) (deleted existing final.kept) ≡ false
            → any (λ id. id == l.id) final.kept ≡ true)
          × ((q : Leg → Bool) (m : Leg) → last_such q existing ≡ some m → m.id ≡ l.id → m ≡ l))
        (λ l.
          any (λ id. id == l.id) (deleted existing final.kept) ≡ false
          → any (λ n. joins n l) pairs ≡ true)
        existing
        (λ l h undeleted.
          any_imp (is_kept_for f printed content existing new_id l.id) (λ n. joins n l) pairs
            (λ n e.
              kept_joins n l (h.1 (λ m. m.from_item_id == n.1.id && m.to_item_id == n.2.id)) e)
            (any-All (λ id. any (is_kept_for f printed content existing new_id id) pairs ≡ true)
              l.id final.kept founded.kept (h.0 undeleted)))
        (All-both
          (λ l.
            any (λ id. id == l.id) (deleted existing final.kept) ≡ false
            → any (λ id. id == l.id) final.kept ≡ true)
          (λ l. (q : Leg → Bool) (m : Leg) → last_such q existing ≡ some m → m.id ≡ l.id → m ≡ l)
          existing (undeleted-kept existing final.kept) (found_same existing own))

  made_joins : All (λ l. any (λ n. joins n l) pairs ≡ true) final.plan.create
  made_joins =
      All-imp (λ l. any (is_made_for f printed content existing new_id l) pairs ≡ true)
        (λ l. any (λ n. joins n l) pairs ≡ true) final.plan.create
        (λ l e.
          any_imp (is_made_for f printed content existing new_id l) (λ n. joins n l) pairs
            (λ n k. ground (arith, k)) e)
        founded.made

  kept_undeleted :
      (n : Pair)
      → Served f printed content existing new_id n final
      → (l : Leg) → leg_between existing n.1.id n.2.id ≡ some l
      → l.day_id ≡ n.0.id
      → any (λ id. id == l.id) (deleted existing final.kept) ≡ false
  kept_undeleted n (inl (none_yet, _)) l e own =
      let here : had existing n ≡ (l.day_id == n.0.id) = rw e refl in
      let own' = (==_iff l.day_id n.0.id).1 own in absurd (cc (none_yet, here, own'))
  kept_undeleted n (inr (m, e', _, kept)) l e own =
      let same : m ≡ l = some_same m l (sym e' ∙ e) in
      deleted-kept existing final.kept l.id
        (subst (λ x. any (λ id. id == x.id) final.kept ≡ true) same kept)

-- Once the plan of `ReconcileLegs` is carried out, every pair of neighbours in the document has a
-- leg that belongs to its day, and every leg of the document is that of such a pair. A leg that a
-- pair had in its day is kept, and a leg is made only for a pair that had none. The legs before
-- have identifiers of their own.
pub reconcile_legs-serves :
    (f : Floats) (printed : Float64 → Text) (content : DocumentContent) (existing : List Leg)
    (new_id : ℕ → Uuid)
    → HasOwnIds existing
    → let plan = reconcile_legs f printed content existing new_id in
      let ns = neighbours content.items content.days none in
      All (λ n. any (joins n) (legs_after plan existing) ≡ true) ns
      × All (λ l. any (λ n. joins n l) ns ≡ true) (legs_after plan existing)
      × All
          (λ n.
            (l : Leg)
            → leg_between existing n.1.id n.2.id ≡ some l
            → l.day_id ≡ n.0.id
            → any (λ id. id == l.id) plan.delete ≡ false)
          ns
      × All (λ l. any (λ n. joins n l && not (had existing n)) ns ≡ true) plan.create
reconcile_legs-serves f printed content existing new_id own =
    let ns = pairs f printed content existing new_id in
    let p = final f printed content existing new_id in
    let gone = λ (l : Leg). any (λ id. id == l.id) (deleted existing p.kept) in
    let served = need_all-Served f printed content existing new_id ns (record {
      plan = record { create = []; reset = []; delete = []; reset_segments = [] };
      kept = [];
    }) in
    rw
      (
        reconciled f printed content existing new_id,
        reconciled_delete f printed content existing new_id,
      )
      (
        All-pairs (λ n. Served f printed content existing new_id n p)
            (λ n. any (joins n) (after f printed content existing new_id) ≡ true) ns
            (Served-after f printed content existing new_id) served,
        All-append (λ l. any (λ n. joins n l) ns ≡ true) (select (λ l. not (gone l)) existing)
            p.plan.create
            (All-chosen (λ l. any (λ n. joins n l) ns ≡ true) gone existing
              (stayed_joins f printed content existing new_id own))
            (made_joins f printed content existing new_id),
        All-pairs (λ n. Served f printed content existing new_id n p)
            (λ n.
              (l : Leg)
              → leg_between existing n.1.id n.2.id ≡ some l
              → l.day_id ≡ n.0.id
              → any (λ id. id == l.id) (deleted existing p.kept) ≡ false)
            ns (kept_undeleted f printed content existing new_id) served,
        (founded f printed content existing new_id).made,
      )
