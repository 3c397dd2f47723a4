-- ===== src/Legs/Served.antt =====
-- The legs that a document has once the plan of `ReconcileLegs` is carried out.
use tripvault.Base.{
  ℕ, ◌≡◌, ◌≢◌, refl, sym, ◌∙◌, ap, subst, Bool, true, false, not, ◌&&◌, ◌||◌, Option, none, some,
  List, [], ◌∷◌, ◌++◌, ◌==◌, ==_iff, ==_refl, any, All, All-imp, All-append, select, map, last_such,
  Bool-cases, Option-cases, inl, inr, ◌⊎◌, arith, length,
}
use tripvault.Base.Text.{Text}
use tripvault.Domain.Values.{Uuid, Float64}
use tripvault.Domain.Journeys.{Leg}
use tripvault.Domain.Content.{DocumentContent}
use tripvault.Polyline.{Floats}
use tripvault.Plan.{leg_between}
use tripvault.Legs.{Progress, LegPlan, create_leg, new_leg}
use tripvault.Legs.Needed.{Pair, joins, need_pair, need_all, need-cases, kept_leg, had}

-- No two legs share an identifier.
abbrev pub HasOwnIds : List Leg → Type 0
HasOwnIds [] = Unit {0}
HasOwnIds (l ∷ legs) = All (λ m. l.id ≢ m.id) legs × HasOwnIds legs

-- The legs once the plan is carried out; a reset changes only what is to be calculated.
abbrev pub legs_after : LegPlan → List Leg → List Leg
legs_after plan existing =
    select (λ l. not (any (λ id. id == l.id) plan.delete)) existing ++ plan.create

pub any_append :
    {A : Type 0} (p : A → Bool) (xs ys : List A) → any p (xs ++ ys) ≡ (any p xs || any p ys)
any_append p [] ys = refl
any_append p (x ∷ xs) ys = ground (arith, any_append p xs ys)

leg_or : Leg → Option Leg → Leg
leg_or d none = d
leg_or d (some l) = l

last_such-cons :
    (q : Leg → Bool) (x : Leg) (legs : List Leg) (l : Leg)
    → last_such q (x ∷ legs) ≡ some l
    → (last_such q legs ≡ some l) ⊎ ((q x ≡ true) × (x ≡ l))
unfolding leg_or
last_such-cons q x legs l h = elim (Option-cases (last_such q legs)) [
  | inr (m, e) ↦ let here : last_such q (x ∷ legs) ≡ some m = rw e refl in inl (e ∙ sym here ∙ h)
  | inl e ↦ elim (Bool-cases (q x)) [
    | inl k ↦
        let here : last_such q (x ∷ legs) ≡ some x = rw (e, k) refl in
        inr (k, ap (leg_or x) (sym here ∙ h))
    | inr k ↦ let here : last_such q (x ∷ legs) ≡ none = rw (e, k) refl in cc (here, h)
  ]
]

All-last {κ} :
    (P : Leg → Type κ) (q : Leg → Bool) (legs : List Leg) (l : Leg)
    → All P legs
    → last_such q legs ≡ some l
    → P l
All-last P q [] l all h = absurd (cc)
All-last P q (x ∷ legs) l (p, ps) h = elim (last_such-cons q x legs l h) [
  | inl e ↦ All-last P q legs l ps e
  | inr (_, same) ↦ subst P same p
]

any_selected :
    (p r : Leg → Bool) (x : Leg) (legs : List Leg)
    → any r (select p legs) ≡ true
    → any r (select p (x ∷ legs)) ≡ true
any_selected p r x legs h = elim (Bool-cases (p x)) [
  | inl e ↦ rw e (ground (arith, h))
  | inr e ↦ rw e h
]

-- A leg that the search found passes its test, and is among those that a selection keeps.
pub last_such-some :
    (q p r : Leg → Bool) (legs : List Leg) (l : Leg)
    → last_such q legs ≡ some l
    → (q l ≡ true) × (p l ≡ true → r l ≡ true → any r (select p legs) ≡ true)
last_such-some q p r [] l h = cc
last_such-some q p r (x ∷ legs) l h = elim (last_such-cons q x legs l h) [
  | inl e ↦
      let rest = last_such-some q p r legs l e in
      (rest.0, λ kept holds. any_selected p r x legs (rest.1 kept holds))
  | inr (k, same) ↦
      subst (λ y. (q y ≡ true) × (p y ≡ true → r y ≡ true → any r (select p (x ∷ legs)) ≡ true))
        same (k, λ kept holds. rw kept (rw holds refl))
]

-- A kept leg is not deleted, and one that is not deleted is kept.
unfoldable pub deleted : List Leg → List Uuid → List Uuid
deleted legs kept = map (λ l. l.id) (select (λ l. not (any (λ id. id == l.id) kept)) legs)

pub deleted-kept :
    (legs : List Leg) (kept : List Uuid) (k : Uuid)
    → any (λ id. id == k) kept ≡ true
    → any (λ id. id == k) (deleted legs kept) ≡ false
unfolding deleted
deleted-kept [] kept k h = refl
deleted-kept (l ∷ legs) kept k h = elim (Bool-cases (any (λ id. id == l.id) kept)) [
  | inl e ↦ rw e (deleted-kept legs kept k h)
  | inr e ↦ elim (Bool-cases (l.id == k)) [
    | inl same ↦
        cc (e, subst (λ x. any (λ id. id == x) kept ≡ true) (sym ((==_iff l.id k).0 same)) h)
    | inr other ↦ rw e (rw other (deleted-kept legs kept k h))
  ]
]

undeleted-tail :
    (l : Leg) (legs : List Leg) (kept : List Uuid) (k : Uuid)
    → any (λ id. id == k) (deleted (l ∷ legs) kept) ≡ false
    → any (λ id. id == k) (deleted legs kept) ≡ false
unfolding deleted
undeleted-tail l legs kept k h = elim (Bool-cases (any (λ id. id == l.id) kept)) [
  | inl e ↦
      let here : any (λ id. id == k) (deleted (l ∷ legs) kept)
          ≡ any (λ id. id == k) (deleted legs kept) =
        rw e refl in
      sym here ∙ h
  | inr e ↦
      let here : any (λ id. id == k) (deleted (l ∷ legs) kept)
          ≡ (l.id == k || any (λ id. id == k) (deleted legs kept)) =
        rw e refl in
      ground (arith, here, h)
]

undeleted-head :
    (l : Leg) (legs : List Leg) (kept : List Uuid)
    → any (λ id. id == l.id) (deleted (l ∷ legs) kept) ≡ false
    → any (λ id. id == l.id) kept ≡ true
unfolding deleted
undeleted-head l legs kept h = elim (Bool-cases (any (λ id. id == l.id) kept)) [
  | inl e ↦ e
  | inr e ↦
      let here : any (λ id. id == l.id) (deleted (l ∷ legs) kept) ≡ true =
        rw e (rw (==_refl l.id) refl) in
      cc (here, h)
]

pub undeleted-kept :
    (legs : List Leg) (kept : List Uuid)
    → All
        (λ l.
          any (λ id. id == l.id) (deleted legs kept) ≡ false → any (λ id. id == l.id) kept ≡ true)
        legs
undeleted-kept [] kept = tt
undeleted-kept (l ∷ legs) kept = (
  undeleted-head l legs kept,
  All-imp
      (λ m. any (λ id. id == m.id) (deleted legs kept) ≡ false → any (λ id. id == m.id) kept ≡ true)
      (λ m.
        any (λ id. id == m.id) (deleted (l ∷ legs) kept) ≡ false
        → any (λ id. id == m.id) kept ≡ true)
      legs (λ m h k. h (undeleted-tail l legs kept m.id k)) (undeleted-kept legs kept),
)

pub All-both {κ μ} :
    (P : Leg → Type κ) (Q : Leg → Type μ) (legs : List Leg)
    → All P legs
    → All Q legs
    → All (λ l. P l × Q l) legs
All-both P Q [] h k = tt
All-both P Q (l ∷ legs) (h, hs) (k, ks) = ((h, k), All-both P Q legs hs ks)

-- With identifiers of their own, a leg that is found under another's identifier is that leg.
pub found_same :
    (legs : List Leg)
    → HasOwnIds legs
    → All (λ l. (q : Leg → Bool) (m : Leg) → last_such q legs ≡ some m → m.id ≡ l.id → m ≡ l) legs
found_same [] own = tt
found_same (x ∷ legs) (apart, own) = (
  (λ q m h same. elim (last_such-cons q x legs m h) [
    | inl e ↦ absurd (All-last (λ l. x.id ≢ l.id) q legs m apart e (sym same))
    | inr (_, here) ↦ sym here
  ]),
  All-imp
      (λ l.
        (x.id ≢ l.id)
        × ((q : Leg → Bool) (m : Leg) → last_such q legs ≡ some m → m.id ≡ l.id → m ≡ l))
      (λ l. (q : Leg → Bool) (m : Leg) → last_such q (x ∷ legs) ≡ some m → m.id ≡ l.id → m ≡ l) legs
      (λ l h q m e same. elim (last_such-cons q x legs m e) [
        | inl later ↦ h.1 q m later same
        | inr (_, here) ↦ absurd (h.0 (cc))
      ])
      (All-both (λ l. x.id ≢ l.id)
        (λ l. (q : Leg → Bool) (m : Leg) → last_such q legs ≡ some m → m.id ≡ l.id → m ≡ l) legs
        apart (found_same legs own)),
)

module _ (f : Floats) (printed : Float64 → Text) (content : DocumentContent) (existing : List Leg)
    (new_id : ℕ → Uuid) where
  -- A pair is served: its leg is kept, or one has been made.
  abbrev pub Served : Pair → Progress → Type 0
  Served n p =
      ((had existing n ≡ false) × (any (joins n) p.plan.create ≡ true))
      ⊎ ((l : Leg) × (leg_between existing n.1.id n.2.id ≡ some l)
          × (l.day_id ≡ n.0.id)
          × (any (λ id. id == l.id) p.kept ≡ true))

  need_pair-create :
      (n : Pair) (p : Progress)
      → (create_leg f printed content existing new_id n.0 n.1 n.2 p).plan.create
        ≡ p.plan.create
          ++ new_leg f printed content existing new_id n.0 n.1 n.2 (length p.plan.create) ∷ []
  unfolding create_leg
  need_pair-create n p = refl

  new_joins :
      (n : Pair) (k : ℕ) → joins n (new_leg f printed content existing new_id n.0 n.1 n.2 k) ≡ true
  new_joins (day, from, to) k = rw (==_refl day.id, ==_refl from.id, ==_refl to.id) refl

  need_pair-Served :
      (n : Pair) (p : Progress) → Served n (need_pair f printed content existing new_id n p)
  unfolding create_leg
  need_pair-Served n p = elim (need-cases f printed content existing new_id n p) [
    | inl (l, e, own, step) ↦
        let (_, kept) = kept_leg f printed content existing new_id n.1 n.2 l p in
        rw step (inr (l, e, own, rw kept (rw (==_refl l.id) refl)))
    | inr (none_yet, step) ↦
        let leg = new_leg f printed content existing new_id n.0 n.1 n.2 (length p.plan.create) in
        rw step (
          inl (
            none_yet,
            any_append (joins n) p.plan.create (leg ∷ [])
                ∙ ground (arith, new_joins n (length p.plan.create)),
          ))
  ]

  need_pair-keeps :
      (m n : Pair) (p : Progress)
      → Served n p
      → Served n (need_pair f printed content existing new_id m p)
  unfolding create_leg
  need_pair-keeps m n p (inl (none_yet, e)) =
      elim (need-cases f printed content existing new_id m p) [
        | inl (l, _, _, step) ↦
            let (same, _) = kept_leg f printed content existing new_id m.1 m.2 l p in
            rw step (inl (none_yet, rw same e))
        | inr (_, step) ↦
            let leg =
              new_leg f printed content existing new_id m.0 m.1 m.2 (length p.plan.create) in
            rw step (inl (none_yet, any_append (joins n) p.plan.create (leg ∷ []) ∙ rw e refl))
      ]
  need_pair-keeps m n p (inr (l, e, own, k)) =
      elim (need-cases f printed content existing new_id m p) [
        | inl (l', _, _, step) ↦
            let (_, kept) = kept_leg f printed content existing new_id m.1 m.2 l' p in
            rw step (inr (l, e, own, rw kept (ground (arith, k))))
        | inr (_, step) ↦ rw step (inr (l, e, own, k))
      ]

  need_all-keeps :
      (ns : List Pair) (n : Pair) (p : Progress)
      → Served n p
      → Served n (need_all f printed content existing new_id ns p)
  unfolding need_all
  need_all-keeps [] n p h = h
  need_all-keeps (m ∷ ns) n p h =
      need_all-keeps ns n (need_pair f printed content existing new_id m p)
        (need_pair-keeps m n p h)

  pub need_all-Served :
      (ns : List Pair) (p : Progress)
      → All (λ n. Served n (need_all f printed content existing new_id ns p)) ns
  unfolding need_all
  need_all-Served [] p = tt
  need_all-Served (n ∷ ns) p =
      let p' = need_pair f printed content existing new_id n p in
      (need_all-keeps ns n p' (need_pair-Served n p), need_all-Served ns p')

  -- The leg that is found for a pair, and kept.
  abbrev pub keeps_id : Pair → Uuid → Option Leg → Bool
  keeps_id n id none = false
  keeps_id n id (some l) = l.day_id == n.0.id && l.id == id

  abbrev pub is_kept_for : Uuid → Pair → Bool
  is_kept_for id n = keeps_id n id (leg_between existing n.1.id n.2.id)

  abbrev pub is_made_for : Leg → Pair → Bool
  is_made_for l n = joins n l && not (had existing n)

  -- What is made and what is kept is so for some pair.
  pub record IsFounded (whole : List Pair) (p : Progress) : Type 0 where
    pub made : All (λ l. any (is_made_for l) whole ≡ true) p.plan.create
    pub kept : All (λ id. any (is_kept_for id) whole ≡ true) p.kept

  abbrev pub AreAmong : List Pair → List Pair → Type 0
  AreAmong ns whole = (g : Pair → Bool) → any g ns ≡ true → any g whole ≡ true

  need_pair-IsFounded :
      (whole : List Pair) (n : Pair) (p : Progress)
      → AreAmong (n ∷ []) whole
      → IsFounded whole p
      → IsFounded whole (need_pair f printed content existing new_id n p)
  unfolding create_leg
  need_pair-IsFounded whole n p among h = elim (need-cases f printed content existing new_id n p) [
    | inl (l, e, own, step) ↦
        let (same, kept) = kept_leg f printed content existing new_id n.1 n.2 l p in
        let own' : (l.day_id == n.0.id) ≡ true = (==_iff l.day_id n.0.id).1 own in
        let here : is_kept_for l.id n ≡ true = rw e (rw (own', ==_refl l.id) refl) in
        rw step (record {
          made = rw same h.made;
          kept = rw kept (among (is_kept_for l.id) (rw here refl), h.kept);
        })
    | inr (none_yet, step) ↦
        let leg = new_leg f printed content existing new_id n.0 n.1 n.2 (length p.plan.create) in
        let here : is_made_for leg n ≡ true =
          rw (new_joins n (length p.plan.create)) (rw none_yet refl) in
        rw step (record {
          made =
              All-append (λ l. any (is_made_for l) whole ≡ true) p.plan.create (leg ∷ []) h.made
                (among (is_made_for leg) (rw here refl), tt);
          kept = h.kept;
        })
  ]

  pub need_all-IsFounded :
      (whole ns : List Pair) (p : Progress)
      → AreAmong ns whole
      → IsFounded whole p
      → IsFounded whole (need_all f printed content existing new_id ns p)
  unfolding need_all
  need_all-IsFounded whole [] p among h = h
  need_all-IsFounded whole (n ∷ ns) p among h =
      need_all-IsFounded whole ns (need_pair f printed content existing new_id n p)
        (λ g e. among g (ground (arith, e)))
        (need_pair-IsFounded whole n p (λ g e. among g (ground (arith, e))) h)
