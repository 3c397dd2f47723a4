-- ===== src/Legs/Tests.antt =====
-- Two days with a leg between elements that are no longer neighbours.
use tripvault.Base.{
  ℕ, ◌+◌, ◌≡◌, refl, false, not, ◌&&◌, true, some, none, List, [], ◌∷◌, All, any, ◌==◌, arith,
}
use tripvault.Domain.Values.{Uuid, Float64}
use tripvault.Base.Text.{Text}
use tripvault.Domain.Journeys.{Leg}
use tripvault.Domain.Samples.{content, lunch, drive, first_day}
use tripvault.Domain.Content.{DocumentContent}
use tripvault.Polyline.{Floats}
use tripvault.Plan.{leg_between}
use tripvault.Legs.{reconcile_legs}
use tripvault.Legs.Needed.{neighbours, joins, had}
use tripvault.Legs.Served.{legs_after}
use tripvault.Legs.Reconciled.{reconcile_legs-serves}

abbrev whole : Floats
whole = record { rounded = λ x. x; scaled = λ precision n. n }

abbrev as_is : Float64 → Text
as_is x = x ∷ []

-- Lunch, then a second element on the first day, and a third on the second.
abbrev two_days : DocumentContent
two_days = record content {
  days = first_day ∷ record first_day { id = 2 } ∷ [];
  items =
      lunch ∷ record lunch { id = 5; position = 1 } ∷ record lunch { id = 6; day_id = some 2 } ∷ [];
}

abbrev drives : List Leg
drives = drive ∷ record drive { id = 71; from_item_id = 1; to_item_id = 6 } ∷ []

abbrev fresh : ℕ → Uuid
fresh n = 100 + n

one_deleted : (reconcile_legs whole as_is two_days drives fresh).delete ≡ 71 ∷ []
unfolding reconcile_legs
one_deleted = refl

reconcile_legs-serves_example :
    let plan = reconcile_legs whole as_is two_days drives fresh in
    let ns = neighbours two_days.items two_days.days none in
    All (λ n. any (joins n) (legs_after plan drives) ≡ true) ns
    × All (λ l. any (λ n. joins n l) ns ≡ true) (legs_after plan drives)
    × All
        (λ n.
          (l : Leg)
          → leg_between drives n.1.id n.2.id ≡ some l
          → l.day_id ≡ n.0.id
          → any (λ id. id == l.id) plan.delete ≡ false)
        ns
    × All (λ l. any (λ n. joins n l && not (had drives n)) ns ≡ true) plan.create
reconcile_legs-serves_example =
    reconcile_legs-serves whole as_is two_days drives fresh ((λ e. omega (arith, e), tt), (tt, tt))
