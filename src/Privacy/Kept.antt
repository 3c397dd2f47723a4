-- ===== src/Privacy/Kept.antt =====
-- What lies outside the circles is left as it is.
use tripvault.Base.{
  ◌≡◌, refl, ap, Bool, false, not, ◌||◌, List, [], ◌∷◌, map, select, All, Bool-cases, inl, inr,
  length, ==_refl,
}
use tripvault.Base.Text.{Text, is_empty}
use tripvault.Domain.Values.{Point}
use tripvault.Domain.Records.{Item, Stay, Stop, Track}
use tripvault.Domain.Journeys.{Leg, LegSegment, Transfer}
use tripvault.Domain.Content.{DocumentContent}
use tripvault.Polyline.{Floats, decode_polyline}
use tripvault.Privacy.{
  Distances, PrivacyZones, no_zones, contains, points_outside, line_outside, item_outside,
  stay_outside, transfer_outside, segment_outside, leg_outside, stop_outside, stops_outside,
  track_outside, outside,
}
use tripvault.Privacy.Lines.{IsExact}
use tripvault.Privacy.Hidden.{
  ShowsNothing, IsPlaceShown, IsLineShown, IsSegmentShown, IsLegShown, IsTrackShown, HasLines,
  outside-ShowsNothing,
}

map_kept :
    {A : Type 0} (P : A → Type 0) (g : A → A) (l : List A)
    → ((a : A) → P a → g a ≡ a)
    → All P l
    → map g l ≡ l
map_kept P g [] h all = refl
map_kept P g (a ∷ l) h (p, ps) = rw (h a p, map_kept P g l h ps) refl

select_kept :
    {A : Type 0} (p : A → Bool) (l : List A)
    → All (λ a. p a ≡ false) l
    → select (λ a. not (p a)) l ≡ l
select_kept p [] h = refl
select_kept p (a ∷ l) (h, hs) = rw h (ap (◌∷◌ a) (select_kept p l hs))

module _ (f : Floats) (d : Distances) (zones : PrivacyZones) where
  points_kept :
      (points : List Point)
      → All (λ p. contains f d zones p ≡ false) points
      → points_outside f d zones points ≡ points
  unfolding points_outside
  points_kept points h = select_kept (contains f d zones) points h

  line_kept :
      (encoded : Text) → IsLineShown f d zones encoded → line_outside f d zones encoded ≡ encoded
  unfolding line_outside
  line_kept encoded h = elim (Bool-cases (no_zones zones || is_empty encoded)) [
    | inl e ↦ rw e refl
    | inr e ↦
        let points = decode_polyline f encoded 5 in
        rw e (rw (points_kept points h) (rw (==_refl (length points)) refl))
  ]

  item_kept : (i : Item) → IsPlaceShown f d zones i.lat i.lng → item_outside f d zones i ≡ i
  unfolding item_outside
  item_kept i h = rw h refl

  stay_kept : (s : Stay) → IsPlaceShown f d zones s.lat s.lng → stay_outside f d zones s ≡ s
  unfolding stay_outside
  stay_kept s h = rw h refl

  transfer_kept :
      (t : Transfer)
      → IsPlaceShown f d zones t.from_lat t.from_lng × IsPlaceShown f d zones t.to_lat t.to_lng
      → transfer_outside f d zones t ≡ t
  unfolding transfer_outside
  transfer_kept t (h, k) = rw h (rw k refl)

  segment_kept : (s : LegSegment) → IsSegmentShown f d zones s → segment_outside f d zones s ≡ s
  unfolding segment_outside
  segment_kept s (h, k) = rw k (rw (line_kept s.geometry h) refl)

  leg_kept : (l : Leg) → IsLegShown f d zones l → leg_outside f d zones l ≡ l
  unfolding leg_outside
  leg_kept l (h, k, hs) =
      let segments =
        map_kept (IsSegmentShown f d zones) (segment_outside f d zones) l.segments segment_kept
          hs in
      rw (line_kept l.geometry h) (rw (points_kept l.via k) (rw segments refl))

  stop_kept :
      (line : List Point) (s : Stop)
      → contains f d zones s.point ≡ false
      → stop_outside f d zones line s ≡ s ∷ []
  unfolding stop_outside
  stop_kept [] s h = rw h refl
  stop_kept (p ∷ line) s h = rw h refl

  stops_kept :
      (line : List Point) (stops : List Stop)
      → All (λ s. contains f d zones s.point ≡ false) stops
      → stops_outside f d zones line stops ≡ stops
  unfolding stops_outside
  stops_kept line [] h = refl
  stops_kept line (s ∷ stops) (h, hs) =
      rw (stop_kept line s h) (ap (◌∷◌ s) (stops_kept line stops hs))

  track_kept : (t : Track) → IsTrackShown f d zones t → track_outside f d zones t ≡ t
  unfolding track_outside
  track_kept t (h, hs) =
      rw (line_kept t.geometry h) (rw (stops_kept (decode_polyline f t.geometry 5) t.stops hs) refl)

  outside_kept : (c : DocumentContent) → ShowsNothing f d zones c → outside f d zones c ≡ c
  unfolding outside
  outside_kept c h = elim (Bool-cases (no_zones zones)) [
    | inl e ↦ rw e refl
    | inr e ↦
        let items =
          map_kept (λ i. IsPlaceShown f d zones i.lat i.lng) (item_outside f d zones) c.items
            item_kept h.items in
        let stays =
          map_kept (λ s. IsPlaceShown f d zones s.lat s.lng) (stay_outside f d zones) c.stays
            stay_kept h.stays in
        let transfers =
          map_kept
            (λ t.
              IsPlaceShown f d zones t.from_lat t.from_lng
              × IsPlaceShown f d zones t.to_lat t.to_lng)
            (transfer_outside f d zones) c.transfers transfer_kept h.transfers in
        let legs = map_kept (IsLegShown f d zones) (leg_outside f d zones) c.legs leg_kept h.legs in
        let tracks =
          map_kept (IsTrackShown f d zones) (track_outside f d zones) c.tracks track_kept
            h.tracks in
        rw e (rw (items, stays, transfers, legs, tracks) refl)
  ]

-- A content that shows nothing inside the circles is left as it is, so hiding twice hides no more
-- than hiding once. The lines have coordinates of a size that is found on Earth, for which dividing
-- by 1e5 and multiplying again loses nothing.
pub outside_twice :
    (f : Floats) (d : Distances) (zones : PrivacyZones) (c : DocumentContent)
    → IsExact f
    → HasLines c
    → (ShowsNothing f d zones c → outside f d zones c ≡ c)
      × (outside f d zones (outside f d zones c) ≡ outside f d zones c)
outside_twice f d zones c exact lines = (
  outside_kept f d zones c,
  outside_kept f d zones (outside f d zones c) (outside-ShowsNothing f d zones c exact lines),
)
