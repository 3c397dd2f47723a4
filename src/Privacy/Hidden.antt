-- ===== src/Privacy/Hidden.antt =====
-- What is left of a content lies outside the circles, and such a content is left alone.
use tripvault.Base.{
  ◌≡◌, refl, true, false, Option, none, some, List, [], ◌∷◌, map, All, All-append, Bool-cases, inl,
  inr,
}
use tripvault.Base.Text.{Text}
use tripvault.Domain.Values.{Float64, Point}
use tripvault.Domain.Records.{Item, Stay, Stop, Track}
use tripvault.Domain.Journeys.{Leg, LegSegment, Transfer}
use tripvault.Domain.Content.{DocumentContent}
use tripvault.Polyline.{Floats, decode_polyline}
use tripvault.Privacy.{
  Distances, PrivacyZones, no_zones, contains, hides, line_outside, item_outside, stay_outside,
  transfer_outside, segment_outside, leg_outside, nearest_to, stop_outside, stops_outside,
  track_outside, outside,
}
use tripvault.Privacy.Lines.{IsExact, IsLine, line_outside-AreShown, points_outside-AreShown}

pub All-of {ℓ κ} : {A : Type ℓ} (P : A → Type κ) (l : List A) → ((a : A) → P a) → All P l
All-of P [] h = tt
All-of P (a ∷ l) h = (h a, All-of P l h)

-- What holds of every member once it has been changed.
All-map :
    {A B : Type 0} (P : A → Type 0) (Q : B → Type 0) (g : A → B) (l : List A)
    → ((a : A) → P a → Q (g a))
    → All P l
    → All Q (map g l)
All-map P Q g [] h all = tt
All-map P Q g (a ∷ l) h (p, ps) = (h a p, All-map P Q g l h ps)

never_contains :
    (f : Floats) (d : Distances) (zones : PrivacyZones)
    → no_zones zones ≡ true
    → (p : Point) → contains f d zones p ≡ false
unfolding contains
never_contains f d [] e p = refl
never_contains f d (zone ∷ zones) e p = cc

-- The lines of the content have coordinates of a size that is found on Earth.
pub record HasLines (c : DocumentContent) : Type 0 where
  pub legs : All (λ l. IsLine l.geometry × All (λ s. IsLine s.geometry) l.segments) c.legs
  pub tracks : All (λ t. IsLine t.geometry) c.tracks

module _ (f : Floats) (d : Distances) (zones : PrivacyZones) where
  abbrev pub IsPlaceShown : Option Float64 → Option Float64 → Type 0
  IsPlaceShown lat lng = hides f d zones lat lng ≡ false

  abbrev pub IsLineShown : Text → Type 0
  IsLineShown encoded = All (λ p. contains f d zones p ≡ false) (decode_polyline f encoded 5)

  abbrev pub IsSegmentShown : LegSegment → Type 0
  IsSegmentShown s = IsLineShown s.geometry × IsPlaceShown s.stop_lat s.stop_lng

  abbrev pub IsLegShown : Leg → Type 0
  IsLegShown l =
      IsLineShown l.geometry
      × All (λ p. contains f d zones p ≡ false) l.via
      × All IsSegmentShown l.segments

  abbrev pub IsTrackShown : Track → Type 0
  IsTrackShown t = IsLineShown t.geometry × All (λ s. contains f d zones s.point ≡ false) t.stops

  -- Nothing of the content lies inside a circle: no place, stay, end of a transfer, point of a
  -- line, point that a journey passes through, change of a journey or stop.
  pub record ShowsNothing (c : DocumentContent) : Type 0 where
    pub items : All (λ i. IsPlaceShown i.lat i.lng) c.items
    pub stays : All (λ s. IsPlaceShown s.lat s.lng) c.stays
    pub transfers :
        All (λ t. IsPlaceShown t.from_lat t.from_lng × IsPlaceShown t.to_lat t.to_lng) c.transfers
    pub legs : All IsLegShown c.legs
    pub tracks : All IsTrackShown c.tracks

  item_shown : (i : Item) → let o = item_outside f d zones i in IsPlaceShown o.lat o.lng
  unfolding item_outside hides
  item_shown i = elim (Bool-cases (hides f d zones i.lat i.lng)) [
    | inl e ↦ rw e refl
    | inr e ↦ rw e e
  ]

  stay_shown : (s : Stay) → let o = stay_outside f d zones s in IsPlaceShown o.lat o.lng
  unfolding stay_outside hides
  stay_shown s = elim (Bool-cases (hides f d zones s.lat s.lng)) [
    | inl e ↦ rw e refl
    | inr e ↦ rw e e
  ]

  transfer_shown :
      (t : Transfer)
      → let o = transfer_outside f d zones t in
        IsPlaceShown o.from_lat o.from_lng × IsPlaceShown o.to_lat o.to_lng
  unfolding transfer_outside hides
  transfer_shown t = elim (Bool-cases (hides f d zones t.from_lat t.from_lng)) [
    | inl e ↦ elim (Bool-cases (hides f d zones t.to_lat t.to_lng)) [
      | inl k ↦ rw e (rw k (refl, refl))
      | inr k ↦ rw e (rw k (refl, k))
    ]
    | inr e ↦ elim (Bool-cases (hides f d zones t.to_lat t.to_lng)) [
      | inl k ↦ rw e (rw k (e, refl))
      | inr k ↦ rw e (rw k (e, k))
    ]
  ]

  nearest_shown :
      (stop first : Point) (line : List Point)
      → contains f d zones first ≡ false
      → All (λ p. contains f d zones p ≡ false) line
      → contains f d zones (nearest_to f d stop first line) ≡ false
  unfolding nearest_to
  nearest_shown stop first [] h hs = h
  nearest_shown stop first (p ∷ line) h (k, ks) =
      elim (Bool-cases (d.lt_float (d.great_circle p stop) (d.great_circle first stop))) [
        | inl e ↦ rw e (nearest_shown stop p line k ks)
        | inr e ↦ rw e (nearest_shown stop first line h ks)
      ]

  stop_shown :
      (line : List Point) (s : Stop)
      → All (λ p. contains f d zones p ≡ false) line
      → All (λ s. contains f d zones s.point ≡ false) (stop_outside f d zones line s)
  unfolding stop_outside
  stop_shown [] s h = elim (Bool-cases (contains f d zones s.point)) [
    | inl e ↦ rw e tt
    | inr e ↦ rw e (e, tt)
  ]
  stop_shown (p ∷ line) s (h, hs) = elim (Bool-cases (contains f d zones s.point)) [
    | inl e ↦ rw e (nearest_shown s.point p line h hs, tt)
    | inr e ↦ rw e (e, tt)
  ]

  stops_shown :
      (line : List Point) (stops : List Stop)
      → All (λ p. contains f d zones p ≡ false) line
      → All (λ s. contains f d zones s.point ≡ false) (stops_outside f d zones line stops)
  unfolding stops_outside
  stops_shown line [] h = tt
  stops_shown line (s ∷ stops) h =
      All-append (λ s. contains f d zones s.point ≡ false) (stop_outside f d zones line s)
        (stops_outside f d zones line stops) (stop_shown line s h) (stops_shown line stops h)

  module _ (exact : IsExact f) where
    segment_shown :
        (s : LegSegment) → IsLine s.geometry → IsSegmentShown (segment_outside f d zones s)
    unfolding segment_outside hides
    segment_shown s line =
        let drawn = line_outside-AreShown f d exact zones s.geometry line in
        elim (Bool-cases (hides f d zones s.stop_lat s.stop_lng)) [
          | inl e ↦ rw e (drawn, refl)
          | inr e ↦ rw e (drawn, e)
        ]

    leg_shown :
        (l : Leg)
        → IsLine l.geometry × All (λ s. IsLine s.geometry) l.segments
        → IsLegShown (leg_outside f d zones l)
    unfolding leg_outside
    leg_shown l (line, segments) = (
      line_outside-AreShown f d exact zones l.geometry line,
      points_outside-AreShown f d exact zones l.via,
      All-map (λ s. IsLine s.geometry) IsSegmentShown (segment_outside f d zones) l.segments
          segment_shown segments,
    )

    track_shown : (t : Track) → IsLine t.geometry → IsTrackShown (track_outside f d zones t)
    unfolding track_outside
    track_shown t line =
        let drawn = line_outside-AreShown f d exact zones t.geometry line in
        (drawn, stops_shown (decode_polyline f (line_outside f d zones t.geometry) 5) t.stops drawn)

  hides_never : no_zones zones ≡ true → (lat lng : Option Float64) → IsPlaceShown lat lng
  unfolding hides
  hides_never e (some lat) (some lng) = never_contains f d zones e (record { lat = lat; lng = lng })
  hides_never e none (some lng) = refl
  hides_never e none none = refl
  hides_never e (some lat) none = refl

  never_ShowsNothing : no_zones zones ≡ true → (c : DocumentContent) → ShowsNothing c
  never_ShowsNothing e c =
      let points = λ (l : List Point).
        All-of (λ p. contains f d zones p ≡ false) l (never_contains f d zones e) in
      let shown = hides_never e in
      record {
        items = All-of (λ i. IsPlaceShown i.lat i.lng) c.items (λ i. shown i.lat i.lng);
        stays = All-of (λ s. IsPlaceShown s.lat s.lng) c.stays (λ s. shown s.lat s.lng);
        transfers =
            All-of (λ t. IsPlaceShown t.from_lat t.from_lng × IsPlaceShown t.to_lat t.to_lng)
              c.transfers (λ t. (shown t.from_lat t.from_lng, shown t.to_lat t.to_lng));
        legs = All-of IsLegShown c.legs (λ l. (
          points (decode_polyline f l.geometry 5),
          points l.via,
          All-of IsSegmentShown l.segments
              (λ s. (points (decode_polyline f s.geometry 5), shown s.stop_lat s.stop_lng)),
        ));
        tracks = All-of IsTrackShown c.tracks (λ t. (
          points (decode_polyline f t.geometry 5),
          All-of (λ s. contains f d zones s.point ≡ false) t.stops
              (λ s. never_contains f d zones e s.point),
        ));
      }

-- Of what `Outside` leaves, nothing lies inside a circle: no place, no stay, no end of a transfer,
-- no point of a line of a leg, a part or a recording, as the reader's map decodes it, no point that
-- a journey passes through, no change of a journey and no stop. The lines have coordinates of a
-- size that is found on Earth, for which dividing by 1e5 and multiplying again loses nothing.
pub outside-ShowsNothing :
    (f : Floats) (d : Distances) (zones : PrivacyZones) (c : DocumentContent)
    → IsExact f
    → HasLines c
    → ShowsNothing f d zones (outside f d zones c)
unfolding outside
outside-ShowsNothing f d zones c exact lines = elim (Bool-cases (no_zones zones)) [
  | inl e ↦ rw e (never_ShowsNothing f d zones e c)
  | inr e ↦ rw e (record {
    items =
        All-map (λ i. Unit {0}) (λ i. IsPlaceShown f d zones i.lat i.lng) (item_outside f d zones)
          c.items (λ i _. item_shown f d zones i) (All-of (λ i. Unit {0}) c.items (λ i. tt));
    stays =
        All-map (λ s. Unit {0}) (λ s. IsPlaceShown f d zones s.lat s.lng) (stay_outside f d zones)
          c.stays (λ s _. stay_shown f d zones s) (All-of (λ s. Unit {0}) c.stays (λ s. tt));
    transfers =
        All-map (λ t. Unit {0})
          (λ t.
            IsPlaceShown f d zones t.from_lat t.from_lng × IsPlaceShown f d zones t.to_lat t.to_lng)
          (transfer_outside f d zones) c.transfers (λ t _. transfer_shown f d zones t)
          (All-of (λ t. Unit {0}) c.transfers (λ t. tt));
    legs =
        All-map (λ l. IsLine l.geometry × All (λ s. IsLine s.geometry) l.segments)
          (IsLegShown f d zones) (leg_outside f d zones) c.legs (leg_shown f d zones exact)
          lines.legs;
    tracks =
        All-map (λ t. IsLine t.geometry) (IsTrackShown f d zones) (track_outside f d zones) c.tracks
          (track_shown f d zones exact) lines.tracks;
  })
]
