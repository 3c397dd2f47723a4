-- ===== src/Privacy/Lines.antt =====
-- Lines without the points inside the circles.
use tripvault.Base.{
  ◌-◌, ◌^◌, ◌≤◌, ◌<◌, ◌≡◌, refl, ap, Bool, true, false, not, List, [], ◌∷◌, map, select,
  if◌then◌else◌, All, All-every, All-select, length, length-select-le, arith, ◌⊎◌, inl, inr,
  Bool-cases, ltb, ◌==◌, ==_iff,
}
use tripvault.Base.Int64.{Int64, word}
use tripvault.Base.Text.{Text}
use tripvault.Domain.Values.{Point}
use tripvault.Polyline.{
  Floats, encode_polyline, decode_polyline, decode_ints, rounded_point, scaled_point, decode_from,
}
use tripvault.Polyline.RoundTrip.{AreNear, IsNear, decode_ints-encode_from}
use tripvault.Privacy.{Distances, PrivacyZones, no_zones, contains, points_outside, line_outside}

-- A whole number of hundred-thousandths of a degree, up to 1342 degrees.
abbrev pub IsWhole : Int64 → Type 0
IsWhole v = (v < word) × ((v < 2 ^ 27) ⊎ (word - 2 ^ 27 ≤ v))

-- What floating-point numbers keep: dividing such a number by 1e5, multiplying it again and
-- rounding gives it back.
abbrev pub IsExact : Floats → Type 0
IsExact f = (n : Int64) → IsWhole n → f.rounded (f.scaled 5 n) ≡ n

-- The line has coordinates of that size.
abbrev pub IsLine : Text → Type 0
IsLine encoded = All (λ p. IsWhole p.0 × IsWhole p.1) (decode_ints encoded)

IsNear-IsWhole : (v : Int64) → IsWhole v → IsNear v
IsNear-IsWhole v (fits, inl low) = (fits, inl (omega (arith, low)))
IsNear-IsWhole v (fits, inr high) = (fits, inr (omega (arith, high)))

AreNear-IsWhole :
    (points : List (Int64 × Int64))
    → All (λ p. IsWhole p.0 × IsWhole p.1) points
    → All AreNear points
AreNear-IsWhole [] h = tt
AreNear-IsWhole (p ∷ points) (h, hs) =
    ((IsNear-IsWhole p.0 h.0, IsNear-IsWhole p.1 h.1), AreNear-IsWhole points hs)

pub all_of_length :
    {A : Type 0} (p : A → Bool) (l : List A)
    → length (select p l) ≡ length l
    → All (λ a. p a ≡ true) l
all_of_length p [] h = tt
all_of_length p (a ∷ l) h = elim (Bool-cases (p a)) [
  | inl e ↦ (e, all_of_length p l (ground (arith, h, e)))
  | inr e ↦ absurd (ground (arith, h, e, length-select-le p l))
]

select-map :
    {A B : Type 0} (p : B → Bool) (g : A → B) (l : List A)
    → select p (map g l) ≡ map g (select (λ a. p (g a)) l)
select-map p g [] = refl
select-map p g (a ∷ l) = elim (Bool-cases (p (g a))) [
  | inl e ↦ rw e (ap (◌∷◌ (g a)) (select-map p g l))
  | inr e ↦ rw e (select-map p g l)
]

All-selected :
    {A : Type 0} (P : A → Type 0) (p : A → Bool) (l : List A) → All P l → All P (select p l)
All-selected P p [] h = tt
All-selected P p (a ∷ l) (h, hs) = elim (Bool-cases (p a)) [
  | inl e ↦ rw e (h, All-selected P p l hs)
  | inr e ↦ rw e (All-selected P p l hs)
]

pub decode_polyline-nil : (f : Floats) → decode_polyline f [] 5 ≡ []
unfolding decode_polyline decode_ints decode_from
decode_polyline-nil f = refl

module _ (f : Floats) (d : Distances) (exact : IsExact f) where
  rounded_scaled :
      (points : List (Int64 × Int64))
      → All (λ p. IsWhole p.0 × IsWhole p.1) points
      → map (rounded_point f) (map (scaled_point f 5) points) ≡ points
  rounded_scaled [] h = refl
  rounded_scaled ((lat, lng) ∷ points) ((h, k), hs) =
      rw (exact lat h, exact lng k) (ap (◌∷◌ (lat, lng)) (rounded_scaled points hs))

  decode_selected :
      (p : Point → Bool) (encoded : Text)
      → IsLine encoded
      → decode_polyline f (encode_polyline f (select p (decode_polyline f encoded 5))) 5
        ≡ select p (decode_polyline f encoded 5)
  unfolding decode_polyline encode_polyline
  decode_selected p encoded line =
      let ints = decode_ints encoded in
      let left = select (λ a. p (scaled_point f 5 a)) ints in
      let whole =
        All-selected (λ a. IsWhole a.0 × IsWhole a.1) (λ a. p (scaled_point f 5 a)) ints line in
      rw (select-map p (scaled_point f 5) ints) (
        rw (rounded_scaled left whole)
          (ap (map (scaled_point f 5)) (decode_ints-encode_from left (AreNear-IsWhole left whole))))

  -- Where none of a line's points lies inside a circle.
  abbrev pub AreShown : PrivacyZones → List Point → Type 0
  AreShown zones points = All (λ p. contains f d zones p ≡ false) points

  pub points_outside-AreShown :
      (zones : PrivacyZones) (points : List Point)
      → AreShown zones (points_outside f d zones points)
  unfolding points_outside
  points_outside-AreShown zones points =
      All-select (λ p. not (contains f d zones p)) (λ p. contains f d zones p ≡ false) points
        (All-every _ points (λ p e. ground (arith, e)))

  pub no_zones-AreShown :
      (zones : PrivacyZones) (points : List Point) → no_zones zones ≡ true → AreShown zones points
  unfolding contains
  no_zones-AreShown [] [] e = tt
  no_zones-AreShown [] (p ∷ points) e = (refl, no_zones-AreShown [] points e)
  no_zones-AreShown (zone ∷ zones) points e = cc

  AreShown-not :
      (zones : PrivacyZones) (points : List Point)
      → All (λ p. not (contains f d zones p) ≡ true) points
      → AreShown zones points
  AreShown-not zones [] h = tt
  AreShown-not zones (p ∷ points) (h, hs) = (ground (arith, h), AreShown-not zones points hs)

  few_points :
      (zones : PrivacyZones) (encoded : Text) (points : List Point)
      → IsLine encoded
      → points ≡ decode_polyline f encoded 5
      → AreShown zones (
          decode_polyline f
            (if ltb (length (points_outside f d zones points)) 2
              then []
              else encode_polyline f (points_outside f d zones points))
            5)
  unfolding points_outside
  few_points zones encoded points line e =
      let kept = select (λ p. not (contains f d zones p)) in
      elim (Bool-cases (ltb (length (kept points)) 2)) [
        | inl few ↦ rw few (rw (decode_polyline-nil f) tt)
        | inr more ↦ rw more (
            rw e (
              rw (decode_selected (λ p. not (contains f d zones p)) encoded line)
                (points_outside-AreShown zones (decode_polyline f encoded 5))))
      ]

  pub line_outside-AreShown :
      (zones : PrivacyZones) (encoded : Text)
      → IsLine encoded
      → AreShown zones (decode_polyline f (line_outside f d zones encoded) 5)
  unfolding line_outside
  line_outside-AreShown zones [] line = elim (Bool-cases (no_zones zones)) [
    | inl e ↦ rw e tt
    | inr e ↦ rw e tt
  ]
  line_outside-AreShown zones (c ∷ rest) line =
      let encoded = c ∷ rest in
      let points = decode_polyline f encoded 5 in
      elim (Bool-cases (no_zones zones)) [
        | inl e ↦ rw e (no_zones-AreShown zones points e)
        | inr e ↦ elim (Bool-cases (length (points_outside f d zones points) == length points)) [
          | inl same ↦ rw e (
              rw same (
                AreShown-not zones points (
                  unfold points_outside in
                  all_of_length (λ p. not (contains f d zones p)) points ((==_iff _ _).0 same))))
          | inr other ↦ rw e (rw other (few_points zones encoded points line refl))
        ]
      ]
