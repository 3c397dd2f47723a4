-- ===== src/Privacy/Tests.antt =====
-- A lunch at home, and a walk that starts there.
use tripvault.Base.{◌+◌, ◌-◌, ◌≡◌, refl, some, [], ◌∷◌, arith, inl, leb, ltb}
use tripvault.Base.Text.{Text}
use tripvault.Domain.Values.{Point}
use tripvault.Domain.Samples.{content, lunch, walk, drive, view}
use tripvault.Domain.Content.{DocumentContent}
use tripvault.Polyline.{Floats, encode_polyline, decode_polyline}
use tripvault.Privacy.{Distances, PrivacyZones, outside, track_outside}
use tripvault.Privacy.Lines.{IsLine}
use tripvault.Privacy.Hidden.{ShowsNothing, HasLines, outside-ShowsNothing}
use tripvault.Privacy.Kept.{outside_twice}

abbrev whole : Floats
whole = record { rounded = λ x. x; scaled = λ precision n. n }

-- Distances along the two axes.
abbrev blocks : Distances
blocks = record {
  great_circle = λ a b. (a.lat - b.lat) + (b.lat - a.lat) + ((a.lng - b.lng) + (b.lng - a.lng));
  le_float = leb;
  lt_float = ltb;
  float_of = λ n. n;
}

abbrev home : PrivacyZones
home = record { center = record { lat = 100; lng = 100 }; radius_m = 50 } ∷ []

abbrev point : Point
point = record { lat = 100; lng = 300 }

abbrev line : Text
line = encode_polyline whole (record point { lng = 120 } ∷ point ∷ record point { lng = 500 } ∷ [])

abbrev at_home : DocumentContent
at_home = record content {
  items = record lunch { lat = some 110; lng = some 100 } ∷ [];
  legs = record drive { geometry = line } ∷ [];
  tracks = record walk { geometry = line } ∷ [];
}

line-IsLine : IsLine line
unfolding encode_polyline decode_polyline
line-IsLine = (
  ((omega arith, inl (omega arith)), (omega arith, inl (omega arith))),
  (
    ((omega arith, inl (omega arith)), (omega arith, inl (omega arith))),
    (((omega arith, inl (omega arith)), (omega arith, inl (omega arith))), tt),
  ),
)

at_home-HasLines : HasLines at_home
at_home-HasLines = record { legs = ((line-IsLine, tt), tt); tracks = (line-IsLine, tt) }

-- The stop at home moves to the nearest point that is left.
stop_moved : track_outside whole blocks home (record walk { geometry = line }) ≡ record walk {
  geometry = encode_polyline whole (point ∷ record point { lng = 500 } ∷ []);
  stops = record view { point = point } ∷ [];
}
unfolding track_outside
stop_moved = refl

outside-ShowsNothing_example : ShowsNothing whole blocks home (outside whole blocks home at_home)
outside-ShowsNothing_example =
    outside-ShowsNothing whole blocks home at_home (λ n h. refl) at_home-HasLines

outside_twice_example :
    (ShowsNothing whole blocks home at_home → outside whole blocks home at_home ≡ at_home)
    × (outside whole blocks home (outside whole blocks home at_home)
        ≡ outside whole blocks home at_home)
outside_twice_example = outside_twice whole blocks home at_home (λ n h. refl) at_home-HasLines
