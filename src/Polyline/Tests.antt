-- ===== src/Polyline/Tests.antt =====
-- The example in the description of the format, and the round trip on it.
use tripvault.Base.{◌-◌, ◌≡◌, refl, List, [], ◌∷◌, map, arith, inl, inr}
use tripvault.Base.Int64.{word}
use tripvault.Base.Text.{text}
use tripvault.Domain.Values.{Point}
use tripvault.Polyline.{Floats, encode_polyline, decode_polyline, scaled_point, rounded_point}
use tripvault.Polyline.RoundTrip.{decode_polyline-encode_polyline}

-- Coordinates that are whole numbers of hundred-thousandths already.
abbrev whole : Floats
whole = record { rounded = λ x. x; scaled = λ precision n. n }

abbrev line : List Point
line =
    record { lat = 3850000; lng = word - 12020000 }
    ∷ record { lat = 4070000; lng = word - 12095000 }
    ∷ record { lat = 4325200; lng = word - 12645300 }
    ∷ []

encoded_line : encode_polyline whole line ≡ text "_p~iF~ps|U_ulLnnqC_mqNvxq`@"
unfolding encode_polyline
encoded_line = refl

-- A line that ends in the middle of a number has the points before it.
decoded_cut :
    decode_polyline whole (text "_p~iF~ps|U_ulL") 5
    ≡ record { lat = 3850000; lng = word - 12020000 } ∷ []
unfolding decode_polyline
decoded_cut = refl

decode_polyline-encode_polyline_example :
    decode_polyline whole (encode_polyline whole line) 5
    ≡ map (λ p. scaled_point whole 5 (rounded_point whole p)) line
decode_polyline-encode_polyline_example = decode_polyline-encode_polyline whole line (
  ((omega arith, inl (omega arith)), (omega arith, inr (omega arith))),
  (
    ((omega arith, inl (omega arith)), (omega arith, inr (omega arith))),
    (((omega arith, inl (omega arith)), (omega arith, inr (omega arith))), tt),
  ),
)
