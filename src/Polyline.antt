-- ===== src/Polyline.antt =====
-- backend/internal/domain/polyline.go: lines as text. The two conversions between a coordinate and
-- its whole number of hundred-thousandths are floating-point arithmetic, and parameters.
pub mod RoundTrip
mod Tests
use tripvault.Base.{
  ℕ, zero, suc, ◌+◌, ◌-◌, ◌*◌, ◌/◌, ◌%◌, ◌^◌, Option, none, some, List, [], ◌∷◌, ◌++◌, map,
  if◌then◌else◌, ◌==◌, length,
}
use tripvault.Base.Int64.{Int64, ◌⊕◌, ◌⊖◌, word, half_word, is_neg, lt64, le64}
use tripvault.Domain.Values.{Float64, Point}
use tripvault.Domain.Users.{Bytes}

-- `int(math.Round(x * 1e5))`, and `float64(n) / math.Pow10(precision)`.
pub record Floats : Type 0 where
  pub rounded : Float64 → Int64
  pub scaled : ℕ → Int64 → Float64

-- `^x`
abbrev pub complement : Int64 → Int64
complement x = word - 1 - x

-- `x >> 1`, which keeps the sign.
abbrev pub halved : Int64 → Int64
halved x = if is_neg x then x / 2 + half_word else x / 2

-- The loop of `encode`: five bits at a time, on fuel.
unfoldable pub encode_groups : ℕ → Int64 → Bytes
encode_groups zero shifted = []
encode_groups (suc fuel) shifted =
    let rest = encode_groups fuel (shifted / 32) in
    if le64 32 shifted then (32 + shifted % 32 + 63) ∷ rest else ((shifted ⊕ 63) % 256) ∷ []

-- `value << 1`, with its bits turned round for a negative value.
unfoldable pub shifted_of : Int64 → Int64
shifted_of value =
    let shifted = (value * 2) % word in if is_neg value then complement shifted else shifted

-- `encode`; a value of 64 bits has 13 groups.
unfoldable pub encode_value : Int64 → Bytes
unfolding encode_groups shifted_of
encode_value value = encode_groups 13 (shifted_of value)

-- The loop of `EncodePolyline` on the rounded coordinates.
unfoldable pub encode_from : Int64 → Int64 → List (Int64 × Int64) → Bytes
unfolding encode_value
encode_from prev_lat prev_lng [] = []
encode_from prev_lat prev_lng ((lat, lng) ∷ points) =
    encode_value (lat ⊖ prev_lat) ++ (encode_value (lng ⊖ prev_lng) ++ encode_from lat lng points)

abbrev pub value_of : Int64 → Int64
value_of result = if result % 2 == 1 then complement (halved result) else halved result

-- The loop of `decodeValue`: the value, and what is left of the line. All bits of the result from
-- the shift on are clear, so that `|=` adds.
unfoldable pub decode_groups : Bytes → Int64 → ℕ → Option (Int64 × Bytes)
decode_groups [] result shift = none
decode_groups (c ∷ encoded) result shift =
    let b = c ⊖ 63 in
    let result' = (result + b % 32 * 2 ^ shift) % word in
    let rest = decode_groups encoded result' (shift + 5) in
    if lt64 b 32 then some (value_of result', encoded) else rest

-- `decodeValue`
unfoldable pub decode_value : Bytes → Option (Int64 × Bytes)
unfolding decode_groups
decode_value encoded = decode_groups encoded 0 0

-- The loop of `DecodePolyline`, which reads two bytes at least in a round, on fuel.
unfoldable pub decode_from : ℕ → Int64 → Int64 → Bytes → List (Int64 × Int64)
unfolding decode_value
decode_from zero lat lng encoded = []
decode_from (suc fuel) lat lng encoded = elim (decode_value encoded) [
  | none ↦ []
  | some (value, rest) ↦ elim (decode_value rest) [
    | none ↦ []
    | some (value', rest') ↦
        (lat ⊕ value, lng ⊕ value') ∷ decode_from fuel (lat ⊕ value) (lng ⊕ value') rest'
  ]
]

unfoldable pub decode_ints : Bytes → List (Int64 × Int64)
unfolding decode_from
decode_ints encoded = decode_from (length encoded) 0 0 encoded

module _ (f : Floats) where
  abbrev pub rounded_point : Point → Int64 × Int64
  rounded_point p = (f.rounded p.lat, f.rounded p.lng)

  abbrev pub scaled_point : ℕ → Int64 × Int64 → Point
  scaled_point precision (lat, lng) = record {
    lat = f.scaled precision lat;
    lng = f.scaled precision lng;
  }

  -- `EncodePolyline`
  unfoldable pub encode_polyline : List Point → Bytes
  unfolding encode_from
  encode_polyline points = encode_from 0 0 (map rounded_point points)

  -- `DecodePolyline`
  unfoldable pub decode_polyline : Bytes → ℕ → List Point
  unfolding decode_ints
  decode_polyline encoded precision = map (scaled_point precision) (decode_ints encoded)
