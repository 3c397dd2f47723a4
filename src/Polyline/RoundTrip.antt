-- ===== src/Polyline/RoundTrip.antt =====
-- A line is read back as it was written.
use tripvault.Base.{
  ℕ, zero, suc, ◌+◌, ◌-◌, ◌*◌, ◌/◌, ◌%◌, ◌^◌, ◌≤◌, ◌<◌, ◌≡◌, refl, ◌∙◌, ap, some, List, [], ◌∷◌,
  ◌++◌, map, All, arith, length, length-append, ◌⊎◌, inl, inr, Bool-cases,
}
use tripvault.Base.Int64.{Int64, ◌⊕◌, ◌⊖◌, word, half_word, le64}
use tripvault.Domain.Values.{Point}
use tripvault.Domain.Users.{Bytes}
use tripvault.Polyline.{
  Floats, encode_groups, shifted_of, encode_value, encode_from, value_of, decode_groups,
  decode_value, decode_from, decode_ints, rounded_point, scaled_point, encode_polyline,
  decode_polyline,
}
use native.Mathlib.Nat.{div-add-mod}
use native.Mathlib.Numerals.{towards_suc}

-- A number well within 64 bits, of either sign: 2 ^ 60 is a thousand million degrees and more.
abbrev pub IsSmall : Int64 → Type 0
IsSmall v = (v < word) × ((v < 2 ^ 60) ⊎ (word - 2 ^ 60 ≤ v))

-- One round on the last group, and on a group that more follow.
last_group :
    (z result shift : ℕ) (rest : Bytes)
    → z < 32
    → result + z * 2 ^ shift < half_word
    → decode_groups ((z + 63) ∷ rest) result shift ≡ some (value_of (result + z * 2 ^ shift), rest)
unfolding decode_groups
last_group z result shift rest small fits = ground (arith, small, fits)

inner_group :
    (g result shift : ℕ) (rest : Bytes)
    → g < 32
    → result + g * 2 ^ shift < half_word
    → decode_groups ((32 + g + 63) ∷ rest) result shift
      ≡ decode_groups rest (result + g * 2 ^ shift) (shift + 5)
unfolding decode_groups
inner_group g result shift rest small fits = ground (arith, small, fits)

pow_five : (s : ℕ) → 2 ^ (s + 5) ≡ 32 * 2 ^ s
pow_five s = simp towards_suc (omega arith)

-- The lowest five bits and the others, shifted.
split_five : (z s : ℕ) → z * 2 ^ s ≡ z % 32 * 2 ^ s + z / 32 * 2 ^ (s + 5)
split_five z s =
    let parts = ap (λ (t : ℕ). t * 2 ^ s) (div-add-mod z 32) in
    let moved = ap (λ (t : ℕ). z / 32 * t) (pow_five s) in omega (arith, parts, moved)

encode_groups_last : (k z : ℕ) → z < 32 → encode_groups (suc k) z ≡ (z + 63) ∷ []
unfolding encode_groups
encode_groups_last k z small = ground (arith, small)

encode_groups_inner :
    (k z : ℕ)
    → 32 ≤ z
    → z < half_word
    → encode_groups (suc k) z ≡ (32 + z % 32 + 63) ∷ encode_groups k (z / 32)
unfolding encode_groups
encode_groups_inner k z large fits = ground (arith, large, fits)

decode_groups-encode_groups :
    (k z result shift : ℕ) (rest : Bytes)
    → z < 32 ^ suc k
    → z < half_word
    → result + z * 2 ^ shift < half_word
    → decode_groups (encode_groups (suc k) z ++ rest) result shift
      ≡ some (value_of (result + z * 2 ^ shift), rest)
decode_groups-encode_groups zero z result shift rest bound fits below =
    let small : z < 32 = omega (arith, bound) in
    rw (encode_groups_last zero z small) (last_group z result shift rest small below)
decode_groups-encode_groups (suc k) z result shift rest bound fits below =
    elim (Bool-cases (le64 32 z)) [
      | inr e ↦
          let small : z < 32 = ground (arith, e, fits) in
          rw (encode_groups_last (suc k) z small) (last_group z result shift rest small below)
      | inl e ↦
          let large : 32 ≤ z = ground (arith, e, fits) in
          let split = split_five z shift in
          let low = z % 32 * 2 ^ shift in
          let later =
            decode_groups-encode_groups k (z / 32) (result + low) (shift + 5) rest
              (omega (arith, bound)) (omega (arith, fits)) (omega (arith, split, below)) in
          let joined : (result + low) + z / 32 * 2 ^ (shift + 5) ≡ result + z * 2 ^ shift =
            omega (arith, split) in
          rw (encode_groups_inner (suc k) z large fits) (
            inner_group (z % 32) result shift (encode_groups (suc k) (z / 32) ++ rest) (omega arith)
              (omega (arith, split, below))
            ∙ later
            ∙ ap (λ x. some (value_of x, rest)) joined)
    ]

shifted_of_small :
    (v : Int64) → IsSmall v → (shifted_of v < half_word) × (value_of (shifted_of v) ≡ v)
unfolding shifted_of
shifted_of_small v (fits, inl low) = ground (arith, fits, low)
shifted_of_small v (fits, inr high) = ground (arith, fits, high)

decode_value-encode_value :
    (v : Int64) (rest : Bytes) → IsSmall v → decode_value (encode_value v ++ rest) ≡ some (v, rest)
unfolding decode_value encode_value
decode_value-encode_value v rest small =
    let (fits, back) = shifted_of_small v small in
    let whole : 0 + shifted_of v * 2 ^ 0 ≡ shifted_of v = omega arith in
    decode_groups-encode_groups 12 (shifted_of v) 0 0 rest (omega (arith, fits)) fits
      (omega (arith, fits))
    ∙ ap (λ x. some (x, rest)) (ap value_of whole ∙ back)

-- A coordinate: half of that.
abbrev pub IsNear : Int64 → Type 0
IsNear v = (v < word) × ((v < 2 ^ 59) ⊎ (word - 2 ^ 59 ≤ v))

abbrev pub AreNear : Int64 × Int64 → Type 0
AreNear p = IsNear p.0 × IsNear p.1

⊖-IsSmall : (a b : Int64) → IsNear a → IsNear b → IsSmall (a ⊖ b) × (b ⊕ (a ⊖ b) ≡ a)
⊖-IsSmall a b (fits, inl h) (fits', inl k) = elim (Bool-cases (le64 b a)) [
  | inl e ↦ ((omega arith, inl (ground (arith, e, h, k))), omega arith)
  | inr e ↦ ((omega arith, inr (ground (arith, e, h, k))), omega arith)
]
⊖-IsSmall a b (fits, inl h) (fits', inr k) = ((omega arith, inl (omega arith)), omega arith)
⊖-IsSmall a b (fits, inr h) (fits', inl k) = ((omega arith, inr (omega arith)), omega arith)
⊖-IsSmall a b (fits, inr h) (fits', inr k) = elim (Bool-cases (le64 b a)) [
  | inl e ↦ ((omega arith, inl (ground (arith, e, h, k, fits, fits'))), omega arith)
  | inr e ↦ ((omega arith, inr (ground (arith, e, h, k, fits, fits'))), omega arith)
]

decode_from_step :
    (fuel lat lng value value' : ℕ) (encoded rest rest' : Bytes)
    → decode_value encoded ≡ some (value, rest)
    → decode_value rest ≡ some (value', rest')
    → decode_from (suc fuel) lat lng encoded
      ≡ (lat ⊕ value, lng ⊕ value') ∷ decode_from fuel (lat ⊕ value) (lng ⊕ value') rest'
unfolding decode_from
decode_from_step fuel lat lng value value' encoded rest rest' e e' = rw (decode_from, e, e') refl

decode_from_nil : (fuel lat lng : ℕ) → decode_from fuel lat lng [] ≡ []
unfolding decode_from decode_value decode_groups
decode_from_nil zero lat lng = refl
decode_from_nil (suc fuel) lat lng = refl

decode_from-encode_from :
    (fuel lat lng : ℕ) (points : List (Int64 × Int64))
    → length points ≤ fuel
    → IsNear lat
    → IsNear lng
    → All AreNear points
    → decode_from fuel lat lng (encode_from lat lng points) ≡ points
unfolding encode_from
decode_from-encode_from fuel lat lng [] enough h k near = decode_from_nil fuel lat lng
decode_from-encode_from zero lat lng ((a, b) ∷ points) enough h k near =
    absurd (omega (arith, enough))
decode_from-encode_from (suc fuel) lat lng ((a, b) ∷ points) enough h k ((near, near'), rest) =
    let (small, back) = ⊖-IsSmall a lat near h in
    let (small', back') = ⊖-IsSmall b lng near' k in
    let tail = encode_from a b points in
    decode_from_step fuel lat lng (a ⊖ lat) (b ⊖ lng)
      (encode_value (a ⊖ lat) ++ (encode_value (b ⊖ lng) ++ tail)) (encode_value (b ⊖ lng) ++ tail)
      tail (decode_value-encode_value (a ⊖ lat) (encode_value (b ⊖ lng) ++ tail) small)
      (decode_value-encode_value (b ⊖ lng) tail small')
    ∙ rw (back, back')
        (ap (◌∷◌ (a, b))
          (decode_from-encode_from fuel a b points (omega (arith, enough)) near near' rest))

length-encode_value : (v : Int64) → 1 ≤ length (encode_value v)
unfolding encode_value encode_groups
length-encode_value v = elim (Bool-cases (le64 32 (shifted_of v))) [
  | inl e ↦ rw e (omega arith)
  | inr e ↦ rw e (omega arith)
]

length-encode_from :
    (lat lng : ℕ) (points : List (Int64 × Int64))
    → length points ≤ length (encode_from lat lng points)
unfolding encode_from
length-encode_from lat lng [] = omega arith
length-encode_from lat lng ((a, b) ∷ points) =
    let tail = encode_from a b points in
    omega (
      arith,
      length-append (encode_value (a ⊖ lat)) (encode_value (b ⊖ lng) ++ tail),
      length-append (encode_value (b ⊖ lng)) tail,
      length-encode_value (a ⊖ lat),
      length-encode_from a b points,
    )

pub decode_ints-encode_from :
    (points : List (Int64 × Int64))
    → All AreNear points
    → decode_ints (encode_from 0 0 points) ≡ points
unfolding decode_ints
decode_ints-encode_from points near =
    decode_from-encode_from (length (encode_from 0 0 points)) 0 0 points
      (length-encode_from 0 0 points) (omega arith, inl (omega arith))
      (omega arith, inl (omega arith)) near

-- A point whose rounded coordinates are within reach of the codec.
abbrev pub IsEncodable : Floats → Point → Type 0
IsEncodable f p = AreNear (rounded_point f p)

AreNear-map :
    (f : Floats) (points : List Point)
    → All (IsEncodable f) points
    → All AreNear (map (rounded_point f) points)
AreNear-map f [] h = tt
AreNear-map f (p ∷ points) (h, hs) = (h, AreNear-map f points hs)

map-map :
    {A B C : Type 0} (g : B → C) (f : A → B) (l : List A) → map g (map f l) ≡ map (λ a. g (f a)) l
map-map g f [] = refl
map-map g f (a ∷ l) = ap (◌∷◌ (g (f a))) (map-map g f l)

-- A line is read back as the points that were written, each rounded to five decimals, whatever
-- their number and order: no point is lost and none is moved any further. The rounded coordinates
-- stay below 2 ^ 59, which is far beyond any place on Earth.
pub decode_polyline-encode_polyline :
    (f : Floats) (points : List Point)
    → All (IsEncodable f) points
    → decode_polyline f (encode_polyline f points) 5
      ≡ map (λ p. scaled_point f 5 (rounded_point f p)) points
unfolding decode_polyline encode_polyline
decode_polyline-encode_polyline f points near =
    ap (map (scaled_point f 5))
      (decode_ints-encode_from (map (rounded_point f) points) (AreNear-map f points near))
    ∙ map-map (scaled_point f 5) (rounded_point f) points
