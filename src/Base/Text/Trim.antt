-- ===== src/Base/Text/Trim.antt =====
-- Trimming twice is trimming once.
use Prim.Native.Nat.{◌≤◌}
use mathlib.Core.Path.{◌≡◌, refl, sym, ap, ◌∙◌}
use mathlib.Core.Logic.{inl, inr}
use mathlib.Core.List.{[], ◌∷◌, ◌++◌, reverse, reverse-append, reverse-reverse}
use native.Mathlib.Omega.{arith}
use tripvault.Base.Tests.{Bool-cases}
use tripvault.Base.Lists.{length}
use tripvault.Base.Text.{Text, is_space, trim_left, trim_space}

length-trim_left-le : (s : Text) → length (trim_left s) ≤ length s
unfolding trim_left
length-trim_left-le [] = omega arith
length-trim_left-le (c ∷ s) = ground (arith, length-trim_left-le s)

trim_left_twice : (s : Text) → trim_left (trim_left s) ≡ trim_left s
unfolding trim_left
trim_left_twice [] = refl
trim_left_twice (c ∷ s) = elim (Bool-cases (is_space c)) [
  | inl e ↦ rw e (trim_left_twice s)
  | inr e ↦ rw e (rw e refl)
]

-- What trimming drops is a beginning.
trim_left-split : (s : Text) → (dropped : Text) × (s ≡ dropped ++ trim_left s)
unfolding trim_left
trim_left-split [] = ([], refl)
trim_left-split (c ∷ s) = elim (Bool-cases (is_space c)) [
  | inl e ↦ let (dropped, h) = trim_left-split s in (c ∷ dropped, rw e (ap (◌∷◌ c) h))
  | inr e ↦ ([], rw e refl)
]

trim_left_prefix : (u w : Text) → trim_left (u ++ w) ≡ u ++ w → trim_left u ≡ u
unfolding trim_left
trim_left_prefix [] w h = refl
trim_left_prefix (c ∷ u) w h = elim (Bool-cases (is_space c)) [
  | inl e ↦
      let h' : trim_left (u ++ w) ≡ c ∷ (u ++ w) = rw e at h in
      absurd (omega (arith, ap length h', length-trim_left-le (u ++ w)))
  | inr e ↦ rw e refl
]

pub trim_space_twice : (s : Text) → trim_space (trim_space s) ≡ trim_space s
unfolding trim_space
trim_space_twice s =
    let t = trim_left s in
    let kept = trim_left (reverse t) in
    let (dropped, h) = trim_left-split (reverse t) in
    let whole : t ≡ reverse kept ++ reverse dropped =
      sym (reverse-reverse t) ∙ ap reverse h ∙ reverse-append dropped kept in
    let left_fixed : trim_left (reverse kept) ≡ reverse kept =
      trim_left_prefix (reverse kept) (reverse dropped)
        (ap trim_left (sym whole) ∙ trim_left_twice s ∙ whole) in
    ap (λ x. reverse (trim_left (reverse x))) left_fixed
    ∙ ap (λ x. reverse (trim_left x)) (reverse-reverse kept)
    ∙ ap reverse (trim_left_twice (reverse t))
