-- ===== src/Domain/Trimmed.antt =====
-- What the checks of texts accept, and that they leave it alone.
use Prim.Native.String.{String}
use tripvault.Base.{
  ℕ, ◌≤◌, false, ◌≡◌, ok, Returns, Returns-ok, Returns-refuse, goes_on, length, ltb, arith,
}
use tripvault.Base.Text.{Text, trim_space}
use tripvault.Base.Text.Trim.{trim_space_twice}
use tripvault.Domain.Checks.{trimmed_text, check_length}

-- A text without space at its ends, of a limited length.
abbrev pub IsTrimmed : ℕ → Text → Type 0
IsTrimmed limit v = (trim_space v ≡ v) × (length v ≤ limit)

pub trimmed_text-IsTrimmed :
    (field : String) (value : Text) (limit : ℕ)
    → Returns (IsTrimmed limit) (trimmed_text field value limit)
unfolding trimmed_text check_length
trimmed_text-IsTrimmed field value limit =
    Returns-refuse _ _ _ (λ short. Returns-ok (trim_space_twice value, ground (arith, short)))

pub trimmed_text_fixed :
    (field : String) (v : Text) (limit : ℕ) → IsTrimmed limit v → trimmed_text field v limit ≡ ok v
unfolding trimmed_text check_length
trimmed_text_fixed field v limit (trim, short) =
    let no_longer : ltb limit (length v) ≡ false = ground arith in
    rw trim (rw no_longer (simp goes_on))
