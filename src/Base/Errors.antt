-- ===== src/Base/Errors.antt =====
-- domain/errors.go: a rule that input breaks, and functions that return `(T, error)`.
-- The value that the code returns beside an error is read by none of its callers.
use Prim.Native.String.{String}
use mathlib.Core.Path.{◌≡◌, refl, subst, ap}
use mathlib.Core.Logic.{◌↔◌}
use mathlib.Core.Bool.{Bool, true, false}

-- `ValidationError`
pub record ValidationError : Type 0 where
  pub field : String
  pub error_code : String
  pub message : String

-- `NewValidationError`
abbrev pub new_validation_error : String → String → String → ValidationError
new_validation_error f c m = record { field = f; error_code = c; message = m }

-- `(T, error)`: an error, or the value that comes with `nil`.
pub data Result {ℓ} (T : Type ℓ) : Type ℓ where
  err : ValidationError → Result T
  ok : T → Result T

infixl 5 ◌>>=◌
-- `if err != nil { return err }` after a call. Shut, so that the rules below find their steps in a
-- goal.
unfoldable pub ◌>>=◌ {ℓ κ} :
    {T : Type ℓ} {U : Type κ} (call : Result T) (next : T → Result U) → Result U
err refusal >>= next = err refusal
ok value >>= next = next value

infixl 5 ◌>>◌
-- The same where only the error is returned.
abbrev pub ◌>>◌ {κ} : {U : Type κ} (call : Result (Unit {0})) (next : Result U) → Result U
call >> next = call >>= λ nothing. next

-- `if c { return err }`
unfoldable pub refuse_if : Bool → ValidationError → Result (Unit {0})
refuse_if true e = err e
refuse_if false e = ok tt

pub refuse_if_iff : (b : Bool) (e : ValidationError) → (refuse_if b e ≡ ok tt) ↔ (b ≡ false)
unfolding refuse_if
refuse_if_iff true e = (λ h. cc, λ h. cc)
refuse_if_iff false e = (λ _. refl, λ _. refl)

ok_or {ℓ} : {A : Type ℓ} → A → Result A → A
ok_or d (ok a) = a
ok_or d (err e) = d

pub ok_injective {ℓ} : {A : Type ℓ} {a b : A} → ok a ≡ ok b → a ≡ b
unfolding ok_or
ok_injective {a} e = ap (ok_or a) e

-- What holds of the value that a call returns, if it is no error.
pub record Returns {ℓ κ} {A : Type ℓ} (P : A → Type κ) (m : Result A) : Type (ℓ ⊔ κ) where
  pub at : (a : A) → m ≡ ok a → P a

-- A rule for each step of a `do` block.
pub Returns-ok {ℓ κ} : {A : Type ℓ} {P : A → Type κ} {a : A} → P a → Returns P (ok a)
Returns-ok {P} p = record { at = λ b e. subst P (ok_injective e) p }

pub Returns-err {ℓ κ} : {A : Type ℓ} {P : A → Type κ} {e : ValidationError} → Returns P (err e)
Returns-err = record { at = λ b e. absurd (cc) }

pub Returns-bind {ℓ κ μ} :
    {A : Type ℓ} {B : Type κ} {P : B → Type μ} (m : Result A) (f : A → Result B)
    → ((a : A) → m ≡ ok a → Returns P (f a))
    → Returns P (m >>= f)
unfolding ◌>>=◌
Returns-bind (ok a) f h = h a refl
Returns-bind (err e) f h = Returns-err

pub Returns-refuse {ℓ κ} :
    {B : Type ℓ} {P : B → Type κ} (b : Bool) (e : ValidationError) (k : Result B)
    → (b ≡ false → Returns P k)
    → Returns P (refuse_if b e >> k)
unfolding ◌>>=◌ refuse_if
Returns-refuse true e k h = Returns-err
Returns-refuse false e k h = h refl

-- A step that goes on.
pub ok-bind {ℓ κ} : {A : Type ℓ} {B : Type κ} (a : A) (f : A → Result B) → (ok a >>= f) ≡ f a
unfolding ◌>>=◌
ok-bind a f = refl

pub refuse_false : (e : ValidationError) → refuse_if false e ≡ ok tt
unfolding refuse_if
refuse_false e = refl

pub ruleset goes_on = (ok-bind, refuse_false)
