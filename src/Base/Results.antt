-- ===== src/Base/Results.antt =====
-- Go's `(value, error)` pairs, and the run-time panics beside them. An `Error` is Go's error chain:
-- the sentinel values of the package, a formatted message whose text is not kept, and `%w`.
use Prim.Native.Nat.{ℕ}
use mathlib.Core.Path.{◌≡◌, refl}
use mathlib.Core.Bool.{Bool, true, false}

pub data Error : Type 0 where
  -- an `ExceptionCode` used as an error
  exception : ℕ → Error
  -- `ErrFcNotSupported`
  fc_not_supported : Error
  -- `ErrorCrc`
  crc_invalid : Error
  -- an error of the connection
  io_failure : Error
  -- `errors.New(...)`, or `fmt.Errorf(...)` with no `%w`
  message : Error
  -- `fmt.Errorf("%w ...", e)`
  wrap : Error → Error

pub data Result {ℓ} (A : Type ℓ) : Type ℓ where
  ok : A → Result A
  err : Error → Result A
  -- an index or a slice bound out of range
  panic : Result A

infixl 5 ◌>>=◌ ◌>>◌
abbrev pub ◌>>=◌ {ℓ κ} : {A : Type ℓ} {B : Type κ} → Result A → (A → Result B) → Result B
ok a >>= f = f a
err e >>= f = err e
panic >>= f = panic

abbrev pub ◌>>◌ {ℓ} : {B : Type ℓ} → Result (Unit {0}) → Result B → Result B
m >> k = m >>= λ _. k

-- `if test { return error }`
abbrev pub fail_if : Bool → Error → Result (Unit {0})
fail_if true e = err e
fail_if false e = ok tt

pub ok-injective {ℓ} : {A : Type ℓ} {a b : A} → ok a ≡ ok b → a ≡ b
ok-injective h = cc

-- There is no panic, and a result without an error has the property.
abbrev pub Settles {ℓ} : {A : Type ℓ} (P : A → Type 0) → Result A → Type 0
Settles P (ok a) = P a
Settles P (err e) = Unit
Settles P panic = ⊥

pub bind-Settles {ℓ κ} :
    {A : Type ℓ} {B : Type κ} (P : A → Type 0) (Q : B → Type 0) (r : Result A) (k : A → Result B)
    → Settles P r
    → ((a : A) → P a → Settles Q (k a))
    → Settles Q (r >>= k)
bind-Settles P Q (ok a) k h each = each a h
bind-Settles P Q (err e) k h each = tt
bind-Settles P Q panic k h each = h

pub fail_if-Settles : (b : Bool) (e : Error) → Settles (λ _. b ≡ false) (fail_if b e)
fail_if-Settles true e = tt
fail_if-Settles false e = refl
