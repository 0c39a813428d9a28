-- ===== src/Base/Result.antt =====
-- Exceptions as values. `refused` is the error class of the script at hand (`GateError`,
-- `ImageError`, `VerificationError`) with its message; the others are the classes of Python and of
-- `urllib` that a script lets through or catches.
use Prim.Native.String.{String}
use Prim.Native.Nat.{ℕ}
use mathlib.Core.Path.{◌≡◌, refl}
use mathlib.Core.Logic.{◌↔◌}
use mathlib.Core.Bool.{Bool, true, false}
use mathlib.Core.Option.{Option, none, some}
use native.Mathlib.Omega.{arith}

pub data Error : Type 0 where
  refused : String → Error
  http_error : ℕ → Error
  os_error process_error value_error type_error key_error assertion_error : Error

pub data Result {ℓ} (A : Type ℓ) : Type ℓ where
  ok : A → Result A
  err : Error → Result A

-- `if not condition: raise …(message)`
abbrev pub ensure : Bool → String → Result (Unit {0})
ensure true message = ok tt
ensure false message = err (refused message)

-- A value that a pattern extracts, or the script's own error.
abbrev pub or_refuse {ℓ} : {A : Type ℓ} → Option A → String → Result A
or_refuse none message = err (refused message)
or_refuse (some a) message = ok a

abbrev pub IsOk {ℓ} : {A : Type ℓ} → Result A → Type ℓ
IsOk {A = A} r = (a : A) × (r ≡ ok a)

-- `x = …` of a call that may raise: what follows runs only if it has returned.
infixl 5 ◌>>=◌ ◌>>◌
abbrev pub ◌>>=◌ {ℓ κ} : {A : Type ℓ} {B : Type κ} → Result A → (A → Result B) → Result B
ok value >>= next = next value
err error >>= next = err error

-- A call for its checks alone.
abbrev pub ◌>>◌ {κ} : {B : Type κ} → Result (Unit {0}) → Result B → Result B
checked >> next = checked >>= λ _. next

pub ensure_iff : (b : Bool) (m : String) → (ensure b m ≡ ok tt) ↔ (b ≡ true)
ensure_iff b m = ground arith

-- A chain that has returned did so through its first part.
pub >>=-eq-ok {ℓ κ} :
    {A : Type ℓ} {B : Type κ} (first : Result A) (next : A → Result B) {last : B}
    → (first >>= next) ≡ ok last
    → (value : A) × (first ≡ ok value) × (next value ≡ ok last)
>>=-eq-ok (ok value) next returned = (value, refl, returned)
>>=-eq-ok (err error) next returned = cc

pub ok-injective {ℓ} : {A : Type ℓ} {a b : A} → ok a ≡ ok b → a ≡ b
ok-injective h = cc

module _ {ℓ} {B : Type ℓ} {r : B} where
  pub ensure-eq-ok :
      (b : Bool) (m : String) (f : Unit {0} → Result B)
      → (ensure b m >>= f) ≡ ok r
      → (b ≡ true) × (f tt ≡ ok r)
  ensure-eq-ok true m f h = (refl, h)
  ensure-eq-ok false m f h = absurd (ground arith)

  pub or_refuse-eq-ok {κ} :
      {A : Type κ} (o : Option A) (m : String) (f : A → Result B)
      → (or_refuse o m >>= f) ≡ ok r
      → (a : A) × (o ≡ some a) × (f a ≡ ok r)
  or_refuse-eq-ok none m f h = absurd (ground arith)
  or_refuse-eq-ok (some a) m f h = (a, refl, h)
