-- ===== src/Base/Outcome.antt =====
-- A Python call returns a value or raises. The errors are the exception classes of the program and
-- those of the interpreter and of pydantic that its calls can raise.
use Prim.Native.String.{String}
use mathlib.Core.Path.{◌≡◌, refl}
use mathlib.Core.Logic.{◌⊎◌, inl, inr}
use mathlib.Core.Bool.{Bool, true, false}
use mathlib.Core.Option.{Option, none, some}

pub data Error : Type 0 where
  key_error : String → Error
  value_error : String → Error
  type_error attribute_error validation_error index_error : Error
  project_not_found : String → Error
  permission_denied concurrency_error integrity_error : Error
  command_rejected : String → Error
  unauthorized : String → Error

pub data Result {ℓ} (A : Type ℓ) : Type ℓ where
  ok : A → Result A
  err : Error → Result A

pub Result-cases {ℓ} :
    {A : Type ℓ} (r : Result A) → ((a : A) × (r ≡ ok a)) ⊎ ((e : Error) × (r ≡ err e))
Result-cases (ok a) = inl (a, refl)
Result-cases (err e) = inr (e, refl)

-- `if test: raise e`
abbrev pub raise_if : Bool → Error → Result (Unit {0})
raise_if true e = err e
raise_if false e = ok tt

module _ {ℓ} {A : Type ℓ} where
  abbrev pub or_raise : Option A → Error → Result A
  or_raise none e = err e
  or_raise (some a) e = ok a

module _ {ℓ κ} {A : Type ℓ} {B : Type κ} where
  infixl 5 ◌>>=◌
  abbrev pub ◌>>=◌ : Result A → (A → Result B) → Result B
  err e >>= next = err e
  ok a >>= next = next a

infixl 5 ◌>>◌
abbrev pub ◌>>◌ {ℓ} : {B : Type ℓ} → Result (Unit {0}) → Result B → Result B
check >> rest = check >>= λ _. rest

pub raise_if-passed {ℓ} :
    {B : Type ℓ} (b : Bool) (e : Error) (rest : Result B) (x : B)
    → raise_if b e >> rest ≡ ok x
    → rest ≡ ok x
raise_if-passed true e rest x h = cc
raise_if-passed false e rest x h = h

-- A check that was passed did not hold, and what follows it returned.
pub raise_if-held {ℓ} :
    {B : Type ℓ} (b : Bool) (e : Error) (rest : Result B) (x : B)
    → raise_if b e >> rest ≡ ok x
    → (b ≡ false) × (rest ≡ ok x)
raise_if-held true e rest x h = cc
raise_if-held false e rest x h = (refl, h)
