-- ===== src/Base/Exec.antt =====
-- Methods that change a state and may raise. What was written before a raise stays written, so the
-- state comes back beside the error; a database transaction is `begin`, which rolls it back.
use mathlib.Core.Path.{◌≡◌, refl}
use mathlib.Core.Bool.{Bool, true, false}
use twinstudio.Base.Outcome.{Error, Result, ok, err}

abbrev pub Exec {ℓ} : Type ℓ → Type ℓ → Type ℓ
Exec S A = S → Result A × S

module _ {ℓ} {S A : Type ℓ} where
  abbrev pub pure : A → Exec S A
  pure a s = (ok a, s)

  abbrev pub raise : Error → Exec S A
  raise e s = (err e, s)

  abbrev pub lift : Result A → Exec S A
  lift r s = (r, s)

  abbrev pub gets : (S → A) → Exec S A
  gets f s = (ok (f s), s)

  -- the state after the transaction that began at `s`
  abbrev pub settle : S → Result A → S → Result A × S
  settle s (ok a) t = (ok a, t)
  settle s (err e) t = (err e, s)

  -- `with engine.begin() as conn:`
  abbrev pub begin : Exec S A → Exec S A
  begin m s = let (r, t) = m s in settle s r t

abbrev pub modify {ℓ} : {S : Type ℓ} → (S → S) → S → Result (Unit {0}) × S
modify f s = (ok tt, f s)

abbrev pub raise_if {ℓ} : {S : Type ℓ} → Bool → Error → S → Result (Unit {0}) × S
raise_if b e s = elim b [ true ↦ (err e, s) | false ↦ (ok tt, s) ]

module _ {ℓ κ μ} {S : Type ℓ} {A : Type κ} {B : Type μ} where
  abbrev pub resume : Result A → (A → S → Result B × S) → S → Result B × S
  resume (ok a) f s = f a s
  resume (err e) f s = (err e, s)

  infixl 5 ◌>>=◌ ◌>>◌
  abbrev pub ◌>>=◌ : (S → Result A × S) → (A → S → Result B × S) → S → Result B × S
  ◌>>=◌ m f s = let (r, t) = m s in resume r f t

  abbrev pub ◌>>◌ : (S → Result A × S) → (S → Result B × S) → S → Result B × S
  ◌>>◌ m n s = let (r, t) = m s in resume r (λ _. n) t

-- Returning a value at the end changes nothing.
pub resume-pure {ℓ κ μ} :
    {S : Type ℓ} {A : Type κ} {B : Type μ} (r : Result A) (b : B) (s : S)
    → (resume r (λ _ t. (ok b, t)) s).1 ≡ s
resume-pure (ok a) b s = refl
resume-pure (err e) b s = refl
