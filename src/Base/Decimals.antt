-- ===== src/Base/Decimals.antt =====
-- The digits of `decimal` are those of the number: its fuel is enough.
use Prim.Native.Nat.{ℕ, zero, suc, ◌+◌, ◌-◌, ◌*◌, ◌/◌, ◌%◌, ◌<◌}
use Prim.Native.Char.{Char, code}
use Prim.Native.String.{String, [], ◌∷◌, ◌++◌}
use text.Mathlib.TextLemmas.{nil-append, cons-append}
use mathlib.Core.Path.{◌≡◌, refl, ap, ◌∙◌}
use mathlib.Core.Logic.{inl, inr}
use native.Mathlib.Omega.{arith}
use twinstudio.Base.Tests.{ltb, Bool-cases}
use twinstudio.Base.Text.{skip}
use twinstudio.Base.Letters.{upto, digits, digits_from, decimal}

-- the number that digits stand for, after a number read before them
read_digits : ℕ → String → ℕ
read_digits n [] = n
read_digits n (c ∷ s) = read_digits (n * 10 + (code c - 48)) s

digit_lem : (k : ℕ) → k < 10 → (c : Char) × (upto 1 (skip k digits) ≡ c ∷ []) × (code c - 48 ≡ k)
unfolding upto skip
digit_lem zero h = (_, refl, refl)
digit_lem (suc zero) h = (_, refl, refl)
digit_lem (suc (suc zero)) h = (_, refl, refl)
digit_lem (suc (suc (suc zero))) h = (_, refl, refl)
digit_lem (suc (suc (suc (suc zero)))) h = (_, refl, refl)
digit_lem (suc (suc (suc (suc (suc zero))))) h = (_, refl, refl)
digit_lem (suc (suc (suc (suc (suc (suc zero)))))) h = (_, refl, refl)
digit_lem (suc (suc (suc (suc (suc (suc (suc zero))))))) h = (_, refl, refl)
digit_lem (suc (suc (suc (suc (suc (suc (suc (suc zero)))))))) h = (_, refl, refl)
digit_lem (suc (suc (suc (suc (suc (suc (suc (suc (suc zero))))))))) h = (_, refl, refl)
digit_lem (suc (suc (suc (suc (suc (suc (suc (suc (suc (suc n)))))))))) h =
    let absurd : ⊥ = omega (arith, h) in elim absurd [ ]

read_more :
    (m k : ℕ) (done : String)
    → k < 10
    → read_digits m (upto 1 (skip k digits) ++ done) ≡ read_digits (m * 10 + k) done
unfolding read_digits
read_more m k done h =
    let (c, digit, value) = digit_lem k h in
    rw (digit, cons-append c [] done, nil-append done)
      (ap (λ v. read_digits (m * 10 + v) done) value)

read-digits_from :
    (fuel n : ℕ) (done : String)
    → n < fuel
    → read_digits 0 (digits_from fuel n done) ≡ read_digits n done
unfolding digits_from
read-digits_from zero n done h = let absurd : ⊥ = omega (arith, h) in elim absurd [ ]
read-digits_from (suc fuel) n done h =
    let more = read_more 0 (n % 10) done (omega arith) in
    elim (Bool-cases (ltb n 10)) [
      | inl small ↦
          let same : 0 * 10 + n % 10 ≡ n = ground (arith, small) in
          rw small (more ∙ ap (λ v. read_digits v done) same)
      | inr large ↦
          let next =
            read-digits_from fuel (n / 10) (upto 1 (skip (n % 10) digits) ++ done)
              (ground (arith, h, large)) in
          let same : n / 10 * 10 + n % 10 ≡ n = omega arith in
          rw large (
            next
            ∙ read_more (n / 10) (n % 10) done (omega arith)
            ∙ ap (λ v. read_digits v done) same)
    ]

-- Read back, the text of `decimal` is the number.
read-decimal : (n : ℕ) → read_digits 0 (decimal n) ≡ n
unfolding decimal read_digits
read-decimal n = read-digits_from (suc n) n "" (omega arith)
