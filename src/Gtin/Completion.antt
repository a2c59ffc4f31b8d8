-- ===== src/Gtin/Completion.antt =====
-- A completed number is valid, and no change of one digit leaves it valid.
use Prim.Native.Char.{Char}
use Prim.Native.String.{[], ◌∷◌, ◌++◌}
use text.Mathlib.TextLemmas.{nil-append, cons-append}
use twinstudio.Base.{
  ℕ, zero, suc, ◌+◌, ◌<◌, String, ◌≡◌, ◌≢◌, refl, ap, inl, inr, Bool, true, false, not, arith,
  Bool-cases, ok, raise_if-held, eqb, eqb_iff, ◌==◌, eq_iff, eq_refl,
}
use mathlib.Core.Path.{subst}
use twinstudio.Base.Letters.{size, among, all_among, digits}
use twinstudio.Gtin.{
  is_digits, check_digit, digit_text, calculate_check_digit, is_gtin_length, complete_gtin,
  without_last, last_of, validate_gtin,
}
use twinstudio.Gtin.CheckDigit.{IsOneOff, validate_gtin-IsOneOff, check_digit_bound}

size-concat : (s : String) (c : Char) → size (s ++ (c ∷ [])) ≡ size s + 1
unfolding size
size-concat [] c = rw (nil-append (c ∷ [])) refl
size-concat (d ∷ s) c = rw (cons-append d s (c ∷ [])) (omega (arith, size-concat s c))

all_among-concat :
    (cs s : String) (c : Char)
    → all_among cs s ≡ true
    → among cs c ≡ true
    → all_among cs (s ++ (c ∷ [])) ≡ true
unfolding all_among
all_among-concat cs [] c h k = rw (nil-append (c ∷ [])) (rw k refl)
all_among-concat cs (d ∷ s) c h k =
    rw (cons-append d s (c ∷ [])) (ground (arith, h, all_among-concat cs s c))

without_last-concat : (s : String) (c : Char) → without_last (s ++ (c ∷ [])) ≡ s
unfolding without_last
without_last-concat [] c = rw (nil-append (c ∷ [])) refl
without_last-concat (d ∷ []) c = rw (cons-append d [] (c ∷ []), nil-append (c ∷ [])) refl
without_last-concat (d ∷ e ∷ s) c =
    let rest = without_last-concat (e ∷ s) c in
    let k = rw (cons-append e s (c ∷ [])) at rest in
    rw (cons-append d (e ∷ s) (c ∷ []), cons-append e s (c ∷ [])) (ap (λ x. d ∷ x) k)

last_of-concat : (s : String) (c : Char) → last_of (s ++ (c ∷ [])) ≡ c ∷ []
unfolding last_of
last_of-concat [] c = rw (nil-append (c ∷ [])) refl
last_of-concat (d ∷ []) c = rw (cons-append d [] (c ∷ []), nil-append (c ∷ [])) refl
last_of-concat (d ∷ e ∷ s) c =
    let rest = last_of-concat (e ∷ s) c in
    let k = rw (cons-append e s (c ∷ [])) at rest in
    rw (cons-append d (e ∷ s) (c ∷ []), cons-append e s (c ∷ [])) k

-- The text of a digit is one character, a digit.
digit_text_lem : (n : ℕ) → n < 10 → (c : Char) × (digit_text n ≡ c ∷ []) × (among digits c ≡ true)
unfolding digit_text among
digit_text_lem zero h = (_, refl, refl)
digit_text_lem (suc zero) h = (_, refl, refl)
digit_text_lem (suc (suc zero)) h = (_, refl, refl)
digit_text_lem (suc (suc (suc zero))) h = (_, refl, refl)
digit_text_lem (suc (suc (suc (suc zero)))) h = (_, refl, refl)
digit_text_lem (suc (suc (suc (suc (suc zero))))) h = (_, refl, refl)
digit_text_lem (suc (suc (suc (suc (suc (suc zero)))))) h = (_, refl, refl)
digit_text_lem (suc (suc (suc (suc (suc (suc (suc zero))))))) h = (_, refl, refl)
digit_text_lem (suc (suc (suc (suc (suc (suc (suc (suc zero)))))))) h = (_, refl, refl)
digit_text_lem (suc (suc (suc (suc (suc (suc (suc (suc (suc zero))))))))) h = (_, refl, refl)
digit_text_lem (suc (suc (suc (suc (suc (suc (suc (suc (suc (suc n)))))))))) h =
    let absurd : ⊥ = omega (arith, h) in elim absurd [ ]

not-false : (b : Bool) → not b ≡ false → b ≡ true
not-false true h = refl
not-false false h = cc

digits_among : (s : String) → is_digits s ≡ true → all_among digits s ≡ true
digits_among s h = elim (Bool-cases (s == "")) [
  | inl empty ↦ let k = rw empty at h in cc
  | inr filled ↦ rw filled at h
]

-- a text of at least one character is not empty
not_empty : (s : String) (n : ℕ) → size s ≡ n + 1 → (s == "") ≡ false
unfolding size
not_empty s n h = elim (Bool-cases (s == "")) [
  | inr e ↦ e
  | inl e ↦
      let k = rw ((eq_iff s "").0 e) at h in let absurd : ⊥ = omega (arith, k) in elim absurd [ ]
]

-- The body is one of digits, and the number is the body and its check digit, of the length.
complete_gtin_lem :
    (body v : String) (n : ℕ)
    → complete_gtin body n ≡ ok v
    → (is_gtin_length n ≡ true)
      × (size body + 1 ≡ n)
      × (is_digits body ≡ true)
      × (body ++ digit_text (check_digit body) ≡ v)
unfolding complete_gtin calculate_check_digit
complete_gtin_lem body v n h =
    let (sized, h1) = raise_if-held (not (is_gtin_length n)) _ _ v h in
    let (fits, h2) = raise_if-held (not (eqb (size body + 1) n)) _ _ v h1 in
    elim (Bool-cases (is_digits body)) [
      | inr bad ↦ let k = rw bad at h2 in cc
      | inl good ↦
          let k : ok (body ++ digit_text (check_digit body)) ≡ ok v = rw good at h2 in
          let same : body ++ digit_text (check_digit body) ≡ v = cc in
          (
            not-false (is_gtin_length n) sized,
            (eqb_iff (size body + 1) n).0 (not-false (eqb (size body + 1) n) fits),
            good,
            same,
          )
    ]

validate_gtin-concat :
    (body : String) (c : Char)
    → is_gtin_length (size body + 1) ≡ true
    → is_digits body ≡ true
    → digit_text (check_digit body) ≡ c ∷ []
    → among digits c ≡ true
    → validate_gtin (body ++ (c ∷ [])) ≡ ok true
unfolding validate_gtin calculate_check_digit
validate_gtin-concat body c sized good check digit =
    let all_digits = all_among-concat digits body c (digits_among body good) digit in
    let filled = not_empty (body ++ (c ∷ [])) (size body) (size-concat body c) in
    rw (filled, all_digits, size-concat body c, sized)
      (rw (last_of-concat body c, without_last-concat body c, good, check)
        (rw (eq_refl (c ∷ [])) refl))

-- A number that `complete_gtin` returns is valid, and a number that differs from it in one place, by another
-- digit, is not.
pub complete_gtin-IsOneOff :
    (body v : String) (n : ℕ)
    → complete_gtin body n ≡ ok v
    → (validate_gtin v ≡ ok true) × ((w : String) → IsOneOff v w → validate_gtin w ≢ ok true)
complete_gtin-IsOneOff body v n h =
    let (sized, fits, good, same) = complete_gtin_lem body v n h in
    let (c, check, digit) = digit_text_lem (check_digit body) (check_digit_bound body) in
    let sized_body = rw (← fits) at sized in
    let valid = validate_gtin-concat body c sized_body good check digit in
    let whole : body ++ (c ∷ []) ≡ v = rw (← check) same in
    let valid_v = subst (λ z. validate_gtin z ≡ ok true) whole valid in
    (valid_v, λ w one. validate_gtin-IsOneOff v w valid_v one)
