-- ===== src/Gtin/CheckDigit.antt =====
-- A completed number is valid, and no change of one digit leaves it valid.
use Prim.Native.Char.{Char, code}
use Prim.Native.String.{[], ◌∷◌}
use twinstudio.Base.{
  ℕ, zero, suc, ◌+◌, ◌-◌, ◌*◌, ◌%◌, ◌<◌, ◌≤◌, String, ◌≡◌, ◌≢◌, refl, sym, ap, ◌∙◌, inl, inr, Bool,
  true, false, not, ◌&&◌, arith, Bool-cases, ok, ◌==◌, eq_iff,
}
use twinstudio.Base.Letters.{size, among, all_among, digits, reverse_onto}
use twinstudio.Gtin.{
  is_digits, digit_value, weight, weighted, check_digit, digit_text, calculate_check_digit,
  is_gtin_length, without_last, last_of, is_check_of, validate_gtin,
}

-- whether a place an even number of places before the end of a text has weight 3
turned : String → Bool → Bool
turned [] b = b
turned (c ∷ s) b = not (turned s b)

-- the weighted sum, from the front of the text
front : Bool → String → ℕ
unfolding turned
front b [] = 0
front b (c ∷ s) = digit_value c * weight (turned s b) + front b s

weighted-reverse_onto :
    (b : Bool) (acc s : String)
    → weighted b (reverse_onto acc s) ≡ front b s + weighted (turned s b) acc
unfolding weighted reverse_onto front turned
weighted-reverse_onto b acc [] = omega arith
weighted-reverse_onto b acc (c ∷ s) = weighted-reverse_onto b (c ∷ acc) s ∙ omega arith

turned-not : (s : String) (b : Bool) → turned s (not b) ≡ not (turned s b)
unfolding turned
turned-not [] b = refl
turned-not (c ∷ s) b = ap not (turned-not s b)

turned_last :
    (b : Bool) (c : Char) (s : String) → turned (without_last (c ∷ s)) (not b) ≡ turned (c ∷ s) b
unfolding turned without_last
turned_last b c [] = refl
turned_last b c (d ∷ s) = ap not (turned_last b d s)

front_last :
    (b : Bool) (c : Char) (s : String)
    → front b (c ∷ s) ≡ front (not b) (without_last (c ∷ s)) + front b (last_of (c ∷ s))
unfolding front turned without_last last_of
front_last b c [] = omega arith
front_last b c (d ∷ s) = rw (turned_last b d s, front_last b d s) (omega arith)

digit_value_bound : (c : Char) → among digits c ≡ true → (48 ≤ code c) × (code c < 58)
unfolding among
digit_value_bound c h = ground arith

front-digit_text : (n : ℕ) → n < 10 → front false (digit_text n) ≡ n
unfolding front turned digit_text
front-digit_text zero h = refl
front-digit_text (suc zero) h = refl
front-digit_text (suc (suc zero)) h = refl
front-digit_text (suc (suc (suc zero))) h = refl
front-digit_text (suc (suc (suc (suc zero)))) h = refl
front-digit_text (suc (suc (suc (suc (suc zero))))) h = refl
front-digit_text (suc (suc (suc (suc (suc (suc zero)))))) h = refl
front-digit_text (suc (suc (suc (suc (suc (suc (suc zero))))))) h = refl
front-digit_text (suc (suc (suc (suc (suc (suc (suc (suc zero)))))))) h = refl
front-digit_text (suc (suc (suc (suc (suc (suc (suc (suc (suc zero))))))))) h = refl
front-digit_text (suc (suc (suc (suc (suc (suc (suc (suc (suc (suc n)))))))))) h =
    let absurd : ⊥ = omega (arith, h) in elim absurd [ ]

-- Two texts of digits differ in one place.
pub data IsOneOff : String → String → Type 0 where
  here :
      {c d : Char} {s : String} → code c ≢ code d → among digits d ≡ true → IsOneOff (c ∷ s) (d ∷ s)
  there : {c : Char} {s t : String} → IsOneOff s t → IsOneOff (c ∷ s) (c ∷ t)

first_digit : (a b : Bool) → (a && b) ≡ true → a ≡ true
first_digit true b h = refl
first_digit false b h = cc

later_digits : (a b : Bool) → (a && b) ≡ true → b ≡ true
later_digits true b h = h
later_digits false b h = cc

assoc_right : (x y z : ℕ) → (x + (y + z)) % 10 ≡ 0 → (x + y + z) % 10 ≡ 0
assoc_right x y z h = omega (arith, h)

turned_congruence : (s t : String) (b : Bool) → IsOneOff s t → turned s b ≡ turned t b
unfolding turned
turned_congruence _ _ b (here h k) = refl
turned_congruence _ _ b (there h) = ap not (turned_congruence _ _ b h)

-- a change of one digit, and with it of the weighted sum by one or three times the difference
front_changed :
    (b : Bool) (x : ℕ) (s t : String)
    → all_among digits s ≡ true
    → IsOneOff s t
    → (x + front b s) % 10 ≡ 0
    → (x + front b t) % 10 ≡ 0
    → ⊥
unfolding front all_among
front_changed b x _ _ h (here {c} {d} {s} differ k) m n =
    let old = digit_value_bound c (first_digit (among digits c) (all_among digits s) h) in
    let new = digit_value_bound d k in
    elim (Bool-cases (turned s b)) [
      | inl three ↦
          let m1 = rw three at m in
          let n1 = rw three at n in omega (arith, old, new, differ, m1, n1)
      | inr one ↦
          let m1 = rw one at m in let n1 = rw one at n in omega (arith, old, new, differ, m1, n1)
    ]
front_changed b x _ _ h (there {c} {s} {t} one) m n =
    let y = digit_value c * weight (turned s b) in
    let m1 : (x + y + front b s) % 10 ≡ 0 = assoc_right x y (front b s) m in
    let n0 = rw (← turned_congruence s t b one) at n in
    let n1 : (x + y + front b t) % 10 ≡ 0 = assoc_right x y (front b t) n0 in
    front_changed b (x + y) s t (later_digits (among digits c) (all_among digits s) h) one m1 n1

-- the sum of all digits, from the check digit of the rest
sum_of_check : (total : ℕ) → (total + (10 - total % 10) % 10) % 10 ≡ 0
sum_of_check total = omega arith

check_digit_lem : (body : String) → check_digit body ≡ (10 - front true body % 10) % 10
unfolding check_digit weighted
check_digit_lem body =
    let e = weighted-reverse_onto true "" body in rw e (ap (λ n. (10 - n % 10) % 10) (omega arith))

pub check_digit_bound : (body : String) → check_digit body < 10
check_digit_bound body = let value = check_digit_lem body in omega (arith, value)

last_of_check :
    (last body : String)
    → is_check_of last (calculate_check_digit body) ≡ ok true
    → last ≡ digit_text (check_digit body)
unfolding calculate_check_digit
last_of_check last body h = elim (Bool-cases (is_digits body)) [
  | inr e ↦ let k = rw e at h in cc
  | inl e ↦
      let k : ok (digit_text (check_digit body) == last) ≡ ok true = rw e at h in
      let same : (digit_text (check_digit body) == last) ≡ true = cc in
      sym ((eq_iff (digit_text (check_digit body)) last).0 same)
]

-- A valid number is one of digits, and the weighted sum of all its digits is a multiple of 10.
validate_gtin-sum :
    (v : String)
    → validate_gtin v ≡ ok true
    → (all_among digits v ≡ true) × (front false v % 10 ≡ 0)
unfolding validate_gtin calculate_check_digit
validate_gtin-sum [] h = cc
validate_gtin-sum (c ∷ s) h =
    elim (Bool-cases (is_digits (c ∷ s) && is_gtin_length (size (c ∷ s)))) [
      | inr e ↦ let k = rw e at h in cc
      | inl shaped ↦
          let body = without_last (c ∷ s) in
          let k : is_check_of (last_of (c ∷ s)) (calculate_check_digit body) ≡ ok true =
            rw shaped at h in
          let last = last_of_check (last_of (c ∷ s)) body k in
          let value = check_digit_lem body in
          let small = check_digit_bound body in
          let end_value = front-digit_text (check_digit body) small in
          let parts = front_last false c s in
          (
            later_digits (not ((c ∷ s) == "")) (all_among digits (c ∷ s))
                (first_digit (is_digits (c ∷ s)) (is_gtin_length (size (c ∷ s))) shaped),
            rw (parts, last, end_value, value) (sum_of_check (front true body)),
          )
    ]

-- A number that differs from a valid one in one digit is not valid.
pub validate_gtin-IsOneOff :
    (v w : String) → validate_gtin v ≡ ok true → IsOneOff v w → validate_gtin w ≢ ok true
validate_gtin-IsOneOff v w valid one also_valid =
    let (digits_only, sum) = validate_gtin-sum v valid in
    let (w_digits, w_sum) = validate_gtin-sum w also_valid in
    front_changed false 0 v w digits_only one (omega (arith, sum)) (omega (arith, w_sum))
