-- ===== src/Gtin.antt =====
-- src/twinstudio/gtin.py: the GS1 check digit of trade numbers.
pub mod CheckDigit
pub mod Completion
use Prim.Native.Char.{Char, code}
use Prim.Native.String.{[], ◌∷◌, ◌++◌}
use twinstudio.Base.{
  ℕ, ◌+◌, ◌-◌, ◌*◌, ◌%◌, String, Bool, true, false, not, ◌&&◌, ◌||◌, Result, ok, err, ◌>>=◌, ◌>>◌,
  raise_if, value_error, eqb, ◌==◌, if◌then◌else◌,
}
use twinstudio.Base.Text.{skip}
use twinstudio.Base.Letters.{size, upto, all_among, digits, reverse_onto}

-- `body.isdigit()`
abbrev pub is_digits : String → Bool
is_digits s = not (s == "") && all_among digits s

-- `int(digit)`
abbrev pub digit_value : Char → ℕ
digit_value c = code c - 48

abbrev pub weight : Bool → ℕ
weight true = 3
weight false = 1

-- the sum over the reversed body, from a place with weight 3 or not
unfoldable pub weighted : Bool → String → ℕ
weighted triple [] = 0
weighted triple (c ∷ s) = digit_value c * weight triple + weighted (not triple) s

-- the check digit of a body of digits
unfoldable pub check_digit : String → ℕ
unfolding weighted reverse_onto
check_digit body = (10 - weighted true (reverse_onto "" body) % 10) % 10

-- `str` of a number below 10
abbrev pub digit_text : ℕ → String
unfolding upto skip
digit_text n = upto 1 (skip n digits)

unfoldable pub calculate_check_digit : String → Result String
unfolding all_among check_digit upto skip
calculate_check_digit body = do
  raise_if (not (is_digits body)) (value_error "GTIN body must contain digits only")
  ok (digit_text (check_digit body))

-- `n in {8, 12, 13, 14}`
abbrev pub is_gtin_length : ℕ → Bool
is_gtin_length n = eqb n 8 || eqb n 12 || eqb n 13 || eqb n 14

unfoldable pub complete_gtin : String → ℕ → Result String
unfolding calculate_check_digit size
complete_gtin body total_length = do
  raise_if (not (is_gtin_length total_length)) (value_error "GTIN length must be 8, 12, 13, or 14")
  raise_if (not (eqb (size body + 1) total_length))
      (value_error "Expected another number of body digits")
  check ← calculate_check_digit body
  ok (body ++ check)

-- `value[:-1]` and `value[-1]`
unfoldable pub without_last : String → String
without_last [] = []
without_last (c ∷ []) = []
without_last (c ∷ d ∷ s) = c ∷ without_last (d ∷ s)

unfoldable pub last_of : String → String
last_of [] = []
last_of (c ∷ []) = c ∷ []
last_of (c ∷ d ∷ s) = last_of (d ∷ s)

-- `calculate_check_digit(body) == last`
abbrev pub is_check_of : String → Result String → Result Bool
is_check_of last (ok check) = ok (check == last)
is_check_of last (err e) = err e

unfoldable pub validate_gtin : String → Result Bool
unfolding all_among size calculate_check_digit without_last last_of
validate_gtin value =
    if is_digits value && is_gtin_length (size value)
    then is_check_of (last_of value) (calculate_check_digit (without_last value))
    else ok false
