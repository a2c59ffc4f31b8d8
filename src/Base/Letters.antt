-- ===== src/Base/Letters.antt =====
-- Tests on the characters of a text, slices, and numbers as texts. Texts are ASCII in this model.
use Prim.Native.Nat.{ℕ, zero, suc, ◌/◌, ◌%◌}
use Prim.Native.Char.{Char, code}
use Prim.Native.String.{String, [], ◌∷◌, ◌++◌}
use mathlib.Core.Bool.{Bool, true, false, ◌&&◌, ◌||◌}
use mathlib.Core.Option.{Option, none, some}
use mathlib.Core.List.{List}
use text.Mathlib.Text.{◌==◌}
use twinstudio.Base.Tests.{eqb, ltb, if◌then◌else◌}
use twinstudio.Base.Text.{starts_with, skip}

-- `c in s`
unfoldable pub among : String → Char → Bool
among [] c = false
among (d ∷ s) c = eqb (code d) (code c) || among s c

-- whether every character of the text is one of the given ones
unfoldable pub all_among : String → String → Bool
unfolding among
all_among cs [] = true
all_among cs (c ∷ s) = among cs c && all_among cs s

-- `len(s)`
unfoldable pub size : String → ℕ
size [] = 0
size (c ∷ s) = suc (size s)

-- `s[:n]`
unfoldable pub upto : ℕ → String → String
upto zero s = []
upto (suc n) [] = []
upto (suc n) (c ∷ s) = c ∷ upto n s

abbrev pub digits : String
digits = "0123456789"

abbrev pub upper_letters : String
upper_letters = "ABCDEFGHIJKLMNOPQRSTUVWXYZ"

abbrev pub lower_letters : String
lower_letters = "abcdefghijklmnopqrstuvwxyz"

-- `c in s` for texts of which the first has one character
unfoldable pub contains : String → String → Bool
contains c [] = false
contains c (d ∷ s) = ((d ∷ []) == c) || contains c s

-- `c.isalnum()`
unfoldable pub is_alnum : Char → Bool
unfolding among
is_alnum c = among digits c || among upper_letters c || among lower_letters c

-- `s.removeprefix(prefix)`
unfoldable pub remove_prefix : String → String → String
unfolding starts_with size skip
remove_prefix prefix s = if starts_with prefix s then skip (size prefix) s else s

-- `s.lstrip(c)` and `s.strip(c)` for a text of one character
strip_left : String → String → String
strip_left c [] = []
strip_left c (d ∷ s) = let rest = strip_left c s in if (d ∷ []) == c then rest else d ∷ s

unfoldable pub reverse_onto : String → String → String
reverse_onto done [] = done
reverse_onto done (c ∷ s) = reverse_onto (c ∷ done) s

unfoldable pub strip : String → String → String
unfolding strip_left reverse_onto
strip c s = reverse_onto "" (strip_left c (reverse_onto "" (strip_left c s)))

-- the decimal digits of a number, last first, with more fuel than it has digits
unfoldable pub digits_from : ℕ → ℕ → String → String
unfolding upto skip
digits_from zero n done = done
digits_from (suc fuel) n done =
    let more = upto 1 (skip (n % 10) digits) ++ done in
    let rest = digits_from fuel (n / 10) more in if ltb n 10 then more else rest

-- `str(n)`
unfoldable pub decimal : ℕ → String
unfolding digits_from
decimal n = digits_from (suc n) n ""

-- `s.split(sep)` for a separator of one character
unfoldable pub split : String → String → List String
split sep [] = List.◌∷◌ "" List.[]
split sep (c ∷ s) =
    let rest = split sep s in
    if (c ∷ []) == sep
    then List.◌∷◌ "" rest
    else elim rest [ List.[] ↦ List.[] | List.◌∷◌ part parts ↦ List.◌∷◌ (c ∷ part) parts ]

-- `s.rsplit(sep, 1)` for a separator of one character, where it splits
unfoldable pub rsplit_at : String → String → Option (String × String)
rsplit_at sep [] = none
rsplit_at sep (c ∷ s) = elim (rsplit_at sep s) [
  | some (before, after) ↦ some (c ∷ before, after)
  | none ↦ if (c ∷ []) == sep then some ("", s) else none
]

-- `s.find(part)`, where it is found
unfoldable pub find_text : String → String → Option ℕ
unfolding starts_with
find_text part [] = if part == "" then some 0 else none
find_text part (c ∷ s) =
    let rest = find_text part s in
    if starts_with part (c ∷ s) then some 0 else elim rest [ none ↦ none | some n ↦ some (suc n) ]

-- `part in s`
unfoldable pub has_text : String → String → Bool
unfolding find_text
has_text part s = elim (find_text part s) [ none ↦ false | some n ↦ true ]
