-- ===== src/Base/Text.antt =====
-- Methods of Python's `str` that the program calls on keys. Texts are ASCII in this model: `lower`
-- maps `A` to `Z` and keeps every other character.
use Prim.Native.Nat.{ℕ, zero, suc}
use Prim.Native.Char.{Char, code}
use Prim.Native.String.{String, [], ◌∷◌}
use mathlib.Core.Bool.{Bool, true, false, not, ◌&&◌, ◌||◌}
use mathlib.Core.Option.{Option, none, some}
use mathlib.Core.List.{List}
use text.Mathlib.Text.{◌==◌}
use twinstudio.Base.Tests.{eqb, if◌then◌else◌}

-- the entry of `to` at the place of `c` in `from`, as `str.translate` does
translate : String → String → Char → Char
translate (f ∷ from) (t ∷ to) c = if eqb (code f) (code c) then t else translate from to c
translate _ _ c = c

-- `s.lower()`
unfoldable pub lower : String → String
unfolding translate
lower [] = []
lower (c ∷ s) = translate "ABCDEFGHIJKLMNOPQRSTUVWXYZ" "abcdefghijklmnopqrstuvwxyz" c ∷ lower s

-- `s.endswith(suffix)`
unfoldable pub ends_with : String → String → Bool
ends_with suffix [] = suffix == ""
ends_with suffix (c ∷ s) = ((c ∷ s) == suffix) || ends_with suffix s

-- the texts of one character that iterating over a text yields
unfoldable pub characters : String → List String
characters [] = List.[]
characters (c ∷ s) = List.◌∷◌ (c ∷ []) (characters s)

-- `s.replace(old, new)` for texts of one character
unfoldable pub replace_character : String → String → String → String
unfolding translate
replace_character old new [] = []
replace_character old new (c ∷ s) = translate old new c ∷ replace_character old new s

abbrev to_lower : Char → Char
to_lower = translate "ABCDEFGHIJKLMNOPQRSTUVWXYZ" "abcdefghijklmnopqrstuvwxyz"

abbrev to_upper : Char → Char
to_upper = translate "abcdefghijklmnopqrstuvwxyz" "ABCDEFGHIJKLMNOPQRSTUVWXYZ"

-- a letter, by its two cases
abbrev is_letter : Char → Bool
is_letter c = not (eqb (code (to_lower c)) (code (to_upper c)))

-- `title`, after a letter or not
titled : Bool → String → String
unfolding translate
titled inside [] = []
titled inside (c ∷ s) = (if inside then to_lower c else to_upper c) ∷ titled (is_letter c) s

-- `s.title()`
unfoldable pub title : String → String
unfolding titled
title s = titled false s

-- `s.startswith(prefix)`
unfoldable pub starts_with : String → String → Bool
starts_with [] s = true
starts_with (p ∷ prefix) [] = false
starts_with (p ∷ prefix) (c ∷ s) = eqb (code p) (code c) && starts_with prefix s

-- `s.split(sep, 1)` for a separator of one character, where it splits
unfoldable pub split_at : String → String → Option (String × String)
split_at sep [] = none
split_at sep (c ∷ s) =
    let rest = split_at sep s in
    if (c ∷ []) == sep
    then some ("", s)
    else elim rest [ none ↦ none | some (before, after) ↦ some (c ∷ before, after) ]

-- `s[n:]`
unfoldable pub skip : ℕ → String → String
skip zero s = s
skip (suc n) [] = []
skip (suc n) (c ∷ s) = skip n s

-- `s[:-2]`
unfoldable pub without_last_two : String → String
without_last_two (a ∷ b ∷ c ∷ s) = a ∷ without_last_two (b ∷ c ∷ s)
without_last_two _ = []
