-- ===== src/Base/Json.antt =====
-- JSON values, as the program stores them in events and payloads (`dict[str, Any]`).
use Prim.Native.Nat.{ℕ, ◌^◌}
use Prim.Native.String.{String}
use mathlib.Core.Bool.{Bool, true, false, not, ◌&&◌}
use mathlib.Core.Option.{Option, none}
use mathlib.Core.List.{List, [], ◌∷◌}
use text.Mathlib.Text.{◌==◌}
use twinstudio.Base.Tests.{eqb}
use twinstudio.Base.Outcome.{Result, ok, err, key_error, type_error, attribute_error, or_raise}
use twinstudio.Base.Dict.{Dict, get, pop, keys}
use twinstudio.Base.Text.{characters}

-- An IEEE double by its 64-bit pattern: the modelled code stores and copies floats, and does no
-- arithmetic on them. The pattern of +0.0 is 0 and that of -0.0 is 2^63.
abbrev pub Float : Type 0
Float = ℕ

-- A Python `int`; `negsuc n` is -(n + 1).
pub data ℤ : Type 0 where
  pos : ℕ → ℤ
  negsuc : ℕ → ℤ

mutual
  pub data Json : Type 0 where
    null : Json
    bool : Bool → Json
    int : ℤ → Json
    float : Float → Json
    str : String → Json
    arr : Items → Json
    obj : Fields → Json

  pub data Items : Type 0 where
    nil : Items
    cons : Json → Items → Items

  pub data Fields : Type 0 where
    end : Fields
    field : String → Json → Fields → Fields

abbrev pub items : Items → List Json
items nil = []
items (cons x xs) = x ∷ items xs

abbrev pub of_items : List Json → Items
of_items [] = nil
of_items (x ∷ xs) = cons x (of_items xs)

abbrev pub fields : Fields → Dict Json
fields end = []
fields (field k v fs) = (k, v) ∷ fields fs

abbrev pub of_fields : Dict Json → Fields
of_fields [] = end
of_fields ((k, v) ∷ d) = field k v (of_fields d)

-- `data[key]`
abbrev pub item : String → Dict Json → Result Json
item k d = or_raise (get k d) (key_error k)

-- A method of `str`, such as `lower`, called on the value.
abbrev pub as_str : Json → Result String
as_str (str s) = ok s
as_str _ = err attribute_error

-- the values that iterating over a text or over the keys of a dict yields
abbrev texts : List String → List Json
texts [] = []
texts (t ∷ ts) = str t ∷ texts ts

-- `for item in value`
unfoldable pub as_list : Json → Result (List Json)
unfolding characters
as_list (arr xs) = ok (items xs)
as_list (str s) = ok (texts (characters s))
as_list (obj fs) = ok (texts (keys (fields fs)))
as_list _ = err type_error

-- `d.get(key)`: no key of the program's dicts is a number, a truth value or `None`, and a list or a
-- dict cannot be hashed.
abbrev pub find {ℓ} : {V : Type ℓ} → Json → Dict V → Result (Option V)
find (str k) d = ok (get k d)
find (arr xs) d = err type_error
find (obj fs) d = err type_error
find _ d = ok none

-- `d.pop(key, None)`
abbrev pub discard {ℓ} : {V : Type ℓ} → Json → Dict V → Result (Dict V)
discard (str k) d = ok (pop k d)
discard (arr xs) d = err type_error
discard (obj fs) d = err type_error
discard _ d = ok d

-- `value[key]`, `value.get(key)` and `dict(value)` on a value that should be a dict
abbrev pub as_dict : Json → Result (Dict Json)
as_dict (obj fs) = ok (fields fs)
as_dict _ = err type_error

-- `bool(value)`
abbrev pub truthy : Json → Bool
truthy null = false
truthy (bool b) = b
truthy (int (pos n)) = not (eqb n 0)
truthy (int (negsuc n)) = true
truthy (float x) = not (eqb x 0) && not (eqb x (2 ^ 63))
truthy (str s) = not (s == "")
truthy (arr nil) = false
truthy (arr (cons x xs)) = true
truthy (obj end) = false
truthy (obj (field k v fs)) = true
