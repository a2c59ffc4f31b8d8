-- ===== src/Examples/Canonical.antt =====
-- A way to write JSON, for the theorems on the history of EDA artifacts: each text is shown so that its end is seen.
use Prim.Native.String.{String, [], ◌∷◌}
use text.Mathlib.TextLemmas.{head-eq_of_cons-eq, tail-eq_of_cons-eq}
use mathlib.Core.Path.{ap₂}
use twinstudio.Base.{◌≡◌, refl, true, false}
use twinstudio.Base.Letters.{decimal}
use twinstudio.Base.Json.{
  Json, null, bool, int, float, str, arr, obj, pos, negsuc, Items, nil, cons, Fields, end, field,
}

-- a text between its marks, before another text
abbrev pub marked : String → String → String
marked [] rest = "|" ∷ rest
marked (c ∷ s) rest = "-" ∷ c ∷ marked s rest

-- what a dict holds, in order, before another text
unfoldable mutual
  pub shown : Json → String → String
  shown null rest = "n" ∷ rest
  shown (bool true) rest = "t" ∷ rest
  shown (bool false) rest = "f" ∷ rest
  shown (int (pos n)) rest = "i" ∷ marked (decimal n) rest
  shown (int (negsuc n)) rest = "m" ∷ marked (decimal n) rest
  shown (float x) rest = "d" ∷ marked (decimal x) rest
  shown (str s) rest = "s" ∷ marked s rest
  shown (arr xs) rest = "[" ∷ shown_items xs ("]" ∷ rest)
  shown (obj fs) rest = "{" ∷ shown_fields fs ("}" ∷ rest)

  pub shown_items : Items → String → String
  shown_items nil rest = rest
  shown_items (cons x xs) rest = shown x (shown_items xs rest)

  pub shown_fields : Fields → String → String
  shown_fields end rest = rest
  shown_fields (field k v fs) rest = marked k (shown v (shown_fields fs rest))

pub marked_inj : (p q x y : String) → marked p x ≡ marked q y → p ≡ q
marked_inj [] [] x y h = refl
marked_inj [] (c ∷ q) x y h = cc
marked_inj (c ∷ p) [] x y h = cc
marked_inj (c ∷ p) (b ∷ q) x y h =
    let inner = tail-eq_of_cons-eq h in
    let same : c ≡ b = head-eq_of_cons-eq inner in
    ap₂ ◌∷◌ same (marked_inj p q x y (tail-eq_of_cons-eq inner))
