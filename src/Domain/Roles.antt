-- ===== src/Domain/Roles.antt =====
-- `Role` of src/twinstudio/domain.py.
use twinstudio.Base.{String, ◌≡◌, refl, Bool, true, false, Option, some, List, [], ◌∷◌, first, ◌==◌}

pub data Role : Type 0 where
  reader editor admin creator : Role

abbrev pub value : Role → String
value reader = "reader"
value editor = "editor"
value admin = "admin"
value creator = "creator"

abbrev pub all_roles : List Role
all_roles = reader ∷ editor ∷ admin ∷ creator ∷ []

-- `Role(text)`; `none` stands for the `ValueError`
unfoldable pub of_value : String → Option Role
of_value text = first (λ r. value r == text) all_roles

abbrev pub role_eq : Role → Role → Bool
role_eq reader reader = true
role_eq editor editor = true
role_eq admin admin = true
role_eq creator creator = true
role_eq _ _ = false

pub of_value-value : (r : Role) → of_value (value r) ≡ some r
unfolding of_value
of_value-value reader = refl
of_value-value editor = refl
of_value-value admin = refl
of_value-value creator = refl
