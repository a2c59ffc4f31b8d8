-- ===== src/Permissions/Laws.antt =====
-- The roles of src/twinstudio/permissions.py are ordered: what a role may do, every higher role may.
use twinstudio.Base.{String, ◌≡◌, ◌≤◌, true, some, List, [], ◌∷◌, arith, Bool-cases, inl, inr, ◌==◌}
use twinstudio.Base.Dict.{Dict, get}
use twinstudio.Domain.Roles.{Role, reader, editor, admin, creator}
use twinstudio.Permissions.{role_order, permissions, allows, has_permission}

-- A set of roles that holds, with a role, the roles above it.
record IsUpward (roles : List Role) : Type 0 where
  up :
      (r s : Role)
      → role_order r ≤ role_order s
      → allows (some roles) r ≡ true
      → allows (some roles) s ≡ true

everyone-IsUpward : IsUpward (reader ∷ editor ∷ admin ∷ creator ∷ [])
everyone-IsUpward = record { up = λ r s h a. ground arith }

editors-IsUpward : IsUpward (editor ∷ admin ∷ creator ∷ [])
editors-IsUpward = record { up = λ r s h a. ground arith }

admins-IsUpward : IsUpward (admin ∷ creator ∷ [])
admins-IsUpward = record { up = λ r s h a. ground arith }

creators-IsUpward : IsUpward (creator ∷ [])
creators-IsUpward = record { up = λ r s h a. ground arith }

AllUpward : Dict (List Role) → Type 0
AllUpward [] = Unit
AllUpward ((k, roles) ∷ d) = IsUpward roles × AllUpward d

permissions-AllUpward : AllUpward permissions
unfolding AllUpward permissions
permissions-AllUpward =
    search (everyone-IsUpward, editors-IsUpward, admins-IsUpward, creators-IsUpward) depth 20

get-AllUpward :
    (d : Dict (List Role)) (k : String) (r s : Role)
    → AllUpward d
    → role_order r ≤ role_order s
    → allows (get k d) r ≡ true
    → allows (get k d) s ≡ true
unfolding AllUpward
get-AllUpward [] k r s m h a = cc
get-AllUpward ((j, roles) ∷ d) k r s m h a = elim (Bool-cases (j == k)) [
  | inl e ↦ rw e (m.0.up r s h (rw e at a))
  | inr e ↦ rw e (get-AllUpward d k r s m.1 h (rw e at a))
]

-- What a role may do, every role of the same or a higher `ROLE_ORDER` may do, for every permission
-- text.
pub has_permission_mono :
    (r s : Role) (permission : String)
    → role_order r ≤ role_order s
    → has_permission (some r) permission ≡ true
    → has_permission (some s) permission ≡ true
unfolding has_permission
has_permission_mono r s permission h a =
    get-AllUpward permissions permission r s permissions-AllUpward h a
