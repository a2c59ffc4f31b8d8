-- ===== src/Permissions.antt =====
-- src/twinstudio/permissions.py: which project role may do what.
pub mod Laws
use twinstudio.Base.{
  ℕ, String, Bool, true, false, Option, none, some, List, [], ◌∷◌, any, Result, err, raise_if,
  permission_denied,
}
use twinstudio.Base.Dict.{Dict, get}
use twinstudio.Domain.Roles.{Role, reader, editor, admin, creator, role_eq}

abbrev pub role_order : Role → ℕ
role_order reader = 10
role_order editor = 20
role_order admin = 30
role_order creator = 40

unfoldable pub permissions : Dict (List Role)
permissions =
    ("project.read", reader ∷ editor ∷ admin ∷ creator ∷ [])
    ∷ ("artifact.download", reader ∷ editor ∷ admin ∷ creator ∷ [])
    ∷ ("annotation.create", editor ∷ admin ∷ creator ∷ [])
    ∷ ("change.plan", editor ∷ admin ∷ creator ∷ [])
    ∷ ("change.apply", editor ∷ admin ∷ creator ∷ [])
    ∷ ("artifact.generate", editor ∷ admin ∷ creator ∷ [])
    ∷ ("simulation.run", editor ∷ admin ∷ creator ∷ [])
    ∷ ("approval.grant", admin ∷ creator ∷ [])
    ∷ ("membership.invite", admin ∷ creator ∷ [])
    ∷ ("membership.manage", admin ∷ creator ∷ [])
    ∷ ("project.delete", creator ∷ [])
    ∷ ("creator.transfer", creator ∷ [])
    ∷ []

-- `resolved in PERMISSIONS.get(permission, set())`
abbrev pub allows : Option (List Role) → Role → Bool
allows none role = false
allows (some roles) role = any (role_eq role) roles

-- The callers pass a `Role` or `None`; `None` is refused.
unfoldable pub has_permission : Option Role → String → Bool
unfolding permissions
has_permission none permission = false
has_permission (some role) permission = allows (get permission permissions) role

unfoldable pub require_permission : Option Role → String → Result (Unit {0})
unfolding has_permission
require_permission role permission =
    raise_if (elim (has_permission role permission) [ true ↦ false | false ↦ true ])
      permission_denied
